-- ===== src/Execution/Numbers.antt =====
-- The numbers of the sandbox: Python's floats as a type with the operations that the code applies,
-- and its integers.
use proof_ops.Common.{ℕ, String, Bool, true, false, Option, none, some, ◌==◌, ltb}
use proof_ops.Contracts.Value.{Value, null, flag, num, other, str, sequence, mapping}

-- `raised` is `x * 1.2` and `halved` is `round(x * 0.5, 4)`; the constants are those of the code.
pub record Floats (F : Type 0) : Type 0 where
  pub lt : F → F → Bool
  pub same : F → F → Bool
  pub raised : F → F
  pub halved : F → F
  pub nought : F
  pub one_hundredth : F
  pub rolled_back_rate : F
  pub float : Value → Option F

-- `negsuc n` is -(n + 1).
pub data ℤ : Type 0 where
  pos : ℕ → ℤ
  negsuc : ℕ → ℤ

abbrev pub ℤ_eq : ℤ → ℤ → Bool
ℤ_eq (pos m) (pos n) = m == n
ℤ_eq (negsuc m) (negsuc n) = m == n
ℤ_eq _ _ = false

-- `n > 0`
abbrev pub is_positive : ℤ → Bool
is_positive (pos n) = ltb 0 n
is_positive (negsuc n) = false

-- What Python makes of a value: `int` of a text and of a scalar that is neither text nor natural
-- number, each of which may raise, and `str` of a value that is no text.
pub record Casts : Type 0 where
  pub int_of_text : String → Option ℤ
  pub int_of_other : String → Option ℤ
  pub repr : Value → String

module _ (casts : Casts) where
  -- `int(v)`
  abbrev pub int : Value → Option ℤ
  int null = none
  int (flag false) = some (pos 0)
  int (flag true) = some (pos 1)
  int (num n) = some (pos n)
  int (other s _) = casts.int_of_other s
  int (str s) = casts.int_of_text s
  int (sequence _) = none
  int (mapping _) = none

  -- `str(v)`
  abbrev pub str_of : Value → String
  str_of (str s) = s
  str_of v = casts.repr v
