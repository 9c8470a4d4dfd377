-- ===== src/Common/Text.antt =====
-- Python's `str` methods that the code relies on.
use Prim.Native.Nat.{ℕ, zero, suc}
use Prim.Native.Char.{code}
use Prim.Native.String.{String, count}
use mathlib.Core.Bool.{Bool, true, false, ◌||◌, ◌&&◌}
use proof_ops.Common.Tests.{leb, ◌==◌}

-- `str.isspace` of one character: the code points that `str.strip` removes.
pub is_space : ℕ → Bool
is_space c =
    leb 9 c && leb c 13
    || leb 28 c && leb c 32
    || c == 133
    || c == 160
    || c == 5760
    || leb 8192 c && leb c 8202
    || c == 8232
    || c == 8233
    || c == 8239
    || c == 8287
    || c == 12288

-- `not s.strip()`: nothing but white space.
unfoldable pub is_blank : String → Bool
unfolding is_space
is_blank String.[] = true
is_blank (String.◌∷◌ c s) = is_space (code c) && is_blank s

-- `value[:n]`
unfoldable pub take_chars : ℕ → String → String
take_chars zero s = ""
take_chars (suc n) String.[] = ""
take_chars (suc n) (String.◌∷◌ c s) = String.◌∷◌ c (take_chars n s)

-- The number of code points is kept below a bound.
abbrev pub fits_in : ℕ → String → Bool
fits_in n s = leb (count s) n

starts_spaced : String → Bool
unfolding is_space
starts_spaced String.[] = false
starts_spaced (String.◌∷◌ c s) = is_space (code c)

ends_spaced : Bool → String → Bool
unfolding is_space
ends_spaced last String.[] = last
ends_spaced last (String.◌∷◌ c s) = ends_spaced (is_space (code c)) s

-- `s != s.strip()` for a text that is not blank.
unfoldable pub is_padded : String → Bool
unfolding starts_spaced ends_spaced
is_padded s = starts_spaced s || ends_spaced false s

-- Every character satisfies a test.
unfoldable pub every : (ℕ → Bool) → String → Bool
every p String.[] = true
every p (String.◌∷◌ c s) = p (code c) && every p s

-- `str.rstrip` and `str.strip`
abbrev dropped_end : Bool → String → String
dropped_end true s = String.[]
dropped_end false s = s

unfoldable pub without_end : String → String
without_end String.[] = String.[]
without_end (String.◌∷◌ c s) =
    dropped_end (is_blank (String.◌∷◌ c s)) (String.◌∷◌ c (without_end s))

unfoldable pub strip : String → String
unfolding without_end is_space
strip String.[] = String.[]
strip (String.◌∷◌ c s) = elim (is_space (code c)) [
  | true ↦ strip s
  | false ↦ without_end (String.◌∷◌ c s)
]
