-- ===== src/Delivery/Hold.antt =====
-- backend/app/services/token_delivery.py: the tokens that wait in memory to be collected. Times are
-- seconds.
use text.Mathlib.Text.{◌==◌ as str_eq}
use proof_ops.Common.{
  ℕ, zero, suc, ◌+◌, ◌-◌, String, Bool, Option, none, some, List, [], ◌∷◌, length, leb, ltb,
  is_some, if◌then◌else◌,
}
use proof_ops.Queue.Entry.{find, put}

-- A value of `_PENDING`.
pub record Held : Type 0 where
  pub token : String
  pub minted_at : ℕ

abbrev pub Pending : Type 0
Pending = List (String × Held)

-- _SCOPED_VIEW_READ_TTL_SECONDS and _MAX_PENDING
abbrev pub read_ttl : ℕ
read_ttl = 120

abbrev pub max_pending : ℕ
max_pending = 64

-- `_PENDING.pop(key, None)`
unfoldable pub pop : String → Pending → Pending
pop k [] = []
pop k ((j, v) ∷ rest) = let others = pop k rest in if str_eq j k then others else (j, v) ∷ others

-- `sorted(..., key=lambda kv: kv[1]["minted_at"])`, which is stable.
abbrev pub insert_by_age : (String × Held) → Pending → Pending
insert_by_age e [] = e ∷ []
insert_by_age e (f ∷ rest) =
    let others = insert_by_age e rest in
    if leb e.1.minted_at f.1.minted_at then e ∷ f ∷ rest else f ∷ others

unfoldable pub oldest_first : Pending → Pending
oldest_first [] = []
oldest_first (e ∷ rest) = insert_by_age e (oldest_first rest)

-- `for key, _ in oldest[:n]: _PENDING.pop(key, None)`
unfoldable pub pop_first : ℕ → Pending → Pending → Pending
unfolding pop
pop_first zero oldest s = s
pop_first (suc n) [] s = s
pop_first (suc n) (e ∷ oldest) s = pop_first n oldest (pop e.0 s)

-- `hold_for_scoped_view`
unfoldable pub hold_for_scoped_view : ℕ → String → String → Pending → Pending
unfolding pop_first oldest_first
hold_for_scoped_view now id token s =
    let s' = put id (record { token = token; minted_at = now }) s in
    if ltb max_pending (length s')
    then pop_first (length s' - max_pending) (oldest_first s') s'
    else s'

-- `v["minted_at"] < time.time() - ttl`
abbrev pub is_past : ℕ → Held → Bool
is_past now v = ltb (v.minted_at + read_ttl) now

-- `_expire`
unfoldable pub expire_held : ℕ → Pending → Pending
expire_held now [] = []
expire_held now ((k, v) ∷ rest) =
    let others = expire_held now rest in if is_past now v then others else (k, v) ∷ others

-- `peek_scoped_view`
unfoldable pub peek_scoped_view : ℕ → String → Pending → Bool × Pending
unfolding expire_held
peek_scoped_view now id s = let s' = expire_held now s in (is_some (find id s'), s')

abbrev pub token_in : Option Held → Option String
token_in none = none
token_in (some v) = some v.token

-- `claim_scoped_view`
unfoldable pub claim_scoped_view : ℕ → String → Pending → Option String × Pending
unfolding expire_held pop
claim_scoped_view now id s = let s' = expire_held now s in (token_in (find id s'), pop id s')

-- `pending_count`
unfoldable pub pending_count : ℕ → Pending → ℕ × Pending
unfolding expire_held
pending_count now s = let s' = expire_held now s in (length s', s')
