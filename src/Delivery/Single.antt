-- ===== src/Delivery/Single.antt =====
-- backend/app/services/token_delivery.py: a held token is collected once and in time.
use text.Mathlib.Text.{◌==◌ as str_eq}
use mathlib.Core.Path.{subst}
use proof_ops.Common.{
  ℕ, zero, suc, ◌+◌, ◌-◌, ◌≤◌, String, Bool, true, false, ◌≡◌, refl, ap, Option, none, some, [],
  ◌∷◌, length, ltb, if◌then◌else◌, arith, eq_iff,
}
use proof_ops.Queue.Entry.{find, put}
use proof_ops.Delivery.Hold.{
  Held, Pending, read_ttl, max_pending, pop, oldest_first, pop_first, hold_for_scoped_view, is_past,
  expire_held, peek_scoped_view, token_in, claim_scoped_view, pending_count,
}

-- A call that does not hold a token for `id`.
pub data Use (id : String) (s : Pending) : Pending → Type 0 where
  held :
      (now : ℕ) (j token : String)
      → str_eq j id ≡ false
      → Use id s (hold_for_scoped_view now j token s)
  peeked : (now : ℕ) (j : String) → Use id s (peek_scoped_view now j s).1
  claimed : (now : ℕ) (j : String) → Use id s (claim_scoped_view now j s).1
  counted : (now : ℕ) → Use id s (pending_count now s).1

pub data Uses (id : String) (s : Pending) : Pending → Type 0 where
  begin : Uses id s s
  then_use : {t u : Pending} → Uses id s t → Use id t u → Uses id s u

pop-gone : (k : String) (s : Pending) → find k (pop k s) ≡ none
unfolding pop find
pop-gone k [] = refl
pop-gone k ((j, v) ∷ rest) = ground (arith, pop-gone k rest)

pop-absent : (k j : String) (s : Pending) → find k s ≡ none → find k (pop j s) ≡ none
unfolding pop find
pop-absent k j [] h = refl
pop-absent k j ((i, v) ∷ rest) h = ground (arith, pop-absent k j rest, h)

expire-absent :
    (now : ℕ) (k : String) (s : Pending) → find k s ≡ none → find k (expire_held now s) ≡ none
unfolding expire_held find
expire-absent now k [] h = refl
expire-absent now k ((i, v) ∷ rest) h = ground (arith, expire-absent now k rest, h)

pop_first-absent :
    (n : ℕ) (k : String) (oldest s : Pending)
    → find k s ≡ none
    → find k (pop_first n oldest s) ≡ none
unfolding pop_first
pop_first-absent zero k oldest s h = h
pop_first-absent (suc n) k [] s h = h
pop_first-absent (suc n) k (e ∷ oldest) s h =
    pop_first-absent n k oldest (pop e.0 s) (pop-absent k e.0 s h)

put-absent :
    (k j : String) (v : Held) (s : Pending)
    → str_eq j k ≡ false
    → find k s ≡ none
    → find k (put j v s) ≡ none
unfolding find put
put-absent k j v [] n h = ground arith
put-absent k j v ((i, w) ∷ rest) n h =
    ground (arith, put-absent k j v rest n, eq_iff i j, eq_iff j k, eq_iff i k, h)

Use-absent : (id : String) {s t : Pending} → Use id s t → find id s ≡ none → find id t ≡ none
unfolding hold_for_scoped_view peek_scoped_view claim_scoped_view pending_count
Use-absent id {s} (held now j token n) h = go (ltb max_pending (length s'))
  where
    s' : Pending
    s' = put j (record { token = token; minted_at = now }) s

    gone : find id s' ≡ none
    gone = put-absent id j (record { token = token; minted_at = now }) s n h

    go :
        (b : Bool)
        → find id (if b then pop_first (length s' - max_pending) (oldest_first s') s' else s')
          ≡ none
    go true = pop_first-absent (length s' - max_pending) id (oldest_first s') s' gone
    go false = gone
Use-absent id {s} (peeked now j) h = expire-absent now id s h
Use-absent id {s} (claimed now j) h = pop-absent id j (expire_held now s) (expire-absent now id s h)
Use-absent id {s} (counted now) h = expire-absent now id s h

Uses-absent : (id : String) {s t : Pending} → Uses id s t → find id s ≡ none → find id t ≡ none
Uses-absent id begin h = h
Uses-absent id (then_use us u) h = Use-absent id u (Uses-absent id us h)

claimed-gone : (now : ℕ) (id : String) (s : Pending) → find id (claim_scoped_view now id s).1 ≡ none
unfolding claim_scoped_view
claimed-gone now id s = pop-gone id (expire_held now s)

-- A token is collected at most once: after a claim, whatever it returned, and any calls that hold no
-- token for the same id, a claim for it returns none.
pub claim_once :
    (now now' : ℕ) (id : String) (s : Pending) {t : Pending}
    → Uses id (claim_scoped_view now id s).1 t
    → (claim_scoped_view now' id t).0 ≡ none
unfolding claim_scoped_view
claim_once now now' id s {t} us =
    ap token_in (expire-absent now' id t (Uses-absent id us (claimed-gone now id s)))

-- An entry stands in the dict.
pub data Listed (id : String) (v : Held) : Pending → Type 0 where
  first : {rest : Pending} → Listed id v ((id, v) ∷ rest)
  further : {e : String × Held} {rest : Pending} → Listed id v rest → Listed id v (e ∷ rest)

-- What a claim returned was held for the id, and is not older than its time to live.
pub record IsFresh (now : ℕ) (id token : String) (s : Pending) : Type 0 where
  pub entry : Held
  pub stood : Listed id entry s
  pub same_token : entry.token ≡ token
  pub in_time : now ≤ entry.minted_at + read_ttl

expire-Listed :
    (now : ℕ) (id : String) (s : Pending) {v : Held}
    → find id (expire_held now s) ≡ some v
    → Listed id v s × (is_past now v ≡ false)
unfolding expire_held find
expire-Listed now id [] h = cc
expire-Listed now id ((j, w) ∷ rest) {v} h =
    go (is_past now w) refl (str_eq j id) refl h (λ x. expire-Listed now id rest x)
  where
    go :
        (b : Bool)
        → is_past now w ≡ b
        → (d : Bool) → str_eq j id ≡ d
        → find id (if b then expire_held now rest else (j, w) ∷ expire_held now rest) ≡ some v
        → (find id (expire_held now rest) ≡ some v → Listed id v rest × (is_past now v ≡ false))
        → Listed id v ((j, w) ∷ rest) × (is_past now v ≡ false)
    go true p d q x r = let y = r x in (further y.0, y.1)
    go false p true q x r = (
      subst (λ k. Listed k v ((j, w) ∷ rest)) j_id
          (subst (λ u. Listed j u ((j, w) ∷ rest)) w_v first),
      subst (λ u. is_past now u ≡ false) w_v p,
    )
      where
        j_id : j ≡ id
        j_id = ground (arith, eq_iff j id, q)

        w_v : w ≡ v
        w_v = ground (arith, x, q)
    go false p false q x r = let y = r (ground (arith, x, q)) in (further y.0, y.1)

-- What a claim returns is a token that was held for the id not more than 120 seconds before.
pub claim-IsFresh :
    (now : ℕ) (id : String) (s : Pending) {token : String}
    → (claim_scoped_view now id s).0 ≡ some token
    → IsFresh now id token s
unfolding claim_scoped_view
claim-IsFresh now id s {token} h = go (find id (expire_held now s)) refl h
  where
    go :
        (o : Option Held)
        → find id (expire_held now s) ≡ o
        → token_in o ≡ some token
        → IsFresh now id token s
    go none e x = cc
    go (some v) e x =
        let y = expire-Listed now id s e in
        record {
          entry = v;
          stood = y.0;
          same_token = ground (arith, x);
          in_time = ground (arith, y.1);
        }
