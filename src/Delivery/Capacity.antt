-- ===== src/Delivery/Capacity.antt =====
-- backend/app/services/token_delivery.py: few tokens are held.
use mathlib.Core.Path.{subst}
use proof_ops.Common.{
  ℕ, ◌+◌, ◌-◌, ◌≤◌, String, ◌≡◌, refl, ap, [], ◌∷◌, length, leb, ltb, Bool-cases, ◌⊎◌, inl, inr,
  arith, eq_iff,
}
use proof_ops.Queue.Entry.{put}
use proof_ops.Delivery.Hold.{
  Held, Pending, max_pending, pop, insert_by_age, oldest_first, pop_first, hold_for_scoped_view,
}
use proof_ops.Delivery.Single.{Listed, first, further}

put-length : (j : String) (v : Held) (s : Pending) → length (put j v s) ≤ length s + 1
unfolding put
put-length j v [] = omega arith
put-length j v ((i, w) ∷ rest) = ground (arith, put-length j v rest)

pop-length : (k : String) (s : Pending) → length (pop k s) ≤ length s
unfolding pop
pop-length k [] = omega arith
pop-length k ((i, w) ∷ rest) = ground (arith, pop-length k rest)

pop-Listed : (k : String) {v : Held} (s : Pending) → Listed k v s → length (pop k s) + 1 ≤ length s
unfolding pop
pop-Listed k [] l = elim l [ ]
pop-Listed k ((j, v) ∷ rest) first = ground (arith, eq_iff k k, pop-length k rest)
pop-Listed k ((j, w) ∷ rest) (further l) = ground (arith, pop-Listed k rest l)

-- The oldest entry.
record Oldest (l s : Pending) : Type 0 where
  head : String × Held
  tail : Pending
  split : l ≡ head ∷ tail
  listed : Listed head.0 head.1 s

insert-Oldest :
    (e : String × Held) (l s : Pending) → (l ≡ []) ⊎ Oldest l s → Oldest (insert_by_age e l) (e ∷ s)
insert-Oldest e [] s h = record { head = e; tail = []; split = refl; listed = first }
insert-Oldest e (f ∷ l) s h = elim (Bool-cases (leb e.1.minted_at f.1.minted_at)) [
  | inl b ↦ record { head = e; tail = f ∷ l; split = rw b refl; listed = first }
  | inr b ↦ record {
    head = f;
    tail = insert_by_age e l;
    split = rw b refl;
    listed = further (stood h);
  }
]
  where
    stood : ((f ∷ l) ≡ []) ⊎ Oldest (f ∷ l) s → Listed f.0 f.1 s
    stood (inl x) = cc
    stood (inr o) =
        subst (λ (x : String × Held). Listed x.0 x.1 s) (ground (arith, o.split)) o.listed

oldest_first-Oldest : (s : Pending) → (s ≡ []) ⊎ Oldest (oldest_first s) s
unfolding oldest_first
oldest_first-Oldest [] = inl refl
oldest_first-Oldest (e ∷ rest) =
    inr (insert-Oldest e (oldest_first rest) rest (none_or (oldest_first-Oldest rest)))
  where
    none_or :
        (rest ≡ []) ⊎ Oldest (oldest_first rest) rest
        → (oldest_first rest ≡ []) ⊎ Oldest (oldest_first rest) rest
    none_or (inl x) = inl (ap oldest_first x)
    none_or (inr o) = inr o

-- Never more than 64 tokens are held.
pub hold-bounded :
    (now : ℕ) (id token : String) (s : Pending)
    → length s ≤ max_pending
    → length (hold_for_scoped_view now id token s) ≤ max_pending
unfolding hold_for_scoped_view pop_first
hold-bounded now id token s h = elim (Bool-cases (ltb max_pending (length s'))) [
  | inl b ↦ rw b (
      one_over (oldest_first-Oldest s')
        (ground (arith, b, put-length id (record { token = token; minted_at = now }) s, h)))
  | inr b ↦ rw b (ground (arith, b))
]
  where
    s' : Pending
    s' = put id (record { token = token; minted_at = now }) s

    one_over :
        (s' ≡ []) ⊎ Oldest (oldest_first s') s'
        → length s' ≡ 65
        → length (pop_first (length s' - max_pending) (oldest_first s') s') ≤ max_pending
    one_over (inl x) k = ground (arith, ap length x, k)
    one_over (inr o) k = rw k (rw o.split (omega (arith, pop-Listed o.head.0 s' o.listed, k)))
