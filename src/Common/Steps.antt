-- ===== src/Common/Steps.antt =====
-- Reasoning about a method that may raise: what holds after it, with a value or with an exception.
use mathlib.Core.Path.{◌≡◌, refl}
use proof_ops.Common.Effects.{Result, ok, err, Exec, continue}

module _ {S E A B : Type 0} where
  -- One step after another; unlike the bind of Effects it stays closed.
  infixl 10 ◌>>=◌ ◌>>◌
  unfoldable pub ◌>>=◌ : Exec S E A → (A → Exec S E B) → Exec S E B
  ◌>>=◌ m f d = continue (m d).0 f (m d).1

  abbrev pub ◌>>◌ : Exec S E A → Exec S E B → Exec S E B
  m >> n = m >>= λ _. n

-- `K` of what an exception leaves, `Q` of a value and what it leaves.
pub data Meets {S E A : Type 0} (K : S → Type 0) (Q : A → S → Type 0)
    : Result E A × S → Type 0 where
  went : {a : A} {d : S} → Q a d → Meets K Q (ok a, d)
  stopped : {e : E} {d : S} → K d → Meets K Q (err e, d)

module _ {S E A : Type 0} {K : S → Type 0} {Q : A → S → Type 0} where
  module _ {B : Type 0} {R : B → S → Type 0} where
    Meets-continue :
        {r : Result E A × S} (f : A → Exec S E B)
        → Meets K Q r
        → ((a : A) (d : S) → Q a d → Meets K R (f a d))
        → Meets K R (continue r.0 f r.1)
    Meets-continue f (went {a} {d} q) k = k a d q
    Meets-continue f (stopped e) k = stopped e

    pub and_then :
        (m : Exec S E A) {f : A → Exec S E B} {d : S}
        → Meets K Q (m d)
        → ((a : A) (d : S) → Q a d → Meets K R (f a d))
        → Meets K R ((m >>= f) d)
    unfolding ◌>>=◌
    and_then m {f} h k = Meets-continue f h k

  pub Meets-weaken :
      {K' : S → Type 0} {Q' : A → S → Type 0} {r : Result E A × S}
      → Meets K Q r
      → ((d : S) → K d → K' d)
      → ((a : A) (d : S) → Q a d → Q' a d)
      → Meets K' Q' r
  Meets-weaken (went {a} {d} q) k k' = went (k' a d q)
  Meets-weaken (stopped {e} {d} q) k k' = stopped (k d q)

module _ {S E A : Type 0} {K : S → Type 0} where
  pub settled : {r : Result E A × S} → Meets K (λ (a : A) d. K d) r → K r.1
  settled (went k) = k
  settled (stopped k) = k

  pub kept : (r : Result E A × S) → K r.1 → Meets K (λ a d. K d) r
  kept (ok a, d) k = went k
  kept (err x, d) k = stopped k

module _ {S E A : Type 0} {K : S → Type 0} {Q : A → S → Type 0} where
  -- What is left is what the method leaves.
  pub traced : {r : Result E A × S} → Meets K Q r → Meets K (λ a d. Q a d × (d ≡ r.1)) r
  traced (went q) = went (q, refl)
  traced (stopped k) = stopped k

  -- What is known in two ways.
  pub both :
      {K' : S → Type 0} {Q' : A → S → Type 0} {r : Result E A × S}
      → Meets K Q r
      → Meets K' Q' r
      → Meets K (λ a d. Q a d × Q' a d) r
  both (went q) (went q') = went (q, q')
  both (stopped k) (stopped k') = stopped k
