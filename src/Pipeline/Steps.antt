-- ===== src/Pipeline/Steps.antt =====
-- Reasoning about steps of the conductor: what holds after a step, with a value or with an exception.
use proof_ops.Common.{sym, ◌≡◌, List, [], ◌∷◌, ◌++◌, arith, Result, ok, err}
use proof_ops.Contracts.Vocabulary.{Action}
use mathlib.Core.Path.{subst}
use proof_ops.Common.{String}
use proof_ops.Audit.Event.{Snapshot}
use proof_ops.Common.Steps.{Meets, went, stopped, Meets-weaken}
use proof_ops.Pipeline.Desk.{Stop, Desk, Services, note, record_run}

-- Every entry of a list has a property.
pub data Every {A : Type 0} (P : A → Type 0) : List A → Type 0 where
  nobody : Every P []
  also : {x : A} {xs : List A} → P x → Every P xs → Every P (x ∷ xs)

module _ {A : Type 0} {P : A → Type 0} where
  pub Every-last : {x : A} {xs : List A} → Every P xs → P x → Every P (xs ++ x ∷ [])
  Every-last nobody h = also h nobody
  Every-last (also g gs) h = also g (Every-last gs h)

module _ {F : Type 0} where
  module _ {A : Type 0} where
    -- A result after which the executor was called with `l`.
    abbrev pub Same : List Action → Result Stop A × Desk F → Type 0
    Same l = Meets (λ d. d.acted ≡ l) (λ a d. d.acted ≡ l)

    pub same : (r : Result Stop A × Desk F) {l : List Action} → r.1.acted ≡ l → Same l r
    same (ok a, d) e = went e
    same (err x, d) e = stopped e

    -- What holds of the calls, and is kept.
    pub Same-Meets :
        {K E : List Action → Type 0} {r : Result Stop A × Desk F} {l : List Action}
        → Same l r
        → ((l : List Action) → K l → E l)
        → K l
        → Meets (λ d. E d.acted) (λ a d. K d.acted) r
    Same-Meets {K = K} {E = E} h weaken k =
        Meets-weaken h (λ d e. weaken d.acted (subst K (sym e) k)) (λ a d e. subst K (sym e) k)

  module _ (services : Services F) where
    pub note-Same :
        (kind action_id execution_id : String) (policy : Snapshot) (result : String)
        {l : List Action} (d : Desk F)
        → d.acted ≡ l
        → Same l (note services kind action_id execution_id policy result d)
    unfolding note
    note-Same kind action_id execution_id policy result d e = same _ (ground (arith, e))

    pub record_run-Same :
        {l : List Action} (d : Desk F) → d.acted ≡ l → Same l (record_run services d)
    unfolding record_run
    record_run-Same d e = same _ e
