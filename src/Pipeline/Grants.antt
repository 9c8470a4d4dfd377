-- ===== src/Pipeline/Grants.antt =====
-- What the stages before the executor establish, when they let a run pass.
use proof_ops.Common.{
  Bool, true, false, Bool-cases, ◌≡◌, ◌≢◌, inl, inr, refl, List, [], ◌∷◌, Option, some, none,
  String, Result, guard,
}
use proof_ops.Common.Steps.{Meets, and_then, stopped, went}
use proof_ops.Contracts.Vocabulary.{Action, Decision, allow, escalate, deny}
use proof_ops.Policy.Engine.{PolicyDecision}
use proof_ops.Validator.Scan.{Issue}
use proof_ops.Validator.Rules.{Runbook, validate_action}
use proof_ops.Pipeline.Desk.{Stop, Desk, Services, stop, or_stop}
use proof_ops.Pipeline.Stages.{
  Diagnosis, Case, pinned_diagnosis, investigate, block, planned_action, validated, decide_note,
  approved_by, allowed_by, authorize,
}
use proof_ops.Pipeline.Conduct.{revalidated, rejudged}
use proof_ops.Pipeline.Steps.{Same, same, note-Same, record_run-Same}

-- A policy decision that lets an action run, with the approval that it needs.
pub data Granted : Decision → Option (String × String) → Type 0 where
  by_policy : {o : Option (String × String)} → Granted allow o
  by_human : {p : String × String} → Granted escalate (some p)

pub granted_lem : {d : Decision} {o : Option (String × String)} → Granted d o → d ≢ deny
granted_lem by_policy e = cc
granted_lem by_human e = cc

module _ {F : Type 0} where
  -- No call, and a fact about the value.
  abbrev pub Knows : {A : Type 0} → List Action → (A → Type 0) → Result Stop A × Desk F → Type 0
  Knows l Q = Meets (λ d. d.acted ≡ l) (λ a d. Q a × (d.acted ≡ l))

  pub or_stop-Knows :
      {A : Type 0} (e : Stop) (o : Option A) {l : List Action} (d : Desk F)
      → d.acted ≡ l
      → Knows l (λ a. o ≡ some a) (or_stop e o d)
  or_stop-Knows e none d h = stopped h
  or_stop-Knows e (some a) d h = went (refl, h)

  pub guard-Same :
      (b : Bool) (e : Stop) {l : List Action} (d : Desk F) → d.acted ≡ l → Same l (guard b e d)
  guard-Same true e d h = went h
  guard-Same false e d h = stopped h

  module _ (services : Services F) (c : Case F) where
    -- A stop gives no value.
    module _ {A : Type 0} {Q : A → Type 0} {l : List Action} where
      never-stop : (e : Stop) (d : Desk F) → d.acted ≡ l → Knows l Q (stop services e d)
      never-stop e d h = and_then _ (record_run-Same services d h) (λ _ d1 h1. stopped h1)

      never-block :
          (reason : String) (d : Desk F) → d.acted ≡ l → Knows l Q (block services c reason d)
      unfolding block
      never-block reason d h = and_then _ (same _ h) (λ _ d1 h1. never-stop _ d1 h1)

    pinned_diagnosis-Same :
        (x : Diagnosis) {l : List Action} (d : Desk F)
        → d.acted ≡ l
        → Same l (pinned_diagnosis services c x d)
    unfolding pinned_diagnosis
    pinned_diagnosis-Same x d h = elim (Bool-cases x.pinned) [
      | inl e ↦ rw e (went h)
      | inr e ↦ rw e (
          and_then _ (same _ h)
            (λ _ d1 h1. and_then _ (record_run-Same services d1 h1) (λ _ d2 h2. stopped h2)))
    ]

    pub investigate-Same :
        {l : List Action} (d : Desk F) → d.acted ≡ l → Same l (investigate services c d)
    unfolding investigate
    investigate-Same d h = and_then _ (same _ h) (λ _ d1 h1.
        and_then _ (or_stop-Knows _ c.triage d1 h1) (λ cited d2 k2.
          and_then _ (same _ k2.1) (λ _ d3 h3. and_then _ (same _ h3) (λ _ d4 h4.
            and_then _ (same _ h4) (λ _ d5 h5.
              and_then _ (or_stop-Knows _ c.pack d5 h5) (λ evidence d6 k6.
                and_then _ (same _ k6.1) (λ _ d7 h7.
                  and_then _ (or_stop-Knows _ c.diagnosis d7 h7) (λ x d8 k8.
                    and_then _ (pinned_diagnosis-Same x d8 k8.1) (λ _ d9 h9.
                      and_then _ (same _ h9)
                        (λ _ d10 h10. and_then _ (same _ h10) (λ _ d11 h11. went h11)))))))))))

    pub planned_action-Knows :
        (o : Option Action) {l : List Action} (d : Desk F)
        → d.acted ≡ l
        → Knows l (λ a. o ≡ some a) (planned_action services c o d)
    unfolding planned_action
    planned_action-Knows none d h = and_then _ (same _ h) (λ _ d1 h1. never-block _ d1 h1)
    planned_action-Knows (some a) d h = and_then _ (same _ h) (λ _ d1 h1. went (refl, h1))

    pub validated-Knows :
        (a : Action) (rb : Runbook) {l : List Action} (d : Desk F)
        → d.acted ≡ l
        → Knows l
            (λ _. validate_action services.casts services.sql a (some rb) ≡ [])
            (validated services c a rb d)
    unfolding validated
    validated-Knows a rb {l} d h = go (validate_action services.casts services.sql a (some rb)) refl
      where
        go :
            (issues : List Issue)
            → validate_action services.casts services.sql a (some rb) ≡ issues
            → Knows l
                (λ _. validate_action services.casts services.sql a (some rb) ≡ [])
                (validated services c a rb d)
        go [] e = rw e (went (refl, h))
        go (i ∷ is) e = rw e (never-block _ d h)

    approved_by-Knows :
        (a : Action) (o : Option (String × String)) {l : List Action} (d : Desk F)
        → d.acted ≡ l
        → Knows l (λ _. Granted escalate o) (approved_by services c a o d)
    unfolding approved_by
    approved_by-Knows a none d h =
        and_then _ (same _ h) (λ _ d1 h1. and_then _ (same _ h1) (λ _ d2 h2. never-stop _ d2 h2))
    approved_by-Knows a (some p) d h = and_then _ (same _ h) (λ _ d1 h1.
        and_then _ (same _ h1) (λ _ d2 h2. and_then _ (same _ h2) (λ _ d3 h3. went (by_human, h3))))

    allowed_by-Knows :
        (a : Action) {l : List Action} (d : Desk F)
        → d.acted ≡ l
        → Knows l (λ _. Granted allow c.approval) (allowed_by services c a d)
    unfolding allowed_by
    allowed_by-Knows a d h =
        and_then _ (same _ h) (λ _ d1 h1. and_then _ (same _ h1) (λ _ d2 h2. went (by_policy, h2)))

    pub authorize-Knows :
        (a : Action) (e : PolicyDecision) {l : List Action} (d : Desk F)
        → d.acted ≡ l
        → Knows l (λ _. Granted e.decision c.approval) (authorize services c a e d)
    unfolding authorize decide_note
    authorize-Knows a e {l} d h = go e.decision refl
      where
        go :
            (x : Decision)
            → e.decision ≡ x
            → Knows l (λ _. Granted e.decision c.approval) (authorize services c a e d)
        go deny k =
            rw k (and_then _ (note-Same services _ _ _ _ _ d h) (λ _ d1 h1. never-block _ d1 h1))
        go escalate k = rw k (
            and_then _ (note-Same services _ _ _ _ _ d h)
              (λ _ d1 h1. approved_by-Knows a c.approval d1 h1))
        go allow k =
            rw k
              (and_then _ (note-Same services _ _ _ _ _ d h) (λ _ d1 h1. allowed_by-Knows a d1 h1))

    -- The checks of a resumed run.
    pub revalidated-Knows :
        (a : Action) (rb : Runbook) {l : List Action} (d : Desk F)
        → d.acted ≡ l
        → Knows l
            (λ _. validate_action services.casts services.sql a (some rb) ≡ [])
            (revalidated services c a rb d)
    unfolding revalidated
    revalidated-Knows a rb {l} d h =
        go (validate_action services.casts services.sql a (some rb)) refl
      where
        go :
            (issues : List Issue)
            → validate_action services.casts services.sql a (some rb) ≡ issues
            → Knows l
                (λ _. validate_action services.casts services.sql a (some rb) ≡ [])
                (revalidated services c a rb d)
        go [] e = rw e (went (refl, h))
        go (i ∷ is) e = rw e (and_then _ (same _ h) (λ _ d1 h1. stopped h1))

    pub rejudged-Knows :
        (a : Action) (e : PolicyDecision) {l : List Action} (d : Desk F)
        → d.acted ≡ l
        → Knows l (λ _. e.decision ≢ deny) (rejudged services c a e d)
    unfolding rejudged
    rejudged-Knows a e {l} d h = go e.decision refl
      where
        go :
            (x : Decision)
            → e.decision ≡ x
            → Knows l (λ _. e.decision ≢ deny) (rejudged services c a e d)
        go deny k = rw k (
            and_then _ (note-Same services _ _ _ _ _ d h)
              (λ _ d1 h1. and_then _ (same _ h1) (λ _ d2 h2. stopped h2)))
        go escalate k = rw k (went ((λ q. cc), h))
        go allow k = rw k (went ((λ q. cc), h))
