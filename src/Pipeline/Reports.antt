-- ===== src/Pipeline/Reports.antt =====
-- What the report of a run says, and a resumed run that the gates refuse.
use text.Mathlib.Text.{◌==◌ as str_eq}
use mathlib.Core.Path.{subst}
use proof_ops.Common.{
  Bool, true, false, if◌then◌else◌, ◌≡◌, ◌≢◌, ◌⊎◌, inl, inr, refl, List, ◌∷◌, Option, some, none,
  String, Result, ok, err, Result-cases,
}
use proof_ops.Common.Steps.{Meets, and_then, stopped, went, ◌>>=◌}
use proof_ops.Contracts.Value.{Value}
use proof_ops.Contracts.Vocabulary.{Action, Decision}
use proof_ops.Contracts.Enums.{awaiting_approval, escalated, blocked}
use proof_ops.Contracts.Enums as enums
use proof_ops.Fsm.Run.{Permit, edge_not_allowed}
use proof_ops.Fsm.Advance.{advance_from, advance}
use proof_ops.Fsm.Log.{advance_accepted}
use proof_ops.Audit.Chain.{AuditChain}
use proof_ops.Execution.Sandbox.{SandboxState}
use proof_ops.Execution.Verifier.{Verdict, resolved}
use proof_ops.Validator.Scan.{Issue}
use proof_ops.Validator.Rules.{Runbook, validate_action}
use proof_ops.Pipeline.Desk.{Stop, rejection, Desk, Services, move, record_run}
use proof_ops.Pipeline.Stages.{Case}
use proof_ops.Pipeline.Report.{Report, resolved_run, escalated_run, is_resolved}
use proof_ops.Pipeline.Perform.{report_of, close, perform}
use proof_ops.Pipeline.Conduct.{conduct, run_pipeline, revalidated, resume}
use proof_ops.Pipeline.Outcomes.{run_of}

module _ {F : Type 0} where
  -- A report that agrees with the run.
  abbrev pub Agrees : Report F → Desk F → Type 0
  Agrees r d =
      ((r.path ≡ resolved_run) × (r.verdict ≡ resolved) × (d.run.state ≡ enums.resolved))
      ⊎ ((r.path ≡ escalated_run) × (r.verdict ≢ resolved) × (d.run.state ≡ escalated))

  -- Nothing is claimed of an exception, nor of what a step leaves.
  abbrev Anyhow : {A : Type 0} → (A → Desk F → Type 0) → Result Stop A × Desk F → Type 0
  Anyhow = Meets (λ d. Unit {0})

  anyhow : {A : Type 0} (r : Result Stop A × Desk F) → Anyhow (λ a d. Unit {0}) r
  anyhow (ok a, d) = went tt
  anyhow (err x, d) = stopped tt

  told : {A : Type 0} {Q : A → Desk F → Type 0} {r : A} {d : Desk F} → Anyhow Q (ok r, d) → Q r d
  told (went q) = q

  left :
      {A : Type 0} {Q : Desk F → Type 0} (r : Result Stop A × Desk F)
      → Q r.1
      → Anyhow (λ a d. Q d) r
  left (ok a, d) q = went q
  left (err x, d) q = stopped tt

  module _ (services : Services F) (c : Case F) where
    moved :
        (to : enums.IncidentStatus) (reason : String) (refs : List String) (p : Option Permit)
        (d : Desk F)
        → Anyhow (λ s d'. d'.run.state ≡ to) (move c.now to reason refs p d)
    moved to reason refs p d =
        elim (Result-cases
          (advance (record { to = to; reason = reason; refs = refs; permit = p; now = c.now })
            d.run).0) [
              | inl (s, e) ↦ left _ (advance_accepted d.run _ e).2
              | inr (x, e) ↦ rw e (stopped tt)
            ]

    recorded :
        (s : enums.IncidentStatus) (d : Desk F)
        → d.run.state ≡ s
        → Anyhow (λ a d'. d'.run.state ≡ s) (record_run services d)
    unfolding record_run
    recorded s d e = left _ e

    -- A report whose path is that of its verdict.
    abbrev IsConsistent : Report F → Type 0
    IsConsistent r = r.path ≡ (if is_resolved r.verdict then resolved_run else escalated_run)

    consistent :
        (decision : Decision) (a : Action) (s : SandboxState F) (v : Verdict)
        (o : Option (SandboxState F × Verdict))
        → IsConsistent (report_of services c decision a s v o)
    consistent decision a s v none = refl
    consistent decision a s v (some (t, w)) = refl

    settle :
        (r : Report F) (d : Desk F)
        → IsConsistent r
        → d.run.state ≡ (if is_resolved r.verdict then enums.resolved else escalated)
        → Agrees r d
    settle r d h e = go r.verdict refl h e
      where
        go :
            (v : Verdict)
            → r.verdict ≡ v
            → r.path ≡ (if is_resolved v then resolved_run else escalated_run)
            → d.run.state ≡ (if is_resolved v then enums.resolved else escalated)
            → Agrees r d
        go resolved k h e = inl (h, k, e)
        go Verdict.partial k h e = inr (h, (λ q. cc), e)
        go Verdict.failed k h e = inr (h, (λ q. cc), e)
        go Verdict.worsened k h e = inr (h, (λ q. cc), e)
        go Verdict.rollback_required k h e = inr (h, (λ q. cc), e)
        go Verdict.escalate k h e = inr (h, (λ q. cc), e)

    close-Agrees :
        (r : Report F) (d : Desk F) → IsConsistent r → Anyhow Agrees (close services c r d)
    unfolding close
    close-Agrees r d h =
        and_then _ (moved _ _ _ _ d)
          (λ _ d1 e1. and_then _ (recorded _ d1 e1) (λ _ d2 e2. went (settle r d2 h e2)))

    perform-Agrees :
        (resumed : Bool) (decision : Decision) (a : Action) (rb : Runbook) (bundle matrix : Value)
        (d : Desk F)
        → Anyhow Agrees (perform services c resumed decision a rb bundle matrix d)
    unfolding perform
    perform-Agrees resumed decision a rb bundle matrix d = and_then _ (anyhow _) (λ _ d1 _.
        and_then _ (anyhow _) (λ y d2 _. and_then _ (anyhow _) (λ _ d3 _.
          and_then _ (anyhow _) (λ v d4 _.
            and_then _ (anyhow _) (λ o d5 _. close-Agrees _ d5 (consistent decision a y.1 v o))))))

    conduct-Agrees : (d : Desk F) → Anyhow Agrees (conduct services c d)
    unfolding conduct
    conduct-Agrees d = and_then _ (anyhow _) (λ x d1 _. and_then _ (anyhow _) (λ a d2 _.
        and_then _ (anyhow _) (λ rb d3 _. and_then _ (anyhow _) (λ _ d4 _.
          and_then _ (anyhow _) (λ bundle d5 _. and_then _ (anyhow _) (λ matrix d6 _.
            and_then _ (anyhow _) (λ _ d7 _. perform-Agrees false _ a rb bundle matrix d7)))))))

    resume-Anyhow :
        (a : Action) (permit : Permit) (decision : Decision) (d : Desk F)
        → Anyhow Agrees (resume services c a permit decision d)
    unfolding resume
    resume-Anyhow a permit decision d = and_then _ (anyhow _) (λ _ d1 _.
        and_then _ (anyhow _) (λ rb d2 _. and_then _ (anyhow _) (λ _ d3 _.
          and_then _ (anyhow _) (λ bundle d4 _. and_then _ (anyhow _) (λ matrix d5 _.
            and_then _ (anyhow _) (λ _ d6 _.
              and_then _ (anyhow _)
                (λ _ d7 _. perform-Agrees true decision a rb bundle matrix d7)))))))

    -- A report of `run_pipeline` tells the truth: its path is "resolved" with a RESOLVED verdict and
    -- the run in RESOLVED, or "escalated" with another verdict and the run in ESCALATED.
    pub report-Agrees :
        (chain : AuditChain) {r : Report F} {d : Desk F}
        → run_pipeline services c chain ≡ (ok r, some d)
        → Agrees r d
    report-Agrees chain h =
        let run = run_of services c chain h in
        told (subst (Anyhow Agrees) run.2 (conduct-Agrees run.0))

    -- A report of `resume_from_approval` tells the truth in the same way.
    pub resume-Agrees :
        (a : Action) (permit : Permit) (decision : Decision) (d : Desk F) {r : Report F}
        {d' : Desk F}
        → resume services c a permit decision d ≡ (ok r, d')
        → Agrees r d'
    resume-Agrees a permit decision d h =
        told (subst (Anyhow Agrees) h (resume-Anyhow a permit decision d))

    -- A resumed run is not blocked: when a run waits in AWAITING_APPROVAL and the approved action
    -- has a validator issue, the call raises the rejection of an edge that the table lacks, and
    -- changes nothing. The action names a runbook that loads.
    pub resume_refused :
        (a : Action) (permit : Permit) (decision : Decision) (d : Desk F) {rb : Runbook} {i : Issue}
        {is : List Issue}
        → d.run.state ≡ awaiting_approval
        → str_eq a.runbook_id "" ≡ false
        → c.runbook a.runbook_id ≡ some rb
        → validate_action services.casts services.sql a (some rb) ≡ i ∷ is
        → resume services c a permit decision d ≡ (err (rejection edge_not_allowed), d)
    unfolding resume revalidated ◌>>=◌ advance advance_from
    resume_refused a permit decision d s n l v = rw n (rw l (rw v (rw s refl)))
