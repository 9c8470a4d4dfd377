-- ===== src/Pipeline/Conduct.antt =====
-- backend/app/services/pipeline.py: `run_pipeline` and `resume_from_approval`.
use text.Mathlib.Text.{◌==◌ as str_eq}
use proof_ops.Common.{
  not, [], ◌∷◌, guard, Option, none, some, false, is_empty, if◌then◌else◌, Result, ok, err, pure,
  raise,
}
use proof_ops.Common.Steps.{◌>>=◌, ◌>>◌}
use proof_ops.Contracts.Vocabulary.{Action, Decision, deny}
use proof_ops.Contracts.Enums.{blocked, approved}
use proof_ops.Fsm.Run.{Permit}
use proof_ops.Audit.Chain.{AuditChain}
use proof_ops.Policy.Engine.{PolicyDecision}
use proof_ops.Validator.Rules.{Runbook, validate_action}
use proof_ops.Pipeline.Desk.{Stop, exception, Desk, Services, Act, or_stop, move, note}
use proof_ops.Pipeline.Stages.{
  Case, start, investigate, planned_action, validated, judged, authorize,
}
use proof_ops.Pipeline.Report.{Report}
use proof_ops.Pipeline.Perform.{perform, perform_resumed}

module _ {F : Type 0} (services : Services F) (c : Case F) where
  -- From the run's first state to the report.
  unfoldable pub conduct : Act F (Report F)
  conduct = do
    (evidence, runbook_id) ← investigate services c
    a ← planned_action services c c.plan
    rb ← or_stop exception (c.runbook runbook_id)
    validated services c a rb
    bundle ← or_stop exception c.bundle
    matrix ← or_stop exception c.matrix
    authorize services c a (judged services c a bundle matrix)
    perform services c false (judged services c a bundle matrix).decision a rb bundle matrix

  -- `run_pipeline`, on the chain that it is given; beside an exception too the run and the chain,
  -- but for a call that made no run.
  unfoldable pub run_pipeline : AuditChain → Result Stop (Report F) × Option (Desk F)
  unfolding conduct
  run_pipeline chain = elim (start services c chain) [
    | err x ↦ (err x, none)
    | ok d ↦ let r = conduct d in (r.0, some r.1)
  ]

  -- The checks of `resume_from_approval` before the permit is used.
  unfoldable pub revalidated : Action → Runbook → Act F (Unit {0})
  revalidated a rb =
      if is_empty (validate_action services.casts services.sql a (some rb))
      then pure tt
      else move c.now blocked "validator: " [] none >> raise Stop.blocked

  unfoldable pub rejudged : Action → PolicyDecision → Act F (Unit {0})
  rejudged a e = elim e.decision [
    | deny ↦
        note services "policy.decision" a.action_id ""
          (("version", e.policy_version) ∷ ("rule", e.rule_id) ∷ ("result", "DENY") ∷ [])
          "DENY: policy denied the approved action at execution time"
        >> (move c.now blocked "policy DENY at resume" [] none >> raise Stop.blocked)
    | _ ↦ pure tt
  ]

  -- `resume_from_approval`, on the run and the chain that the approval waited with; the service of
  -- the case is the id of the resource.
  unfoldable pub resume : Action → Permit → Decision → Act F (Report F)
  unfolding revalidated rejudged
  resume a permit decision = do
    guard (not (str_eq a.runbook_id "")) Stop.blocked
    rb ← or_stop exception (c.runbook a.runbook_id)
    revalidated a rb
    bundle ← or_stop exception c.bundle
    matrix ← or_stop exception c.matrix
    rejudged a (judged services c a bundle matrix)
    move c.now approved "" [] (some permit)
    perform_resumed services c decision a rb bundle matrix
