-- ===== src/Pipeline/Stages.antt =====
-- backend/app/services/pipeline.py: `run_pipeline` up to the permit. What the agents answer is part
-- of the case; a reason or a result keeps its fixed part, and the text that it quotes is left out.
use Prim.Native.String.{◌++◌ as str_append}
use proof_ops.Common.{
  ℕ, String, Bool, true, not, ◌||◌, Option, none, some, List, [], ◌∷◌, all, contains, is_empty,
  if◌then◌else◌, is_blank, Result, ok, err, pure,
}
use proof_ops.Common.Steps.{◌>>=◌, ◌>>◌}
use proof_ops.Contracts.Value.{Value, str, mapping, no_binding, binding}
use proof_ops.Contracts.Vocabulary.{Action, Decision, allow, escalate, deny}
use proof_ops.Contracts.Enums.{
  triaging, correlated, investigating, diagnosing, planned, policy_check, blocked,
  awaiting_approval, approved, escalated,
}
use proof_ops.Fsm.Run.{new_run}
use proof_ops.Fsm.Once.{handoff}
use proof_ops.Audit.Chain.{AuditChain}
use proof_ops.Policy.Engine.{PolicyDecision, Blast}
use proof_ops.Policy.Evaluate.{evaluate}
use proof_ops.Execution.Verifier.{Slo}
use proof_ops.Validator.Rules.{Runbook, validate_action}
use proof_ops.Pipeline.Desk.{
  Stop, stalled, failed, exception, Desk, Services, Act, as_rejection, on_run, on_approvals,
  or_stop, move, walk, note, stop, permit_for,
}

pub record Diagnosis : Type 0 where
  pub pinned : Bool
  pub runbook_id : String

-- The arguments of `run_pipeline`, and what agents, pack builder and loaders answer: nothing where
-- they raise.
pub record Case (F : Type 0) : Type 0 where
  pub incident_id : String
  pub service : String
  pub env : String
  pub clients : List String
  pub triage : Option (List String)
  pub pack : Option (List String)
  pub diagnosis : Option Diagnosis
  pub plan : Option Action
  pub runbook : String → Option Runbook
  pub bundle : Option Value
  pub matrix : Option Value
  pub environment : Value
  pub approval : Option (String × String)
  pub blast : Blast
  pub deploys : List String
  pub metrics : List F
  pub slo : Slo F
  pub now : ℕ

-- `list(refs) or [fallback]`, and `refs[:5]`
abbrev pub or_single : List String → String → List String
or_single [] s = s ∷ []
or_single (x ∷ xs) s = x ∷ xs

abbrev pub first_five : List String → List String
first_five (a ∷ b ∷ c ∷ d ∷ e ∷ rest) = a ∷ b ∷ c ∷ d ∷ e ∷ []
first_five xs = xs

-- APPROVER
abbrev pub approver : Value
approver = mapping (binding "role" (str "approver") (binding "id" (str "sre-1") no_binding))

abbrev pub decision_text : Decision → String
decision_text allow = "ALLOW"
decision_text escalate = "ESCALATE"
decision_text deny = "DENY"

module _ {F : Type 0} (services : Services F) (c : Case F) where
  -- The checks of the arguments, and `new_run`.
  unfoldable pub start : AuditChain → Result Stop (Desk F)
  start chain =
      if is_blank c.incident_id || is_blank c.service || is_blank c.env
      then err failed
      else if not (all (contains c.clients) ("triage" ∷ "diagnostic" ∷ "planner" ∷ []))
      then err failed
      else elim (as_rejection (new_run c.incident_id c.now)) [
        | err x ↦ err x
        | ok run ↦ ok (record { run = run; chain = chain; verifications = []; acted = [] })
      ]

  -- The diagnosis, or the stop of a run without one.
  unfoldable pub pinned_diagnosis : Diagnosis → Act F (Unit {0})
  pinned_diagnosis d = if d.pinned then pure tt else (walk c.now escalated >> stop services stalled)

  -- Triage to PLANNED: the evidence ids and the runbook's id.
  unfoldable pub investigate : Act F (List String × String)
  unfolding pinned_diagnosis
  investigate = do
    walk c.now triaging
    cited ← or_stop exception c.triage
    on_run (handoff "triage" "diagnostic" (or_single cited "alert-signals"))
    walk c.now correlated
    walk c.now investigating
    evidence ← or_stop exception c.pack
    walk c.now diagnosing
    d ← or_stop exception c.diagnosis
    pinned_diagnosis d
    on_run (handoff "diagnostic" "planner" (or_single (first_five evidence) "diagnosis-artifact"))
    walk c.now planned
    pure (evidence, d.runbook_id)

  -- `fsm_svc.advance(run, "BLOCKED", reason=...)` and the stop that follows it.
  unfoldable pub block : {A : Type 0} → String → Act F A
  block reason = move c.now blocked reason [] none >> stop services Stop.blocked

  -- The plan: a planner that raises blocks the run; that what it raises is no PipelineError is left to
  -- the agent.
  unfoldable pub planned_action : Option Action → Act F Action
  unfolding block
  planned_action none = walk c.now policy_check >> block "planner rejected: "
  planned_action (some a) = walk c.now policy_check >> pure a

  unfoldable pub validated : Action → Runbook → Act F (Unit {0})
  unfolding block
  validated a rb =
      if is_empty (validate_action services.casts services.sql a (some rb))
      then pure tt
      else block "validator: "

  -- The policy's verdict on an action of this case.
  unfoldable pub judged : Action → Value → Value → PolicyDecision
  judged a bundle matrix =
      evaluate services.casts.repr a approver
        (mapping (binding "environment" c.environment no_binding)) c.blast bundle matrix

  -- `_decide`
  unfoldable pub decide_note : Action → PolicyDecision → Act F (Unit {0})
  decide_note a e =
      note services "policy.decision" a.action_id ""
        (("version", e.policy_version)
          ∷ ("rule", e.rule_id)
          ∷ ("result", decision_text e.decision)
          ∷ [])
        (str_append (decision_text e.decision) ": policy decided")

  -- The permit of an approval: without an approver the run waits and the call stalls.
  unfoldable pub approved_by : Action → Option (String × String) → Act F (Unit {0})
  approved_by a none =
      walk c.now awaiting_approval
      >> (on_approvals (services.park a c.now) >> stop services stalled)
  approved_by a (some (secret, actor)) = do
    permit ← on_approvals (services.hitl_permit a secret actor c.now)
    walk c.now awaiting_approval
    move c.now approved "" [] (some permit)
    pure tt

  unfoldable pub allowed_by : Action → Act F (Unit {0})
  allowed_by a = do
    permit ←
        on_run (λ run. (permit_for services a true c.now (str_append "auto-" a.action_id), run))
    move c.now approved "" [] (some permit)
    pure tt

  unfoldable pub authorize : Action → PolicyDecision → Act F (Unit {0})
  unfolding decide_note block approved_by allowed_by
  authorize a e = elim e.decision [
    | deny ↦ decide_note a e >> block "policy DENY"
    | escalate ↦ decide_note a e >> approved_by a c.approval
    | allow ↦ decide_note a e >> allowed_by a
  ]
