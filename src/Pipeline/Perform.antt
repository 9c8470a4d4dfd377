-- ===== src/Pipeline/Perform.antt =====
-- backend/app/services/pipeline.py: execution, verification, the gated rollback and the outcome, of
-- `run_pipeline` and, with `resumed`, of `resume_from_approval`.
use Prim.Native.String.{String, ◌++◌ as str_append}
use proof_ops.Common.{
  Bool, true, false, not, ◌&&◌, Option, none, some, [], ◌∷◌, is_empty, if◌then◌else◌, Result, ok,
  err, pure,
}
use proof_ops.Common.Steps.{◌>>=◌, ◌>>◌}
use proof_ops.Contracts.Value.{Value, get}
use proof_ops.Contracts.Vocabulary.{Action, Decision, action_name}
use proof_ops.Contracts.Enums.{executing, verifying, rollback, escalated}
use proof_ops.Contracts.Enums as enums
use proof_ops.Execution.Numbers.{str_of}
use proof_ops.Execution.Sandbox.{SandboxState, initial_state}
use proof_ops.Execution.Verifier.{Verdict}
use proof_ops.Execution.Rollback.{should_rollback, rollback_for}
use proof_ops.Validator.Rules.{Runbook, validate_action}
use proof_ops.Pipeline.Desk.{Services, Act, move, note, record_run, execute, verified}
use proof_ops.Pipeline.Stages.{Case, judged}
use proof_ops.Pipeline.Report.{
  Report, verdict_name, is_resolved, first_version, greatest_or, kept_issues, refused_by,
  resolved_run, escalated_run,
}

module _ {F : Type 0} (services : Services F) (c : Case F) where
  abbrev pub execution_name : Action → String
  execution_name a = str_append c.incident_id (str_append ":" (str_append a.action_id ":1"))

  abbrev pub state_before : SandboxState F
  state_before =
      initial_state services.floats services.casts c.service (first_version c.deploys)
        (greatest_or services.floats.lt services.floats.nought c.metrics)

  -- `expected`, and `expected_rb` over the version before.
  abbrev pub expected_version : Option Value → Option String
  expected_version none = none
  expected_version (some v) = some (str_of services.casts v)

  abbrev pub version_back : Option Value → SandboxState F → Option String
  version_back none s = none
  version_back (some v) s = some s.deployment_version

  -- The verification of what was executed, and its record.
  unfoldable pub checked :
      String → String → SandboxState F → SandboxState F → Option String → Act F Verdict
  checked tag execution_id before after expected = do
    move c.now verifying "" [] none
    v ← verified services execution_id before after c.slo expected
    note services "verification.verdict" tag execution_id [] (verdict_name v.verdict)
    pure v.verdict

  -- `rb_refusal`: what refuses a rollback.
  unfoldable pub refusal : Action → Runbook → Value → Value → Option String
  refusal b rb bundle matrix =
      let issues = kept_issues (validate_action services.casts services.sql b (some rb)) in
      refused_by (is_empty issues) (judged services c b bundle matrix).decision

  -- The rollback that the gates let pass.
  unfoldable pub undo :
      Bool
      → String
      → Action
      → Action
      → SandboxState F
      → SandboxState F
      → Verdict
      → Act F (SandboxState F × Verdict)
  unfolding checked
  undo resumed execution_id a b before after verdict = do
    note services "rollback.start" b.action_id execution_id []
        (str_append "auto-rollback on " (verdict_name verdict))
    move c.now rollback (str_append "auto-rollback on " (verdict_name verdict)) [] none
    applied ← execute services b execution_id after
    verdict2 ←
        checked (if resumed then b.action_id else "") execution_id after applied.1
          (version_back (get "to_version" a.parameters) before)
    note services "rollback.finish" b.action_id execution_id [] (verdict_name verdict2)
    pure (applied.1, verdict2)

  abbrev pub undo_or_refuse :
      Bool
      → String
      → Action
      → Action
      → SandboxState F
      → SandboxState F
      → Verdict
      → Option String
      → Act F (Option (SandboxState F × Verdict))
  undo_or_refuse resumed execution_id a b before after verdict (some reason) =
      note services "rollback.finish" b.action_id execution_id [] reason >> pure none
  undo_or_refuse resumed execution_id a b before after verdict none = do
    r ← undo resumed execution_id a b before after verdict
    pure (some r)

  -- From `rollback_for`, whose ValueError leaves no rollback.
  unfoldable pub gated :
      Bool
      → Action
      → Runbook
      → Value
      → Value
      → SandboxState F
      → SandboxState F
      → Verdict
      → Result (Unit {0}) Action
      → Act F (Option (SandboxState F × Verdict))
  unfolding refusal undo
  gated resumed a rb bundle matrix before after verdict (err x) = pure none
  gated resumed a rb bundle matrix before after verdict (ok b) =
      undo_or_refuse resumed (str_append (execution_name a) "-rb1") a b before after verdict
        (refusal b rb bundle matrix)

  -- The rollback stage: what it left, if a rollback ran.
  unfoldable pub rolled :
      Bool
      → Action
      → Runbook
      → Value
      → Value
      → SandboxState F
      → SandboxState F
      → Verdict
      → Act F (Option (SandboxState F × Verdict))
  unfolding gated
  rolled resumed a rb bundle matrix before after verdict =
      if not (is_resolved verdict) && should_rollback verdict 0
      then gated resumed a rb bundle matrix before after verdict
          (rollback_for services.minus (services.new_id "rollback") a before)
      else pure none

  abbrev pub report_of :
      Decision → Action → SandboxState F → Verdict → Option (SandboxState F × Verdict) → Report F
  report_of decision a after verdict none = record {
    path = if is_resolved verdict then resolved_run else escalated_run;
    decision = decision;
    action_id = a.action_id;
    execution_id = execution_name a;
    verdict = verdict;
    verdicts = verdict ∷ [];
    rolled_back = false;
    after_error_rate = after.error_rate;
  }
  report_of decision a after verdict (some (back, verdict2)) = record {
    path = if is_resolved verdict2 then resolved_run else escalated_run;
    decision = decision;
    action_id = a.action_id;
    execution_id = execution_name a;
    verdict = verdict2;
    verdicts = verdict ∷ verdict2 ∷ [];
    rolled_back = true;
    after_error_rate = back.error_rate;
  }

  -- The last transition, the report, and the records of the run.
  unfoldable pub close : Report F → Act F (Report F)
  close r = do
    move c.now (if is_resolved r.verdict then enums.resolved else escalated) "" [] none
    record_run services
    pure r

  -- `chain.emit("execution.state-diff", ...)`, which only a resumed run emits.
  abbrev pub diff_note : Bool → Action → Act F (Unit {0})
  diff_note false a = pure tt
  diff_note true a =
      note services "execution.state-diff" a.action_id (execution_name a) []
        (str_append "applied " (str_append (action_name a.action_type) "; state diff: "))

  -- From EXECUTING to the report.
  unfoldable pub perform : Bool → Decision → Action → Runbook → Value → Value → Act F (Report F)
  unfolding checked rolled close
  perform resumed decision a rb bundle matrix = do
    move c.now executing "" [] none
    applied ← execute services a (execution_name a) state_before
    diff_note resumed a
    verdict ←
        checked (if resumed then a.action_id else "") (execution_name a) state_before applied.1
          (expected_version (get "to_version" a.parameters))
    r ← rolled resumed a rb bundle matrix state_before applied.1 verdict
    close (report_of decision a applied.1 verdict r)

  -- From EXECUTING to the report of a resumed run.
  abbrev pub perform_resumed : Decision → Action → Runbook → Value → Value → Act F (Report F)
  perform_resumed = perform true
