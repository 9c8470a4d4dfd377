-- ===== src/Pipeline/Tests.antt =====
-- The conductor on one read that the policy allows, and on an approved action that is no longer
-- valid.
use proof_ops.Common.{
  ℕ, String, Bool, true, false, ◌≡◌, refl, Option, some, none, List, [], ◌∷◌, Result, ok, err, pure,
  raise, is_blank, is_padded, is_some,
}
use proof_ops.Contracts.Value.{
  Value, str, sequence, mapping, no_item, item, Fields, no_binding, binding, get,
}
use proof_ops.Contracts.Vocabulary.{
  action_name, ActionType, read, restart_pod, Action, dev, green, allow, escalate,
}
use proof_ops.Contracts.Enums.{awaiting_approval}
use proof_ops.Fsm.Run.{Permit, IncidentRun, edge_not_allowed}
use proof_ops.Audit.Chain.{AuditChain}
use proof_ops.Audit.Event.{Codec}
use proof_ops.Policy.Engine.{Blast}
use proof_ops.Execution.Sandbox.{SandboxState}
use proof_ops.Execution.Verifier.{Verdict, resolved, Slo}
use proof_ops.Execution.Tests.{scaled, plain, minus_one}
use proof_ops.Policy.Tests.{rules, tables, calm}
use proof_ops.Validator.Scan.{
  not_allowed, no_evidence, no_plan, no_rollback, scan_loop, value_count, scan_param_values,
}
use proof_ops.Validator.Rules.{Runbook, has_type, runbook_issues, mutation_issues, validate_action}
use proof_ops.Pipeline.Desk.{Stop, exception, rejection, Desk, Services, Applied}
use proof_ops.Pipeline.Stages.{Diagnosis, Case, start}
use proof_ops.Pipeline.Report.{Report, resolved_run}
use proof_ops.Pipeline.Conduct.{run_pipeline, resume}
use proof_ops.Pipeline.Outcomes.{IsGuarded, IsBacked, run_pipeline-IsGuarded, resume-IsBacked}
use proof_ops.Pipeline.Reports.{resume_refused}

abbrev honest : Codec
honest = record { sha256_hex = λ s. s; canonical_json = λ b. b.event_id; snapshot_json = λ p. "{}" }

abbrev services : Services ℕ
services = record {
  codec = honest;
  floats = scaled;
  casts = plain;
  sql = λ s. false;
  minus = minus_one;
  params_hash = λ p. "h1";
  draw = λ n. ("ev-1", n);
  new_id = λ s. s;
  live = false;
  reachable = false;
  k8s = λ a s. none;
  prometheus = λ e s t o v. none;
  hitl_permit = λ a s i n. raise exception;
  park = λ a n. pure tt;
}

abbrev action : ActionType → Action
action t = record {
  action_id = "act-1";
  incident_id = "inc-1";
  agent_id = "planner";
  action_type = t;
  resource_type = "pod";
  resource_id = "pod/web-1";
  environment = dev;
  namespace = "web";
  parameters = no_binding;
  risk_level = green;
  reason = "probe";
  evidence_ids = [];
  runbook_id = "rb-1";
  runbook_version = "1.0.0";
  expected_outcome = "known";
  rollback_action = none;
  verification_plan = [];
}

abbrev runbook : Runbook
runbook = record {
  runbook_id = "rb-1";
  version = "1.0.0";
  allowed_actions = read ∷ [];
  forbidden_actions = [];
}

abbrev quiet_case : Case ℕ
quiet_case = record {
  incident_id = "inc-1";
  service = "web";
  env = "dev";
  clients = "triage" ∷ "diagnostic" ∷ "planner" ∷ [];
  triage = some [];
  pack = some ("ev-1" ∷ []);
  diagnosis = some (record { pinned = true; runbook_id = "rb-1" });
  plan = some (action read);
  runbook = λ id. some runbook;
  bundle = some (mapping rules);
  matrix = some (mapping tables);
  environment = str "dev";
  approval = none;
  blast = calm;
  deploys = [];
  metrics = 5 ∷ [];
  slo = record { error_rate_below = 100; latency_p95_below = none };
  now = 0;
}

abbrev no_events : AuditChain
no_events = record { incident_id = "inc-1"; events = [] }

abbrev report : Report ℕ
report = record {
  path = resolved_run;
  decision = allow;
  action_id = "act-1";
  execution_id = "inc-1:act-1:1";
  verdict = resolved;
  verdicts = resolved ∷ [];
  rolled_back = false;
  after_error_rate = 5;
}

abbrev first_run : IncidentRun (Applied ℕ)
first_run = record {
  incident_id = "inc-1";
  state = awaiting_approval;
  history = [];
  handoffs = [];
  suppressions = [];
  replans = 0;
  rolled_back = false;
  permit = none;
  consumed_refs = [];
  idem_store = [];
  entered_at = λ s. none;
}

abbrev first_desk : Desk ℕ
first_desk = record { run = first_run; chain = no_events; verifications = []; acted = [] }

abbrev desk_of : Option (Desk ℕ) → Desk ℕ
desk_of none = first_desk
desk_of (some d) = d

-- What the run leaves.
abbrev last_desk : Desk ℕ
last_desk = desk_of (run_pipeline services quiet_case no_events).1

-- The run ends with the report, after one call of the executor.
read_ran :
    (run_pipeline services quiet_case no_events ≡ (ok report, some last_desk))
    × (last_desk.acted ≡ action read ∷ [])
unfolding proof_ops.Common.Text.every proof_ops.Common.Text.is_blank proof_ops.Common.Text.is_padded
    proof_ops.Contracts.Identifier.is_identifier proof_ops.Contracts.Identifier.is_optional
    proof_ops.Contracts.Value.get proof_ops.Contracts.Value.is_truthy
    proof_ops.Contracts.Value.is_text proof_ops.Contracts.Vocabulary.action_name
    proof_ops.Contracts.Vocabulary.environment_name proof_ops.Fsm.Run.make_permit
    proof_ops.Fsm.Run.is_live proof_ops.Fsm.Run.new_run proof_ops.Fsm.Advance.approve
    proof_ops.Fsm.Advance.advance_from proof_ops.Fsm.Advance.advance proof_ops.Fsm.Once.execute_once
    proof_ops.Fsm.Once.is_agent proof_ops.Fsm.Once.is_handoff proof_ops.Fsm.Once.handoff
    proof_ops.Fsm.Once.audit_records proof_ops.Audit.Event.is_snapshot
    proof_ops.Audit.Event.are_evidence_ids proof_ops.Audit.Event.is_event
    proof_ops.Audit.Chain.required_extras proof_ops.Audit.Chain.is_event_type
    proof_ops.Audit.Chain.is_file_id proof_ops.Audit.Chain.is_given proof_ops.Audit.Chain.link
    proof_ops.Audit.Chain.body_of proof_ops.Audit.Chain.linked_of proof_ops.Audit.Chain.emit
    proof_ops.Common.take_chars proof_ops.Audit.FsmRecords.clip proof_ops.Audit.FsmRecords.join_refs
    proof_ops.Audit.FsmRecords.transition_text proof_ops.Audit.FsmRecords.handoff_text
    proof_ops.Audit.FsmRecords.emission_of proof_ops.Audit.FsmRecords.record_from
    proof_ops.Audit.FsmRecords.record_fsm proof_ops.Policy.Bundle.known_environment
    proof_ops.Policy.Bundle.known_action proof_ops.Policy.Bundle.check_condition
    proof_ops.Policy.Bundle.check_conditions proof_ops.Policy.Bundle.check_when
    proof_ops.Policy.Bundle.has_name proof_ops.Policy.Bundle.check_rule
    proof_ops.Policy.Bundle.check_rules proof_ops.Policy.Bundle.check_deny_rules
    proof_ops.Policy.Bundle.check_obligations proof_ops.Policy.Bundle.validate_bundle
    proof_ops.Policy.Bundle.condition_matches proof_ops.Policy.Bundle.rule_matches
    proof_ops.Policy.Engine.is_decision proof_ops.Policy.Engine.decide
    proof_ops.Policy.Engine.blast_big proof_ops.Policy.Engine.known_role
    proof_ops.Policy.Engine.actor_known proof_ops.Policy.Engine.rule_hit
    proof_ops.Policy.Engine.first_hit proof_ops.Policy.Engine.deny_hit
    proof_ops.Policy.Engine.risk_of proof_ops.Policy.Engine.allowance
    proof_ops.Policy.Engine.dispatch proof_ops.Policy.Evaluate.context_matches
    proof_ops.Policy.Evaluate.authorize proof_ops.Policy.Evaluate.classify
    proof_ops.Policy.Evaluate.screen proof_ops.Policy.Evaluate.check_matrix
    proof_ops.Policy.Evaluate.with_bundle proof_ops.Policy.Evaluate.evaluate_raw
    proof_ops.Policy.Evaluate.evaluate proof_ops.Execution.Rollback.should_rollback
    proof_ops.Execution.Sandbox.log_of proof_ops.Execution.Sandbox.changed_keys
    proof_ops.Execution.Sandbox.execution_of proof_ops.Execution.Sandbox.apply
    proof_ops.Execution.Verifier.checks_of proof_ops.Execution.Verifier.is_worse
    proof_ops.Execution.Verifier.verdict_of proof_ops.Execution.Verifier.verify
    proof_ops.Validator.Scan.scan_loop proof_ops.Validator.Scan.scan_param_values
    proof_ops.Validator.Rules.has_type proof_ops.Validator.Rules.runbook_issues
    proof_ops.Validator.Rules.mutation_issues proof_ops.Validator.Rules.shape_issues
    proof_ops.Validator.Rules.validate_action proof_ops.Pipeline.Conduct.conduct
    proof_ops.Pipeline.Conduct.run_pipeline proof_ops.Common.Steps.◌>>=◌
    proof_ops.Pipeline.Desk.note proof_ops.Pipeline.Desk.record_run
    proof_ops.Pipeline.Desk.permit_for proof_ops.Pipeline.Desk.apply_action
    proof_ops.Pipeline.Desk.execute proof_ops.Pipeline.Desk.verify_action
    proof_ops.Pipeline.Desk.bank proof_ops.Pipeline.Desk.verified proof_ops.Pipeline.Perform.checked
    proof_ops.Pipeline.Perform.rolled proof_ops.Pipeline.Perform.close
    proof_ops.Pipeline.Perform.perform proof_ops.Pipeline.Stages.start
    proof_ops.Pipeline.Stages.pinned_diagnosis proof_ops.Pipeline.Stages.investigate
    proof_ops.Pipeline.Stages.planned_action proof_ops.Pipeline.Stages.validated
    proof_ops.Pipeline.Stages.judged proof_ops.Pipeline.Stages.decide_note
    proof_ops.Pipeline.Stages.allowed_by proof_ops.Pipeline.Stages.authorize
    proof_ops.Validator.Scan.value_count
read_ran = (refl, refl)

run_pipeline-IsGuarded_example : IsGuarded services quiet_case last_desk.acted
run_pipeline-IsGuarded_example = run_pipeline-IsGuarded services quiet_case no_events read_ran.0

abbrev permit : Permit
permit = record {
  action_id = "act-1";
  params_hash = "h1";
  expires_at = 300;
  token_ref = "tok-1";
  auto = false;
}

resume-IsBacked_example :
    IsBacked services quiet_case
      (action read)
      (resume services quiet_case (action read) permit escalate first_desk).1.acted
resume-IsBacked_example =
    resume-IsBacked services quiet_case (action read) permit escalate first_desk refl

abbrev resumed_report : Report ℕ
resumed_report = record report { decision = escalate }

abbrev resumed_desk : Desk ℕ
resumed_desk = (resume services quiet_case (action read) permit escalate first_desk).1

read_resumed :
    resume services quiet_case (action read) permit escalate first_desk
    ≡ (ok resumed_report, resumed_desk)
unfolding proof_ops.Common.Text.every proof_ops.Common.Text.is_blank proof_ops.Common.Text.is_padded
    proof_ops.Contracts.Identifier.is_identifier proof_ops.Contracts.Identifier.is_optional
    proof_ops.Contracts.Value.get proof_ops.Contracts.Value.is_truthy
    proof_ops.Contracts.Value.is_text proof_ops.Contracts.Vocabulary.action_name
    proof_ops.Contracts.Vocabulary.environment_name proof_ops.Fsm.Run.is_live
    proof_ops.Fsm.Advance.approve proof_ops.Fsm.Advance.advance_from proof_ops.Fsm.Advance.advance
    proof_ops.Fsm.Once.execute_once proof_ops.Fsm.Once.audit_records
    proof_ops.Audit.Event.is_snapshot proof_ops.Audit.Event.are_evidence_ids
    proof_ops.Audit.Event.is_event proof_ops.Audit.Chain.required_extras
    proof_ops.Audit.Chain.is_event_type proof_ops.Audit.Chain.is_file_id
    proof_ops.Audit.Chain.is_given proof_ops.Audit.Chain.link proof_ops.Audit.Chain.body_of
    proof_ops.Audit.Chain.linked_of proof_ops.Audit.Chain.emit proof_ops.Common.take_chars
    proof_ops.Audit.FsmRecords.clip proof_ops.Audit.FsmRecords.join_refs
    proof_ops.Audit.FsmRecords.transition_text proof_ops.Audit.FsmRecords.handoff_text
    proof_ops.Audit.FsmRecords.emission_of proof_ops.Audit.FsmRecords.record_from
    proof_ops.Audit.FsmRecords.record_fsm proof_ops.Policy.Bundle.known_environment
    proof_ops.Policy.Bundle.known_action proof_ops.Policy.Bundle.check_condition
    proof_ops.Policy.Bundle.check_conditions proof_ops.Policy.Bundle.check_when
    proof_ops.Policy.Bundle.has_name proof_ops.Policy.Bundle.check_rule
    proof_ops.Policy.Bundle.check_rules proof_ops.Policy.Bundle.check_deny_rules
    proof_ops.Policy.Bundle.check_obligations proof_ops.Policy.Bundle.validate_bundle
    proof_ops.Policy.Bundle.condition_matches proof_ops.Policy.Bundle.rule_matches
    proof_ops.Policy.Engine.is_decision proof_ops.Policy.Engine.decide
    proof_ops.Policy.Engine.blast_big proof_ops.Policy.Engine.known_role
    proof_ops.Policy.Engine.actor_known proof_ops.Policy.Engine.rule_hit
    proof_ops.Policy.Engine.first_hit proof_ops.Policy.Engine.deny_hit
    proof_ops.Policy.Engine.risk_of proof_ops.Policy.Engine.allowance
    proof_ops.Policy.Engine.dispatch proof_ops.Policy.Evaluate.context_matches
    proof_ops.Policy.Evaluate.authorize proof_ops.Policy.Evaluate.classify
    proof_ops.Policy.Evaluate.screen proof_ops.Policy.Evaluate.check_matrix
    proof_ops.Policy.Evaluate.with_bundle proof_ops.Policy.Evaluate.evaluate_raw
    proof_ops.Policy.Evaluate.evaluate proof_ops.Execution.Rollback.should_rollback
    proof_ops.Execution.Sandbox.log_of proof_ops.Execution.Sandbox.changed_keys
    proof_ops.Execution.Sandbox.execution_of proof_ops.Execution.Sandbox.apply
    proof_ops.Execution.Verifier.checks_of proof_ops.Execution.Verifier.is_worse
    proof_ops.Execution.Verifier.verdict_of proof_ops.Execution.Verifier.verify
    proof_ops.Validator.Scan.scan_loop proof_ops.Validator.Scan.scan_param_values
    proof_ops.Validator.Rules.has_type proof_ops.Validator.Rules.runbook_issues
    proof_ops.Validator.Rules.mutation_issues proof_ops.Validator.Rules.shape_issues
    proof_ops.Validator.Rules.validate_action proof_ops.Pipeline.Conduct.revalidated
    proof_ops.Pipeline.Conduct.rejudged proof_ops.Pipeline.Conduct.resume
    proof_ops.Common.Steps.◌>>=◌ proof_ops.Pipeline.Desk.note proof_ops.Pipeline.Desk.record_run
    proof_ops.Pipeline.Desk.apply_action proof_ops.Pipeline.Desk.execute
    proof_ops.Pipeline.Desk.verify_action proof_ops.Pipeline.Desk.bank
    proof_ops.Pipeline.Desk.verified proof_ops.Pipeline.Perform.checked
    proof_ops.Pipeline.Perform.rolled proof_ops.Pipeline.Perform.close
    proof_ops.Pipeline.Perform.perform proof_ops.Pipeline.Stages.judged
    proof_ops.Validator.Scan.value_count
read_resumed = refl

restart_invalid :
    validate_action plain (λ s. false) (action restart_pod) (some runbook)
    ≡ not_allowed ∷ no_evidence ∷ no_plan ∷ no_rollback ∷ []
unfolding validate_action runbook_issues mutation_issues has_type action_name get scan_param_values
    scan_loop value_count
restart_invalid = refl

resume_refused_example :
    resume services quiet_case (action restart_pod) permit escalate first_desk
    ≡ (err (rejection edge_not_allowed), first_desk)
resume_refused_example =
    resume_refused services quiet_case (action restart_pod) permit escalate first_desk refl refl
      refl restart_invalid
