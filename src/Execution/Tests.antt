-- ===== src/Execution/Tests.antt =====
-- The executor, the verifier and the rollback on a bad deployment; rates in hundredths of a per cent.
use proof_ops.Common.{
  ℕ, ◌*◌, ◌/◌, ◌≡◌, refl, true, false, none, some, [], ◌∷◌, ltb, ◌==◌, ok, is_blank, is_padded,
}
use proof_ops.Contracts.Identifier.{is_identifier}
use proof_ops.Contracts.Value.{Value, other, str, Fields, no_binding, binding, get}
use proof_ops.Contracts.Vocabulary.{ActionType, rollback_deployment, Action, staging, yellow}
use proof_ops.Execution.Numbers.{Floats, Casts}
use proof_ops.Execution.Sandbox.{
  SandboxState, Execution, initial_state, mutated, execution_of, apply,
}
use proof_ops.Execution.Verifier.{
  Observed, Slo, VerificationResult, resolved, checks_of, is_worse, verdict_of, verify,
}
use proof_ops.Execution.Rollback.{rollback_for}
use proof_ops.Execution.Restore.{Restored, rollback_restores}

abbrev pub scaled : Floats ℕ
scaled = record {
  lt = ltb;
  same = ◌==◌;
  raised = λ x. x * 12 / 10;
  halved = λ x. x / 2;
  nought = 0;
  one_hundredth = 100;
  rolled_back_rate = 80;
  float = λ v. none;
}

abbrev pub plain : Casts
plain = record { int_of_text = λ s. none; int_of_other = λ s. none; repr = λ v. "?" }

abbrev pub minus_one : ℕ → Value
minus_one n = other "-1" true

abbrev action : ActionType → Fields → Action
action t p = record {
  action_id = "act-1";
  incident_id = "inc-1";
  agent_id = "planner";
  action_type = t;
  resource_type = "deployment";
  resource_id = "deploy/web";
  environment = staging;
  namespace = "web";
  parameters = p;
  risk_level = yellow;
  reason = "bad deploy";
  evidence_ids = "ev-1" ∷ [];
  runbook_id = "rb-1";
  runbook_version = "1.0.0";
  expected_outcome = "rate falls";
  rollback_action = none;
  verification_plan = "slo" ∷ [];
}

abbrev start : SandboxState ℕ
start = initial_state scaled plain "web" "v23" 1800

abbrev to_v21 : Action
to_v21 = action rollback_deployment (binding "to_version" (str "v21") no_binding)

abbrev v21 : SandboxState ℕ
v21 = record start { deployment_version = "v21"; error_rate = 80 }

applied_v21 :
    apply scaled plain "ex-1" to_v21 start
    ≡ ok (execution_of scaled plain "ex-1" to_v21 start v21, v21)
unfolding apply mutated get
applied_v21 = refl

rollback_restores_example :
    (b : Action) × (y : Execution ℕ) × (t : SandboxState ℕ) × (rollback_for minus_one "act-2" to_v21
        start
      ≡ ok b)
    × (apply scaled plain "ex-2" b v21 ≡ ok (y, t))
    × Restored scaled rollback_deployment start t
rollback_restores_example =
    rollback_restores scaled plain minus_one "ex-1" "act-2" "ex-2" to_v21 3 start v21 refl refl
      applied_v21

abbrev seen : Observed ℕ
seen = record { state = v21; crashloop = false; latency_p95 = none }

abbrev slo : Slo ℕ
slo = record { error_rate_below = 100; latency_p95_below = none }

abbrev result : VerificationResult
result = record {
  execution_id = "inc-1:act-1:1";
  verdict = resolved;
  checks =
      ("error_rate_below_slo", true)
      ∷ ("pods_ready", true)
      ∷ ("replicas_positive", true)
      ∷ ("version_as_expected", true)
      ∷ ("no_crashloop", true)
      ∷ [];
}

verified : verify scaled "inc-1:act-1:1" start seen slo (some "v21") ≡ ok result
unfolding verify checks_of is_worse verdict_of is_identifier is_blank is_padded
verified = refl
