-- ===== src/Validator/Tests.antt =====
-- The validator on a restart with a nested parameter.
use Prim.Native.String.{String}
use proof_ops.Common.{◌≡◌, ◌↔◌, refl, Bool, true, false, some, none, List, [], ◌∷◌, every}
use proof_ops.Contracts.Value.{str, mapping, Fields, no_binding, binding, get}
use proof_ops.Contracts.Vocabulary.{restart_pod, Action, staging, yellow, action_name}
use proof_ops.Execution.Numbers.{Casts}
use proof_ops.Validator.Patterns.{has_shell_meta}
use proof_ops.Validator.Scan.{
  Issue, no_plan, shell_meta, key, scan_loop, value_count, text_issues, scan_param_values,
}
use proof_ops.Validator.Search.{fields_clean, scan_ends}
use proof_ops.Validator.Rules.{Runbook, has_type, runbook_issues, mutation_issues, validate_action}
use proof_ops.Validator.Accept.{IsAcceptable, validate_action_exact}

abbrev no_sql : String → Bool
no_sql s = false

abbrev plain : Casts
plain = record { int_of_text = λ s. none; int_of_other = λ s. none; repr = λ v. "?" }

abbrev nested : Fields
nested = binding "cfg" (mapping (binding "cmd" (str "a;b") no_binding)) no_binding

scan_ends_example :
    (found : List Issue) × (scan_loop no_sql
        (value_count (mapping nested))
        ((mapping nested, []) ∷ [])
        (no_plan ∷ [])
      ≡ some (no_plan ∷ found))
    × ((found ≡ []) ↔ (fields_clean no_sql nested ≡ true))
scan_ends_example = scan_ends no_sql nested (no_plan ∷ [])

-- The path of the bad text is reported.
nested_found : scan_param_values no_sql nested [] ≡ shell_meta (key "cfg" ∷ key "cmd" ∷ []) ∷ []
unfolding scan_param_values scan_loop value_count text_issues has_shell_meta every
nested_found = refl

abbrev restart : Action
restart = record {
  action_id = "act-1";
  incident_id = "inc-1";
  agent_id = "planner";
  action_type = restart_pod;
  resource_type = "pod";
  resource_id = "pod/web-1";
  environment = staging;
  namespace = "web";
  parameters = no_binding;
  risk_level = yellow;
  reason = "crash loop";
  evidence_ids = "ev-1" ∷ [];
  runbook_id = "rb-1";
  runbook_version = "1.0.0";
  expected_outcome = "up";
  rollback_action = some (binding "action_type" (str "restart_pod") no_binding);
  verification_plan = "slo" ∷ [];
}

abbrev runbook : Runbook
runbook = record {
  runbook_id = "rb-1";
  version = "1.0.0";
  allowed_actions = restart_pod ∷ [];
  forbidden_actions = [];
}

validate_action_exact_example :
    (validate_action plain no_sql restart (some runbook) ≡ [])
    ↔ IsAcceptable plain no_sql restart (some runbook)
validate_action_exact_example = validate_action_exact plain no_sql restart (some runbook)

restart_valid : validate_action plain no_sql restart (some runbook) ≡ []
unfolding validate_action runbook_issues mutation_issues has_type action_name get scan_param_values
    scan_loop value_count
restart_valid = refl
