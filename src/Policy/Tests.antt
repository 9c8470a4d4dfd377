-- ===== src/Policy/Tests.antt =====
-- The policy engine on a concrete bundle and matrix: `read` is GREEN, `restart_pod` YELLOW, `shell`
-- denied by a rule, `delete_pod` RED and `patch_config` of a tier the engine does not know.
use proof_ops.Common.{String, ◌≡◌, refl, true, false, some, none, [], is_blank, is_padded}
use proof_ops.Contracts.Identifier.{is_identifier}
use proof_ops.Contracts.Value.{
  Value, str, sequence, mapping, no_item, item, Fields, no_binding, binding, get, or_null,
  is_truthy, is_text,
}
use proof_ops.Contracts.Vocabulary.{
  ActionType, read, patch_config, delete_pod, shell, dev, Action, green, action_name,
  environment_name, allow, deny,
}
use proof_ops.Policy.Bundle.{
  known_action, check_condition, check_conditions, check_when, has_name, check_rule, check_rules,
  check_deny_rules, check_obligations, validate_bundle, condition_matches, rule_matches,
}
use proof_ops.Policy.Engine.{
  is_decision, decide, Blast, blast_big, known_role, actor_known, no_hit, hit, rule_hit, first_hit,
  deny_hit, risk_of, role_obligation, allowance, dispatch,
}
use proof_ops.Policy.Evaluate.{
  context_matches, authorize, classify, screen, check_matrix, with_bundle, evaluate_raw, evaluate,
}
use proof_ops.Policy.Decisions.{IsCleared, allow_cleared, unknown_tier_allowed, red_denied}

abbrev plain : Value → String
plain v = "?"

abbrev rule : Fields
rule = binding "id" (str "DENY-shell") (
    binding "when" (mapping (binding "action_type" (str "shell") no_binding))
      (binding "message" (str "no shell") no_binding))

abbrev pub rules : Fields
rules =
    binding "policy_version" (str "v1")
      (binding "deny_rules" (sequence (item (mapping rule) no_item)) no_binding)

abbrev row : String → Value
row tier = mapping (binding "dev" (str tier) no_binding)

abbrev tiers : Fields
tiers =
    binding "read" (row "GREEN")
      (binding "delete_pod" (row "RED") (binding "patch_config" (row "ORANGE") no_binding))

abbrev pub tables : Fields
tables = binding "tiers" (mapping tiers) no_binding

abbrev action : ActionType → Action
action t = record {
  action_id = "act-1";
  incident_id = "inc-1";
  agent_id = "planner";
  action_type = t;
  resource_type = "pod";
  resource_id = "pod/web-1";
  environment = dev;
  namespace = "web";
  parameters = no_binding;
  risk_level = green;
  reason = "probe";
  evidence_ids = [];
  runbook_id = "rb-1";
  runbook_version = "1.0.0";
  expected_outcome = "known";
  rollback_action = none;
  verification_plan = [];
}

abbrev actor : Value
actor = mapping (binding "role" (str "approver") no_binding)

abbrev pub context : Value
context = mapping (binding "environment" (str "dev") no_binding)

abbrev pub calm : Blast
calm = record { replicas = some 1; traffic = some 0 }

bundle_valid : validate_bundle (mapping rules) ≡ some []
unfolding validate_bundle check_deny_rules check_obligations check_rules check_rule has_name
    check_when check_conditions check_condition known_action action_name get is_truthy is_text
bundle_valid = refl

tiers_found : or_null (get "tiers" tables) ≡ mapping tiers
unfolding get
tiers_found = refl

context_found : (t : ActionType) → context_matches (action t) context ≡ some true
unfolding context_matches get is_text environment_name
context_found t = refl

read_undenied : deny_hit (action read) (or_null (get "deny_rules" rules)) ≡ no_hit
unfolding deny_hit first_hit rule_hit rule_matches condition_matches get is_text action_name
read_undenied = refl

patch_undenied : deny_hit (action patch_config) (or_null (get "deny_rules" rules)) ≡ no_hit
unfolding deny_hit first_hit rule_hit rule_matches condition_matches get is_text action_name
patch_undenied = refl

shell_denied :
    deny_hit (action shell) (or_null (get "deny_rules" rules)) ≡ hit "DENY-shell" "no shell"
unfolding deny_hit first_hit rule_hit rule_matches condition_matches get is_text action_name
shell_denied = refl

patch_tier : risk_of (action patch_config) tiers ≡ some (some (str "ORANGE"))
unfolding risk_of get is_truthy action_name environment_name
patch_tier = refl

delete_tier : risk_of (action delete_pod) tiers ≡ some (some (str "RED"))
unfolding risk_of get is_truthy action_name environment_name
delete_tier = refl

actor_found : actor_known actor ≡ some true
unfolding actor_known known_role get
actor_found = refl

orange_red : is_text "RED" (str "ORANGE") ≡ false
unfolding is_text
orange_red = refl

orange_yellow : is_text "YELLOW" (str "ORANGE") ≡ false
unfolding is_text
orange_yellow = refl

orange_green : is_text "GREEN" (str "ORANGE") ≡ false
unfolding is_text
orange_green = refl

calm_blast : blast_big calm ≡ some false
unfolding blast_big
calm_blast = refl

version_named : is_identifier 64 "v1" ≡ true
unfolding is_identifier is_blank is_padded
version_named = refl

version_found : get "policy_version" rules ≡ some (str "v1")
unfolding get
version_found = refl

read_allowed :
    (evaluate plain (action read) actor context calm (mapping rules) (mapping tables)).decision
    ≡ allow
unfolding evaluate evaluate_raw with_bundle check_matrix screen classify authorize dispatch
    allowance decide is_decision validate_bundle check_deny_rules check_obligations check_rules
    check_rule has_name check_when check_conditions check_condition known_action action_name get
    is_truthy is_text context_matches environment_name deny_hit first_hit rule_hit rule_matches
    condition_matches risk_of actor_known known_role blast_big role_obligation is_identifier
    is_blank is_padded
read_allowed = refl

allow_cleared_example : IsCleared (action read) actor context calm (mapping rules) (mapping tables)
allow_cleared_example =
    allow_cleared plain (action read) actor context calm (mapping rules) (mapping tables)
      read_allowed

abbrev orange_cleared :
    IsCleared (action patch_config) actor context calm (mapping rules) (mapping tables)
orange_cleared = record {
  rules = rules;
  tables = tables;
  tiers = tiers;
  risk = str "ORANGE";
  bundle_object = refl;
  bundle_valid = bundle_valid;
  matrix_object = refl;
  matrix_tiers = tiers_found;
  context = context_found patch_config;
  undenied = patch_undenied;
  tier = patch_tier;
  identity = actor_found;
  not_red = orange_red;
  not_yellow = orange_yellow;
}

unknown_tier_allowed_example :
    (evaluate plain
      (action patch_config)
      actor
      context
      calm
      (mapping rules)
      (mapping tables)).decision
    ≡ allow
unknown_tier_allowed_example =
    unknown_tier_allowed plain (action patch_config) actor context calm (mapping rules)
      (mapping tables) false orange_cleared orange_green calm_blast (rw version_found version_named)

delete_is_red : is_text "RED" (str "RED") ≡ true
unfolding is_text
delete_is_red = refl

red_denied_example :
    (evaluate plain
      (action delete_pod)
      actor
      context
      calm
      (mapping rules)
      (mapping tables)).decision
    ≡ deny
red_denied_example =
    red_denied plain (action delete_pod) actor context calm (mapping rules) tables tiers (str "RED")
      tiers_found delete_tier delete_is_red
