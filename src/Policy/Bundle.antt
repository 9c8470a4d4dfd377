-- ===== src/Policy/Bundle.antt =====
-- backend/app/services/policy.py: `validate_bundle` and `_rule_matches`.
-- A value that Python cannot hash makes the membership test in a frozenset raise: `none`.
use text.Mathlib.Text.{◌==◌ as str_eq}
use proof_ops.Common.{
  ℕ, suc, String, Bool, true, false, ◌&&◌, Option, none, some, List, [], ◌∷◌, ◌++◌, any, contains,
  if◌then◌else◌,
}
use proof_ops.Contracts.Value.{
  Value, str, sequence, mapping, Items, no_item, item, Fields, no_binding, binding, get, or_null,
  is_no_fields, is_no_items, is_truthy, is_text, is_str,
}
use proof_ops.Contracts.Vocabulary.{Action, action_types, action_name, environment_name}

-- The errors of `validate_bundle`, those of a rule with its position.
pub data BundleError : Type 0 where
  not_object no_version no_rules bad_obligations : BundleError
  rule_not_object rule_no_id rule_no_when unknown_key unknown_action unknown_environment :
      ℕ → BundleError

-- Errors collected, or an exception.
abbrev pub Errors : Type 0
Errors = Option (List BundleError)

abbrev pub join : Errors → Errors → Errors
join none _ = none
join (some xs) none = none
join (some xs) (some ys) = some (xs ++ ys)

abbrev pub when_not : Bool → BundleError → List BundleError
when_not true e = []
when_not false e = e ∷ []

-- `v in BUNDLE_ENVS`
unfoldable pub known_environment : Value → Option Bool
known_environment (sequence _) = none
known_environment (mapping _) = none
known_environment (str s) = some (contains ("dev" ∷ "staging" ∷ "prod" ∷ "mock" ∷ []) s)
known_environment _ = some false

-- `v in ACTION_TYPES`
unfoldable pub known_action : Value → Bool
unfolding is_text action_name
known_action v = any (λ t. is_text (action_name t) v) action_types

-- One entry of a rule's `when`.
unfoldable pub check_condition : ℕ → String → Value → Errors
check_condition i k v =
    if str_eq k "action_type"
    then some (when_not (known_action v) (unknown_action i))
    else if str_eq k "environment"
    then elim (known_environment v) [
      | none ↦ none
      | some known ↦ some (when_not known (unknown_environment i))
    ]
    else some (when_not (str_eq k "resource_type") (unknown_key i))

unfoldable pub check_conditions : ℕ → Fields → Errors
unfolding check_condition
check_conditions i no_binding = some []
check_conditions i (binding k v fs) = join (check_condition i k v) (check_conditions i fs)

-- `when = rule.get("when")`
unfoldable pub check_when : ℕ → Value → Errors
unfolding check_conditions
check_when i (mapping fs) =
    if is_no_fields fs then some (rule_no_when i ∷ []) else check_conditions i fs
check_when i _ = some (rule_no_when i ∷ [])

-- `not rule.get("id") or not isinstance(rule["id"], str)`
unfoldable pub has_name : Value → Bool
unfolding is_truthy
has_name v = is_truthy v && is_str v

unfoldable pub check_rule : ℕ → Value → Errors
unfolding check_when has_name
check_rule i (mapping rule) =
    join (some (when_not (has_name (or_null (get "id" rule))) (rule_no_id i)))
      (check_when i (or_null (get "when" rule)))
check_rule i _ = some (rule_not_object i ∷ [])

unfoldable pub check_rules : ℕ → Items → Errors
unfolding check_rule
check_rules i no_item = some []
check_rules i (item r rs) = join (check_rule i r) (check_rules (suc i) rs)

-- `rules = bundle.get("deny_rules")`
unfoldable pub check_deny_rules : Value → Errors
unfolding check_rules
check_deny_rules (sequence rs) = if is_no_items rs then some (no_rules ∷ []) else check_rules 0 rs
check_deny_rules _ = some (no_rules ∷ [])

abbrev pub all_str : Items → Bool
all_str no_item = true
all_str (item v vs) = is_str v && all_str vs

-- `bundle.get("escalate_obligations", [])`
unfoldable pub check_obligations : Option Value → Errors
check_obligations none = some []
check_obligations (some (sequence vs)) = some (when_not (all_str vs) bad_obligations)
check_obligations (some _) = some (bad_obligations ∷ [])

unfoldable pub validate_bundle : Value → Errors
unfolding has_name check_deny_rules check_obligations
validate_bundle (mapping b) =
    join (some (when_not (has_name (or_null (get "policy_version" b))) no_version)) (
      join (check_deny_rules (or_null (get "deny_rules" b)))
        (check_obligations (get "escalate_obligations" b)))
validate_bundle _ = some (not_object ∷ [])

-- One condition of `_rule_matches`; an unknown key never matches.
unfoldable pub condition_matches : Action → String → Value → Bool
unfolding is_text
condition_matches a k v =
    if str_eq k "action_type"
    then is_text (action_name a.action_type) v
    else if str_eq k "environment"
    then is_text (environment_name a.environment) v
    else str_eq k "resource_type" && is_text a.resource_type v

unfoldable pub rule_matches : Action → Fields → Bool
unfolding condition_matches
rule_matches a no_binding = true
rule_matches a (binding k v fs) = condition_matches a k v && rule_matches a fs
