-- ===== src/Policy/Evaluate.antt =====
-- backend/app/services/policy.py: `_evaluate`, `evaluate` and the sealed loaders.
use text.Mathlib.Text.{◌==◌ as str_eq}
use proof_ops.Common.{
  String, Bool, true, false, not, ◌&&◌, Option, none, some, is_empty, if◌then◌else◌,
}
use proof_ops.Contracts.Value.{
  Value, str, mapping, Fields, no_binding, binding, get, or_null, is_text,
}
use proof_ops.Contracts.Vocabulary.{Action, environment_name}
use proof_ops.Policy.Bundle.{validate_bundle}
use proof_ops.Policy.Engine.{
  PolicyDecision, decide, denial, Blast, blast_big, actor_known, no_hit, crash, hit, deny_hit,
  risk_of, dispatch,
}

-- Whether the environment context names the action's own environment: nothing for a context that
-- is no mapping or names none.
unfoldable pub context_matches : Action → Value → Option Bool
unfolding is_text
context_matches a (mapping c) = elim (get "environment" c) [
  | none ↦ none
  | some v ↦ some (is_text (environment_name a.environment) v)
]
context_matches a _ = none

abbrev pub version_text : Value → String
version_text (str s) = s
version_text _ = "unknown"

module _ (repr : Value → String) where
  -- Steps 3 to 5: identity, then the blast radius, then the risk.
  unfoldable pub authorize :
      Action → Value → Blast → Fields → Fields → String → Value → Option PolicyDecision
  authorize a actor blast b matrix version risk = elim (actor_known actor) [
    | none ↦ none
    | some false ↦ decide (denial "DENY-unknown-actor" version "unknown actor role")
    | some true ↦ elim (blast_big blast) [
      | none ↦ none
      | some big ↦ dispatch repr a b matrix version risk big
    ]
  ]

  -- Step 2: the risk tier of the matrix.
  unfoldable pub classify :
      Action → Value → Blast → Fields → Fields → Fields → String → Option PolicyDecision
  classify a actor blast b matrix tiers version = elim (risk_of a tiers) [
    | none ↦ decide (denial "DENY-unknown-action" version "action type not in risk matrix")
    | some none ↦ none
    | some (some risk) ↦ authorize a actor blast b matrix version risk
  ]

  -- Steps 0 and 1: the environment context and the deny rules.
  unfoldable pub screen :
      Action → Value → Value → Blast → Fields → Fields → Fields → String → Option PolicyDecision
  screen a actor env_ctx blast b matrix tiers version = elim (context_matches a env_ctx) [
    | none ↦ decide (denial "DENY-missing-env-context" version "environment context is required")
    | some false ↦
        decide (denial "DENY-env-mismatch" version "environment context does not match action")
    | some true ↦ elim (deny_hit a (or_null (get "deny_rules" b))) [
      | crash ↦ none
      | hit rule message ↦ decide (denial rule version message)
      | no_hit ↦ classify a actor blast b matrix tiers version
    ]
  ]

  unfoldable pub check_matrix :
      Action → Value → Value → Blast → Fields → Value → String → Option PolicyDecision
  check_matrix a actor env_ctx blast b (mapping matrix) version =
      elim (or_null (get "tiers" matrix)) [
        | mapping tiers ↦ screen a actor env_ctx blast b matrix tiers version
        | _ ↦ decide (denial "DENY-invalid-matrix" version "risk matrix missing tiers")
      ]
  check_matrix a actor env_ctx blast b _ version =
      decide (denial "DENY-invalid-matrix" version "risk matrix missing tiers")

  -- The bundle once it is known to be an object.
  unfoldable pub with_bundle :
      Action → Value → Value → Blast → Value → Value → Option PolicyDecision
  with_bundle a actor env_ctx blast (mapping b) matrix =
      check_matrix a actor env_ctx blast b matrix (version_text (or_null (get "policy_version" b)))
  with_bundle a actor env_ctx blast _ matrix = none

  -- `_evaluate`
  unfoldable pub evaluate_raw :
      Action → Value → Value → Blast → Value → Value → Option PolicyDecision
  evaluate_raw a actor env_ctx blast bundle matrix = elim (validate_bundle bundle) [
    | none ↦ none
    | some errors ↦
        if is_empty errors
        then with_bundle a actor env_ctx blast bundle matrix
        else decide (denial "DENY-invalid-bundle" "unknown" "invalid policy bundle")
  ]

  abbrev pub or_deny : Option PolicyDecision → PolicyDecision
  or_deny none = denial "DENY-engine-error" "unknown" "policy engine error (fail-closed)"
  or_deny (some d) = d

  -- `evaluate` with a bundle and a matrix given.
  unfoldable pub evaluate : Action → Value → Value → Blast → Value → Value → PolicyDecision
  evaluate a actor env_ctx blast bundle matrix =
      or_deny (evaluate_raw a actor env_ctx blast bundle matrix)

  -- `evaluate` with the committed files, whose loading may raise.
  unfoldable pub evaluate_loaded :
      Action → Value → Value → Blast → Option Value → Option Value → PolicyDecision
  evaluate_loaded a actor env_ctx blast none matrix = or_deny none
  evaluate_loaded a actor env_ctx blast (some bundle) none = or_deny none
  evaluate_loaded a actor env_ctx blast (some bundle) (some matrix) =
      evaluate a actor env_ctx blast bundle matrix

-- `{k: v for k, v in doc.items() if k != "sha256"}`
unfoldable pub unsealed : Fields → Fields
unsealed no_binding = no_binding
unsealed (binding k v fs) = if str_eq k "sha256" then unsealed fs else binding k v (unsealed fs)

-- `_verify_seal`, over the digest `sha256_hex(canonical_json(body))`: the document, or nothing
-- where the code raises.
unfoldable pub verify_seal : (Fields → String) → Value → Option Value
verify_seal digest (mapping doc) = elim (or_null (get "sha256" doc)) [
  | str sealed ↦
      if not (str_eq sealed "") && str_eq (digest (unsealed doc)) sealed
      then some (mapping doc)
      else none
  | _ ↦ none
]
verify_seal digest _ = none

-- `load_bundle` and `load_matrix` of a parsed file.
unfoldable pub load_bundle : (Fields → String) → Value → Option Value
load_bundle digest doc = elim (verify_seal digest doc) [
  | none ↦ none
  | some bundle ↦ elim (validate_bundle bundle) [
    | none ↦ none
    | some errors ↦ if is_empty errors then some bundle else none
  ]
]

unfoldable pub load_matrix : (Fields → String) → Value → Option Value
load_matrix digest doc = verify_seal digest doc
