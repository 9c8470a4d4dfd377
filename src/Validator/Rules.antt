-- ===== src/Validator/Rules.antt =====
-- backend/app/services/validator.py: `validate_action`. Of a runbook only what it reads is kept.
use text.Mathlib.Text.{◌==◌ as str_eq}
use proof_ops.Common.{
  String, Bool, true, false, not, ◌&&◌, ◌||◌, Option, none, some, List, [], ◌∷◌, ◌++◌, leb, any,
  is_empty, if◌then◌else◌,
}
use proof_ops.Contracts.Value.{Value, num, Fields, get, is_no_fields}
use proof_ops.Contracts.Vocabulary.{ActionType, shell, action_name, Action}
use proof_ops.Execution.Numbers.{Casts, str_of}
use proof_ops.Execution.Sandbox.{is_read, is_mutation}
use proof_ops.Validator.Patterns.{is_image_tag}
use proof_ops.Validator.Scan.{
  Issue, shell_action, not_allowed, forbidden, runbook_not_pinned, no_evidence, no_plan,
  bad_replicas, bad_image_tag, no_rollback, scan_param_values,
}

pub record Runbook : Type 0 where
  pub runbook_id : String
  pub version : String
  pub allowed_actions : List ActionType
  pub forbidden_actions : List ActionType

-- `action.action_type in types`
unfoldable pub has_type : ActionType → List ActionType → Bool
has_type t = any (λ u. str_eq (action_name u) (action_name t))

abbrev pub is_shell : ActionType → Bool
is_shell shell = true
is_shell _ = false

abbrev pub unless : Bool → Issue → List Issue
unless true i = []
unless false i = i ∷ []

-- `isinstance(r, int) and not isinstance(r, bool) and 1 <= r <= 10`
abbrev pub is_replica_count : Value → Bool
is_replica_count (num n) = leb 1 n && leb n 10
is_replica_count _ = false

abbrev pub replicas_ok : Option Value → Bool
replicas_ok none = true
replicas_ok (some v) = is_replica_count v

-- `not action.rollback_action`
abbrev pub has_rollback : Option Fields → Bool
has_rollback none = false
has_rollback (some fs) = not (is_no_fields fs)

-- `action.runbook_id == runbook.runbook_id and action.runbook_version == runbook.version`
abbrev pub is_pinned : Action → Runbook → Bool
is_pinned a rb = str_eq a.runbook_id rb.runbook_id && str_eq a.runbook_version rb.version

unfoldable pub runbook_issues : Action → Option Runbook → List Issue
runbook_issues a none = []
runbook_issues a (some rb) =
    unless (has_type a.action_type rb.allowed_actions) not_allowed
    ++ (unless (not (has_type a.action_type rb.forbidden_actions)) forbidden
        ++ unless (is_pinned a rb) runbook_not_pinned)

unfoldable pub mutation_issues : Action → List Issue
mutation_issues a =
    if is_read a.action_type
    then []
    else unless (not (is_empty a.evidence_ids)) no_evidence
      ++ unless (not (is_empty a.verification_plan)) no_plan

module _ (casts : Casts) (sql : String → Bool) where
  abbrev pub image_tag_ok : Option Value → Bool
  image_tag_ok none = true
  image_tag_ok (some v) = is_image_tag (str_of casts v)

  -- Steps 2 to 4, up to the scan.
  unfoldable pub shape_issues : Action → Option Runbook → List Issue
  unfolding runbook_issues mutation_issues
  shape_issues a runbook =
      runbook_issues a runbook
      ++ (mutation_issues a
          ++ (unless (replicas_ok (get "replicas" a.parameters)) bad_replicas
              ++ unless (image_tag_ok (get "image_tag" a.parameters)) bad_image_tag))

  unfoldable pub validate_action : Action → Option Runbook → List Issue
  unfolding shape_issues
  validate_action a runbook =
      if is_shell a.action_type
      then shell_action ∷ []
      else scan_param_values sql a.parameters (shape_issues a runbook)
        ++ unless (not (is_mutation a.action_type) || has_rollback a.rollback_action) no_rollback
