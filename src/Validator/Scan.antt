-- ===== src/Validator/Scan.antt =====
-- backend/app/services/validator.py: `_scan_param_values`, the loop over an explicit stack. The
-- head of the list is the top of the stack. `sql` is `DESTRUCTIVE_SQL.search`.
use proof_ops.Common.{
  ℕ, zero, suc, ◌+◌, String, Bool, Option, none, some, List, [], ◌∷◌, ◌++◌, if◌then◌else◌,
}
use proof_ops.Contracts.Value.{
  Value, null, flag, num, other, str, sequence, mapping, Items, no_item, item, Fields, no_binding,
  binding,
}
use proof_ops.Validator.Patterns.{has_shell_meta}

-- One step of a dotted path, `cfg.cmd` or `args[0]`.
pub data Segment : Type 0 where
  key : String → Segment
  index : ℕ → Segment

abbrev pub Where : Type 0
Where = List Segment

-- What `validate_action` reports; the last stands for a scan that did not finish.
pub data Issue : Type 0 where
  shell_action not_allowed forbidden runbook_not_pinned no_evidence no_plan : Issue
  bad_replicas bad_image_tag no_rollback : Issue
  shell_meta destructive_sql : Where → Issue
  unfinished : Issue

abbrev pub Stack : Type 0
Stack = List (Value × Where)

-- `for k, v in value.items(): stack.append(...)`
abbrev pub push_fields : Fields → Where → Stack → Stack
push_fields no_binding at stack = stack
push_fields (binding k v fs) at stack = push_fields fs at ((v, at ++ key k ∷ []) ∷ stack)

-- `for i, v in enumerate(value): stack.append(...)`
abbrev pub push_items : ℕ → Items → Where → Stack → Stack
push_items i no_item at stack = stack
push_items i (item v vs) at stack = push_items (suc i) vs at ((v, at ++ index i ∷ []) ∷ stack)

abbrev pub push_children : Value → Where → Stack → Stack
push_children (mapping fs) at stack = push_fields fs at stack
push_children (sequence vs) at stack = push_items 0 vs at stack
push_children _ at stack = stack

module _ (sql : String → Bool) where
  -- The two checks of a text.
  unfoldable pub text_issues : String → Where → List Issue
  text_issues s at =
      (if has_shell_meta s then shell_meta at ∷ [] else [])
      ++ (if sql s then destructive_sql at ∷ [] else [])

  abbrev pub issues_at : Value → Where → List Issue
  issues_at (str s) at = text_issues s at
  issues_at _ at = []

  -- `while stack`, with fuel; nothing when it runs out.
  unfoldable pub scan_loop : ℕ → Stack → List Issue → Option (List Issue)
  scan_loop fuel [] errs = some errs
  scan_loop zero (x ∷ stack) errs = none
  scan_loop (suc fuel) ((v, at) ∷ stack) errs =
      scan_loop fuel (push_children v at stack) (errs ++ issues_at v at)

-- How many values a value holds, itself included: the rounds of the loop.
unfoldable mutual
  pub value_count : Value → ℕ
  value_count (sequence vs) = suc (items_count vs)
  value_count (mapping fs) = suc (fields_count fs)
  value_count null = 1
  value_count (flag _) = 1
  value_count (num _) = 1
  value_count (other _ _) = 1
  value_count (str _) = 1

  pub items_count : Items → ℕ
  items_count no_item = 0
  items_count (item v vs) = value_count v + items_count vs

  pub fields_count : Fields → ℕ
  fields_count no_binding = 0
  fields_count (binding k v fs) = value_count v + fields_count fs

-- `_scan_param_values(p, errs)`
unfoldable pub scan_param_values : (String → Bool) → Fields → List Issue → List Issue
scan_param_values sql p errs =
    elim (scan_loop sql (value_count (mapping p)) ((mapping p, []) ∷ []) errs) [
      | none ↦ unfinished ∷ errs
      | some found ↦ found
    ]
