-- ===== src/Validator/Search.antt =====
-- The scan ends, and finds what a walk over the value finds.
use proof_ops.Common.{
  ℕ, zero, suc, ◌+◌, ◌≤◌, ◌<◌, ◌≡◌, ◌↔◌, refl, sym, ap, ◌∙◌, String, Bool, true, not, ◌&&◌, some,
  List, [], ◌∷◌, ◌++◌, append-nil, append_assoc, arith,
}
use proof_ops.Contracts.Value.{
  Value, null, flag, num, other, str, sequence, mapping, Items, no_item, item, Fields, no_binding,
  binding,
}
use proof_ops.Validator.Patterns.{has_shell_meta}
use proof_ops.Validator.Scan.{
  key, index, Where, Issue, Stack, push_fields, push_items, push_children, text_issues, issues_at,
  scan_loop, value_count, items_count, fields_count, scan_param_values,
}

module _ (sql : String → Bool) where
  -- The walk that the loop makes, children from the last to the first.
  mutual
    walk : Value → Where → List Issue
    walk (sequence vs) at = walk_items 0 vs at
    walk (mapping fs) at = walk_fields fs at
    walk (str s) at = text_issues sql s at
    walk null at = []
    walk (flag _) at = []
    walk (num _) at = []
    walk (other _ _) at = []

    walk_items : ℕ → Items → Where → List Issue
    walk_items i no_item at = []
    walk_items i (item v vs) at = walk_items (suc i) vs at ++ walk v (at ++ index i ∷ [])

    walk_fields : Fields → Where → List Issue
    walk_fields no_binding at = []
    walk_fields (binding k v fs) at = walk_fields fs at ++ walk v (at ++ key k ∷ [])

  walk_stack : Stack → List Issue
  walk_stack [] = []
  walk_stack ((v, at) ∷ stack) = walk v at ++ walk_stack stack

  stack_count : Stack → ℕ
  stack_count [] = 0
  stack_count ((v, at) ∷ stack) = value_count v + stack_count stack

  walk_stack-push_fields :
      (fs : Fields) (at : Where) (stack : Stack)
      → walk_stack (push_fields fs at stack) ≡ walk_fields fs at ++ walk_stack stack
  unfolding walk_stack walk
  walk_stack-push_fields no_binding at stack = refl
  walk_stack-push_fields (binding k v fs) at stack =
      walk_stack-push_fields fs at ((v, at ++ key k ∷ []) ∷ stack)
      ∙ sym (append_assoc (walk_fields fs at) (walk v (at ++ key k ∷ [])) (walk_stack stack))

  walk_stack-push_items :
      (i : ℕ) (vs : Items) (at : Where) (stack : Stack)
      → walk_stack (push_items i vs at stack) ≡ walk_items i vs at ++ walk_stack stack
  unfolding walk_stack walk
  walk_stack-push_items i no_item at stack = refl
  walk_stack-push_items i (item v vs) at stack =
      walk_stack-push_items (suc i) vs at ((v, at ++ index i ∷ []) ∷ stack)
      ∙ sym
          (append_assoc (walk_items (suc i) vs at) (walk v (at ++ index i ∷ [])) (walk_stack stack))

  count-push_fields :
      (fs : Fields) (at : Where) (stack : Stack)
      → stack_count (push_fields fs at stack) ≡ fields_count fs + stack_count stack
  unfolding stack_count value_count
  count-push_fields no_binding at stack = omega arith
  count-push_fields (binding k v fs) at stack =
      omega (arith, count-push_fields fs at ((v, at ++ key k ∷ []) ∷ stack))

  count-push_items :
      (i : ℕ) (vs : Items) (at : Where) (stack : Stack)
      → stack_count (push_items i vs at stack) ≡ items_count vs + stack_count stack
  unfolding stack_count value_count
  count-push_items i no_item at stack = omega arith
  count-push_items i (item v vs) at stack =
      omega (arith, count-push_items (suc i) vs at ((v, at ++ index i ∷ []) ∷ stack))

  walk_round :
      (v : Value) (at : Where) (stack : Stack)
      → issues_at sql v at ++ walk_stack (push_children v at stack) ≡ walk v at ++ walk_stack stack
  unfolding walk
  walk_round (sequence vs) at stack = walk_stack-push_items 0 vs at stack
  walk_round (mapping fs) at stack = walk_stack-push_fields fs at stack
  walk_round (str s) at stack = refl
  walk_round _ at stack = refl

  count_round :
      (v : Value) (at : Where) (stack : Stack)
      → suc (stack_count (push_children v at stack)) ≡ value_count v + stack_count stack
  unfolding value_count
  count_round (sequence vs) at stack = omega (arith, count-push_items 0 vs at stack)
  count_round (mapping fs) at stack = omega (arith, count-push_fields fs at stack)
  count_round _ at stack = omega arith

  value_count-pos : (v : Value) → 0 < value_count v
  unfolding value_count
  value_count-pos (sequence vs) = omega arith
  value_count-pos _ = omega arith

  scan_loop_ends :
      (fuel : ℕ) (stack : Stack) (errs : List Issue)
      → stack_count stack ≤ fuel
      → scan_loop sql fuel stack errs ≡ some (errs ++ walk_stack stack)
  unfolding scan_loop stack_count walk_stack
  scan_loop_ends fuel [] errs h = ap some (sym (append-nil errs))
  scan_loop_ends zero ((v, at) ∷ stack) errs h = absurd (omega (arith, value_count-pos v))
  scan_loop_ends (suc fuel) ((v, at) ∷ stack) errs h =
      scan_loop_ends fuel (push_children v at stack) (errs ++ issues_at sql v at)
        (omega (arith, count_round v at stack))
      ∙ ap some (
          append_assoc errs (issues_at sql v at) (walk_stack (push_children v at stack))
          ∙ ap (λ q. errs ++ q) (walk_round v at stack))

  -- Every text in a value passes both patterns.
  mutual
    is_clean : Value → Bool
    is_clean (sequence vs) = are_clean vs
    is_clean (mapping fs) = fields_clean fs
    is_clean (str s) = not (has_shell_meta s) && not (sql s)
    is_clean null = true
    is_clean (flag _) = true
    is_clean (num _) = true
    is_clean (other _ _) = true

    are_clean : Items → Bool
    are_clean no_item = true
    are_clean (item v vs) = is_clean v && are_clean vs

    pub fields_clean : Fields → Bool
    fields_clean no_binding = true
    fields_clean (binding k v fs) = is_clean v && fields_clean fs

  split-append : (xs ys : List Issue) → xs ++ ys ≡ [] → (xs ≡ []) × (ys ≡ [])
  split-append [] ys h = (refl, h)
  split-append (x ∷ xs) ys h = cc

  mutual
    unfolding walk is_clean text_issues

    walk_clean : (v : Value) (at : Where) → walk v at ≡ [] → is_clean v ≡ true
    walk_clean (sequence vs) at h = items_walk_clean 0 vs at h
    walk_clean (mapping fs) at h = fields_walk_clean fs at h
    walk_clean (str s) at h = ground arith
    walk_clean null at h = refl
    walk_clean (flag b) at h = refl
    walk_clean (num n) at h = refl
    walk_clean (other t b) at h = refl

    items_walk_clean :
        (i : ℕ) (vs : Items) (at : Where) → walk_items i vs at ≡ [] → are_clean vs ≡ true
    items_walk_clean i no_item at h = refl
    items_walk_clean i (item v vs) at h =
        let (later, here) =
          split-append (walk_items (suc i) vs at) (walk v (at ++ index i ∷ [])) h in
        rw (walk_clean v (at ++ index i ∷ []) here) (items_walk_clean (suc i) vs at later)

    fields_walk_clean : (fs : Fields) (at : Where) → walk_fields fs at ≡ [] → fields_clean fs ≡ true
    fields_walk_clean no_binding at h = refl
    fields_walk_clean (binding k v fs) at h =
        let (later, here) = split-append (walk_fields fs at) (walk v (at ++ key k ∷ [])) h in
        rw (walk_clean v (at ++ key k ∷ []) here) (fields_walk_clean fs at later)

  mutual
    unfolding walk is_clean text_issues

    clean_walk : (v : Value) (at : Where) → is_clean v ≡ true → walk v at ≡ []
    clean_walk (sequence vs) at h = clean_items_walk 0 vs at h
    clean_walk (mapping fs) at h = clean_fields_walk fs at h
    clean_walk (str s) at h = ground arith
    clean_walk null at h = refl
    clean_walk (flag b) at h = refl
    clean_walk (num n) at h = refl
    clean_walk (other t b) at h = refl

    clean_items_walk :
        (i : ℕ) (vs : Items) (at : Where) → are_clean vs ≡ true → walk_items i vs at ≡ []
    clean_items_walk i no_item at h = refl
    clean_items_walk i (item v vs) at h =
        ground (arith, clean_items_walk (suc i) vs at, clean_walk v (at ++ index i ∷ []))

    clean_fields_walk : (fs : Fields) (at : Where) → fields_clean fs ≡ true → walk_fields fs at ≡ []
    clean_fields_walk no_binding at h = refl
    clean_fields_walk (binding k v fs) at h =
        ground (arith, clean_fields_walk fs at, clean_walk v (at ++ key k ∷ []))

  -- The scan ends, whatever the parameters hold: as many rounds as there are values in them are
  -- enough, the issues found before are kept, and it adds none exactly when every text in the
  -- parameters, however deep, has no shell character and no destructive SQL.
  pub scan_ends :
      (p : Fields) (errs : List Issue)
      → (found : List Issue) × (scan_loop sql (value_count (mapping p)) ((mapping p, []) ∷ []) errs
          ≡ some (errs ++ found))
        × ((found ≡ []) ↔ (fields_clean p ≡ true))
  unfolding walk_stack stack_count fields_clean is_clean
  scan_ends p errs = (
    walk (mapping p) [] ++ [],
    scan_loop_ends (value_count (mapping p)) ((mapping p, []) ∷ []) errs (omega arith),
    (
      λ e. walk_clean (mapping p) [] (sym (append-nil (walk (mapping p) [])) ∙ e),
      λ c. append-nil (walk (mapping p) []) ∙ clean_walk (mapping p) [] c,
    ),
  )

  pub scan_param_values-clean :
      (p : Fields) (errs : List Issue)
      → (found : List Issue) × (scan_param_values sql p errs ≡ errs ++ found)
        × ((found ≡ []) ↔ (fields_clean p ≡ true))
  unfolding scan_param_values
  scan_param_values-clean p errs =
      let (found, e, k) = scan_ends p errs in (found, rw (e, scan_param_values) refl, k)
