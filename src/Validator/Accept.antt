-- ===== src/Validator/Accept.antt =====
-- What the validator accepts.
use proof_ops.Common.{
  String, ◌≡◌, ◌↔◌, refl, sym, ◌∙◌, Bool, true, false, not, ◌&&◌, ◌||◌, Option, none, some, List,
  [], ◌∷◌, ◌++◌, arith, is_empty, inl, inr, Bool-cases,
}
use proof_ops.Contracts.Value.{get}
use proof_ops.Contracts.Vocabulary.{Action}
use proof_ops.Execution.Numbers.{Casts}
use proof_ops.Execution.Sandbox.{is_read, is_mutation}
use proof_ops.Validator.Scan.{Issue, bad_replicas, bad_image_tag, no_rollback, scan_param_values}
use proof_ops.Validator.Search.{fields_clean, scan_param_values-clean}
use proof_ops.Validator.Rules.{
  Runbook, has_type, is_shell, unless, is_pinned, replicas_ok, image_tag_ok, has_rollback,
  runbook_issues, mutation_issues, shape_issues, validate_action,
}

-- The runbook, where there is one, allows the type, does not forbid it, and is the one pinned.
abbrev pub is_governed : Action → Option Runbook → Bool
is_governed a none = true
is_governed a (some rb) =
    has_type a.action_type rb.allowed_actions
    && not (has_type a.action_type rb.forbidden_actions)
    && is_pinned a rb

-- What an action needs to go on to policy.
pub record IsAcceptable (casts : Casts) (sql : String → Bool) (a : Action)
    (runbook : Option Runbook) : Type 0 where
  pub no_shell : is_shell a.action_type ≡ false
  pub governed : is_governed a runbook ≡ true
  pub grounded :
      is_read a.action_type || not (is_empty a.evidence_ids) && not (is_empty a.verification_plan)
      ≡ true
  pub replicas : replicas_ok (get "replicas" a.parameters) ≡ true
  pub image_tag : image_tag_ok casts sql (get "image_tag" a.parameters) ≡ true
  pub clean : fields_clean sql a.parameters ≡ true
  pub reversible : not (is_mutation a.action_type) || has_rollback a.rollback_action ≡ true

split-append : (xs ys : List Issue) → xs ++ ys ≡ [] → (xs ≡ []) × (ys ≡ [])
split-append [] ys h = (refl, h)
split-append (x ∷ xs) ys h = cc

joined : {xs ys : List Issue} → xs ≡ [] → ys ≡ [] → xs ++ ys ≡ []
joined h k = rw (h, k) refl

passes_unless : {b : Bool} (i : Issue) → b ≡ true → unless b i ≡ []
passes_unless i h = rw h refl

-- A rule reports nothing exactly when its test passes.
unless_passes : (b : Bool) (i : Issue) → unless b i ≡ [] → b ≡ true
unless_passes true i h = refl
unless_passes false i h = cc

governed_iff :
    (a : Action) (rb : Option Runbook) → (runbook_issues a rb ≡ []) ↔ (is_governed a rb ≡ true)
unfolding runbook_issues
governed_iff a none = (λ h. refl, λ h. refl)
governed_iff a (some rb) = (λ h. ground arith, λ h. ground arith)

grounded_iff :
    (a : Action)
    → (mutation_issues a ≡ []) ↔ (
        is_read a.action_type || not (is_empty a.evidence_ids) && not (is_empty a.verification_plan)
        ≡ true)
unfolding mutation_issues
grounded_iff a = (λ h. ground arith, λ h. ground arith)

module _ (casts : Casts) (sql : String → Bool) (a : Action) (rb : Option Runbook) where
  shape_iff : (shape_issues casts sql a rb ≡ []) ↔ (
      (is_governed a rb ≡ true)
      × (is_read a.action_type
            || not (is_empty a.evidence_ids) && not (is_empty a.verification_plan)
          ≡ true)
      × (replicas_ok (get "replicas" a.parameters) ≡ true)
      × (image_tag_ok casts sql (get "image_tag" a.parameters) ≡ true))
  unfolding shape_issues
  shape_iff = (
    λ h.
        let (g, h₁) =
          split-append (runbook_issues a rb)
            (mutation_issues a
              ++ (unless (replicas_ok (get "replicas" a.parameters)) bad_replicas
                  ++ unless (image_tag_ok casts sql (get "image_tag" a.parameters)) bad_image_tag))
            h in
        let (m, h₂) =
          split-append (mutation_issues a)
            (unless (replicas_ok (get "replicas" a.parameters)) bad_replicas
              ++ unless (image_tag_ok casts sql (get "image_tag" a.parameters)) bad_image_tag)
            h₁ in
        let (r, t) =
          split-append (unless (replicas_ok (get "replicas" a.parameters)) bad_replicas)
            (unless (image_tag_ok casts sql (get "image_tag" a.parameters)) bad_image_tag) h₂ in
        ((governed_iff a rb).0 g, (grounded_iff a).0 m, unless_passes _ _ r, unless_passes _ _ t),
    λ (g, m, r, t). joined ((governed_iff a rb).1 g) (
        joined ((grounded_iff a).1 m)
          (joined (passes_unless bad_replicas r) (passes_unless bad_image_tag t))),
  )

  -- The validator reports nothing exactly when the action is acceptable: no shell, within the
  -- runbook that it pins, with evidence and a verification plan if it changes anything, replicas
  -- between 1 and 10, a well-formed image tag, no shell character or destructive SQL anywhere in
  -- its parameters, and a rollback if its type is reversible.
  pub validate_action_exact : (validate_action casts sql a rb ≡ []) ↔ IsAcceptable casts sql a rb
  unfolding validate_action
  validate_action_exact =
      let (found, e, k) = scan_param_values-clean sql a.parameters (shape_issues casts sql a rb) in
      elim (Bool-cases (is_shell a.action_type)) [
        | inl s ↦ (λ h. ground arith, λ g. ground (arith, g))
        | inr s ↦ (
          λ h.
              let (p, q) =
                split-append (scan_param_values sql a.parameters (shape_issues casts sql a rb))
                  (unless (not (is_mutation a.action_type) || has_rollback a.rollback_action)
                    no_rollback)
                  (rw s at h) in
              let (u, v) = split-append (shape_issues casts sql a rb) found (sym e ∙ p) in
              let (g, m, r, t) = shape_iff.0 u in
              record {
                no_shell = s;
                governed = g;
                grounded = m;
                replicas = r;
                image_tag = t;
                clean = k.0 v;
                reversible = unless_passes _ _ q;
              },
          λ g. rw s (
              joined
                (e
                  ∙ joined (shape_iff.1 (g.governed, g.grounded, g.replicas, g.image_tag))
                      (k.1 g.clean))
                (passes_unless no_rollback g.reversible)),
        )
      ]
