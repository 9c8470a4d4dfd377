-- ===== src/Policy/Decisions.antt =====
-- When the engine allows, escalates and denies.
use proof_ops.Common.{
  String, ◌≡◌, refl, Bool, true, false, Option, none, some, [], arith, eq_iff, is_blank, is_padded,
}
use proof_ops.Contracts.Identifier.{is_identifier}
use proof_ops.Contracts.Value.{Value, Fields, mapping, str, get, or_null, is_text}
use proof_ops.Contracts.Vocabulary.{Action, allow, deny}
use proof_ops.Policy.Bundle.{validate_bundle}
use proof_ops.Policy.Engine.{
  PolicyDecision, is_decision, decide, denial, Blast, blast_big, actor_known, no_hit, hit, deny_hit,
  risk_of, dispatch, escalation, allowance,
}
use proof_ops.Policy.Evaluate.{
  context_matches, authorize, classify, screen, check_matrix, with_bundle, evaluate_raw, evaluate,
  version_text, or_deny,
}

-- What stands between an action and ALLOW: all of it.
pub record IsCleared (a : Action) (actor env_ctx : Value) (blast : Blast) (bundle matrix : Value)
    : Type 0 where
  pub rules : Fields
  pub tables : Fields
  pub tiers : Fields
  pub risk : Value
  pub bundle_object : bundle ≡ mapping rules
  pub bundle_valid : validate_bundle bundle ≡ some []
  pub matrix_object : matrix ≡ mapping tables
  pub matrix_tiers : or_null (get "tiers" tables) ≡ mapping tiers
  pub context : context_matches a env_ctx ≡ some true
  pub undenied : deny_hit a (or_null (get "deny_rules" rules)) ≡ no_hit
  pub tier : risk_of a tiers ≡ some (some risk)
  pub identity : actor_known actor ≡ some true
  pub not_red : is_text "RED" risk ≡ false
  pub not_yellow : is_text "YELLOW" risk ≡ false

module _ (repr : Value → String) where
  decide_same : (d d' : PolicyDecision) → decide d ≡ some d' → d' ≡ d
  unfolding decide
  decide_same d d' h = ground arith

  denied :
      (r v m : String) (d : PolicyDecision) → decide (denial r v m) ≡ some d → d.decision ≡ deny
  unfolding decide denial
  denied r v m d h = ground arith

  dispatch_allow :
      (a : Action) (b tables : Fields) (v : String) (risk : Value) (big : Bool) {d : PolicyDecision}
      → dispatch repr a b tables v risk big ≡ some d
      → d.decision ≡ allow
      → (is_text "RED" risk ≡ false) × (is_text "YELLOW" risk ≡ false)
  unfolding dispatch escalation decide denial
  dispatch_allow a b tables v risk big h k = ground arith

  authorize_allow :
      (a : Action) (actor : Value) (blast : Blast) (b tables : Fields) (v : String) (risk : Value)
      {d : PolicyDecision}
      → authorize repr a actor blast b tables v risk ≡ some d
      → d.decision ≡ allow
      → (actor_known actor ≡ some true)
        × (is_text "RED" risk ≡ false)
        × (is_text "YELLOW" risk ≡ false)
  unfolding authorize decide denial
  authorize_allow a actor blast b tables v risk {d} h k = ground (
    arith,
    dispatch_allow a b tables v risk true {d = d},
    dispatch_allow a b tables v risk false {d = d},
  )

  classify_allow :
      (a : Action) (actor : Value) (blast : Blast) (b tables tiers : Fields) (v : String)
      {d : PolicyDecision}
      → classify repr a actor blast b tables tiers v ≡ some d
      → d.decision ≡ allow
      → (risk : Value) × (risk_of a tiers ≡ some (some risk))
        × (authorize repr a actor blast b tables v risk ≡ some d)
  unfolding classify decide denial
  classify_allow a actor blast b tables tiers v h k = ground arith

  screen_allow :
      (a : Action) (actor env_ctx : Value) (blast : Blast) (b tables tiers : Fields) (v : String)
      {d : PolicyDecision}
      → screen repr a actor env_ctx blast b tables tiers v ≡ some d
      → d.decision ≡ allow
      → (context_matches a env_ctx ≡ some true)
        × (deny_hit a (or_null (get "deny_rules" b)) ≡ no_hit)
        × (classify repr a actor blast b tables tiers v ≡ some d)
  unfolding screen decide denial
  screen_allow a actor env_ctx blast b tables tiers v h k = ground arith

  check_matrix_allow :
      (a : Action) (actor env_ctx : Value) (blast : Blast) (b : Fields) (m : Value) (v : String)
      {d : PolicyDecision}
      → check_matrix repr a actor env_ctx blast b m v ≡ some d
      → d.decision ≡ allow
      → (tables : Fields) × (tiers : Fields) × (m ≡ mapping tables)
        × (or_null (get "tiers" tables) ≡ mapping tiers)
        × (screen repr a actor env_ctx blast b tables tiers v ≡ some d)
  unfolding check_matrix decide denial
  check_matrix_allow a actor env_ctx blast b m v h k = ground arith

  raw_allow :
      (a : Action) (actor env_ctx : Value) (blast : Blast) (bundle m : Value) {d : PolicyDecision}
      → evaluate_raw repr a actor env_ctx blast bundle m ≡ some d
      → d.decision ≡ allow
      → (rules : Fields) × (bundle ≡ mapping rules)
        × (validate_bundle bundle ≡ some [])
        × (check_matrix repr a actor env_ctx blast rules m
              (version_text (or_null (get "policy_version" rules)))
            ≡ some d)
  unfolding evaluate_raw with_bundle decide denial
  raw_allow a actor env_ctx blast bundle m h k = ground arith

  or_deny_allow :
      (o : Option PolicyDecision)
      → (or_deny repr o).decision ≡ allow
      → (d : PolicyDecision) × (o ≡ some d) × (d.decision ≡ allow)
  unfolding denial
  or_deny_allow none h = cc
  or_deny_allow (some d) h = (d, refl, h)

  -- ALLOW means that every gate was passed: a valid bundle, a matrix with tiers, an environment
  -- context that matches, no deny rule, a tier for the action, a known role, and a risk that is
  -- neither RED nor YELLOW.
  pub allow_cleared :
      (a : Action) (actor env_ctx : Value) (blast : Blast) (bundle matrix : Value)
      → (evaluate repr a actor env_ctx blast bundle matrix).decision ≡ allow
      → IsCleared a actor env_ctx blast bundle matrix
  unfolding evaluate
  allow_cleared a actor env_ctx blast bundle matrix h =
      let (d, e, k) = or_deny_allow (evaluate_raw repr a actor env_ctx blast bundle matrix) h in
      let (rules, bundle_object, bundle_valid, e₁) =
        raw_allow a actor env_ctx blast bundle matrix e k in
      let v = version_text (or_null (get "policy_version" rules)) in
      let (tables, tiers, matrix_object, matrix_tiers, e₂) =
        check_matrix_allow a actor env_ctx blast rules matrix v e₁ k in
      let (context, undenied, e₃) = screen_allow a actor env_ctx blast rules tables tiers v e₂ k in
      let (risk, tier, e₄) = classify_allow a actor blast rules tables tiers v e₃ k in
      let (identity, not_red, not_yellow) =
        authorize_allow a actor blast rules tables v risk e₄ k in
      record {
        rules = rules;
        tables = tables;
        tiers = tiers;
        risk = risk;
        bundle_object = bundle_object;
        bundle_valid = bundle_valid;
        matrix_object = matrix_object;
        matrix_tiers = matrix_tiers;
        context = context;
        undenied = undenied;
        tier = tier;
        identity = identity;
        not_red = not_red;
        not_yellow = not_yellow;
      }

  allow_id : is_identifier 128 "ALLOW-risk-GREEN" ≡ true
  unfolding is_identifier is_blank is_padded
  allow_id = refl

  allowance_allows :
      (v : String) → is_identifier 64 v ≡ true → (or_deny repr (allowance repr v)).decision ≡ allow
  unfolding allowance decide is_decision
  allowance_allows v h = ground (arith, allow_id)

  -- A risk tier that is none of the three names is let through: where every gate is passed and the
  -- tier of the matrix is neither GREEN, YELLOW nor RED, the decision is ALLOW.
  pub unknown_tier_allowed :
      (a : Action) (actor env_ctx : Value) (blast : Blast) (bundle matrix : Value) (big : Bool)
      → (c : IsCleared a actor env_ctx blast bundle matrix) → is_text "GREEN" c.risk ≡ false
      → blast_big blast ≡ some big
      → is_identifier 64 (version_text (or_null (get "policy_version" c.rules))) ≡ true
      → (evaluate repr a actor env_ctx blast bundle matrix).decision ≡ allow
  unfolding evaluate evaluate_raw with_bundle check_matrix screen classify authorize dispatch
  unknown_tier_allowed a actor env_ctx blast bundle matrix big c g bb v =
      ground (arith, allowance_allows (version_text (or_null (get "policy_version" c.rules))))

  -- A deny rule wins: with a valid bundle, a matrix with tiers and a context that matches, an
  -- action that a rule matches is denied, whatever its tier, the actor and the blast radius are.
  pub deny_rule_wins :
      (a : Action) (actor env_ctx : Value) (blast : Blast) (rules tables tiers : Fields)
      (i m : String)
      → validate_bundle (mapping rules) ≡ some []
      → or_null (get "tiers" tables) ≡ mapping tiers
      → context_matches a env_ctx ≡ some true
      → deny_hit a (or_null (get "deny_rules" rules)) ≡ hit i m
      → (evaluate repr a actor env_ctx blast (mapping rules) (mapping tables)).decision ≡ deny
  unfolding evaluate evaluate_raw with_bundle check_matrix screen decide denial
  deny_rule_wins a actor env_ctx blast rules tables tiers i m b t c h = ground arith

  red_not_green : (risk : Value) → is_text "RED" risk ≡ true → is_text "GREEN" risk ≡ false
  unfolding is_text
  red_not_green (str t) h = rw ((eq_iff t "RED").0 h) refl
  red_not_green _ h = cc

  dispatch_red :
      (a : Action) (b tables : Fields) (v : String) (risk : Value) (big : Bool)
      → is_text "RED" risk ≡ true
      → (or_deny repr (dispatch repr a b tables v risk big)).decision ≡ deny
  unfolding dispatch decide denial
  dispatch_red a b tables v risk big h = ground (arith, red_not_green risk)

  authorize_red :
      (a : Action) (actor : Value) (blast : Blast) (b tables : Fields) (v : String) (risk : Value)
      → is_text "RED" risk ≡ true
      → (or_deny repr (authorize repr a actor blast b tables v risk)).decision ≡ deny
  unfolding authorize decide denial
  authorize_red a actor blast b tables v risk h =
      ground (arith, dispatch_red a b tables v risk true, dispatch_red a b tables v risk false)

  -- A RED action is denied, whoever asks, whatever the context, the blast radius and the bundle.
  pub red_denied :
      (a : Action) (actor env_ctx : Value) (blast : Blast) (bundle : Value) (tables tiers : Fields)
      (risk : Value)
      → or_null (get "tiers" tables) ≡ mapping tiers
      → risk_of a tiers ≡ some (some risk)
      → is_text "RED" risk ≡ true
      → (evaluate repr a actor env_ctx blast bundle (mapping tables)).decision ≡ deny
  unfolding evaluate evaluate_raw with_bundle check_matrix screen classify decide denial
  red_denied a actor env_ctx blast (mapping b) tables tiers risk t r x = ground (
    arith,
    authorize_red a actor blast b tables (version_text (or_null (get "policy_version" b))) risk,
  )
  red_denied a actor env_ctx blast _ tables tiers risk t r x = ground arith
