-- ===== src/Policy/Engine.antt =====
-- backend/app/services/policy.py: `evaluate` and the contract of its result.
-- An exception inside the engine is `none`; `evaluate` turns it into DENY. `repr` is Python's
-- `str` of a value. The parts of a message that only repeat a value are left out.
use Prim.Native.String.{◌++◌ as str_append}
use text.Mathlib.Text.{◌==◌ as str_eq}
use proof_ops.Common.{
  ℕ, String, Bool, true, false, ◌&&◌, ◌||◌, Option, none, some, List, [], ◌∷◌, ◌++◌, ltb, leb,
  length, all, fits_in, if◌then◌else◌,
}
use proof_ops.Contracts.Identifier.{is_identifier}
use proof_ops.Contracts.Value.{
  Value, str, sequence, mapping, Items, no_item, item, Fields, get, or_null, is_truthy, is_text,
  has_text,
}
use proof_ops.Contracts.Vocabulary.{
  Action, action_name, environment_name, RiskLevel, green, yellow, red, Decision, allow, escalate,
  deny,
}
use proof_ops.Policy.Bundle.{rule_matches}

pub record PolicyDecision : Type 0 where
  pub decision : Decision
  pub rule_id : String
  pub policy_version : String
  pub effective_risk : RiskLevel
  pub obligations : List String
  pub ttl_seconds : ℕ
  pub message : String

-- The field validators of contracts/policy.py.
unfoldable pub is_decision : PolicyDecision → Bool
is_decision d =
    is_identifier 128 d.rule_id
    && is_identifier 64 d.policy_version
    && leb (length d.obligations) 32
    && all (is_identifier 1024) d.obligations
    && leb d.ttl_seconds 86400
    && fits_in 4096 d.message

-- Construction raises for a decision that the contract refuses.
unfoldable pub decide : PolicyDecision → Option PolicyDecision
decide d = if is_decision d then some d else none

unfoldable pub denial : String → String → String → PolicyDecision
denial rule version message = record {
  decision = deny;
  rule_id = rule;
  policy_version = version;
  effective_risk = red;
  obligations = [];
  ttl_seconds = 600;
  message = message;
}

-- The blast context after `int` and `float`; `none` where the conversion raises. The traffic share
-- is in millionths.
pub record Blast : Type 0 where
  pub replicas : Option ℕ
  pub traffic : Option ℕ

unfoldable pub blast_big : Blast → Option Bool
blast_big b = elim b.replicas [
  | none ↦ none
  | some r ↦
      if ltb 4 r then some true else elim b.traffic [ none ↦ none | some t ↦ some (ltb 500000 t) ]
]

-- `{"viewer": 0, "approver": 1, "admin": 2}.get(role, -1) >= 0`
unfoldable pub known_role : Value → Option Bool
known_role (str s) = some (str_eq s "viewer" || str_eq s "approver" || str_eq s "admin")
known_role (sequence _) = none
known_role (mapping _) = none
known_role _ = some false

-- `actor.get("role")`
unfoldable pub actor_known : Value → Option Bool
actor_known (mapping a) = known_role (or_null (get "role" a))
actor_known _ = none

-- What the bundle's rules say of an action.
pub data RuleHit : Type 0 where
  no_hit crash : RuleHit
  hit : String → String → RuleHit

abbrev pub message_of : String → Option Value → RuleHit
message_of i none = hit i ""
message_of i (some (str m)) = hit i m
message_of i (some _) = crash

abbrev pub named_hit : Fields → Option Value → RuleHit
named_hit rule (some (str i)) = message_of i (get "message" rule)
named_hit rule _ = crash

-- One rule: does its `when` match, and what does it say then?
unfoldable pub rule_hit : Action → Value → RuleHit
rule_hit a (mapping rule) = elim (or_null (get "when" rule)) [
  | mapping conditions ↦
      if rule_matches a conditions then named_hit rule (get "id" rule) else no_hit
  | _ ↦ crash
]
rule_hit a _ = crash

-- The first rule that matches.
unfoldable pub first_hit : Action → Items → RuleHit
first_hit a no_item = no_hit
first_hit a (item r rs) =
    let rest = first_hit a rs in
    elim (rule_hit a r) [ no_hit ↦ rest | crash ↦ crash | hit i m ↦ hit i m ]

unfoldable pub deny_hit : Action → Value → RuleHit
deny_hit a (sequence rules) = first_hit a rules
deny_hit a _ = crash

-- `tiers.get(action_type)` and `entry.get(environment, "RED")`: nothing for an unknown type,
-- `some none` for an entry that is no mapping.
unfoldable pub risk_of : Action → Fields → Option (Option Value)
risk_of a tiers =
    let entry = or_null (get (action_name a.action_type) tiers) in
    if is_truthy entry
    then elim entry [
      | mapping tier ↦ elim (get (environment_name a.environment) tier) [
        | none ↦ some (some (str "RED"))
        | some risk ↦ some (some risk)
      ]
      | _ ↦ some none
    ]
    else none

has_unhashable : Items → Bool
has_unhashable no_item = false
has_unhashable (item (sequence _) vs) = true
has_unhashable (item (mapping _) vs) = true
has_unhashable (item _ vs) = has_unhashable vs

-- `action_type in set(matrix.get("reversible", []))`; a text is the set of its characters.
unfoldable pub is_reversible : Action → Option Value → Option Bool
unfolding has_unhashable
is_reversible a none = some false
is_reversible a (some (sequence vs)) =
    if has_unhashable vs then none else some (has_text (action_name a.action_type) vs)
is_reversible a (some (mapping fs)) =
    some (elim (get (action_name a.action_type) fs) [ none ↦ false | some _ ↦ true ])
is_reversible a (some (str s)) = some false
is_reversible a (some _) = none

-- The texts of `escalate_obligations`, all of them texts in a valid bundle.
abbrev pub texts : Items → List String
texts no_item = []
texts (item (str s) vs) = s ∷ texts vs
texts (item _ vs) = texts vs

abbrev pub obligations_of : Option Value → List String
obligations_of (some (sequence vs)) = texts vs
obligations_of _ = []

module _ (repr : Value → String) where
  -- `str(v)`: a text stands for itself.
  abbrev pub shown : Value → String
  shown (str s) = s
  shown v = repr v

  -- `f"required_role:{roles.get('YELLOW', 'approver')}"`
  unfoldable pub role_obligation : Option Value → Option String
  role_obligation none = some "required_role:approver"
  role_obligation (some (mapping roles)) = some (
      str_append "required_role:"
        (elim (get "YELLOW" roles) [ none ↦ "approver" | some v ↦ shown v ]))
  role_obligation (some _) = none

  unfoldable pub escalation :
      String → String → RiskLevel → List String → Option String → String → Option PolicyDecision
  escalation rule version risk obligations none message = none
  escalation rule version risk obligations (some role) message = decide (record {
    decision = escalate;
    rule_id = rule;
    policy_version = version;
    effective_risk = risk;
    obligations = obligations ++ role ∷ [];
    ttl_seconds = 600;
    message = message;
  })

  unfoldable pub allowance : String → Option PolicyDecision
  allowance version = decide (record {
    decision = allow;
    rule_id = "ALLOW-risk-GREEN";
    policy_version = version;
    effective_risk = green;
    obligations = [];
    ttl_seconds = 600;
    message = "read-only / low-risk operation";
  })

  -- Steps 4 and 5: the blast override and the dispatch on the risk.
  unfoldable pub dispatch : Action → Fields → Fields → String → Value → Bool → Option PolicyDecision
  dispatch a b matrix version risk big =
      let obligations = obligations_of (get "escalate_obligations" b) in
      let role = role_obligation (get "roles" matrix) in
      let override = is_text "GREEN" risk && big in
      let plain =
        if is_text "RED" risk
        then decide (denial "DENY-risk-RED" version "RED actions are blocked")
        else if is_text "YELLOW" risk
        then escalation "ESCALATE-risk-YELLOW" version yellow
            (if big then obligations ++ "blast-review" ∷ [] else obligations) role
            "controlled mutation requires HITL approval"
        else allowance version in
      if override
      then elim (is_reversible a (get "reversible" matrix)) [
        | none ↦ none
        | some true ↦
            escalation "ESCALATE-blast-override" version green (obligations ++ "blast-review" ∷ [])
              role "green-tier mutation with oversized blast radius requires review"
        | some false ↦ plain
      ]
      else plain
