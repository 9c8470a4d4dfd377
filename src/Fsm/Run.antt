-- ===== src/Fsm/Run.antt =====
-- backend/app/services/fsm.py: the records of a run, the constants and the transition table.
-- Times are whole ticks of the caller's clock; `float` values that are no numbers are left out.
use proof_ops.Common.{
  ℕ, String, Bool, true, false, ◌||◌, Option, none, some, List, [], ◌∷◌, ltb, any, if◌then◌else◌,
  is_blank, Result, ok, err,
}
use proof_ops.Contracts.Enums.{
  IncidentStatus, new, triaging, correlated, investigating, diagnosing, planned, policy_check,
  blocked, awaiting_approval, approved, executing, verifying, resolved, rollback, escalated,
  rca_pending, rca_published, audited, status_eq,
}

-- Every `raise` of the file, one constructor for each message.
pub data Rejection : Type 0 where
  terminal_exit edge_not_allowed blank_ref replans_exhausted : Rejection
  deny_reason_missing rollback_repeated gate_refs_missing : Rejection
  permit_required permit_expired permit_replayed permit_pending : Rejection
  permit_misplaced permit_missing permit_blank : Rejection
  ttl_not_positive blank_id unknown_agent handoff_not_allowed : Rejection
  refs_required : Rejection

-- The exception class of a rejection.
pub data ErrorClass : Type 0 where
  fsm_error invalid_transition permit_rejected : ErrorClass

abbrev pub class_of : Rejection → ErrorClass
class_of terminal_exit = invalid_transition
class_of edge_not_allowed = invalid_transition
class_of blank_ref = invalid_transition
class_of replans_exhausted = invalid_transition
class_of deny_reason_missing = invalid_transition
class_of rollback_repeated = invalid_transition
class_of gate_refs_missing = invalid_transition
class_of permit_required = permit_rejected
class_of permit_expired = permit_rejected
class_of permit_replayed = permit_rejected
class_of permit_pending = permit_rejected
class_of permit_misplaced = permit_rejected
class_of permit_missing = permit_rejected
class_of permit_blank = permit_rejected
class_of _ = fsm_error

-- `TERMINAL`
abbrev pub is_terminal : IncidentStatus → Bool
is_terminal blocked = true
is_terminal audited = true
is_terminal _ = false

-- `TRANSITIONS`
abbrev pub transitions : IncidentStatus → List IncidentStatus
transitions new = triaging ∷ []
transitions triaging = correlated ∷ escalated ∷ []
transitions correlated = investigating ∷ escalated ∷ []
transitions investigating = diagnosing ∷ escalated ∷ []
transitions diagnosing = planned ∷ escalated ∷ []
transitions planned = policy_check ∷ diagnosing ∷ escalated ∷ []
transitions policy_check = blocked ∷ awaiting_approval ∷ approved ∷ []
transitions blocked = []
transitions awaiting_approval = approved ∷ escalated ∷ []
transitions approved = executing ∷ []
transitions executing = verifying ∷ []
transitions verifying = resolved ∷ rollback ∷ escalated ∷ []
transitions rollback = verifying ∷ []
transitions resolved = rca_pending ∷ []
transitions escalated = rca_pending ∷ []
transitions rca_pending = rca_published ∷ []
transitions rca_published = audited ∷ []
transitions audited = []

-- `to in TRANSITIONS[frm]`
abbrev pub allowed : IncidentStatus → IncidentStatus → Bool
allowed frm to = any (λ t. status_eq t to) (transitions frm)

abbrev pub max_replans : ℕ
max_replans = 2

-- `TTL_STAGES`
abbrev pub is_ttl_stage : IncidentStatus → Bool
is_ttl_stage triaging = true
is_ttl_stage correlated = true
is_ttl_stage investigating = true
is_ttl_stage diagnosing = true
is_ttl_stage planned = true
is_ttl_stage _ = false

pub record Permit : Type 0 where
  pub action_id : String
  pub params_hash : String
  pub expires_at : ℕ
  pub token_ref : String
  pub auto : Bool

-- `Permit.__post_init__`
unfoldable pub make_permit : Permit → Result Rejection Permit
make_permit p =
    if is_blank p.action_id || is_blank p.params_hash || is_blank p.token_ref
    then err permit_blank
    else ok p

-- `Permit.check_valid` raises unless this holds.
unfoldable pub is_live : Permit → ℕ → Bool
is_live p now = ltb now p.expires_at

pub record TransitionRecord : Type 0 where
  pub seq : ℕ
  pub frm : IncidentStatus
  pub to : IncidentStatus
  pub reason : String
  pub refs : List String
  pub forced : Bool
  pub at : ℕ

pub record Handoff : Type 0 where
  pub incident_id : String
  pub from_agent : String
  pub to_agent : String
  pub refs : List String

pub record Suppression : Type 0 where
  pub action_id : String
  pub execution_id : String

-- The mutable state of one incident; `R` is the type of what an executor returns.
pub record IncidentRun (R : Type 0) : Type 0 where
  pub incident_id : String
  pub state : IncidentStatus
  pub history : List TransitionRecord
  pub handoffs : List Handoff
  pub suppressions : List Suppression
  pub replans : ℕ
  pub rolled_back : Bool
  pub permit : Option Permit
  pub consumed_refs : List String
  pub idem_store : List ((String × String) × R)
  pub entered_at : IncidentStatus → Option ℕ

-- `run.entered_at[to] = ts`
abbrev pub entered : IncidentStatus → ℕ → (IncidentStatus → Option ℕ) → IncidentStatus → Option ℕ
entered to ts at s = if status_eq s to then some ts else at s

unfoldable pub new_run : {R : Type 0} → String → ℕ → Result Rejection (IncidentRun R)
new_run incident_id now =
    if is_blank incident_id
    then err blank_id
    else ok (record {
      incident_id = incident_id;
      state = new;
      history = [];
      handoffs = [];
      suppressions = [];
      replans = 0;
      rolled_back = false;
      permit = none;
      consumed_refs = [];
      idem_store = [];
      entered_at = entered new now (λ _. none);
    })
