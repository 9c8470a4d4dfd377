-- ===== src/Queue/Approve.antt =====
-- backend/app/routers/approvals.py: `approve_approval`.
use text.Mathlib.Text.{◌==◌ as str_eq}
use proof_ops.Common.{
  String, Bool, true, not, ◌&&◌, ◌||◌, Option, none, some, if◌then◌else◌, is_blank, strip, pure,
  raise,
}
use proof_ops.Common.Steps.{◌>>=◌, ◌>>◌}
use proof_ops.Queue.Entry.{
  approved, Entry, approval_denied, approval_expired, View, Services, Step, write_entry, require,
  event,
}
use proof_ops.Queue.Store.{entry, save}
use proof_ops.Queue.Permit.{
  is_pending, is_expired, is_per_key, reject_with, verified, trigger_resume,
}
use proof_ops.Queue.Decide.{or_text, role_allowed, approval_view, idem}

-- The arguments of `approve_approval`.
pub record Approval : Type 0 where
  pub approval_id : String
  pub actor : String
  pub token : String
  pub role : String
  pub secret : String
  pub idempotency_key : Option String
  pub enforce_sod : Bool
  pub requester : Option String
  pub allow_self_approval : Bool
  pub approver_key_id : String
  pub identity_mode : String
  pub audit_actor : String

-- `sod_requester`
abbrev pub sod_requester : Option String → String → String
sod_requester none actor = actor
sod_requester (some r) actor = if is_blank r then actor else strip r

module _ (services : Services) where
  -- Separation of duties between two keys, and between two names.
  unfoldable pub keys_differ : Approval → Entry → Step (Unit {0})
  keys_differ c e =
      if str_eq c.approver_key_id "" || str_eq e.requester_key_id ""
      then raise approval_denied
      else if str_eq c.approver_key_id e.requester_key_id
      then reject_with services e c.actor "separation of duties: approver key " approval_denied
      else pure tt

  unfoldable pub names_differ : Approval → Entry → Step (Unit {0})
  names_differ c e =
      if str_eq c.actor (sod_requester c.requester e.request.actor) && not c.allow_self_approval
      then reject_with services e c.actor "separation of duties: approver " approval_denied
      else pure tt

  unfoldable pub separated : Approval → Entry → Step (Unit {0})
  unfolding keys_differ names_differ
  separated c e =
      if is_per_key c.identity_mode
      then keys_differ c e
      else if c.enforce_sod
      then names_differ c e
      else pure tt

  -- `verify_actor`
  abbrev pub subject_of : Approval → Entry → String
  subject_of c e = if is_per_key c.identity_mode then e.request.actor else c.actor

  -- `_produce`
  unfoldable pub decided : Approval → Step View
  unfolding separated
  decided c = do
    e ← entry services c.approval_id
    require (not (is_expired e.status)) approval_expired
    require (is_pending e.status) approval_denied
    require (role_allowed c.role) approval_denied
    separated c e
    verified services c.approval_id e c.actor c.token (subject_of c e) c.secret true (save services)
    write_entry c.approval_id (record e { status = approved; decided_by = c.approver_key_id })
    event services "approval.approve" e (or_text c.audit_actor c.actor) "approved "
    save services
    v ← approval_view services c.approval_id
    trigger_resume services c.approval_id c.token c.actor c.secret
    pure v

  unfoldable pub approve_approval : Approval → Step View
  unfolding decided
  approve_approval c = idem services c.approval_id c.idempotency_key (decided c)
