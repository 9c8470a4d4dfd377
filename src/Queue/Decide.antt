-- ===== src/Queue/Decide.antt =====
-- backend/app/routers/approvals.py: `request_approval`, `approval_view`, `_idem`, `reject_approval`
-- and `sweep_approvals`. A result keeps its fixed part.
use text.Mathlib.Text.{◌==◌ as str_eq}
use proof_ops.Common.{
  ℕ, ◌-◌, String, Bool, true, false, not, ◌&&◌, ◌||◌, Option, none, some, List, [], ◌∷◌, ◌++◌, leb,
  is_empty, if◌then◌else◌, is_blank, contains, Result, ok, err, pure, raise,
}
use proof_ops.Common.Steps.{◌>>=◌, ◌>>◌}
use proof_ops.Contracts.Value.{Value}
use proof_ops.Contracts.Vocabulary.{Action}
use proof_ops.Approval.Token.{ApprovalRequest, IssueError, issue}
use proof_ops.Validator.Rules.{validate_action}
use proof_ops.Queue.Entry.{
  pending, denied, expired, Entry, approval_denied, value_error, Sod, enforced,
  not_enforced_bootstrap, not_recorded, View, Services, Step, write_entry, require, event,
}
use proof_ops.Queue.Store.{entry, ensure_loaded, save}
use proof_ops.Queue.Permit.{is_pending, is_per_key}

-- `x or y` of two texts
abbrev pub or_text : String → String → String
or_text x y = if str_eq x "" then y else x

-- `role and role not in APPROVER_ROLES`
abbrev pub role_allowed : String → Bool
role_allowed role = str_eq role "" || contains ("approver" ∷ "admin" ∷ []) role

unfoldable pub sod_of : Entry → Sod
sod_of e =
    if is_per_key e.identity_mode
      && not (str_eq e.decided_by "")
      && not (str_eq e.requester_key_id "")
      && not (str_eq e.decided_by e.requester_key_id)
    then enforced
    else if str_eq e.identity_mode "bootstrap"
    then not_enforced_bootstrap
    else not_recorded

module _ (services : Services) where
  abbrev pub view_of : Entry → View
  view_of e = record {
    approval_id = e.request.approval_id;
    status = e.status;
    remaining = e.request.expires_at - services.now;
    identity_mode = e.identity_mode;
    requester_key_id = e.requester_key_id;
    decided_by = e.decided_by;
    sod = sod_of e;
    duplicate = false;
  }

  -- `approval_view`
  unfoldable pub approval_view : String → Step View
  approval_view id = entry services id >>= λ e. pure (view_of e)

  abbrev pub found_response : (String × String) → List ((String × String) × View) → Option View
  found_response k [] = none
  found_response k ((j, v) ∷ rest) =
      if str_eq j.0 k.0 && str_eq j.1 k.1 then some v else found_response k rest

  abbrev pub remember : String → String → View → Step View
  remember id key v s = (ok v, record s { responses = ((id, key), v) ∷ s.responses })

  abbrev pub answer : String → String → Step View → Option View → Step View
  answer id key produce (some v) = pure (record v { duplicate = true })
  answer id key produce none = do v ← produce; remember id key (record v { duplicate = false })

  abbrev pub keyed : String → Option View → Bool → String → Step View → Step View
  keyed id cached true key produce = raise value_error
  keyed id cached false key produce = answer id key produce cached

  -- `_idem`
  unfoldable pub idem : String → Option String → Step View → Step View
  idem id none produce s = (produce >>= λ v. pure (record v { duplicate = false })) s
  idem id (some key) produce s =
      keyed id (found_response (id, key) s.responses) (is_blank key) key produce s

  -- The token and the view's fields that `request_approval` returns.
  abbrev pub Ticket : Type 0
  Ticket = ApprovalRequest × String

  abbrev pub enqueue : Action → String → String → String → Result IssueError Ticket → Step Ticket
  enqueue a key mode who (err x) = raise value_error
  enqueue a key mode who (ok (r, token)) =
      let e : Entry = record {
        request = r;
        action = a;
        status = pending;
        evidence_ids = a.evidence_ids;
        requester_key_id = key;
        identity_mode = mode;
        decided_by = "";
      } in
      (do
        write_entry r.approval_id e
        event services "approval.request" e who "requested "
        save services
        pure (r, token))

  abbrev pub accepted : Option Action → Step Action
  accepted none = raise value_error
  accepted (some a) =
      if is_empty (validate_action services.casts services.sql a none)
      then pure a
      else raise value_error

  -- `request_approval`, over the fresh id and nonce.
  unfoldable pub request_approval :
      String → String → Value → String → String → ℕ → String → String → String → Step Ticket
  request_approval id nonce doc actor secret ttl_seconds key mode audit_actor = do
    ensure_loaded services
    require (not (is_blank actor)) value_error
    a ← accepted (services.read_action doc)
    enqueue a key mode (or_text audit_actor actor)
        (issue services.signing id nonce services.now a actor secret ttl_seconds)

  -- The body of `reject_approval`.
  unfoldable pub rejected : String → String → String → String → String → String → Step View
  rejected id actor role reason audit_actor approver_key_id = do
    e ← entry services id
    require (is_pending e.status) approval_denied
    require (role_allowed role) approval_denied
    write_entry id (record e { status = denied; decided_by = or_text approver_key_id e.decided_by })
    event services "approval.deny" e (or_text audit_actor actor)
        (or_text reason "denied by approver")
    save services
    approval_view id

  unfoldable pub reject_approval :
      String → String → String → String → Option String → String → String → Step View
  unfolding rejected
  reject_approval id actor role reason key audit_actor approver_key_id =
      idem id key (rejected id actor role reason audit_actor approver_key_id)

  abbrev pub is_due : Entry → Bool
  is_due e = is_pending e.status && leb e.request.expires_at services.now

  -- One round of `sweep_approvals`, with the id if it expired.
  unfoldable pub expire_one : String → Entry → Bool → Step (List String)
  expire_one id e false = pure []
  expire_one id e true = do
    write_entry id (record e { status = expired })
    event services "approval.expire" e e.request.actor "ttl elapsed"
    pure (id ∷ [])

  unfoldable pub sweep_each : List (String × Entry) → Step (List String)
  unfolding expire_one
  sweep_each [] = pure []
  sweep_each ((id, e) ∷ rest) = do
    first ← expire_one id e (is_due e)
    others ← sweep_each rest
    pure (first ++ others)

  unfoldable pub sweep_approvals : Step (List String)
  unfolding sweep_each
  sweep_approvals = do
    ensure_loaded services
    ids ← (λ s. sweep_each s.requests s)
    save services
    pure ids
