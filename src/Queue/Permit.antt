-- ===== src/Queue/Permit.antt =====
-- backend/app/routers/approvals.py: `approved_action`, `verified_permit` and `_trigger_resume`.
use Prim.Native.String.{◌++◌ as str_append}
use text.Mathlib.Text.{◌==◌ as str_eq}
use proof_ops.Common.{
  ℕ, ◌+◌, String, Bool, true, false, not, ◌&&◌, ◌||◌, [], ◌∷◌, ◌++◌, leb, contains, if◌then◌else◌,
  is_blank, Result, ok, err, pure, raise,
}
use proof_ops.Common.Steps.{◌>>=◌, ◌>>◌}
use proof_ops.Contracts.Vocabulary.{Action}
use proof_ops.Fsm.Run.{Rejection, Permit, make_permit}
use proof_ops.Approval.Nonces.{consume}
use proof_ops.Approval.Token.{
  ApprovalRequest, Refusal, missing_token, wrong_actor, parameters_differ, scope_mismatch,
  token_not_ascii, bad_signature, token_replayed, verify,
}
use proof_ops.Approval.Token as token
use proof_ops.Queue.Entry.{
  Status, pending, approved, expired, Entry, Mistake, approval_denied, approval_replayed,
  approval_expired, type_error, permit_rejected, Services, Step, write_entry, require, event,
  permit_event,
}
use proof_ops.Queue.Store.{entry}

abbrev pub is_approved : Status → Bool
is_approved approved = true
is_approved _ = false

abbrev pub is_pending : Status → Bool
is_pending pending = true
is_pending _ = false

abbrev pub is_expired : Status → Bool
is_expired expired = true
is_expired _ = false

-- `_MODE_PER_KEY`
abbrev pub is_per_key : String → Bool
is_per_key mode = str_eq mode "per_key"

-- PERMIT_FRESHNESS_S
abbrev pub permit_freshness : ℕ
permit_freshness = 300000000

abbrev pub earlier : ℕ → ℕ → ℕ
earlier a b = if leb a b then a else b

module _ (services : Services) where
  -- `approved_action`
  unfoldable pub approved_action : String → Step (String × Action)
  approved_action id = do
    e ← entry services id
    require (is_approved e.status) approval_denied
    pure (e.request.incident_id, e.action)

  -- A rejection that is emitted and raised.
  unfoldable pub reject_with : {A : Type 0} → Entry → String → String → Mistake → Step A
  reject_with e actor text x = event services "approval.rejected" e actor text >> raise x

  -- `except ApprovalError`, where the message tells the case; `saves` is the save that the approve
  -- path makes.
  abbrev pub lapse : {A : Type 0} → String → Entry → String → Step (Unit {0}) → Step A
  lapse id e actor saved = do
    write_entry id (record e { status = expired })
    event services "approval.expire" e actor "approval expired"
    saved
    raise approval_expired

  unfoldable pub on_refusal :
      {A : Type 0} → String → Entry → String → Step (Unit {0}) → Refusal → Step A
  unfolding reject_with
  on_refusal id e actor saved token.approval_expired = lapse id e actor saved
  on_refusal id e actor saved token_replayed =
      reject_with e actor "replay rejected: token replayed" approval_replayed
  on_refusal id e actor saved token_not_ascii = raise type_error
  on_refusal id e actor saved missing_token =
      reject_with e actor "verify rejected: missing token" approval_denied
  on_refusal id e actor saved wrong_actor =
      reject_with e actor "verify rejected: wrong actor" approval_denied
  on_refusal id e actor saved parameters_differ =
      reject_with e actor "verify rejected: parameters differ from approved scope" approval_denied
  on_refusal id e actor saved scope_mismatch =
      reject_with e actor "verify rejected: scope mismatch" approval_denied
  on_refusal id e actor saved bad_signature =
      reject_with e actor "verify rejected: bad signature" approval_denied

  abbrev pub answered :
      String → Entry → String → Step (Unit {0}) → Result Refusal ApprovalRequest → Step (Unit {0})
  answered id e actor saved (ok r) = pure tt
  answered id e actor saved (err x) = on_refusal id e actor saved x

  -- `approval_svc.verify(...)` and its handler.
  unfoldable pub verified :
      String → Entry → String → String → String → String → Bool → Step (Unit {0}) → Step (Unit {0})
  unfolding on_refusal
  verified id e actor token subject secret burns saved s =
      let r =
        verify services.signing token e.request e.action subject secret burns services.now
          services.limit services.disk s.nonces in
      answered id e actor saved r.0 (record s { nonces = r.1 })

  -- `NONCES.consume(...)`
  unfoldable pub burned : String → Step Bool
  burned nonce s =
      let r = consume services.limit services.disk nonce s.nonces in
      (ok r.0, record s { nonces = r.1 })

  abbrev pub minted_once : Entry → String → Bool → Step (Unit {0})
  minted_once e actor true = pure tt
  minted_once e actor false =
      reject_with e actor "permit already minted for this approval (replay)" approval_replayed

  -- The checks of the record, before the token's.
  unfoldable pub attributed : Entry → String → Step (Unit {0})
  unfolding reject_with
  attributed e actor =
      if is_per_key e.identity_mode && str_eq e.decided_by ""
      then reject_with e actor "permit refused: per-key approval has no deciding principal"
          approval_denied
      else pure tt

  unfoldable pub bound_to : Entry → String → String → Step (Unit {0})
  unfolding reject_with
  bound_to e actor expected_incident =
      if not (is_blank expected_incident) && not (str_eq e.request.incident_id expected_incident)
      then reject_with e actor "incident mismatch: approval for " approval_denied
      else pure tt

  -- The permit; a time before the epoch is not one.
  abbrev pub permit_of : String → ApprovalRequest → Permit
  permit_of id r = record {
    action_id = r.action_id;
    params_hash = r.params_hash;
    expires_at = earlier r.expires_at (services.now + permit_freshness);
    token_ref = id;
    auto = false;
  }

  abbrev pub made : Result Rejection Permit → Step Permit
  made (ok p) = pure p
  made (err x) = raise permit_rejected

  -- `verified_permit`, with an incident that is blank where there is none. The caller's `now` and the
  -- time that the mint reads itself are one clock, `services.now`.
  unfoldable pub verified_permit : String → String → String → String → String → Step Permit
  unfolding attributed bound_to
  verified_permit id token actor secret expected_incident = do
    e ← entry services id
    require (is_approved e.status) approval_denied
    attributed e actor
    bound_to e actor expected_incident
    verified id e actor token actor secret false (pure tt)
    fresh ← burned (str_append e.request.nonce ":permit")
    minted_once e actor fresh
    p ← made (make_permit (permit_of id e.request))
    permit_event services e.request actor
    pure p

  -- `Orchestrator.resume`, in backend/app/services/orchestrator.py: an incident that is being
  -- resumed is left alone.
  abbrev pub queue_resume : Bool → String → Action → Permit → Step (Unit {0})
  queue_resume true incident_id a p s = (ok tt, s)
  queue_resume false incident_id a p s = (
    ok tt,
    record s {
      resuming = incident_id ∷ s.resuming;
      scheduled = s.scheduled ++ (incident_id, a, p) ∷ [];
    },
  )

  unfoldable pub hand_over : String → Action → Permit → Step (Unit {0})
  hand_over incident_id a p s = queue_resume (contains s.resuming incident_id) incident_id a p s

  -- The mint and the hand-over, unless a credential is missing.
  unfoldable pub mint_and_resume :
      Bool → String → String → String → String → String → Action → Step (Unit {0})
  mint_and_resume true id token actor secret incident_id a = pure tt
  mint_and_resume false id token actor secret incident_id a = do
    p ← verified_permit id token actor secret incident_id
    hand_over incident_id a p

  -- The body of the `try`.
  unfoldable pub resume_call : String → String → String → String → Step (Unit {0})
  unfolding mint_and_resume
  resume_call id token actor secret = do
    x ← approved_action id
    mint_and_resume (str_eq token "" || str_eq actor "" || str_eq secret "") id token actor secret
        x.0 x.1

  -- `except Exception`
  unfoldable pub swallow : Step (Unit {0}) → Step (Unit {0})
  swallow m s = (ok tt, (m s).1)

  -- `_trigger_resume`
  unfoldable pub trigger_resume : String → String → String → String → Step (Unit {0})
  unfolding resume_call swallow
  trigger_resume id token actor secret =
      if services.worker_runs then swallow (resume_call id token actor secret) else pure tt
