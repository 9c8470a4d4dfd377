-- ===== src/Audit/Verify.antt =====
-- backend/app/services/audit.py: `verify`, `save` and `load`.
use text.Mathlib.Text.{◌==◌ as str_eq}
use proof_ops.Common.{
  ℕ, suc, ◌-◌, String, Bool, true, false, not, ◌&&◌, Option, none, some, List, [], ◌∷◌, map, ◌==◌,
  if◌then◌else◌, is_blank, Result, ok, err,
}
use proof_ops.Audit.Event.{AuditEvent, Codec, is_event}
use proof_ops.Audit.Chain.{
  AuditError, corrupt_line, invalid_event, owner_mismatch, failed_verification, bad_file_id,
  AuditChain, genesis, link, is_file_id,
}

pub data Reason : Type 0 where
  intact order_or_owner prev_link hash : Reason

pub record Verdict : Type 0 where
  pub valid : Bool
  pub checked : ℕ
  pub first_bad_seq : Option ℕ
  pub reason : Reason

-- The outcome at a bad event.
abbrev pub broken : ℕ → AuditEvent → Reason → Verdict
broken position e r = record {
  valid = false;
  checked = position - 1;
  first_bad_seq = some e.seq;
  reason = r;
}

module _ (codec : Codec) where
  -- The loop of `verify` from a position and a previous hash on.
  unfoldable pub verify_from : String → ℕ → String → List AuditEvent → Verdict
  verify_from owner position prev [] = record {
    valid = true;
    checked = position - 1;
    first_bad_seq = none;
    reason = intact;
  }
  verify_from owner position prev (e ∷ es) =
      let rest = verify_from owner (suc position) e.curr_hash es in
      if not (e.seq == position && str_eq e.incident_id owner)
      then broken position e order_or_owner
      else if not (str_eq e.prev_hash prev)
      then broken position e prev_link
      else if not (str_eq e.curr_hash (link codec e.prev_hash e.body))
      then broken position e hash
      else rest

  unfoldable pub verify : AuditChain → Verdict
  verify chain = verify_from chain.incident_id 1 genesis chain.events

-- One line of the file: `json.dumps` of an event, and `json.loads` with pydantic's parsing, which
-- gives nothing for a line that is no event object.
pub record LineCodec : Type 0 where
  pub dumps : AuditEvent → String
  pub loads : String → Option AuditEvent

module _ (codec : Codec) (lines : LineCodec) where
  -- `save`: one line for each event. The temporary file and its rename are one write.
  unfoldable pub save : AuditChain → Result AuditError (List String)
  save chain =
      if is_file_id chain.incident_id then ok (map lines.dumps chain.events) else err bad_file_id

  -- One line of `load`: parsed, validated by the contract, and owned by the incident.
  unfoldable pub load_event : String → Option AuditEvent → Result AuditError AuditEvent
  load_event owner none = err corrupt_line
  load_event owner (some e) =
      if not (is_event codec e)
      then err invalid_event
      else if not (str_eq e.incident_id owner)
      then err owner_mismatch
      else ok e

  abbrev pub prepend :
      Result AuditError AuditEvent
      → Result AuditError (List AuditEvent)
      → Result AuditError (List AuditEvent)
  prepend (err x) rest = err x
  prepend (ok e) (err x) = err x
  prepend (ok e) (ok es) = ok (e ∷ es)

  -- The loop of `load`; blank lines are skipped.
  unfoldable pub load_lines : String → List String → Result AuditError (List AuditEvent)
  load_lines owner [] = ok []
  load_lines owner (l ∷ ls) =
      let rest = load_lines owner ls in
      if is_blank l then rest else prepend (load_event owner (lines.loads l)) rest

  unfoldable pub checked_chain :
      String → Result AuditError (List AuditEvent) → Result AuditError AuditChain
  checked_chain owner (err x) = err x
  checked_chain owner (ok es) =
      let chain : AuditChain = record { incident_id = owner; events = es } in
      if (verify codec chain).valid then ok chain else err failed_verification

  unfoldable pub load : String → List String → Result AuditError AuditChain
  load owner file =
      if is_file_id owner then checked_chain owner (load_lines owner file) else err bad_file_id
