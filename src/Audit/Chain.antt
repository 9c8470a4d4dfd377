-- ===== src/Audit/Chain.antt =====
-- backend/app/services/audit.py: the chain, `emit`, `verify`, `save` and `load`.
use Prim.Native.String.{◌++◌ as str_append}
use text.Mathlib.Text.{◌==◌ as str_eq}
use proof_ops.Common.{
  ℕ, ◌+◌, String, Bool, false, not, ◌&&◌, ◌||◌, List, [], ◌∷◌, ◌++◌, leb, ◌==◌, length, all,
  is_empty, if◌then◌else◌, is_blank, every, fits_in, ok, err, Exec,
}
use proof_ops.Audit.Event.{Snapshot, AuditBody, AuditEvent, Codec, is_event}

pub data AuditError : Type 0 where
  bad_type missing_extra event_rejected link_rejected blank_incident : AuditError
  bad_file_id corrupt_line invalid_event owner_mismatch failed_verification : AuditError

-- The names of `extras` in `emit`.
pub data Extra : Type 0 where
  result agent policy action_id approval_id execution_id : Extra

-- `REQUIRED_EXTRAS.get(event_type, ())`
unfoldable pub required_extras : String → List Extra
required_extras t =
    if str_eq t "transition"
    then result ∷ []
    else if str_eq t "tool.call"
    then agent ∷ []
    else if str_eq t "policy.decision"
    then policy ∷ action_id ∷ []
    else if str_eq t "approval.request"
    then approval_id ∷ action_id ∷ []
    else if str_eq t "approval.approve"
    then approval_id ∷ []
    else if str_eq t "approval.deny"
    then approval_id ∷ []
    else if str_eq t "approval.expire"
    then approval_id ∷ []
    else if str_eq t "approval.rejected"
    then approval_id ∷ []
    else if str_eq t "permit.minted"
    then approval_id ∷ action_id ∷ []
    else if str_eq t "execution.start"
    then action_id ∷ execution_id ∷ []
    else if str_eq t "execution.finish"
    then action_id ∷ execution_id ∷ []
    else if str_eq t "execution.duplicate-suppressed"
    then action_id ∷ execution_id ∷ []
    else if str_eq t "verification.verdict"
    then execution_id ∷ result ∷ []
    else if str_eq t "rollback.start"
    then execution_id ∷ []
    else if str_eq t "rollback.finish"
    then execution_id ∷ []
    else if str_eq t "handoff"
    then agent ∷ result ∷ []
    else if str_eq t "rca.draft"
    then result ∷ []
    else if str_eq t "rca.publish"
    then result ∷ []
    else if str_eq t "eval.run"
    then result ∷ []
    else []

is_lower_alnum : ℕ → Bool
is_lower_alnum c = leb b'a' c && leb c b'z' || leb b'0' c && leb c b'9'

is_type_char : ℕ → Bool
unfolding is_lower_alnum
is_type_char c = is_lower_alnum c || c == b'.' || c == b'_' || c == b'-'

first_is : (ℕ → Bool) → String → Bool
first_is p String.[] = false
first_is p (String.◌∷◌ c s) = every p (String.◌∷◌ c String.[])

-- `_TYPE_RE.fullmatch`: [a-z0-9][a-z0-9._-]{0,127}
unfoldable pub is_event_type : String → Bool
unfolding is_lower_alnum is_type_char first_is
is_event_type t = first_is is_lower_alnum t && every is_type_char t && fits_in 128 t

is_file_char : ℕ → Bool
unfolding is_lower_alnum
is_file_char c = is_lower_alnum c || leb b'A' c && leb c b'Z' || c == b'_' || c == b'-'

-- `sanitize_incident_id`: [A-Za-z0-9_-]{1,128}
unfoldable pub is_file_id : String → Bool
unfolding is_file_char
is_file_id i = not (str_eq i "") && every is_file_char i && fits_in 128 i

-- The arguments of `emit`, with the fresh id and the time that the contract's defaults draw.
pub record Emission : Type 0 where
  pub event_id : String
  pub ts : ℕ
  pub event_type : String
  pub actor : String
  pub agent : String
  pub input_hash : String
  pub evidence_ids : List String
  pub policy : Snapshot
  pub action_id : String
  pub approval_id : String
  pub execution_id : String
  pub result : String

-- A required extra is given: a text that is not blank, a snapshot that is not empty.
unfoldable pub is_given : Emission → Extra → Bool
is_given m result = not (is_blank m.result)
is_given m agent = not (is_blank m.agent)
is_given m policy = not (is_empty m.policy)
is_given m action_id = not (is_blank m.action_id)
is_given m approval_id = not (is_blank m.approval_id)
is_given m execution_id = not (is_blank m.execution_id)

pub record AuditChain : Type 0 where
  pub incident_id : String
  pub events : List AuditEvent

-- `self._events[-1].curr_hash if self._events else GENESIS_PREV`
abbrev pub last_hash : String → List AuditEvent → String
last_hash prev [] = prev
last_hash prev (e ∷ es) = last_hash e.curr_hash es

abbrev pub genesis : String
genesis = ""

module _ (codec : Codec) where
  -- `link`: SHA256(prev_hash + canonical_of(event))
  unfoldable pub link : String → AuditBody → String
  link prev body = codec.sha256_hex (str_append prev (codec.canonical_json body))

  -- The body that `emit` builds.
  unfoldable pub body_of : AuditChain → Emission → AuditBody
  body_of chain m = record {
    event_id = m.event_id;
    seq = length chain.events + 1;
    ts = m.ts;
    incident_id = chain.incident_id;
    actor = m.actor;
    agent = m.agent;
    event_type = m.event_type;
    input_hash = m.input_hash;
    evidence_ids = m.evidence_ids;
    policy = m.policy;
    action_id = m.action_id;
    approval_id = m.approval_id;
    execution_id = m.execution_id;
    result = m.result;
    prev_hash = last_hash genesis chain.events;
  }

  unfoldable pub linked_of : AuditChain → Emission → AuditEvent
  linked_of chain m =
      let body = body_of chain m in
      record { body = body; curr_hash = link (last_hash genesis chain.events) body }

  unfoldable pub emit : Emission → Exec AuditChain AuditError AuditEvent
  emit m chain =
      if not (is_event_type m.event_type)
      then (err bad_type, chain)
      else if not (all (is_given m) (required_extras m.event_type))
      then (err missing_extra, chain)
      else if not (is_event codec (record { body = body_of chain m; curr_hash = "" }))
      then (err event_rejected, chain)
      else if not (is_event codec (linked_of chain m))
      then (err link_rejected, chain)
      else (
        ok (linked_of chain m),
        record chain { events = chain.events ++ linked_of chain m ∷ [] },
      )
