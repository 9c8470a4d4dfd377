-- ===== src/Audit/Event.antt =====
-- backend/app/contracts/audit.py: the audit event and its validators.
-- `ts` is a whole tick; a naive time or a value of another type cannot be written here.
use Prim.Native.String.{len}
use proof_ops.Common.{
  ℕ, String, Bool, ◌&&◌, ◌||◌, List, map, leb, length, all, contains, is_empty, fits_in,
}
use proof_ops.Contracts.Identifier.{is_identifier, is_optional}

-- `FrozenDict` of the policy snapshot: keys with the texts of their values.
abbrev pub Snapshot : Type 0
Snapshot = List (String × String)

-- Every field of an event but `curr_hash`: what `canonical_of` dumps.
pub record AuditBody : Type 0 where
  pub event_id : String
  pub seq : ℕ
  pub ts : ℕ
  pub incident_id : String
  pub actor : String
  pub agent : String
  pub event_type : String
  pub input_hash : String
  pub evidence_ids : List String
  pub policy : Snapshot
  pub action_id : String
  pub approval_id : String
  pub execution_id : String
  pub result : String
  pub prev_hash : String

pub record AuditEvent : Type 0 where
  pub body : AuditBody
  pub open body use *
  pub curr_hash : String

-- What the code takes from hashlib, json and pydantic: SHA256 as hexadecimal text, and the
-- canonical JSON of a body and of a snapshot.
pub record Codec : Type 0 where
  pub sha256_hex : String → String
  pub canonical_json : AuditBody → String
  pub snapshot_json : Snapshot → String

abbrev pub max_id_len : ℕ
max_id_len = 128

abbrev pub max_hash_len : ℕ
max_hash_len = 256

-- `_policy`: at most 32 entries, version, rule and result unless empty, at most 8192 bytes.
unfoldable pub is_snapshot : Codec → Snapshot → Bool
is_snapshot codec policy =
    let keys = map (λ (e : String × String). e.0) policy in
    leb (length policy) 32
    && (is_empty policy
        || contains keys "version" && contains keys "rule" && contains keys "result")
    && leb (len (codec.snapshot_json policy)) 8192

-- `_evidence_ids`: at most 100 identifiers.
unfoldable pub are_evidence_ids : List String → Bool
are_evidence_ids ids = leb (length ids) 100 && all (is_identifier max_id_len) ids

-- The field validators of `AuditEvent`.
unfoldable pub is_event : Codec → AuditEvent → Bool
is_event codec e =
    is_identifier max_id_len e.event_id
    && is_identifier max_id_len e.incident_id
    && is_identifier max_id_len e.actor
    && is_identifier max_id_len e.event_type
    && is_optional max_id_len e.agent
    && is_optional max_id_len e.action_id
    && is_optional max_id_len e.approval_id
    && is_optional max_id_len e.execution_id
    && is_optional max_hash_len e.input_hash
    && is_optional max_hash_len e.prev_hash
    && is_optional max_hash_len e.curr_hash
    && are_evidence_ids e.evidence_ids
    && is_snapshot codec e.policy
    && fits_in 1024 e.result
