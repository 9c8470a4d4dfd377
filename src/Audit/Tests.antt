-- ===== src/Audit/Tests.antt =====
-- The audit chain on concrete inputs, over two toy codecs.
use Prim.Native.String.{◌++◌ as str_append}
use proof_ops.Common.{
  ◌+◌, String, ◌≡◌, refl, ◌⊎◌, true, false, List, [], ◌∷◌, ◌++◌, length, ok, err, all, some, ◌↔◌,
  is_blank, every, is_padded,
}
use proof_ops.Contracts.Identifier.{is_identifier, is_optional}
use proof_ops.Audit.Event.{AuditEvent, Codec, is_event, is_snapshot, are_evidence_ids}
use proof_ops.Audit.Chain.{
  AuditChain, AuditError, Emission, genesis, link, linked_of, body_of, emit, is_file_id,
  required_extras, is_given, is_event_type,
}
use proof_ops.Audit.Verify.{
  verify, verify_from, LineCodec, save, load, load_lines, load_event, checked_chain,
}
use proof_ops.Audit.Integrity.{IsChain, verify_exact}
use proof_ops.Audit.Emit.{emit-keeps_valid}
use proof_ops.Audit.Tamper.{LinkClash, tampering_shows}
use proof_ops.Audit.Reload.{is_owned_event, load-save}

-- A hash that keeps its text, and one that forgets it.
abbrev honest : Codec
honest = record {
  sha256_hex = λ t. str_append "h" t;
  canonical_json = λ b. b.result;
  snapshot_json = λ p. "{}";
}

abbrev weak : Codec
weak = record (honest) { sha256_hex = λ t. "h" }

abbrev emission : String → Emission
emission r = record {
  event_id = "ev-1";
  ts = 5;
  event_type = "eval.run";
  actor = "sre-1";
  agent = "";
  input_hash = "";
  evidence_ids = [];
  policy = [];
  action_id = "";
  approval_id = "";
  execution_id = "";
  result = r;
}

abbrev empty_chain : AuditChain
empty_chain = record { incident_id = "inc-1"; events = [] }

abbrev one : Codec → String → AuditChain
one codec r = (emit codec (emission r) empty_chain).1

empty_valid : (verify honest empty_chain).valid ≡ true
unfolding verify verify_from
empty_valid = refl

emit-keeps_valid_example :
    ((verify honest (one honest "passed")).valid ≡ true)
    × (((x : AuditError) × ((emit honest (emission "passed") empty_chain).0 ≡ err x)
          × (one honest "passed" ≡ empty_chain))
        ⊎ ((e : AuditEvent) × ((emit honest (emission "passed") empty_chain).0 ≡ ok e)
            × ((one honest "passed").events ≡ [] ++ e ∷ [])
            × (e.seq ≡ 0 + 1)))
emit-keeps_valid_example = emit-keeps_valid honest (emission "passed") empty_chain empty_valid

-- The first event is accepted.
one_event : length (one honest "passed").events ≡ 1
unfolding emit required_extras is_given is_event_type is_event is_snapshot are_evidence_ids
    is_identifier is_optional linked_of body_of link is_blank is_padded every
one_event = refl

abbrev event_of : Codec → String → AuditEvent
event_of codec r = linked_of codec empty_chain (emission r)

abbrev chain_of : Codec → String → AuditChain
chain_of codec r = record { incident_id = "inc-1"; events = event_of codec r ∷ [] }

weak_valid : (r : String) → (verify weak (chain_of weak r)).valid ≡ true
unfolding verify verify_from linked_of body_of link
weak_valid r = refl

-- Under the hash that forgets its text another history passes, and the clash is what comes out.
tampering_shows_example : (chain_of weak "passed" ≡ chain_of weak "failed") ⊎ LinkClash weak
unfolding linked_of link
tampering_shows_example =
    tampering_shows weak (chain_of weak "passed") (chain_of weak "failed") (weak_valid "passed")
      (weak_valid "failed") refl refl refl

abbrev forged : AuditChain
forged = record {
  incident_id = "inc-1";
  events = record (event_of honest "failed") { curr_hash = "hpassed" } ∷ [];
}

verify_exact_example :
    ((verify honest forged).valid ≡ true) ↔ IsChain honest "inc-1" 1 genesis forged.events
verify_exact_example = verify_exact honest forged

-- A line codec that knows one event.
abbrev one_line : LineCodec
one_line = record { dumps = λ e. "{}"; loads = λ l. some (event_of honest "passed") }

abbrev passed : AuditChain
passed = chain_of honest "passed"

passed_shown : is_blank "{}" ≡ false
unfolding is_blank
passed_shown = refl

passed_id : is_file_id "inc-1" ≡ true
unfolding is_file_id every
passed_id = refl

passed_valid : (verify honest passed).valid ≡ true
unfolding verify verify_from linked_of body_of link
passed_valid = refl

passed_owned : all (is_owned_event honest one_line "inc-1") passed.events ≡ true
unfolding is_owned_event is_event is_snapshot are_evidence_ids is_identifier is_optional linked_of
    body_of link is_blank is_padded
passed_owned = refl

load-save_example :
    (file : List String) × (save honest one_line passed ≡ ok file)
    × (load honest one_line "inc-1" file ≡ ok passed)
load-save_example =
    load-save honest one_line passed (record { read_back = refl; shown = passed_shown }, tt)
      passed_id passed_valid passed_owned

passed_loads : load honest one_line "inc-1" ("{}" ∷ []) ≡ ok passed
unfolding load load_lines load_event checked_chain verify verify_from is_file_id every is_event
    is_snapshot are_evidence_ids is_identifier is_optional linked_of body_of link is_blank is_padded
passed_loads = refl
