-- ===== src/Audit/FsmRecords.antt =====
-- backend/app/services/audit.py: `record_fsm`, which turns the records of a run into events.
use Prim.Native.String.{◌++◌ as str_append}
use native.Mathlib.Nat.{zero-add}
use proof_ops.Common.{
  take_chars, ℕ, suc, ◌+◌, String, ◌≡◌, refl, ap, ◌∙◌, ◌⊎◌, inl, inr, Bool, true, false, List, [],
  ◌∷◌, arith, length, length-append, if◌then◌else◌, fits_in, Result, ok, err, Exec,
}
use proof_ops.Contracts.Enums.{status_name}
use proof_ops.Fsm.Run.{TransitionRecord, Handoff}
use proof_ops.Fsm.Once.{AuditRecord, transition, handoff_record, duplicate_suppressed}
use proof_ops.Audit.Event.{AuditEvent, Codec}
use proof_ops.Audit.Chain.{AuditChain, AuditError, Emission, emit}
use proof_ops.Audit.Verify.{verify}
use proof_ops.Audit.Emit.{emit-keeps_valid}

-- `_clip` with the bound 1024
unfoldable pub clip : String → String
clip value = if fits_in 1024 value then value else str_append (take_chars 1021 value) "..."

-- `",".join(refs)`
unfoldable pub join_refs : List String → String
join_refs [] = ""
join_refs (r ∷ []) = r
join_refs (r ∷ q ∷ rest) = str_append r (str_append "," (join_refs (q ∷ rest)))

abbrev bool_name : Bool → String
bool_name true = "True"
bool_name false = "False"

unfoldable pub transition_text : TransitionRecord → String
transition_text r = clip (
    str_append (status_name r.frm) (
      str_append "->" (
        str_append (status_name r.to) (
          str_append " reason=" (
            str_append r.reason (
              str_append " forced="
                (str_append (bool_name r.forced) (str_append " refs=" (join_refs r.refs)))))))))

unfoldable pub handoff_text : Handoff → String
handoff_text h = clip (
    str_append h.from_agent
      (str_append "->" (str_append h.to_agent (str_append " refs=" (join_refs h.refs)))))

-- The call of `emit` for one record, with the fresh id and the time of the event.
unfoldable pub emission_of : String → String × ℕ → AuditRecord → Emission
emission_of actor (i, t) (transition r) = record {
  event_id = i;
  ts = t;
  event_type = "transition";
  actor = actor;
  agent = "";
  input_hash = "";
  evidence_ids = [];
  policy = [];
  action_id = "";
  approval_id = "";
  execution_id = "";
  result = transition_text r;
}
emission_of actor (i, t) (handoff_record h) = record {
  event_id = i;
  ts = t;
  event_type = "handoff";
  actor = actor;
  agent = h.from_agent;
  input_hash = "";
  evidence_ids = [];
  policy = [];
  action_id = "";
  approval_id = "";
  execution_id = "";
  result = handoff_text h;
}
emission_of actor (i, t) (duplicate_suppressed s) = record {
  event_id = i;
  ts = t;
  event_type = "execution.duplicate-suppressed";
  actor = actor;
  agent = "";
  input_hash = "";
  evidence_ids = [];
  policy = [];
  action_id = s.action_id;
  approval_id = "";
  execution_id = s.execution_id;
  result = "duplicate-suppressed";
}

module _ (codec : Codec) (actor : String) (draw : ℕ → String × ℕ) where
  abbrev pub go_on :
      ℕ
      → Result AuditError AuditEvent
      → AuditChain
      → (AuditChain → Result AuditError ℕ × AuditChain)
      → Result AuditError ℕ × AuditChain
  go_on n (err x) chain k = (err x, chain)
  go_on n (ok e) chain k = k chain

  -- The loop of `record_fsm` with `n` records done; a rejected record ends it, and what was
  -- appended before stays.
  unfoldable pub record_from : ℕ → List AuditRecord → Exec AuditChain AuditError ℕ
  record_from n [] chain = (ok n, chain)
  record_from n (r ∷ rs) chain =
      let step = emit codec (emission_of actor (draw n) r) chain in
      go_on n step.0 step.1 (record_from (suc n) rs)

  unfoldable pub record_fsm : List AuditRecord → Exec AuditChain AuditError ℕ
  record_fsm = record_from 0

  record_from_valid :
      (n : ℕ) (rs : List AuditRecord) (chain : AuditChain)
      → (verify codec chain).valid ≡ true
      → ((verify codec (record_from n rs chain).1).valid ≡ true)
        × (((x : AuditError) × ((record_from n rs chain).0 ≡ err x))
            ⊎ (((record_from n rs chain).0 ≡ ok (n + length rs))
                × (length (record_from n rs chain).1.events ≡ length chain.events + length rs)))
  unfolding record_from
  record_from_valid n [] chain h = (h, inr (ground arith, omega arith))
  record_from_valid n (r ∷ rs) chain h =
      let m = emission_of actor (draw n) r in
      let kept = emit-keeps_valid codec m chain h in
      elim kept.1 [
        | inl (x, k, same) ↦ rw k (kept.0, inl (x, refl))
        | inr (e, k, grown, _) ↦
            let later = record_from_valid (suc n) rs (emit codec m chain).1 kept.0 in
            rw k (
              later.0,
              elim later.1 [
                | inl bad ↦ inl bad
                | inr (done, size) ↦ inr (
                  done ∙ ap ok (omega arith),
                  omega (
                    arith,
                    size,
                    ap (λ (l : List AuditEvent). length l) grown,
                    length-append chain.events (e ∷ []),
                  ),
                )
              ],
            )
      ]

  -- Whatever the records are, the chain still verifies after `record_fsm`; if no record is
  -- rejected, every record became exactly one event and their number is returned.
  pub record_fsm-keeps_valid :
      (rs : List AuditRecord) (chain : AuditChain)
      → (verify codec chain).valid ≡ true
      → ((verify codec (record_fsm rs chain).1).valid ≡ true)
        × (((x : AuditError) × ((record_fsm rs chain).0 ≡ err x))
            ⊎ (((record_fsm rs chain).0 ≡ ok (length rs))
                × (length (record_fsm rs chain).1.events ≡ length chain.events + length rs)))
  unfolding record_fsm
  record_fsm-keeps_valid rs chain h = rw zero-add at (record_from_valid 0 rs chain h)
