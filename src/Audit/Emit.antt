-- ===== src/Audit/Emit.antt =====
-- `emit` keeps a chain that verifies.
use native.Mathlib.Nat.{add-zero, add-suc, suc-add}
use proof_ops.Common.{
  ℕ, suc, ◌+◌, String, ◌≡◌, refl, ◌⊎◌, inl, inr, true, List, [], ◌∷◌, ◌++◌, arith, length,
  Result-cases, ok, err,
}
use proof_ops.Audit.Event.{AuditEvent, Codec}
use proof_ops.Audit.Chain.{
  AuditChain, AuditError, Emission, genesis, last_hash, linked_of, body_of, emit,
}
use proof_ops.Audit.Verify.{verify}
use proof_ops.Audit.Integrity.{IsLink, IsChain, verify_exact}

module _ (codec : Codec) where
  IsChain-snoc :
      (owner : String) (n : ℕ) (prev : String) (es : List AuditEvent) (e : AuditEvent)
      → IsChain codec owner n prev es
      → IsLink codec owner (n + length es) (last_hash prev es) e
      → IsChain codec owner n prev (es ++ e ∷ [])
  IsChain-snoc owner n prev [] e h l = (rw add-zero at l, tt)
  IsChain-snoc owner n prev (x ∷ es) e h l =
      (h.0, IsChain-snoc owner (suc n) x.curr_hash es e h.1 (rw (add-suc, ← suc-add) at l))

  emit_ok :
      (m : Emission) (chain : AuditChain) {e : AuditEvent}
      → (emit codec m chain).0 ≡ ok e
      → (e ≡ linked_of codec chain m)
        × ((emit codec m chain).1
            ≡ record chain { events = chain.events ++ linked_of codec chain m ∷ [] })
  unfolding emit
  emit_ok m chain h = ground arith

  emit_err :
      (m : Emission) (chain : AuditChain) {x : AuditError}
      → (emit codec m chain).0 ≡ err x
      → (emit codec m chain).1 ≡ chain
  unfolding emit
  emit_err m chain h = ground arith

  linked_of-IsLink :
      (m : Emission) (chain : AuditChain)
      → IsLink codec chain.incident_id
          (1 + length chain.events)
          (last_hash genesis chain.events)
          (linked_of codec chain m)
  unfolding linked_of body_of
  linked_of-IsLink m chain = record {
    numbered = omega arith;
    owned = refl;
    joined = refl;
    sealed = refl;
  }

  -- Every emission, accepted or rejected, keeps a chain that verifies; an accepted one appends
  -- exactly its event at the end, a rejected one changes nothing.
  pub emit-keeps_valid :
      (m : Emission) (chain : AuditChain)
      → (verify codec chain).valid ≡ true
      → ((verify codec (emit codec m chain).1).valid ≡ true)
        × (((x : AuditError) × ((emit codec m chain).0 ≡ err x) × ((emit codec m chain).1 ≡ chain))
            ⊎ ((e : AuditEvent) × ((emit codec m chain).0 ≡ ok e)
                × ((emit codec m chain).1.events ≡ chain.events ++ e ∷ [])
                × (e.seq ≡ length chain.events + 1)))
  unfolding linked_of body_of
  emit-keeps_valid m chain h = elim (Result-cases (emit codec m chain).0) [
    | inr (x, k) ↦ let same = emit_err m chain k in (rw same h, inl (x, k, same))
    | inl (e, k) ↦
        let (is_linked, grown) = emit_ok m chain k in
        (
          rw grown (
              (verify_exact codec
                  (record chain { events = chain.events ++ linked_of codec chain m ∷ [] })).1
                (IsChain-snoc chain.incident_id 1 genesis chain.events (linked_of codec chain m)
                  ((verify_exact codec chain).0 h) (linked_of-IsLink m chain))),
          inr (e, k, rw (grown, is_linked) refl, rw is_linked refl),
        )
  ]
