-- ===== src/Fsm/Log.antt =====
-- What one call of `advance` or `sweep` does to the history.
use proof_ops.Common.{
  ◌+◌, ◌≡◌, refl, true, false, [], ◌∷◌, ◌++◌, arith, length, ok, err, inl, inr, ◌⊎◌, Bool-cases,
  is_some,
}
use proof_ops.Contracts.Enums.{IncidentStatus, planned, diagnosing}
use proof_ops.Fsm.Run.{TransitionRecord, IncidentRun, Rejection, permit_misplaced, allowed}
use proof_ops.Fsm.Edge.{◌⟶◌, new_triaging, planned_diagnosing, allowed-⟶}
use proof_ops.Fsm.Advance.{Call, advance_from, advance}
use proof_ops.Fsm.Bounds.{call_to, no_edge_unchanged}

-- The record that an accepted call appends.
abbrev pub entry : {R : Type 0} → Call → IncidentRun R → TransitionRecord
entry c run = record {
  seq = length run.history + 1;
  frm = run.state;
  to = c.to;
  reason = c.reason;
  refs = c.refs;
  forced = false;
  at = c.now;
}

module _ {R : Type 0} where
  edge_log :
      {frm to : IncidentStatus}
      → frm ⟶ to
      → (run : IncidentRun R) (c : Call) {s : IncidentStatus} → run.state ≡ frm
      → (advance_from frm (call_to to c) run).0 ≡ ok s
      → (s ≡ to)
        × ((advance_from frm (call_to to c) run).1.state ≡ to)
        × ((advance_from frm (call_to to c) run).1.history
            ≡ run.history ++ entry (call_to to c) run ∷ [])
  unfolding advance_from
  edge_log new_triaging run c e h = ground arith
  edge_log _ run c e h = ground arith

  edge_rejected :
      {frm to : IncidentStatus}
      → frm ⟶ to
      → (run : IncidentRun R) (c : Call) {x : Rejection} → run.state ≡ frm
      → (advance_from frm (call_to to c) run).0 ≡ err x
      → ((advance_from frm (call_to to c) run).1 ≡ run)
        ⊎ ((frm ≡ planned)
            × (to ≡ diagnosing)
            × (x ≡ permit_misplaced)
            × (is_some c.permit ≡ true)
            × ((advance_from frm (call_to to c) run).1 ≡ record run { replans = run.replans + 1 }))
  unfolding advance_from
  edge_rejected new_triaging run c e h = ground arith
  edge_rejected planned_diagnosing run c e h = ground arith
  edge_rejected _ run c e h = ground arith

  no_edge_raises :
      (frm : IncidentStatus) (run : IncidentRun R) (c : Call) {s : IncidentStatus}
      → allowed frm c.to ≡ false
      → (advance_from frm c run).0 ≡ ok s
      → ⊥
  unfolding advance_from
  no_edge_raises frm run c h k = ground arith

  -- An accepted call follows an edge of the table, moves the run to the target and appends
  -- exactly one record, numbered next, that tells the move.
  pub advance_accepted :
      (run : IncidentRun R) (c : Call) {s : IncidentStatus}
      → (advance c run).0 ≡ ok s
      → (s ≡ c.to)
        × (allowed run.state c.to ≡ true)
        × ((advance c run).1.state ≡ c.to)
        × ((advance c run).1.history ≡ run.history ++ entry c run ∷ [])
  unfolding advance
  advance_accepted run c k = elim (Bool-cases (allowed run.state c.to)) [
    | inl a ↦ let (p, q, r) = edge_log (allowed-⟶ run.state c.to a) run c refl k in (p, a, q, r)
    | inr n ↦ absurd (no_edge_raises run.state run c n k)
  ]

  -- A rejected call leaves the whole run as it was, but for one case: a permit passed on the
  -- re-plan edge is rejected after the re-plan counter was raised.
  pub advance_rejected :
      (run : IncidentRun R) (c : Call) {x : Rejection}
      → (advance c run).0 ≡ err x
      → ((advance c run).1 ≡ run)
        ⊎ ((run.state ≡ planned)
            × (c.to ≡ diagnosing)
            × (x ≡ permit_misplaced)
            × (is_some c.permit ≡ true)
            × ((advance c run).1 ≡ record run { replans = run.replans + 1 }))
  unfolding advance
  advance_rejected run c k = elim (Bool-cases (allowed run.state c.to)) [
    | inl a ↦ edge_rejected (allowed-⟶ run.state c.to a) run c refl k
    | inr n ↦ inl (no_edge_unchanged run.state run c n)
  ]
