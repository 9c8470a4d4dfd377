-- ===== src/Fsm/Permits.antt =====
-- The permits of a run: what lets it execute, and what happens to one that lapses.
use proof_ops.Common.{
  ℕ, ◌≤◌, ◌<◌, ◌≡◌, refl, true, false, Option, none, some, arith, ok, inl, inr, Bool-cases,
  contains, eq_iff,
}
use proof_ops.Contracts.Enums.{IncidentStatus, approved, executing}
use proof_ops.Fsm.Run.{Permit, IncidentRun, allowed}
use proof_ops.Fsm.Edge.{◌⟶◌, approved_executing, allowed-⟶}
use proof_ops.Fsm.Advance.{Call, advance_from, advance, sweep}
use proof_ops.Fsm.Bounds.{call_to, no_edge_unchanged}
use proof_ops.Fsm.Log.{advance_accepted}

-- What an accepted call into EXECUTING finds and leaves.
pub record UsesUp {R : Type 0} (run run' : IncidentRun R) (now : ℕ) : Type 0 where
  pub permit : Permit
  pub ready : run.state ≡ approved
  pub held : run.permit ≡ some permit
  pub live : now < permit.expires_at
  pub gone : run'.permit ≡ none
  pub burned : contains run'.consumed_refs permit.token_ref ≡ true

module _ {R : Type 0} (run : IncidentRun R) (c : Call) where
  none_rejected :
      {s : IncidentStatus}
      → run.permit ≡ none
      → (advance_from approved (call_to executing c) run).0 ≡ ok s
      → ⊥
  unfolding advance_from
  none_rejected e k = ground arith

  approved_uses :
      (o : Option Permit) {s : IncidentStatus}
      → run.permit ≡ o
      → run.state ≡ approved
      → (advance_from approved (call_to executing c) run).0 ≡ ok s
      → UsesUp run (advance_from approved (call_to executing c) run).1 c.now
  unfolding advance_from
  approved_uses none e st k = absurd (none_rejected e k)
  approved_uses (some p) e st k = record {
    permit = p;
    ready = st;
    held = e;
    live = ground arith;
    gone = ground arith;
    burned = ground (arith, eq_iff p.token_ref p.token_ref);
  }

  lapsed_at :
      {t : IncidentStatus} (p : Permit)
      → approved ⟶ t
      → run.permit ≡ some p
      → p.expires_at ≤ c.now
      → (advance_from approved (call_to t c) run).1 ≡ run
  unfolding advance_from
  lapsed_at p approved_executing e h = ground arith

  edge_uses :
      {frm to : IncidentStatus}
      → frm ⟶ to
      → run.state ≡ frm
      → to ≡ executing
      → {s : IncidentStatus} → (advance_from frm (call_to to c) run).0 ≡ ok s
      → UsesUp run (advance_from frm (call_to to c) run).1 c.now
  edge_uses approved_executing e x k = approved_uses run.permit refl e k
  edge_uses _ e x k = cc

  -- An accepted call into EXECUTING starts from APPROVED with a stored permit that is live at the
  -- time of the call, takes the permit away and marks its token as consumed.
  pub executing_spends_permit :
      {s : IncidentStatus}
      → c.to ≡ executing
      → (advance c run).0 ≡ ok s
      → UsesUp run (advance c run).1 c.now
  unfolding advance
  executing_spends_permit x k =
      edge_uses (allowed-⟶ run.state c.to (advance_accepted run c k).1) refl x k

  lapsed_edge :
      {frm to : IncidentStatus} (p : Permit)
      → frm ⟶ to
      → frm ≡ approved
      → run.permit ≡ some p
      → p.expires_at ≤ c.now
      → (advance_from frm (call_to to c) run).1 ≡ run
  lapsed_edge p approved_executing f e h = lapsed_at p approved_executing e h
  lapsed_edge p _ f e h = cc

  -- An APPROVED run whose permit has lapsed is stuck: no call of `advance` and no sweep from then
  -- on changes it in any way.
  pub lapsed_approval_stuck :
      (p : Permit) (stage_ttl approval_ttl : ℕ)
      → run.state ≡ approved
      → run.permit ≡ some p
      → p.expires_at ≤ c.now
      → ((advance c run).1 ≡ run) × (sweep c.now stage_ttl approval_ttl run ≡ (ok false, run))
  unfolding advance sweep
  lapsed_approval_stuck p s a e h l = (
    elim (Bool-cases (allowed run.state c.to)) [
      | inl ok_edge ↦ lapsed_edge p (allowed-⟶ run.state c.to ok_edge) e h l
      | inr n ↦ no_edge_unchanged run.state run c n
    ],
    rw e refl,
  )
