-- ===== src/Fsm/Bounds.antt =====
-- The bounds of a run: re-plans, rollbacks, executions, and the number of transitions.
use proof_ops.Common.{
  ℕ, ◌+◌, ◌-◌, ◌*◌, ◌≤◌, ◌≡◌, refl, Bool, true, false, arith, length, length-append, is_some, inl,
  inr, Bool-cases, if◌then◌else◌,
}
use proof_ops.Contracts.Enums.{
  IncidentStatus, new, triaging, correlated, investigating, diagnosing, planned, policy_check,
  blocked, awaiting_approval, approved, executing, verifying, resolved, rollback, escalated,
  rca_pending, rca_published, audited, status_eq,
}
use proof_ops.Fsm.Run.{IncidentRun, allowed, is_terminal}
use proof_ops.Fsm.Edge.{◌⟶◌, new_triaging, allowed-⟶}
use proof_ops.Fsm.Advance.{Call, advance_from, advance, sweep}

abbrev pub bit : Bool → ℕ
bit true = 1
bit false = 0

-- How many transitions are still possible from a status.
abbrev pub room : IncidentStatus → ℕ → Bool → ℕ
room new r b = 16 + 2 * (2 - r)
room triaging r b = 15 + 2 * (2 - r)
room correlated r b = 14 + 2 * (2 - r)
room investigating r b = 13 + 2 * (2 - r)
room diagnosing r b = 12 + 2 * (2 - r)
room planned r b = 11 + 2 * (2 - r)
room policy_check r b = 10
room awaiting_approval r b = 9
room approved r b = 8
room executing r b = 7
room verifying r b = if b then 4 else 6
room rollback r b = 5
room resolved r b = 3
room escalated r b = 3
room rca_pending r b = 2
room rca_published r b = 1
room blocked r b = 0
room audited r b = 0

-- Whether the run may still execute.
abbrev pub may_execute : IncidentStatus → ℕ
may_execute new = 1
may_execute triaging = 1
may_execute correlated = 1
may_execute investigating = 1
may_execute diagnosing = 1
may_execute planned = 1
may_execute policy_check = 1
may_execute awaiting_approval = 1
may_execute approved = 1
may_execute _ = 0

abbrev pub may_rollback : IncidentStatus → Bool → Bool
may_rollback rollback b = b
may_rollback _ b = true

pub record IsBounded {R : Type 0} (run : IncidentRun R) : Type 0 where
  pub replans_le : run.replans ≤ 2
  pub permit_held : is_some run.permit ≡ status_eq run.state approved
  pub spent : length run.consumed_refs + may_execute run.state ≤ 1
  pub marked : may_rollback run.state run.rolled_back ≡ true
  pub short : room run.state run.replans run.rolled_back + length run.history ≤ 20

abbrev pub call_to : IncidentStatus → Call → Call
call_to to c = record c { to = to }

module _ {R : Type 0} where
  edge-IsBounded :
      {frm to : IncidentStatus}
      → frm ⟶ to
      → (run : IncidentRun R) (c : Call) → run.state ≡ frm
      → IsBounded run
      → IsBounded (advance_from frm (call_to to c) run).1
  unfolding advance_from
  edge-IsBounded new_triaging run c e h = grind (arith, length-append)
  edge-IsBounded _ run c e h = grind (arith, length-append)

  -- Without an edge nothing is written.
  pub no_edge_unchanged :
      (frm : IncidentStatus) (run : IncidentRun R) (c : Call)
      → allowed frm c.to ≡ false
      → (advance_from frm c run).1 ≡ run
  unfolding advance_from
  no_edge_unchanged frm run c h = elim (Bool-cases (is_terminal frm)) [
    | inl t ↦ rw t
    | inr t ↦ rw (t, h)
  ]

  pub advance-IsBounded :
      (run : IncidentRun R) (c : Call) → IsBounded run → IsBounded (advance c run).1
  unfolding advance
  advance-IsBounded run c h = elim (Bool-cases (allowed run.state c.to)) [
    | inl a ↦ edge-IsBounded (allowed-⟶ run.state c.to a) run c refl h
    | inr n ↦ rw (no_edge_unchanged run.state run c n) h
  ]

  pub sweep-IsBounded :
      (run : IncidentRun R) (now s a : ℕ) → IsBounded run → IsBounded (sweep now s a run).1
  unfolding sweep
  sweep-IsBounded run now s a h = grind (arith, length-append)
