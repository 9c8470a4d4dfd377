-- ===== src/Fsm/Advance.antt =====
-- backend/app/services/fsm.py: `advance` and `sweep`, statement by statement. A statement that
-- raises leaves what the statements above it wrote.
use Prim.Native.String.{◌++◌ as str_append}
use proof_ops.Common.{
  ℕ, ◌+◌, ◌-◌, String, Bool, true, false, not, ◌&&◌, ◌||◌, Option, none, some, List, [], ◌∷◌, ◌++◌,
  leb, any, length, contains, is_empty, if◌then◌else◌, is_blank, is_some, Exec, ok, err, guard,
  ◌>>◌,
}
use proof_ops.Contracts.Enums.{
  IncidentStatus, diagnosing, planned, blocked, awaiting_approval, approved, executing, rollback,
  escalated, rca_published, audited, status_eq, status_name,
}
use proof_ops.Fsm.Run.{
  Rejection, terminal_exit, edge_not_allowed, blank_ref, replans_exhausted, deny_reason_missing,
  rollback_repeated, gate_refs_missing, permit_required, permit_expired, permit_replayed,
  permit_pending, permit_misplaced, permit_missing, ttl_not_positive, is_terminal, allowed,
  max_replans, is_ttl_stage, Permit, is_live, IncidentRun, entered,
}

-- The arguments of one call of `advance`; `now` is the time read or passed.
pub record Call : Type 0 where
  pub to : IncidentStatus
  pub reason : String
  pub refs : List String
  pub permit : Option Permit
  pub now : ℕ

-- A statement of a method of the run.
abbrev pub Step : Type 0 → Type 0
Step R = Exec (IncidentRun R) Rejection (Unit {0})

-- `entered = run.entered_at.get(run.state, now)`
abbrev pub entered_or : Option ℕ → ℕ → ℕ
entered_or none now = now
entered_or (some t) now = t

module _ {R : Type 0} where
  -- The re-plan bound: the counter is written before the checks that follow.
  count_replan : IncidentStatus → IncidentStatus → Step R
  count_replan frm to run =
      if status_eq to diagnosing && status_eq frm planned
      then if leb max_replans run.replans
        then (err replans_exhausted, run)
        else (ok tt, record run { replans = run.replans + 1 })
      else (ok tt, run)

  -- `_approve`
  unfoldable pub approve : Option Permit → ℕ → Step R
  unfolding is_live
  approve none now run = (err permit_required, run)
  approve (some p) now run =
      if is_live p now
      then if contains run.consumed_refs p.token_ref
        then (err permit_replayed, run)
        else if is_some run.permit
        then (err permit_pending, run)
        else (ok tt, record run { permit = some p })
      else (err permit_expired, run)

  take_permit : IncidentStatus → Option Permit → ℕ → Step R
  unfolding approve
  take_permit to permit now run =
      if status_eq to approved
      then approve permit now run
      else if is_some permit
      then (err permit_misplaced, run)
      else (ok tt, run)

  -- `run.consumed_refs.add(stored.token_ref); run.permit = None`
  consume_permit : Option Permit → ℕ → Step R
  unfolding is_live
  consume_permit none now run = (err permit_missing, run)
  consume_permit (some stored) now run =
      if is_live stored now
      then (
        ok tt,
        record run {
          permit = none;
          consumed_refs =
              if contains run.consumed_refs stored.token_ref
              then run.consumed_refs
              else stored.token_ref ∷ run.consumed_refs;
        },
      )
      else (err permit_expired, run)

  spend_permit : IncidentStatus → ℕ → Step R
  unfolding consume_permit
  spend_permit to now run =
      if status_eq to executing then consume_permit run.permit now run else (ok tt, run)

  mark_rollback : IncidentStatus → Step R
  mark_rollback to run =
      if status_eq to rollback
      then if run.rolled_back
        then (err rollback_repeated, run)
        else (ok tt, record run { rolled_back = true })
      else (ok tt, run)

  record_entry : IncidentStatus → Call → Exec (IncidentRun R) Rejection IncidentStatus
  record_entry frm c run = (
    ok c.to,
    record run {
      state = c.to;
      entered_at = entered c.to c.now run.entered_at;
      history =
          run.history
          ++ record {
            seq = length run.history + 1;
            frm = frm;
            to = c.to;
            reason = c.reason;
            refs = c.refs;
            forced = false;
            at = c.now;
          }
            ∷ [];
    },
  )

  -- The body of `advance`, with `frm = run.state`.
  unfoldable pub advance_from :
      IncidentStatus → Call → Exec (IncidentRun R) Rejection IncidentStatus
  unfolding count_replan take_permit spend_permit mark_rollback record_entry
  advance_from frm c = do
    guard (not (is_terminal frm)) terminal_exit
    guard (allowed frm c.to) edge_not_allowed
    guard (not (any is_blank c.refs)) blank_ref
    count_replan frm c.to
    guard (not (status_eq c.to blocked && is_blank c.reason)) deny_reason_missing
    take_permit c.to c.permit c.now
    spend_permit c.to c.now
    mark_rollback c.to
    guard (not ((status_eq c.to rca_published || status_eq c.to audited) && is_empty c.refs))
        gate_refs_missing
    record_entry frm c

  unfoldable pub advance : Call → Exec (IncidentRun R) Rejection IncidentStatus
  advance c run = advance_from run.state c run

  -- The forced escalation of `sweep`.
  unfoldable pub force_escalation : ℕ → IncidentRun R → IncidentRun R
  force_escalation now run = record run {
    state = escalated;
    entered_at = entered escalated now run.entered_at;
    history =
        run.history
        ++ record {
          seq = length run.history + 1;
          frm = run.state;
          to = escalated;
          reason = str_append "ttl-expired:" (status_name run.state);
          refs = [];
          forced = true;
          at = now;
        }
          ∷ [];
  }

  -- `now - entered <= ttl` with `0 < ttl`: a clock that went back counts as no time.
  unfoldable pub expire : ℕ → ℕ → Exec (IncidentRun R) Rejection Bool
  unfolding force_escalation
  expire ttl now run =
      if leb ttl 0
      then (err ttl_not_positive, run)
      else if leb (now - entered_or (run.entered_at run.state) now) ttl
      then (ok false, run)
      else (ok true, force_escalation now run)

  unfoldable pub sweep : ℕ → ℕ → ℕ → Exec (IncidentRun R) Rejection Bool
  unfolding expire
  sweep now stage_ttl approval_ttl run =
      if is_terminal run.state
      then (ok false, run)
      else if status_eq run.state awaiting_approval
      then expire approval_ttl now run
      else if is_ttl_stage run.state
      then expire stage_ttl now run
      else (ok false, run)
