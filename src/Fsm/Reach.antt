-- ===== src/Fsm/Reach.antt =====
-- The runs that the file's operations can reach from `new_run`, failing calls included.
use proof_ops.Common.{ℕ, String, ◌≡◌, List, arith, ok, Result}
use proof_ops.Fsm.Run.{IncidentRun, new_run}
use proof_ops.Fsm.Advance.{Call, advance, sweep}
use proof_ops.Fsm.Once.{execute_once, handoff}
use proof_ops.Fsm.Bounds.{IsBounded, advance-IsBounded, sweep-IsBounded}

-- One call of an operation, accepted or not.
pub data Step {R : Type 0} (run : IncidentRun R) : IncidentRun R → Type 1 where
  advanced : (c : Call) → Step run (advance c run).1
  swept : (now stage_ttl approval_ttl : ℕ) → Step run (sweep now stage_ttl approval_ttl run).1
  executed :
      {W X : Type 0} (a e : String) (fn : W → Result X R × W) (w : W)
      → Step run (execute_once a e fn run w).1
  handed : (f t : String) (refs : List String) → Step run (handoff f t refs run).1

pub data Reach {R : Type 0} : IncidentRun R → Type 1 where
  opened : {run : IncidentRun R} (i : String) (now : ℕ) → new_run i now ≡ ok run → Reach run
  stepped : {run run' : IncidentRun R} → Reach run → Step run run' → Reach run'

module _ {R W X : Type 0} where
  -- Apart from the two lists of its own, `execute_once` changes nothing.
  pub execute_once-IsBounded :
      (a e : String) (fn : W → Result X R × W) (run : IncidentRun R) (w : W)
      → IsBounded run
      → IsBounded (execute_once a e fn run w).1
  unfolding execute_once
  execute_once-IsBounded a e fn run w h = ground arith

pub handoff-IsBounded :
    {R : Type 0} (f t : String) (refs : List String) (run : IncidentRun R)
    → IsBounded run
    → IsBounded (handoff f t refs run).1
unfolding handoff
handoff-IsBounded f t refs run h = ground arith

pub Step-IsBounded :
    {R : Type 0} {run run' : IncidentRun R} → Step run run' → IsBounded run → IsBounded run'
Step-IsBounded {run = run} (advanced c) h = advance-IsBounded run c h
Step-IsBounded {run = run} (swept n s a) h = sweep-IsBounded run n s a h
Step-IsBounded {run = run} (executed a e fn w) h = execute_once-IsBounded a e fn run w h
Step-IsBounded {run = run} (handed f t refs) h = handoff-IsBounded f t refs run h

pub new_run-IsBounded :
    {R : Type 0} {run : IncidentRun R} (i : String) (now : ℕ)
    → new_run i now ≡ ok run
    → IsBounded run
unfolding new_run
new_run-IsBounded i now h = ground arith

-- Whatever is called in whatever order, a run has at most 2 re-plans, at most one consumed
-- permit, a pending permit exactly while it is APPROVED, and at most 20 transitions.
pub Reach-IsBounded : {R : Type 0} {run : IncidentRun R} → Reach run → IsBounded run
Reach-IsBounded (opened i now e) = new_run-IsBounded i now e
Reach-IsBounded (stepped r s) = Step-IsBounded s (Reach-IsBounded r)
