-- ===== src/Fsm/OnceLaws.antt =====
-- `execute_once`: a stored result is final, whatever happens to the run afterwards.
use proof_ops.Common.{
  ℕ, String, ◌≡◌, refl, Bool, true, false, ◌||◌, none, some, List, arith, Result, ok, err, inl, inr,
  Bool-cases, is_blank, eq_iff,
}
use proof_ops.Contracts.Enums.{IncidentStatus}
use proof_ops.Fsm.Run.{IncidentRun, allowed}
use proof_ops.Fsm.Edge.{◌⟶◌, new_triaging, allowed-⟶}
use proof_ops.Fsm.Advance.{Call, advance_from, advance, sweep}
use proof_ops.Fsm.Once.{execute_once, handoff, cached}
use proof_ops.Fsm.Bounds.{call_to, no_edge_unchanged}
use proof_ops.Fsm.Reach.{Step, advanced, swept, executed, handed}

-- The run after any number of further calls.
pub data Later {R : Type 0} (run : IncidentRun R) : IncidentRun R → Type 1 where
  at_once : Later run run
  then_step : {mid run' : IncidentRun R} → Later run mid → Step mid run' → Later run run'

module _ {R : Type 0} where
  edge-idem_store :
      {frm to : IncidentStatus}
      → frm ⟶ to
      → (run : IncidentRun R) (c : Call)
      → (advance_from frm (call_to to c) run).1.idem_store ≡ run.idem_store
  unfolding advance_from
  edge-idem_store new_triaging run c = ground arith
  edge-idem_store _ run c = ground arith

  advance-idem_store :
      (run : IncidentRun R) (c : Call) → (advance c run).1.idem_store ≡ run.idem_store
  unfolding advance
  advance-idem_store run c = elim (Bool-cases (allowed run.state c.to)) [
    | inl a ↦ edge-idem_store (allowed-⟶ run.state c.to a) run c
    | inr n ↦ rw (no_edge_unchanged run.state run c n) refl
  ]

  sweep-idem_store :
      (run : IncidentRun R) (n s a : ℕ) → (sweep n s a run).1.idem_store ≡ run.idem_store
  unfolding sweep
  sweep-idem_store run n s a = ground arith

  handoff-idem_store :
      (f t : String) (refs : List String) (run : IncidentRun R)
      → (handoff f t refs run).1.idem_store ≡ run.idem_store
  unfolding handoff
  handoff-idem_store f t refs run = ground arith

  module _ (a e : String) (r : R) where
    execute_once-keeps :
        {W X : Type 0} (b f : String) (fn : W → Result X R × W) (w : W) (run : IncidentRun R)
        → cached a e run.idem_store ≡ some r
        → cached a e (execute_once b f fn run w).1.idem_store ≡ some r
    unfolding execute_once
    execute_once-keeps b f fn w run h =
        ground (arith, eq_iff a b, eq_iff b a, eq_iff e f, eq_iff f e)

    Step-keeps :
        {run run' : IncidentRun R}
        → Step run run'
        → cached a e run.idem_store ≡ some r
        → cached a e run'.idem_store ≡ some r
    Step-keeps {run = run} (advanced c) h = rw (advance-idem_store run c) h
    Step-keeps {run = run} (swept n s t) h = rw (sweep-idem_store run n s t) h
    Step-keeps {run = run} (executed b f fn w) h = execute_once-keeps b f fn w run h
    Step-keeps {run = run} (handed f t refs) h = rw (handoff-idem_store f t refs run) h

    Later-keeps :
        {run run' : IncidentRun R}
        → Later run run'
        → cached a e run.idem_store ≡ some r
        → cached a e run'.idem_store ≡ some r
    Later-keeps at_once h = h
    Later-keeps (then_step l s) h = Step-keeps s (Later-keeps l h)

    cached_replay :
        {W X : Type 0} (fn : W → Result X R × W) (w : W) (run : IncidentRun R)
        → (is_blank a || is_blank e) ≡ false
        → cached a e run.idem_store ≡ some r
        → ((execute_once a e fn run w).0 ≡ ok (r, true)) × ((execute_once a e fn run w).2 ≡ w)
    unfolding execute_once
    cached_replay fn w run b h = ground arith

    stored :
        {W X : Type 0} (fn : W → Result X R × W) (w : W) (run : IncidentRun R) (d : Bool)
        → (execute_once a e fn run w).0 ≡ ok (r, d)
        → ((is_blank a || is_blank e) ≡ false)
          × (cached a e (execute_once a e fn run w).1.idem_store ≡ some r)
    unfolding execute_once
    stored fn w run d h = ground (arith, eq_iff a a, eq_iff e e)

    -- Once a call of `execute_once` has returned a result for an action and an execution, every
    -- later call for the same two, whatever happened to the run in between, returns that result
    -- as a duplicate, and leaves the world untouched: the function that it is given does not run.
    pub execute_once_final :
        {W X V Y : Type 0} (fn : W → Result X R × W) (w : W) (run run' : IncidentRun R) (d : Bool)
        (fn' : V → Result Y R × V) (v : V)
        → (execute_once a e fn run w).0 ≡ ok (r, d)
        → Later (execute_once a e fn run w).1 run'
        → ((execute_once a e fn' run' v).0 ≡ ok (r, true)) × ((execute_once a e fn' run' v).2 ≡ v)
    execute_once_final fn w run run' d fn' v h later =
        let (b, c) = stored fn w run d h in cached_replay fn' v run' b (Later-keeps later c)

    -- A function that raises is not remembered: the run is unchanged, and the next call for the
    -- same action and execution runs its function again.
    pub execute_once_fault_reruns :
        {W X : Type 0} (fn : W → Result X R × W) (w w' w'' : W) (run : IncidentRun R) (x : X)
        → (is_blank a || is_blank e) ≡ false
        → cached a e run.idem_store ≡ none
        → fn w ≡ (err x, w')
        → fn w' ≡ (ok r, w'')
        → ((execute_once a e fn run w).1 ≡ run)
          × ((execute_once a e fn (execute_once a e fn run w).1 (execute_once a e fn run w).2).2
              ≡ w'')
    unfolding execute_once
    execute_once_fault_reruns fn w w' w'' run x b h f g = (ground arith, ground arith)
