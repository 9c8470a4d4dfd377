-- ===== src/Fsm/Trail.antt =====
-- The history of a run as a walk through the transition table.
use proof_ops.Common.{
  ℕ, suc, ◌+◌, String, ◌≡◌, refl, sym, ap, ◌∙◌, ◌≢◌, true, List, [], ◌∷◌, ◌++◌, arith, length, ok,
  inl, inr, ◌⊎◌, Result, Result-cases,
}
use proof_ops.Contracts.Enums.{IncidentStatus, new, approved, executing, escalated}
use proof_ops.Fsm.Run.{TransitionRecord, IncidentRun, allowed, new_run}
use proof_ops.Fsm.Edge.{◌⟶◌, approved_executing, allowed-⟶}
use proof_ops.Fsm.Advance.{Call, advance, sweep, force_escalation}
use proof_ops.Fsm.Sweep.{forced_entry, timed-allowed, sweep_cases}
use proof_ops.Fsm.Once.{execute_once, handoff}
use proof_ops.Fsm.Log.{entry, advance_accepted, advance_rejected}
use proof_ops.Fsm.Reach.{Step, advanced, swept, executed, handed, Reach, opened, stepped}

-- A call either keeps status and history, or appends one record that leaves the old status.
abbrev pub IsLogged : {R : Type 0} → IncidentRun R → IncidentRun R → Type 0
IsLogged run run' =
    ((run'.state ≡ run.state) × (run'.history ≡ run.history))
    ⊎ ((r : TransitionRecord) × (r.seq ≡ length run.history + 1)
        × (r.frm ≡ run.state)
        × (allowed r.frm r.to ≡ true)
        × (r.forced ≡ true → r.to ≡ escalated)
        × (run'.state ≡ r.to)
        × (run'.history ≡ run.history ++ r ∷ []))

module _ {R : Type 0} where
  advance-IsLogged : (run : IncidentRun R) (c : Call) → IsLogged run (advance c run).1
  advance-IsLogged run c = elim (Result-cases (advance c run).0) [
    | inl (s, k) ↦
        let (p, a, q, e) = advance_accepted run c k in
        inr (entry c run, refl, refl, a, (λ f. cc), q, e)
    | inr (x, k) ↦ elim (advance_rejected run c k) [
      | inl same ↦ inl (rw same refl, rw same refl)
      | inr (_, _, _, _, same) ↦ inl (rw same refl, rw same refl)
    ]
  ]

  sweep-IsLogged : (run : IncidentRun R) (n s a : ℕ) → IsLogged run (sweep n s a run).1
  unfolding force_escalation
  sweep-IsLogged run n s a = elim (sweep_cases run n s a) [
    | inl (timed, same) ↦ rw same (
        inr
          (forced_entry n run, refl, refl, timed-allowed run.state timed, (λ f. refl), refl, refl))
    | inr same ↦ inl (rw same refl, rw same refl)
  ]

  execute_once-IsLogged :
      {W X : Type 0} (a e : String) (fn : W → Result X R × W) (run : IncidentRun R) (w : W)
      → IsLogged run (execute_once a e fn run w).1
  unfolding execute_once
  execute_once-IsLogged a e fn run w = inl (ground arith, ground arith)

  handoff-IsLogged :
      (f t : String) (refs : List String) (run : IncidentRun R)
      → IsLogged run (handoff f t refs run).1
  unfolding handoff
  handoff-IsLogged f t refs run = inl (ground arith, ground arith)

  Step-IsLogged : {run run' : IncidentRun R} → Step run run' → IsLogged run run'
  Step-IsLogged {run = run} (advanced c) = advance-IsLogged run c
  Step-IsLogged {run = run} (swept n s a) = sweep-IsLogged run n s a
  Step-IsLogged {run = run} (executed a e fn w) = execute_once-IsLogged a e fn run w
  Step-IsLogged {run = run} (handed f t refs) = handoff-IsLogged f t refs run

-- The records from number `n` on lead from status `s` to status `t` along edges of the table.
abbrev pub IsTrail : ℕ → IncidentStatus → List TransitionRecord → IncidentStatus → Type 0
IsTrail n s [] t = s ≡ t
IsTrail n s (r ∷ rs) t =
    (r.seq ≡ n)
    × (r.frm ≡ s)
    × (allowed r.frm r.to ≡ true)
    × (r.forced ≡ true → r.to ≡ escalated)
    × IsTrail (suc n) r.to rs t

IsTrail-snoc :
    (n : ℕ) (s : IncidentStatus) (rs : List TransitionRecord) (t : IncidentStatus)
    (r : TransitionRecord)
    → IsTrail n s rs t
    → r.seq ≡ length rs + n
    → r.frm ≡ t
    → allowed r.frm r.to ≡ true
    → (r.forced ≡ true → r.to ≡ escalated)
    → IsTrail n s (rs ++ r ∷ []) r.to
IsTrail-snoc n s [] t r h q e a f = (omega arith, e ∙ sym h, a, f, refl)
IsTrail-snoc n s (x ∷ rs) t r h q e a f =
    (h.0, h.1, h.2, h.3, IsTrail-snoc (suc n) x.to rs t r h.4 (omega arith) e a f)

new_run_fields :
    {R : Type 0} {run : IncidentRun R} (i : String) (now : ℕ)
    → new_run i now ≡ ok run
    → (run.history ≡ []) × (run.state ≡ new)
unfolding new_run
new_run_fields i now e = ground arith

new_run-IsTrail :
    {R : Type 0} {run : IncidentRun R} (i : String) (now : ℕ)
    → new_run i now ≡ ok run
    → IsTrail 1 new run.history run.state
new_run-IsTrail i now e = let (h, s) = new_run_fields i now e in rw (h, s) refl

IsLogged-IsTrail :
    {R : Type 0} (run run' : IncidentRun R)
    → IsLogged run run'
    → IsTrail 1 new run.history run.state
    → IsTrail 1 new run'.history run'.state
IsLogged-IsTrail run run' (inl (e, f)) h = rw (e, f) h
IsLogged-IsTrail run run' (inr (r, q, e, a, f, s, k)) h =
    rw (s, k) (IsTrail-snoc 1 new run.history run.state r h q e a f)

-- The history of every run that can be reached is a walk along allowed edges from NEW to its
-- status, numbered 1, 2, 3, and so on, in which a forced record leads to ESCALATED.
pub Reach-IsTrail :
    {R : Type 0} {run : IncidentRun R} → Reach run → IsTrail 1 new run.history run.state
Reach-IsTrail (opened i now e) = new_run-IsTrail i now e
Reach-IsTrail {run = run'} (stepped {run = run} r s) =
    IsLogged-IsTrail run run' (Step-IsLogged s) (Reach-IsTrail r)

-- The edge into EXECUTING starts at APPROVED alone.
executing_edge : {s t : IncidentStatus} → s ⟶ t → t ≡ executing → s ≡ approved
executing_edge approved_executing e = refl
executing_edge _ e = cc

executing_split :
    (n : ℕ) (s : IncidentStatus) (xs : List TransitionRecord) (r : TransitionRecord)
    (ys : List TransitionRecord) (t : IncidentStatus)
    → IsTrail n s (xs ++ r ∷ ys) t
    → r.to ≡ executing
    → ((xs ≡ []) × (s ≡ approved))
      ⊎ ((ws : List TransitionRecord) × (a : TransitionRecord) × (xs ≡ ws ++ a ∷ [])
          × (a.to ≡ approved))
executing_split n s [] r ys t h e =
    inl (refl, sym h.1 ∙ executing_edge (allowed-⟶ r.frm r.to h.2) e)
executing_split n s (x ∷ xs) r ys t h e = elim (executing_split (suc n) x.to xs r ys t h.4 e) [
  | inl (empty, ready) ↦ inr ([], x, ap (λ l. x ∷ l) empty, ready)
  | inr (ws, a, eq, ready) ↦ inr (x ∷ ws, a, ap (λ l. x ∷ l) eq, ready)
]

new-ne-approved : new ≢ approved
new-ne-approved e = cc

-- No execution without approval: in the history of a run that can be reached, a record that
-- enters EXECUTING is never the first, and the record before it entered APPROVED.
pub executing_after_approved :
    {R : Type 0} {run : IncidentRun R} (xs : List TransitionRecord) (r : TransitionRecord)
    (ys : List TransitionRecord)
    → Reach run
    → run.history ≡ xs ++ r ∷ ys
    → r.to ≡ executing
    → (ws : List TransitionRecord) × (a : TransitionRecord) × (xs ≡ ws ++ a ∷ [])
      × (a.to ≡ approved)
executing_after_approved xs r ys reach e x =
    elim (executing_split 1 new xs r ys _ (rw e at (Reach-IsTrail reach)) x) [
      | inl (_, no_way) ↦ absurd (new-ne-approved no_way)
      | inr found ↦ found
    ]
