-- ===== src/Fsm/Tests.antt =====
-- Runs of the state machine on concrete inputs.
use proof_ops.Common.{
  ℕ, ◌+◌, ◌*◌, ◌==◌, if◌then◌else◌, ◌≤◌, ◌≡◌, refl, String, true, false, none, some, [], ◌∷◌,
  Result, ok, err, arith, ◌⊎◌, is_blank, ◌<◌,
}
use proof_ops.Contracts.Enums.{
  IncidentStatus, new, triaging, correlated, investigating, diagnosing, planned, policy_check,
  awaiting_approval, approved, executing,
}
use proof_ops.Fsm.Run.{Permit, permit_misplaced, IncidentRun, new_run, entered}
use proof_ops.Fsm.Advance.{Call, advance_from, advance, sweep, entered_or}
use proof_ops.Fsm.Once.{execute_once}
use proof_ops.Fsm.Bounds.{IsBounded}
use proof_ops.Fsm.Sweep.{is_timed, IsForced, ttl_of, sweep_exact}
use proof_ops.Fsm.Log.{advance_rejected}
use proof_ops.Fsm.Reach.{Reach, opened, stepped, advanced, Reach-IsBounded}
use proof_ops.Fsm.Trail.{IsTrail, Reach-IsTrail}
use proof_ops.Fsm.Permits.{UsesUp, executing_spends_permit, lapsed_approval_stuck}
use proof_ops.Fsm.OnceLaws.{at_once, execute_once_final}

abbrev fresh : IncidentRun ℕ
fresh = record {
  incident_id = "inc-1";
  state = new;
  history = [];
  handoffs = [];
  suppressions = [];
  replans = 0;
  rolled_back = false;
  permit = none;
  consumed_refs = [];
  idem_store = [];
  entered_at = entered new 100 (λ _. none);
}

fresh_is_new : new_run "inc-1" 100 ≡ ok fresh
unfolding new_run is_blank
fresh_is_new = refl

abbrev call : IncidentStatus → ℕ → Call
call s t = record { to = s; reason = "step"; refs = "ref-1" ∷ []; permit = none; now = t }

abbrev permit_1 : Permit
permit_1 = record {
  action_id = "act-1";
  params_hash = "h";
  expires_at = 700;
  token_ref = "tok-1";
  auto = false;
}

abbrev approval : Call
approval = record { to = approved; reason = ""; refs = []; permit = some permit_1; now = 400 }

abbrev go : Call → IncidentRun ℕ → IncidentRun ℕ
go c run = (advance c run).1

abbrev at_planned : IncidentRun ℕ
at_planned = go (call planned 105) (
    go (call diagnosing 104)
      (go (call investigating 103) (go (call correlated 102) (go (call triaging 101) fresh))))

abbrev at_approved : IncidentRun ℕ
at_approved = go approval (go (call awaiting_approval 107) (go (call policy_check 106) at_planned))

abbrev at_executing : IncidentRun ℕ
at_executing = go (call executing 500) at_approved

at_executing_state : at_executing.state ≡ executing
unfolding advance advance_from is_blank
at_executing_state = refl

planned_run : Reach at_planned
planned_run =
    stepped
      (stepped
        (stepped
          (stepped (stepped (opened "inc-1" 100 fresh_is_new) (advanced (call triaging 101)))
            (advanced (call correlated 102)))
          (advanced (call investigating 103)))
        (advanced (call diagnosing 104)))
      (advanced (call planned 105))

executing_run : Reach at_executing
executing_run =
    stepped
      (stepped
        (stepped (stepped planned_run (advanced (call policy_check 106)))
          (advanced (call awaiting_approval 107)))
        (advanced approval))
      (advanced (call executing 500))

Reach-IsBounded_example : IsBounded at_executing
Reach-IsBounded_example = Reach-IsBounded executing_run

Reach-IsTrail_example : IsTrail 1 new at_executing.history at_executing.state
Reach-IsTrail_example = Reach-IsTrail executing_run

-- The finding: the re-plan is refused, and the counter has moved.
abbrev bad_replan : Call
bad_replan = record (call diagnosing 106) { permit = some permit_1 }

bad_replan_counts : (advance bad_replan at_planned).1.replans ≡ 1
unfolding advance advance_from is_blank
bad_replan_counts = refl

advance_rejected_example :
    ((advance bad_replan at_planned).1 ≡ at_planned)
    ⊎ ((at_planned.state ≡ planned)
        × (diagnosing ≡ diagnosing)
        × (permit_misplaced ≡ permit_misplaced)
        × (true ≡ true)
        × ((advance bad_replan at_planned).1
            ≡ record at_planned { replans = at_planned.replans + 1 }))
unfolding advance advance_from is_blank
advance_rejected_example = advance_rejected at_planned bad_replan refl

executing_spends_permit_example : UsesUp at_approved at_executing 500
unfolding advance advance_from is_blank
executing_spends_permit_example = executing_spends_permit at_approved (call executing 500) refl refl

lapsed_approval_stuck_example :
    (go (call executing 701) at_approved ≡ at_approved)
    × (sweep 701 60 600 at_approved ≡ (ok false, at_approved))
unfolding advance advance_from is_blank
lapsed_approval_stuck_example =
    lapsed_approval_stuck at_approved (call executing 701) permit_1 60 600 refl refl (omega arith)

sweep_exact_example :
    ((is_timed at_planned.state ≡ true)
      × (entered_or (at_planned.entered_at at_planned.state) 166 + ttl_of at_planned.state 60 600
          < 166)
      × ((sweep 166 60 600 at_planned).0 ≡ ok true)
      × IsForced 166 at_planned (sweep 166 60 600 at_planned).1)
    ⊎ (((is_timed at_planned.state ≡ false)
          ⊎ (166
              ≤ entered_or (at_planned.entered_at at_planned.state) 166
                + ttl_of at_planned.state 60 600))
        × (sweep 166 60 600 at_planned ≡ (ok false, at_planned)))
sweep_exact_example = sweep_exact at_planned 166 60 600 (omega arith) (omega arith)

-- A world that counts the runs of the function, and a function that fails the first time.
abbrev tick : ℕ → Result String ℕ × ℕ
tick w = (ok (w * 10), w + 1)

abbrev flaky : ℕ → Result String ℕ × ℕ
flaky w = (if w == 0 then err "down" else ok w, w + 1)

execute_once_final_example :
    ((execute_once "act-1" "ex-1" tick (execute_once "act-1" "ex-1" tick fresh 7).1 8).0
      ≡ ok (70, true))
    × ((execute_once "act-1" "ex-1" tick (execute_once "act-1" "ex-1" tick fresh 7).1 8).2 ≡ 8)
unfolding execute_once is_blank
execute_once_final_example =
    execute_once_final "act-1" "ex-1" 70 tick 7 fresh (execute_once "act-1" "ex-1" tick fresh 7).1
      false tick 8 refl at_once
