-- ===== src/EventBus/Tests.antt =====
-- The event bus on concrete inputs.
use proof_ops.Common.{ℕ, [], ◌∷◌, arith}
use proof_ops.EventBus.Queue.{Subscription, new_subscription, run_pending}
use proof_ops.EventBus.Bus.{EventBus, subscribe, unsubscribe}
use proof_ops.EventBus.Backlog.{IsBacklog, run_pending-IsBacklog}

-- A reader with room for two items, one of them taken, and two more scheduled.
abbrev slow : Subscription ℕ
slow = record (new_subscription "inc-1" 2) { queue = 1 ∷ []; pending = 2 ∷ 3 ∷ [] }

run_pending-IsBacklog_example : IsBacklog slow (2 ∷ 3 ∷ []) (run_pending slow)
run_pending-IsBacklog_example = run_pending-IsBacklog slow (omega arith) (omega arith)

abbrev bus : EventBus ℕ
bus = record {
  subs = ("inc-1", 0 ∷ 1 ∷ []) ∷ ("inc-2", 2 ∷ []) ∷ [];
  heap = λ i. new_subscription "inc-1" 2;
  next = 3;
}

abbrev fresh_bus : EventBus ℕ
fresh_bus = record { subs = []; heap = λ i. new_subscription "inc-1" 2; next = 0 }

-- Two readers join and the first leaves.
abbrev one_left : EventBus ℕ
one_left = unsubscribe 0 (subscribe "inc-1" 2 (subscribe "inc-1" 2 fresh_bus).1).1
