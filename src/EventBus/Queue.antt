-- ===== src/EventBus/Queue.antt =====
-- backend/app/services/eventbus.py: `Subscription`, with the callbacks that its loop has yet to run.
use proof_ops.Common.{
  ℕ, ◌+◌, Bool, false, not, ◌&&◌, Option, none, some, List, [], ◌∷◌, ◌++◌, ◌==◌, leb, length,
  String, if◌then◌else◌,
}

-- `pending` is what `call_soon_threadsafe` has scheduled, oldest first; a closed loop takes nothing.
pub record Subscription (A : Type 0) : Type 0 where
  pub incident_id : String
  pub maxsize : ℕ
  pub queue : List A
  pub dropped : ℕ
  pub pending : List A
  pub closed : Bool

-- `DEFAULT_QUEUE_SIZE`
abbrev pub default_queue_size : ℕ
default_queue_size = 256

module _ {A : Type 0} where
  -- `asyncio.Queue.full`: a size of 0 is no bound.
  abbrev pub is_full : ℕ → List A → Bool
  is_full maxsize queue = not (maxsize == 0) && leb maxsize (length queue)

  abbrev pub new_subscription : String → ℕ → Subscription A
  new_subscription incident maxsize = record {
    incident_id = incident;
    maxsize = maxsize;
    queue = [];
    dropped = 0;
    pending = [];
    closed = false;
  }

  -- The handler of QueueFull in `_put`: the oldest item goes, and the payload is put again.
  unfoldable pub replace_oldest : List A → A → Subscription A → Subscription A
  replace_oldest [] payload s = record s { dropped = s.dropped + 1 }
  replace_oldest (x ∷ rest) payload s =
      if is_full s.maxsize rest
      then record s { queue = rest; dropped = s.dropped + 1 + 1 }
      else record s { queue = rest ++ payload ∷ []; dropped = s.dropped + 1 }

  -- `_put`
  unfoldable pub put : A → Subscription A → Subscription A
  unfolding replace_oldest
  put payload s =
      if is_full s.maxsize s.queue
      then replace_oldest s.queue payload s
      else record s { queue = s.queue ++ payload ∷ [] }

  -- `offer`
  unfoldable pub offer : A → Subscription A → Subscription A
  offer payload s = if s.closed then s else record s { pending = s.pending ++ payload ∷ [] }

  unfoldable pub put_all : List A → Subscription A → Subscription A
  unfolding put
  put_all [] s = s
  put_all (p ∷ ps) s = put_all ps (put p s)

  -- The loop runs the callbacks that are scheduled, in order.
  unfoldable pub run_pending : Subscription A → Subscription A
  unfolding put_all
  run_pending s = put_all s.pending (record s { pending = [] })

  -- `get` of a queue that is not empty.
  unfoldable pub take : Subscription A → Option A × Subscription A
  take s = elim s.queue [ [] ↦ (none, s) | x ∷ rest ↦ (some x, record s { queue = rest }) ]
