-- ===== src/EventBus/Bus.antt =====
-- backend/app/services/eventbus.py: `EventBus`. Subscriptions are shared objects: the bus holds
-- their addresses, and the heap holds the objects.
use text.Mathlib.Text.{◌==◌ as str_eq}
use proof_ops.Common.{
  ℕ, suc, String, Bool, true, false, List, [], ◌∷◌, ◌++◌, ◌==◌, length, is_empty, if◌then◌else◌,
}
use proof_ops.EventBus.Queue.{Subscription, new_subscription, offer}

pub record EventBus (A : Type 0) : Type 0 where
  pub subs : List (String × List ℕ)
  pub heap : ℕ → Subscription A
  pub next : ℕ

-- `self._subs.get(incident_id, ())`
unfoldable pub bucket_of : String → List (String × List ℕ) → List ℕ
bucket_of incident [] = []
bucket_of incident ((key, bucket) ∷ subs) =
    if str_eq key incident then bucket else bucket_of incident subs

-- `self._subs.setdefault(incident_id, []).append(sub)`
unfoldable pub enlist : String → ℕ → List (String × List ℕ) → List (String × List ℕ)
enlist incident sub [] = (incident, sub ∷ []) ∷ []
enlist incident sub ((key, bucket) ∷ subs) =
    if str_eq key incident
    then (key, bucket ++ sub ∷ []) ∷ subs
    else (key, bucket) ∷ enlist incident sub subs

-- `bucket.remove(sub)`; the bucket stays where it is not in it.
unfoldable pub remove : ℕ → List ℕ → List ℕ
remove sub [] = []
remove sub (x ∷ xs) = if x == sub then xs else x ∷ remove sub xs

-- `unsubscribe` of one bucket, and `pop` of an empty one.
unfoldable pub delist : String → ℕ → List (String × List ℕ) → List (String × List ℕ)
unfolding remove
delist incident sub [] = []
delist incident sub ((key, bucket) ∷ subs) =
    if str_eq key incident
    then if is_empty (remove sub bucket) then subs else (key, remove sub bucket) ∷ subs
    else (key, bucket) ∷ delist incident sub subs

unfoldable pub listed : ℕ → List ℕ → Bool
listed sub [] = false
listed sub (x ∷ xs) = if x == sub then true else listed sub xs

module _ {A : Type 0} where
  abbrev pub updated : ℕ → Subscription A → (ℕ → Subscription A) → ℕ → Subscription A
  updated at value heap i = if i == at then value else heap i

  -- `subscribe`: a new object, at the end of the incident's bucket.
  unfoldable pub subscribe : String → ℕ → EventBus A → ℕ × EventBus A
  unfolding enlist
  subscribe incident maxsize bus = (
    bus.next,
    record {
      subs = enlist incident bus.next bus.subs;
      heap = updated bus.next (new_subscription incident maxsize) bus.heap;
      next = suc bus.next;
    },
  )

  unfoldable pub unsubscribe : ℕ → EventBus A → EventBus A
  unfolding delist
  unsubscribe sub bus = record bus { subs = delist (bus.heap sub).incident_id sub bus.subs }

  -- The loop of `publish` over the targets.
  unfoldable pub offer_each : A → List ℕ → (ℕ → Subscription A) → ℕ → Subscription A
  unfolding offer
  offer_each payload [] heap = heap
  offer_each payload (t ∷ ts) heap = offer_each payload ts (updated t (offer payload (heap t)) heap)

  -- `publish`: how many subscribers were reached.
  unfoldable pub publish : String → A → EventBus A → ℕ × EventBus A
  unfolding bucket_of offer_each
  publish incident payload bus =
      let targets = bucket_of incident bus.subs in
      (length targets, record bus { heap = offer_each payload targets bus.heap })

  unfoldable pub subscriber_count : String → EventBus A → ℕ
  unfolding bucket_of
  subscriber_count incident bus = length (bucket_of incident bus.subs)
