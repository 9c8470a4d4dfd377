-- ===== src/EventBus/Buckets.antt =====
-- The buckets of a bus hold each subscription once.
use proof_ops.Common.{
  ℕ, suc, ◌<◌, ◌≡◌, refl, String, Bool, true, false, ◌&&◌, List, [], ◌∷◌, ◌++◌, arith, all, ltb,
}
use proof_ops.EventBus.Queue.{Subscription}
use proof_ops.EventBus.Bus.{
  EventBus, bucket_of, enlist, delist, remove, listed, subscribe, unsubscribe, publish,
}
use proof_ops.EventBus.Fanout.{is_set}

-- Every address is below the next one, and no bucket repeats one.
abbrev pub is_bucket : ℕ → List ℕ → Bool
is_bucket next bucket = all (λ i. ltb i next) bucket && is_set bucket

abbrev pub are_buckets : ℕ → List (String × List ℕ) → Bool
are_buckets next [] = true
are_buckets next ((key, bucket) ∷ subs) = is_bucket next bucket && are_buckets next subs

below_suc :
    (n : ℕ) (xs : List ℕ) → all (λ i. ltb i n) xs ≡ true → all (λ i. ltb i (suc n)) xs ≡ true
below_suc n [] h = refl
below_suc n (x ∷ xs) h = ground (arith, below_suc n xs)

below-append :
    (n : ℕ) (xs : List ℕ)
    → all (λ i. ltb i n) xs ≡ true
    → all (λ i. ltb i (suc n)) (xs ++ n ∷ []) ≡ true
below-append n [] h = ground arith
below-append n (x ∷ xs) h = ground (arith, below-append n xs)

listed-append :
    (x n : ℕ) (xs : List ℕ) → x < n → listed x xs ≡ false → listed x (xs ++ n ∷ []) ≡ false
unfolding listed
listed-append x n [] l h = ground (arith, l)
listed-append x n (y ∷ xs) l h = ground (arith, l, h, listed-append x n xs)

set-append : (n : ℕ) (xs : List ℕ) → is_bucket n xs ≡ true → is_set (xs ++ n ∷ []) ≡ true
unfolding listed
set-append n [] h = refl
set-append n (x ∷ xs) h = ground (arith, h, listed-append x n xs, set-append n xs)

are_buckets-suc :
    (n : ℕ) (subs : List (String × List ℕ))
    → are_buckets n subs ≡ true
    → are_buckets (suc n) subs ≡ true
are_buckets-suc n [] h = refl
are_buckets-suc n ((k, b) ∷ subs) h = ground (arith, h, below_suc n b, are_buckets-suc n subs)

enlist-are_buckets :
    (i : String) (n : ℕ) (subs : List (String × List ℕ))
    → are_buckets n subs ≡ true
    → are_buckets (suc n) (enlist i n subs) ≡ true
unfolding enlist listed
enlist-are_buckets i n [] h = ground arith
enlist-are_buckets i n ((k, b) ∷ subs) h = ground (
  arith,
  h,
  below-append n b,
  set-append n b,
  below_suc n b,
  are_buckets-suc n subs,
  enlist-are_buckets i n subs,
)

remove-below :
    (n s : ℕ) (xs : List ℕ) → all (λ i. ltb i n) xs ≡ true → all (λ i. ltb i n) (remove s xs) ≡ true
unfolding remove
remove-below n s [] h = refl
remove-below n s (x ∷ xs) h = ground (arith, h, remove-below n s xs)

remove-listed : (x s : ℕ) (xs : List ℕ) → listed x xs ≡ false → listed x (remove s xs) ≡ false
unfolding remove listed
remove-listed x s [] h = refl
remove-listed x s (y ∷ xs) h = ground (arith, h, remove-listed x s xs)

remove-set : (s : ℕ) (xs : List ℕ) → is_set xs ≡ true → is_set (remove s xs) ≡ true
unfolding remove
remove-set s [] h = refl
remove-set s (x ∷ xs) h = ground (arith, h, remove-set s xs, remove-listed x s xs)

delist-are_buckets :
    (i : String) (n s : ℕ) (subs : List (String × List ℕ))
    → are_buckets n subs ≡ true
    → are_buckets n (delist i s subs) ≡ true
unfolding delist
delist-are_buckets i n s [] h = refl
delist-are_buckets i n s ((k, b) ∷ subs) h =
    ground (arith, h, remove-below n s b, remove-set s b, delist-are_buckets i n s subs)

bucket_of-set :
    (i : String) (n : ℕ) (subs : List (String × List ℕ))
    → are_buckets n subs ≡ true
    → is_set (bucket_of i subs) ≡ true
unfolding bucket_of
bucket_of-set i n [] h = refl
bucket_of-set i n ((k, b) ∷ subs) h = ground (arith, h, bucket_of-set i n subs)

-- The calls of a bus.
pub data Served {A : Type 0} : EventBus A → Type 1 where
  opened : (heap : ℕ → Subscription A) → Served (record { subs = []; heap = heap; next = 0 })
  subscribed : {bus : EventBus A} → Served bus → (i : String) (m : ℕ) → Served (subscribe i m bus).1
  left : {bus : EventBus A} → Served bus → (s : ℕ) → Served (unsubscribe s bus)
  published : {bus : EventBus A} → Served bus → (i : String) (p : A) → Served (publish i p bus).1

module _ {A : Type 0} where
  Served-are_buckets : {bus : EventBus A} → Served bus → are_buckets bus.next bus.subs ≡ true
  unfolding subscribe unsubscribe publish
  Served-are_buckets (opened h) = refl
  Served-are_buckets (subscribed {bus = bus} u i m) =
      enlist-are_buckets i bus.next bus.subs (Served-are_buckets u)
  Served-are_buckets (left {bus = bus} u s) =
      delist-are_buckets (bus.heap s).incident_id bus.next s bus.subs (Served-are_buckets u)
  Served-are_buckets (published u i p) = Served-are_buckets u

  -- Whatever calls of `subscribe`, `unsubscribe` and `publish` a bus has seen, no incident's bucket
  -- holds a subscription twice, so no event reaches a reader twice.
  pub buckets_without_repetition :
      {bus : EventBus A} (incident : String)
      → Served bus
      → is_set (bucket_of incident bus.subs) ≡ true
  buckets_without_repetition {bus = bus} incident u =
      bucket_of-set incident bus.next bus.subs (Served-are_buckets u)
