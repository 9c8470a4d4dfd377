-- ===== src/EventBus/Fanout.antt =====
-- Whom an event reaches.
use proof_ops.Common.{
  ℕ, ◌≡◌, refl, ap, ◌∙◌, String, Bool, true, false, not, ◌&&◌, List, [], ◌∷◌, ◌==◌, arith, inl, inr,
  Bool-cases, if◌then◌else◌,
}
use proof_ops.EventBus.Queue.{Subscription, offer}
use proof_ops.EventBus.Bus.{
  EventBus, bucket_of, listed, offer_each, publish, updated, subscriber_count,
}

-- A list of addresses without repetition.
abbrev pub is_set : List ℕ → Bool
is_set [] = true
is_set (x ∷ xs) = not (listed x xs) && is_set xs

eq_sound : (m n : ℕ) → (m == n) ≡ true → m ≡ n
eq_sound m n h = ground (arith, h)

module _ {A : Type 0} where
  offer_each-other :
      (p : A) (ts : List ℕ) (heap : ℕ → Subscription A) (i : ℕ)
      → listed i ts ≡ false
      → offer_each p ts heap i ≡ heap i
  unfolding offer_each listed
  offer_each-other p [] heap i h = refl
  offer_each-other p (t ∷ ts) heap i h =
      offer_each-other p ts (updated t (offer p (heap t)) heap) i (ground (arith, h))
      ∙ ground (arith, h)

  offer_each-listed :
      (p : A) (ts : List ℕ) (heap : ℕ → Subscription A) (i : ℕ)
      → is_set ts ≡ true
      → listed i ts ≡ true
      → offer_each p ts heap i ≡ offer p (heap i)
  unfolding offer_each listed
  offer_each-listed p [] heap i s h = ground arith
  offer_each-listed p (t ∷ ts) heap i s h = elim (Bool-cases (t == i)) [
    | inl e ↦ rw (eq_sound t i e) (
        offer_each-other p ts (updated i (offer p (heap i)) heap) i
          (ground (arith, s, eq_sound t i e))
        ∙ ground arith)
    | inr d ↦
        let same : updated t (offer p (heap t)) heap i ≡ heap i = ground (arith, d) in
        offer_each-listed p ts (updated t (offer p (heap t)) heap) i (ground (arith, s))
          (ground (arith, h, d))
        ∙ ap (offer p) same
  ]

  -- `publish` reaches the subscribers of the incident, each once, and nobody else: an object takes
  -- the payload when it is in the incident's bucket and stays as it was when it is not, and the
  -- number returned is that of the subscribers. The bucket holds each object once.
  pub publish_exact :
      (incident : String) (p : A) (bus : EventBus A) (i : ℕ)
      → is_set (bucket_of incident bus.subs) ≡ true
      → ((publish incident p bus).1.heap i
          ≡ (if listed i (bucket_of incident bus.subs) then offer p (bus.heap i) else bus.heap i))
        × ((publish incident p bus).0 ≡ subscriber_count incident bus)
        × ((publish incident p bus).1.subs ≡ bus.subs)
  unfolding publish subscriber_count
  publish_exact incident p bus i s =
      let ts = bucket_of incident bus.subs in
      elim (Bool-cases (listed i ts)) [
        | inl h ↦ (rw h (offer_each-listed p ts bus.heap i s h), refl, refl)
        | inr h ↦ (rw h (offer_each-other p ts bus.heap i h), refl, refl)
      ]
