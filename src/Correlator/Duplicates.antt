-- ===== src/Correlator/Duplicates.antt =====
-- backend/app/services/correlator.py: what `deduplicate` keeps, and what it counts.
use mathlib.Core.Path.{subst}
use proof_ops.Common.{
  ℕ, ◌+◌, String, Bool, true, false, ◌≡◌, refl, sym, List, [], ◌∷◌, ◌++◌, length, length-append,
  contains, Bool-cases, inl, inr, append-nil, append_assoc, if◌then◌else◌, arith, Result, ok, err,
}
use proof_ops.Correlator.Alert.{
  Alert, Fault, alert_signature, Key, key_eq, key_of, lookup, assign, Tally, empty_tally, or_zero,
  is_near, suppress, keep, tally_alert, deduplicate_from, deduplicate,
}

-- What the body of the loop preserves, with the alerts so far, holds at its end.
pub deduplicate_from-all :
    (P : List Alert → Tally → Type 0)
    → ((done : List Alert) (a : Alert) (sig : String) (t : Tally)
        → alert_signature a ≡ ok sig
        → P done t
        → P (done ++ a ∷ []) (tally_alert a (key_of a sig) t))
    → (done : List Alert) (s : Tally) (alerts : List Alert) (t : Tally) → P done s
    → deduplicate_from s alerts ≡ ok t
    → P (done ++ alerts) t
unfolding deduplicate_from
deduplicate_from-all P step done s [] t p h =
    subst (λ l. P l t) (sym (append-nil done)) (subst (P done) (same refl h) p)
  where
    same : {r : Result Fault Tally} {x y : Tally} → r ≡ ok x → r ≡ ok y → x ≡ y
    same e f = cc
deduplicate_from-all P step done s (a ∷ more) t p h = go (alert_signature a) refl h (λ sig x e.
    deduplicate_from-all P step (done ++ a ∷ []) (tally_alert a (key_of a sig) s) more t x e)
  where
    go :
        (r : Result Fault String)
        → alert_signature a ≡ r
        → (elim r [
          | err x ↦ err x
          | ok sig ↦ deduplicate_from (tally_alert a (key_of a sig) s) more
        ])
          ≡ ok t
        → ((sig : String)
            → P (done ++ a ∷ []) (tally_alert a (key_of a sig) s)
            → deduplicate_from (tally_alert a (key_of a sig) s) more ≡ ok t
            → P ((done ++ a ∷ []) ++ more) t)
        → P (done ++ a ∷ more) t
    go (err x) e g k = cc
    go (ok sig) e g k =
        subst (λ l. P l t) (append_assoc done (a ∷ []) more) (k sig (step done a sig s e p) g)

abbrev pub total : List (Key × ℕ) → ℕ
total [] = 0
total ((k, n) ∷ rest) = n + total rest

total-assign :
    (k : Key) (v : ℕ) (l : List (Key × ℕ))
    → total (assign k v l) + or_zero (lookup k l) ≡ total l + v
unfolding assign lookup
total-assign k v [] = omega arith
total-assign k v ((j, n) ∷ rest) = elim (Bool-cases (key_eq j k)) [
  | inl e ↦ rw e (omega arith)
  | inr e ↦ rw e (omega (arith, total-assign k v rest))
]

-- The counts of the loop so far.
record Counts (done : List Alert) (t : Tally) : Type 0 where
  every : length t.unique + t.suppressed ≡ length done
  by_keys : total t.by_key ≡ t.suppressed

tally_alert-Counts :
    (done : List Alert) (a : Alert) (k : Key) (t : Tally)
    → Counts done t
    → Counts (done ++ a ∷ []) (tally_alert a k t)
unfolding tally_alert
tally_alert-Counts done a k t c =
    go (contains t.seen_ids a.alert_id) (is_near a.timestamp (lookup k t.last_seen))
  where
    dropped : Counts (done ++ a ∷ []) (suppress k t)
    dropped = record {
      every = omega (arith, c.every, length-append done (a ∷ []));
      by_keys = omega (arith, c.by_keys, total-assign k (or_zero (lookup k t.by_key) + 1) t.by_key);
    }

    go :
        (b d : Bool)
        → Counts
            (done ++ a ∷ [])
            (if b then suppress k t else if d then suppress k t else keep a k t)
    go true d = dropped
    go false true = dropped
    go false false = record {
      every = omega (arith, c.every, length-append t.unique (a ∷ []), length-append done (a ∷ []));
      by_keys = c.by_keys;
    }

-- Every alert is either kept or counted as suppressed, and the counts of the keys add up to the
-- number of the suppressed alerts.
pub deduplicate_counts :
    (alerts : List Alert) {t : Tally}
    → deduplicate alerts ≡ ok t
    → (length t.unique + t.suppressed ≡ length alerts) × (total t.by_key ≡ t.suppressed)
unfolding deduplicate
deduplicate_counts alerts {t} h =
    let c =
      deduplicate_from-all Counts (λ done a sig t e c. tally_alert-Counts done a (key_of a sig) t c)
        [] empty_tally alerts t (record { every = refl; by_keys = refl }) h in
    (c.every, c.by_keys)
