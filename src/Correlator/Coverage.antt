-- ===== src/Correlator/Coverage.antt =====
-- backend/app/services/correlator.py: what stands for a suppressed alert, and what is never kept twice.
use text.Mathlib.Text.{◌==◌ as str_eq}
use proof_ops.Common.{
  ℕ, ◌≤◌, String, Bool, true, false, ◌||◌, ◌≡◌, refl, sym, ap, ◌∙◌, Option, none, some, List, [],
  ◌∷◌, ◌++◌, contains, Bool-cases, inl, inr, leb, if◌then◌else◌, arith, eq_iff, ok,
}
use proof_ops.Correlator.Alert.{
  Alert, alert_signature, Key, key_eq, key_of, lookup, assign, distance, dedup_window, Tally,
  empty_tally, is_near, suppress, keep, tally_alert, deduplicate,
}
use proof_ops.Correlator.Duplicates.{deduplicate_from-all}

-- `b` stands for `a`: it is `a`, has its id, or has its key and came within the window.
pub data IsFor (a b : Alert) : Type 0 where
  same_id : b.alert_id ≡ a.alert_id → IsFor a b
  near :
      (sig sig' : String)
      → alert_signature a ≡ ok sig
      → alert_signature b ≡ ok sig'
      → key_eq (key_of b sig') (key_of a sig) ≡ true
      → distance a.timestamp b.timestamp ≤ dedup_window
      → IsFor a b

-- Some alert of a list satisfies a predicate; all do.
pub data Some (P : Alert → Type 0) : List Alert → Type 0 where
  first : {b : Alert} {l : List Alert} → P b → Some P (b ∷ l)
  further : {b : Alert} {l : List Alert} → Some P l → Some P (b ∷ l)

abbrev pub All : (Alert → Type 0) → List Alert → Type 0
All P [] = Unit
All P (a ∷ l) = P a × All P l

module _ {P : Alert → Type 0} where
  Some-append : (m : List Alert) {l : List Alert} → Some P l → Some P (l ++ m)
  Some-append m (first p) = first p
  Some-append m (further s) = further (Some-append m s)

  Some-last : (l : List Alert) (b : Alert) → P b → Some P (l ++ b ∷ [])
  Some-last [] b p = first p
  Some-last (x ∷ l) b p = further (Some-last l b p)

  Some-weaken :
      {Q : Alert → Type 0} {l : List Alert} → ((b : Alert) → P b → Q b) → Some P l → Some Q l
  Some-weaken f (first {b} p) = first (f b p)
  Some-weaken f (further s) = further (Some-weaken f s)

pub All-last :
    (P : Alert → Type 0) (l : List Alert) (a : Alert) → All P l → P a → All P (l ++ a ∷ [])
All-last P [] a h p = (p, tt)
All-last P (x ∷ l) a h p = (h.0, All-last P l a h.1 p)

All-map : (P Q : Alert → Type 0) (l : List Alert) → ((b : Alert) → P b → Q b) → All P l → All Q l
All-map P Q [] f h = tt
All-map P Q (x ∷ l) f h = (f x h.0, All-map P Q l f h.1)

-- The alert that last was seen with a key.
record IsLast (k : Key) (ts : ℕ) (b : Alert) : Type 0 where
  sig : String
  signed : alert_signature b ≡ ok sig
  keyed : key_eq (key_of b sig) k ≡ true
  at : b.timestamp ≡ ts

key_eq_trans : (j k l : Key) → key_eq j k ≡ true → key_eq j l ≡ key_eq k l
key_eq_trans (j0, j1, j2) (k0, k1, k2) (l0, l1, l2) h =
    ground (arith, eq_iff j0 k0, eq_iff j1 k1, eq_iff j2 k2)

key_eq_refl : (k : Key) → key_eq k k ≡ true
key_eq_refl (a, b, c) = ground (arith, eq_iff a a, eq_iff b b, eq_iff c c)

key_eq_sym : (j k : Key) → key_eq j k ≡ true → key_eq k j ≡ true
key_eq_sym j k h = sym (key_eq_trans j k j h) ∙ key_eq_refl j

if_twice :
    {A : Type 0} (b : Bool) (x y z : A)
    → (if b then x else z) ≡ (if b then x else if b then y else z)
if_twice true x y z = refl
if_twice false x y z = refl

if_swapped :
    {A : Type 0} (b c : Bool) (x y z : A)
    → (b ≡ true → c ≡ true → ⊥)
    → (if b then x else if c then y else z) ≡ (if c then y else if b then x else z)
if_swapped true true x y z h = absurd (h refl refl)
if_swapped true false x y z h = refl
if_swapped false c x y z h = refl

not_both : {b : Bool} → b ≡ true → b ≡ false → ⊥
not_both h k = cc

lookup-assign :
    (k j : Key) (v : ℕ) (l : List (Key × ℕ))
    → lookup k (assign j v l) ≡ (if key_eq j k then some v else lookup k l)
unfolding lookup assign
lookup-assign k j v [] = refl
lookup-assign k j v ((i, w) ∷ rest) = elim (Bool-cases (key_eq i j)) [
  | inl e ↦
      rw e (rw (key_eq_trans i j k e) (if_twice (key_eq j k) (some v) (some w) (lookup k rest)))
  | inr e ↦ rw e (
      ap (λ r. if key_eq i k then some w else r) (lookup-assign k j v rest)
      ∙ if_swapped (key_eq i k) (key_eq j k) (some w) (some v) (lookup k rest)
          (λ x y. not_both (key_eq_trans i k j x ∙ key_eq_sym j k y) e))
]

-- What the variables of the loop say of the alerts so far.
record Covers (done : List Alert) (t : Tally) : Type 0 where
  ids : (id : String) → contains t.seen_ids id ≡ true → Some (λ b. b.alert_id ≡ id) t.unique
  lasts : (k : Key) (ts : ℕ) → lookup k t.last_seen ≡ some ts → Some (IsLast k ts) t.unique
  covered : All (λ a. Some (IsFor a) t.unique) done

contains-last :
    (l : List String) (x y : String) → contains (l ++ x ∷ []) y ≡ (contains l y || str_eq x y)
contains-last [] x y = ground arith
contains-last (z ∷ l) x y = ground (arith, contains-last l x y)

tally_alert-Covers :
    (done : List Alert) (a : Alert) (sig : String) (t : Tally)
    → alert_signature a ≡ ok sig
    → Covers done t
    → Covers (done ++ a ∷ []) (tally_alert a (key_of a sig) t)
unfolding tally_alert
tally_alert-Covers done a sig t e c =
    go (contains t.seen_ids a.alert_id) refl (lookup (key_of a sig) t.last_seen) refl
  where
    k : Key
    k = key_of a sig

    dropped : Some (IsFor a) t.unique → Covers (done ++ a ∷ []) (suppress k t)
    dropped s = record {
      ids = c.ids;
      lasts = c.lasts;
      covered = All-last (λ a. Some (IsFor a) t.unique) done a c.covered s;
    }

    grown : Covers (done ++ a ∷ []) (keep a k t)
    grown = record {
      ids = λ id h. elim (Bool-cases (contains t.seen_ids id)) [
        | inl x ↦ Some-append (a ∷ []) (c.ids id x)
        | inr x ↦
            Some-last t.unique a
              (ground (arith, contains-last t.seen_ids a.alert_id id, eq_iff a.alert_id id, h, x))
      ];
      lasts = λ j ts h. elim (Bool-cases (key_eq k j)) [
        | inl x ↦ Some-last t.unique a (record {
          sig = sig;
          signed = e;
          keyed = x;
          at = ground (arith, lookup-assign j k a.timestamp t.last_seen, h, x);
        })
        | inr x ↦
            Some-append (a ∷ [])
              (c.lasts j ts (ground (arith, lookup-assign j k a.timestamp t.last_seen, h, x)))
      ];
      covered =
          All-last (λ x. Some (IsFor x) (t.unique ++ a ∷ [])) done a
            (All-map _ _ done (λ b s. Some-append (a ∷ []) s) c.covered)
            (Some-last t.unique a (same_id refl));
    }

    near_to :
        (ts : ℕ)
        → lookup k t.last_seen ≡ some ts
        → leb (distance a.timestamp ts) dedup_window ≡ true
        → Some (IsFor a) t.unique
    near_to ts h d =
        Some-weaken (λ b l. near sig l.sig e l.signed l.keyed (rw l.at (ground arith)))
          (c.lasts k ts h)

    go :
        (b : Bool)
        → contains t.seen_ids a.alert_id ≡ b
        → (o : Option ℕ) → lookup k t.last_seen ≡ o
        → Covers
            (done ++ a ∷ [])
            (if b then suppress k t else if is_near a.timestamp o then suppress k t else keep a k t)
    go true h o i = dropped (Some-weaken (λ b x. same_id x) (c.ids a.alert_id h))
    go false h none i = grown
    go false h (some ts) i = elim (Bool-cases (leb (distance a.timestamp ts) dedup_window)) [
      | inl x ↦ rw x (dropped (near_to ts i x))
      | inr x ↦ rw x grown
    ]

-- For every alert there is one among the kept ones that stands for it: itself, one with its id, or
-- one with its service, signature and environment not more than five seconds apart.
pub deduplicate_covers :
    (alerts : List Alert) {t : Tally}
    → deduplicate alerts ≡ ok t
    → All (λ a. Some (IsFor a) t.unique) alerts
unfolding deduplicate
deduplicate_covers alerts {t} h =
    (deduplicate_from-all Covers tally_alert-Covers [] empty_tally alerts t
      (record { ids = λ id x. cc; lasts = λ k ts x. absurd (nothing_last k x); covered = tt })
      h).covered
  where
    nothing_last : (k : Key) {ts : ℕ} → lookup k [] ≡ some ts → ⊥
    nothing_last k x = cc
