-- ===== src/Correlator/Alert.antt =====
-- backend/app/services/correlator.py: alerts, their signatures, and `deduplicate`. Times are
-- microseconds.
use text.Mathlib.Text.{◌==◌ as str_eq}
use proof_ops.Common.{
  ℕ, ◌+◌, ◌-◌, String, Bool, false, ◌&&◌, Option, none, some, List, [], ◌∷◌, ◌++◌, leb, contains,
  if◌then◌else◌, Result, ok, err,
}
use proof_ops.Contracts.Value.{Value, str, Fields, get}
use proof_ops.Contracts.Vocabulary.{Environment, environment_name}

-- What the correlator reads of `Alert`.
pub record Alert : Type 0 where
  pub alert_id : String
  pub service : String
  pub environment : Environment
  pub timestamp : ℕ
  pub metadata : Fields

-- The ValueErrors of the file, and the OverflowError of `float`.
pub data Fault : Type 0 where
  no_signature topology_malformed float_overflow : Fault

-- `_alert_signature`
abbrev pub text_signature : Option Value → Result Fault String
text_signature (some (str s)) = if str_eq s "" then err no_signature else ok s
text_signature _ = err no_signature

unfoldable pub alert_signature : Alert → Result Fault String
alert_signature a = text_signature (get "signature" a.metadata)

-- The key of a duplicate: service, signature and environment.
abbrev pub Key : Type 0
Key = String × String × String

abbrev pub key_eq : Key → Key → Bool
key_eq (s, t, u) (s', t', u') = str_eq s s' && str_eq t t' && str_eq u u'

abbrev pub key_of : Alert → String → Key
key_of a sig = (a.service, sig, environment_name a.environment)

module _ {V : Type 0} where
  -- `d.get(key)` and `d[key] = v`
  unfoldable pub lookup : Key → List (Key × V) → Option V
  lookup k [] = none
  lookup k ((j, v) ∷ rest) = if key_eq j k then some v else lookup k rest

  unfoldable pub assign : Key → V → List (Key × V) → List (Key × V)
  assign k v [] = (k, v) ∷ []
  assign k v ((j, w) ∷ rest) = if key_eq j k then (j, v) ∷ rest else (j, w) ∷ assign k v rest

-- `abs(a - b)`
abbrev pub distance : ℕ → ℕ → ℕ
distance a b = (a - b) + (b - a)

-- DEDUP_WINDOW_S
abbrev pub dedup_window : ℕ
dedup_window = 5000000

-- The variables of the loop; `seen_ids` in the order of their arrival.
pub record Tally : Type 0 where
  pub seen_ids : List String
  pub last_seen : List (Key × ℕ)
  pub unique : List Alert
  pub suppressed : ℕ
  pub by_key : List (Key × ℕ)

abbrev pub empty_tally : Tally
empty_tally = record { seen_ids = []; last_seen = []; unique = []; suppressed = 0; by_key = [] }

abbrev pub or_zero : Option ℕ → ℕ
or_zero none = 0
or_zero (some n) = n

-- `prev is not None and abs(ts - prev) <= DEDUP_WINDOW_S`
abbrev pub is_near : ℕ → Option ℕ → Bool
is_near ts none = false
is_near ts (some prev) = leb (distance ts prev) dedup_window

abbrev pub suppress : Key → Tally → Tally
suppress k t = record t {
  suppressed = t.suppressed + 1;
  by_key = assign k (or_zero (lookup k t.by_key) + 1) t.by_key;
}

abbrev pub keep : Alert → Key → Tally → Tally
keep a k t = record t {
  seen_ids = t.seen_ids ++ a.alert_id ∷ [];
  last_seen = assign k a.timestamp t.last_seen;
  unique = t.unique ++ a ∷ [];
}

-- The body of the loop.
unfoldable pub tally_alert : Alert → Key → Tally → Tally
unfolding lookup assign
tally_alert a k t =
    if contains t.seen_ids a.alert_id
    then suppress k t
    else if is_near a.timestamp (lookup k t.last_seen)
    then suppress k t
    else keep a k t

unfoldable pub deduplicate_from : Tally → List Alert → Result Fault Tally
unfolding alert_signature tally_alert
deduplicate_from t [] = ok t
deduplicate_from t (a ∷ rest) = elim (alert_signature a) [
  | err x ↦ err x
  | ok sig ↦ deduplicate_from (tally_alert a (key_of a sig) t) rest
]

-- `deduplicate`
unfoldable pub deduplicate : List Alert → Result Fault Tally
unfolding deduplicate_from
deduplicate alerts = deduplicate_from empty_tally alerts
