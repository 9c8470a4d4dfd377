-- ===== src/Correlator/Group.antt =====
-- backend/app/services/correlator.py: `correlate` over canonical alerts.
use text.Mathlib.Text.{◌==◌ as str_eq}
use proof_ops.Common.{
  ℕ, zero, suc, ◌+◌, String, Bool, false, not, ◌&&◌, ◌||◌, Option, none, some, List, [], ◌∷◌, ◌++◌,
  length, leb, ltb, if◌then◌else◌, Result, ok, err, map,
}
use proof_ops.Contracts.Value.{Value, null, mapping, no_binding}
use proof_ops.Contracts.Vocabulary.{environment_name}
use proof_ops.Correlator.Alert.{
  Alert, Fault, alert_signature, Key, key_eq, key_of, lookup, distance, Tally, or_zero, deduplicate,
}
use proof_ops.Correlator.Signals.{
  Measures, is_similar, topology_edges, is_edge, fingerprint, deploy_in_window, service_max_err,
  Severity, severity,
}

-- A value of `groups`; the dict's key is `fp`, and its order that of the list.
pub record Group : Type 0 where
  pub service : String
  pub signature : String
  pub env : String
  pub fp : String
  pub alerts : List Alert
  pub last_ts : ℕ
  pub keys : List Key

-- What `correlate` passes to `Incident`, but for the constant status.
pub record Incident : Type 0 where
  pub fingerprint : String
  pub severity : Severity
  pub service : String
  pub environment : String
  pub source_alert_ids : List String
  pub detected_at : ℕ
  pub signature : String
  pub alert_count : ℕ
  pub suppressed_duplicates : ℕ
  pub source_alert_ids_capped : Bool

-- `sorted(canon, key=_alert_ts)`, which is stable.
abbrev pub insert_by_ts : Alert → List Alert → List Alert
insert_by_ts a [] = a ∷ []
insert_by_ts a (b ∷ bs) =
    let rest = insert_by_ts a bs in if leb a.timestamp b.timestamp then a ∷ b ∷ bs else b ∷ rest

unfoldable pub sort_by_ts : List Alert → List Alert
sort_by_ts [] = []
sort_by_ts (a ∷ more) = insert_by_ts a (sort_by_ts more)

-- MERGE_WINDOW_S and MAX_STORED_IDS
abbrev pub merge_window : ℕ
merge_window = 600000000

abbrev pub max_stored_ids : ℕ
max_stored_ids = 100

-- The test of the inner loop.
unfoldable pub is_mergeable : List (String × String) → Alert → String → Group → Bool
is_mergeable edges a sig g =
    not (str_eq g.service a.service)
    && is_edge edges a.service g.service
    && leb (distance a.timestamp g.last_ts) merge_window
    && is_similar sig g.signature

-- The inner loop: the key of the first group that the alert merges into.
abbrev pub merged : List (String × String) → Alert → String → List Group → Option String
merged edges a sig [] = none
merged edges a sig (g ∷ gs) =
    if is_mergeable edges a sig g then some g.fp else merged edges a sig gs

-- `merged or key`
abbrev pub merged_or : Option String → String → String
merged_or none key = key
merged_or (some k) key = if str_eq k "" then key else k

abbrev pub has_key : List Key → Key → Bool
has_key [] k = false
has_key (j ∷ js) k = key_eq j k || has_key js k

abbrev pub add_key : Key → List Key → List Key
add_key k ks = if has_key ks k then ks else ks ++ k ∷ []

-- An alert that joins a group.
abbrev pub joined : Alert → String → Group → Group
joined a sig g = record g {
  alerts = g.alerts ++ a ∷ [];
  last_ts = a.timestamp;
  keys = add_key (key_of a sig) g.keys;
}

abbrev pub new_group : String → Alert → String → Group
new_group fp a sig = record {
  service = a.service;
  signature = sig;
  env = environment_name a.environment;
  fp = fp;
  alerts = a ∷ [];
  last_ts = a.timestamp;
  keys = key_of a sig ∷ [];
}

unfoldable pub place : String → Alert → String → List Group → List Group
place fp a sig [] = new_group fp a sig ∷ []
place fp a sig (g ∷ gs) = if str_eq g.fp fp then joined a sig g ∷ gs else g ∷ place fp a sig gs

abbrev pub take_ids : ℕ → List String → List String
take_ids zero xs = []
take_ids (suc n) [] = []
take_ids (suc n) (x ∷ xs) = x ∷ take_ids n xs

-- `min(...)`, of a list that is not empty.
abbrev pub earliest : ℕ → List Alert → ℕ
earliest best [] = best
earliest best (a ∷ more) = earliest (if ltb a.timestamp best then a.timestamp else best) more

abbrev pub first_ts : List Alert → ℕ
first_ts [] = 0
first_ts (a ∷ more) = earliest a.timestamp more

abbrev pub own_suppressed : List (Key × ℕ) → List Key → ℕ
own_suppressed by_key [] = 0
own_suppressed by_key (k ∷ ks) = or_zero (lookup k by_key) + own_suppressed by_key ks

-- `topology = {}` where None is passed, which is null here.
abbrev pub or_empty : Value → Value
or_empty null = mapping no_binding
or_empty topology = topology

module _ {F : Type 0} (measures : Measures F) where
  -- The fingerprint that an alert has by itself.
  unfoldable pub key_for : List Value → Alert → String → Result Fault String
  key_for deploys a sig = elim (deploy_in_window measures deploys a.service a.timestamp) [
    | err x ↦ err x
    | ok deploy_id ↦
        ok (fingerprint measures a.service sig (environment_name a.environment) deploy_id)
  ]

  -- The loop over the alerts that are left.
  unfoldable pub group_from :
      List Value → List (String × String) → List Group → List Alert → Result Fault (List Group)
  unfolding place is_mergeable key_for
  group_from deploys edges gs [] = ok gs
  group_from deploys edges gs (a ∷ more) = elim (alert_signature a) [
    | err x ↦ err x
    | ok sig ↦ elim (key_for deploys a sig) [
      | err x ↦ err x
      | ok key ↦
          group_from deploys edges (place (merged_or (merged edges a sig gs) key) a sig gs) more
    ]
  ]

  -- The body of the last loop, over the worst error rate.
  abbrev pub reported : F → List (Key × ℕ) → Group → Incident
  reported max_err by_key g =
      let ids = map (λ (a : Alert). a.alert_id) g.alerts in
      record {
        fingerprint = g.fp;
        severity = severity measures g.signature g.env max_err;
        service = g.service;
        environment = g.env;
        source_alert_ids = take_ids max_stored_ids ids;
        detected_at = first_ts g.alerts;
        signature = g.signature;
        alert_count = length g.alerts;
        suppressed_duplicates = own_suppressed by_key g.keys;
        source_alert_ids_capped = ltb max_stored_ids (length ids);
      }

  unfoldable pub incident_of : List Value → List (Key × ℕ) → Group → Result Fault Incident
  incident_of metrics by_key g = elim (service_max_err measures metrics g.service) [
    | err x ↦ err x
    | ok max_err ↦ ok (reported max_err by_key g)
  ]

  -- The last loop.
  unfoldable pub incidents_of :
      List Value → List (Key × ℕ) → List Group → Result Fault (List Incident)
  unfolding incident_of
  incidents_of metrics by_key [] = ok []
  incidents_of metrics by_key (g ∷ gs) = elim (incident_of metrics by_key g) [
    | err x ↦ err x
    | ok i ↦ elim (incidents_of metrics by_key gs) [ err x ↦ err x | ok is ↦ ok (i ∷ is) ]
  ]

  abbrev pub grouped :
      List Value
      → List Value
      → List (String × String)
      → Result Fault Tally
      → Result Fault (List Incident)
  grouped deploys metrics edges (err x) = err x
  grouped deploys metrics edges (ok t) = elim (group_from deploys edges [] t.unique) [
    | err x ↦ err x
    | ok gs ↦ incidents_of metrics t.by_key gs
  ]

  -- `correlate`
  unfoldable pub correlate :
      List Alert → List Value → List Value → Value → Result Fault (List Incident)
  unfolding group_from incidents_of
  correlate alerts deploys metrics topology = elim (topology_edges (or_empty topology)) [
    | err x ↦ err x
    | ok edges ↦ grouped deploys metrics edges (deduplicate (sort_by_ts alerts))
  ]
