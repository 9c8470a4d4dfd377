-- ===== src/Correlator/Tests.antt =====
-- The correlator on concrete inputs: a storm of two alerts, its echo, and a dependent service.
use proof_ops.Common.{take_chars, ℕ, String, refl, false, none, List, [], ◌∷◌, ltb}
use mathlib.Core.List.{Perm}
use proof_ops.Contracts.Value.{
  Value, str, sequence, mapping, no_item, item, no_binding, binding, get,
}
use proof_ops.Contracts.Vocabulary.{prod, staging, Environment, environment_name}
use proof_ops.Correlator.Alert.{
  Alert, alert_signature, lookup, assign, tally_alert, deduplicate_from, deduplicate, Tally,
}
use proof_ops.Correlator.Signals.{
  Measures, no_number, split_words, is_similar, edges_from, topology_edges, fingerprint,
  deploy_in_window, max_err_from, service_max_err, severity, p3,
}
use proof_ops.Correlator.Group.{
  Group, incidents_of, sort_by_ts, is_mergeable, place, key_for, group_from, incident_of, correlate,
  Incident,
}
use proof_ops.Correlator.Coverage.{All, Some, IsFor, deduplicate_covers}
use proof_ops.Correlator.Partition.{shared_out, groups-Perm, Members, Distinct}
use proof_ops.Correlator.Members.{groups-Members}
use proof_ops.Correlator.Account.{Accounts, correlate-Accounts}

abbrev alert : String → String → Environment → ℕ → String → Alert
alert id service env ts sig = record {
  alert_id = id;
  service = service;
  environment = env;
  timestamp = ts;
  metadata = binding "signature" (str sig) no_binding;
}

abbrev storm : List Alert
storm =
    alert "al-2" "web" prod 2000000 "error_rate_spike"
    ∷ alert "al-1" "web" prod 1000000 "error_rate_spike"
    ∷ alert "al-3" "db" staging 500000 "error_rate_spike"
    ∷ []

abbrev measures : Measures ℕ
measures = record {
  sha256_hex = λ t. t;
  ticks_of = λ v. no_number;
  casts = record { int_of_text = λ s. none; int_of_other = λ s. none; repr = λ v. "?" };
  lt = ltb;
  nought = 0;
  one_percent = 1;
  five_percent = 5;
  reading = λ v. no_number;
}

abbrev kept : Tally
kept = record {
  seen_ids = "al-3" ∷ "al-1" ∷ [];
  last_seen =
      (("db", "error_rate_spike", "staging"), 500000)
      ∷ (("web", "error_rate_spike", "prod"), 1000000)
      ∷ [];
  unique =
      alert "al-3" "db" staging 500000 "error_rate_spike"
      ∷ alert "al-1" "web" prod 1000000 "error_rate_spike"
      ∷ [];
  suppressed = 1;
  by_key = (("web", "error_rate_spike", "prod"), 1) ∷ [];
}

deduplicate_covers_example : All (λ a. Some (IsFor a) kept.unique) (sort_by_ts storm)
unfolding deduplicate deduplicate_from tally_alert alert_signature lookup assign get
    environment_name sort_by_ts
deduplicate_covers_example = deduplicate_covers (sort_by_ts storm) {t = kept} refl

abbrev depends : Value
depends = mapping (
    binding "service" (str "web")
      (binding "depends_on" (sequence (item (str "db") no_item)) no_binding))

-- The two services are joined, although the environments differ.
abbrev together : Group
together = record {
  service = "db";
  signature = "error_rate_spike";
  env = "staging";
  fp = "db|error_rate_sp";
  alerts = kept.unique;
  last_ts = 1000000;
  keys = ("db", "error_rate_spike", "staging") ∷ ("web", "error_rate_spike", "prod") ∷ [];
}

groups-Perm_example : Perm (shared_out (together ∷ [])) kept.unique
unfolding group_from place is_mergeable key_for fingerprint deploy_in_window take_chars is_similar
    split_words alert_signature get environment_name
groups-Perm_example =
    groups-Perm measures [] (("web", "db") ∷ []) kept.unique {gs = together ∷ []} refl

groups-Members_example :
    Members measures [] (("web", "db") ∷ []) (together ∷ []) × Distinct (together ∷ [])
unfolding group_from place is_mergeable key_for fingerprint deploy_in_window take_chars is_similar
    split_words alert_signature get environment_name
groups-Members_example =
    groups-Members measures [] (("web", "db") ∷ []) kept.unique {gs = together ∷ []} refl

-- The error spike in production becomes an incident of staging, of the third severity.
abbrev outcome : Incident
outcome = record {
  fingerprint = "db|error_rate_sp";
  severity = p3;
  service = "db";
  environment = "staging";
  source_alert_ids = "al-3" ∷ "al-1" ∷ [];
  detected_at = 500000;
  signature = "error_rate_spike";
  alert_count = 2;
  suppressed_duplicates = 1;
  source_alert_ids_capped = false;
}

correlate-Accounts_example : Accounts measures storm (outcome ∷ [])
unfolding correlate topology_edges edges_from sort_by_ts deduplicate deduplicate_from tally_alert
    lookup assign group_from place is_mergeable key_for fingerprint deploy_in_window take_chars
    is_similar split_words alert_signature get environment_name incidents_of incident_of severity
    service_max_err max_err_from
correlate-Accounts_example =
    correlate-Accounts measures storm [] [] depends {incidents = outcome ∷ []} refl
