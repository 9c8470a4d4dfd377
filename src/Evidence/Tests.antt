-- ===== src/Evidence/Tests.antt =====
-- The coverage gate on one claim and one record of evidence.
use proof_ops.Common.{◌≡◌, ◌↔◌, true, false, some, [], ◌∷◌, is_empty}
use proof_ops.Evidence.Record.{Evidence, Claim, metric, med, must_cite}
use proof_ops.Evidence.Gate.{Table, is_full, must_cite_coverage}
use proof_ops.Evidence.Coverage.{AreCited, coverage_full}

abbrev sample : Evidence
sample = record {
  evidence_id = "ev-1";
  incident_id = "inc-1";
  source_type = metric;
  source_id = "prometheus";
  ts = 0;
  ref = "q1";
  hash = "c0ffee";
  freshness = 60000000;
  relevance = 1000000;
  trust = med;
}

abbrev claim : Claim
claim = record {
  claim_id = "c-1";
  text = "errors rose";
  evidence_ids = "ev-0" ∷ "ev-1" ∷ [];
  claim_class = must_cite;
}

abbrev table : Table
table = ("ev-1", sample) ∷ []

coverage_full_example :
    (is_full (must_cite_coverage (claim ∷ []) ("ev-1" ∷ []) (some table)) ≡ true)
    ↔ ((is_empty (claim ∷ []) ≡ false) × AreCited ("ev-1" ∷ []) (some table) (claim ∷ []))
coverage_full_example = coverage_full ("ev-1" ∷ []) (some table) (claim ∷ [])
