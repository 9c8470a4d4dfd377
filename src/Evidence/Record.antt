-- ===== src/Evidence/Record.antt =====
-- backend/app/contracts/evidence.py and the `Claim` of backend/app/contracts/hypothesis.py. Ages are
-- microseconds and relevance is in millionths; the floats of the code are these numbers scaled.
use proof_ops.Common.{ℕ, String, Bool, true, false, List}

pub data TrustLevel : Type 0 where
  high med low : TrustLevel

pub data ClaimClass : Type 0 where
  must_cite should_cite optional : ClaimClass

pub data SourceType : Type 0 where
  log metric trace deploy topology runbook history : SourceType

pub record Evidence : Type 0 where
  pub evidence_id : String
  pub incident_id : String
  pub source_type : SourceType
  pub source_id : String
  pub ts : ℕ
  pub ref : String
  pub hash : String
  pub freshness : ℕ
  pub relevance : ℕ
  pub trust : TrustLevel

pub record Claim : Type 0 where
  pub claim_id : String
  pub text : String
  pub evidence_ids : List String
  pub claim_class : ClaimClass

abbrev pub is_low : TrustLevel → Bool
is_low low = true
is_low _ = false

abbrev pub is_must_cite : ClaimClass → Bool
is_must_cite must_cite = true
is_must_cite _ = false
