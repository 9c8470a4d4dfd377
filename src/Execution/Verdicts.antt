-- ===== src/Execution/Verdicts.antt =====
-- What a verdict says of the observed state.
use text.Mathlib.Text.{◌==◌ as str_eq}
use proof_ops.Common.{
  ℕ, ◌==◌, String, ◌≡◌, ◌↔◌, Bool, true, false, not, ◌&&◌, ◌||◌, Option, none, some, ok, arith,
}
use proof_ops.Execution.Numbers.{Floats, is_positive}
use proof_ops.Execution.Sandbox.{SandboxState}
use proof_ops.Execution.Verifier.{
  resolved, Observed, Slo, VerificationResult, all_pass, checks_of, is_worse, verdict_of, verify,
}
use proof_ops.Execution.Rollback.{should_rollback}

module _ {F : Type 0} (floats : Floats F) where
  -- The expected version, where one is expected.
  abbrev pub meets_version : Option String → String → Bool
  meets_version none v = true
  meets_version (some e) v = str_eq v e

  -- The latency, where there is a threshold and a reading.
  abbrev pub meets_latency : Option F → Option F → Bool
  meets_latency (some threshold) (some seen) = floats.lt seen threshold
  meets_latency _ _ = true

  -- What a fix has to show in the state that is observed after it.
  pub record IsFixed (before : SandboxState F) (after : Observed F) (slo : Slo F)
      (expected : Option String) : Type 0 where
    pub rate : floats.lt after.state.error_rate slo.error_rate_below ≡ true
    pub ready : after.state.pods_ready ≡ true
    pub replicas : is_positive after.state.replicas ≡ true
    pub version : meets_version expected after.state.deployment_version ≡ true
    pub settled : after.crashloop ≡ false
    pub latency : meets_latency slo.latency_p95_below after.latency_p95 ≡ true
    pub not_worse : is_worse floats before.error_rate after.state.error_rate ≡ false

  module _ (id : String) (before : SandboxState F) (after : Observed F) (slo : Slo F)
      (expected : Option String) where
    checks_fixed :
        all_pass (checks_of floats after slo expected)
        ≡ floats.lt after.state.error_rate slo.error_rate_below
          && after.state.pods_ready
          && is_positive after.state.replicas
          && meets_version expected after.state.deployment_version
          && not after.crashloop
          && meets_latency slo.latency_p95_below after.latency_p95
    unfolding checks_of
    checks_fixed = ground arith

    -- RESOLVED is what is observed and nothing else: the verdict of a verification is RESOLVED
    -- exactly when the error rate is below the objective and no fifth worse than before, the pods
    -- are ready, a replica runs, nothing crashes in a loop, and the version and the latency are as
    -- wanted where they are asked for.
    pub resolved-IsFixed :
        {r : VerificationResult}
        → verify floats id before after slo expected ≡ ok r
        → (r.verdict ≡ resolved) ↔ IsFixed before after slo expected
    unfolding verify verdict_of
    resolved-IsFixed h = (λ k. ground (arith, checks_fixed), λ g. ground (arith, g, checks_fixed))

    -- A rollback is asked for exactly when things got worse or the error rate misses the objective,
    -- on the first attempt and never again.
    pub rollback_decided :
        {r : VerificationResult} (attempts : ℕ)
        → verify floats id before after slo expected ≡ ok r
        → should_rollback r.verdict attempts
          ≡ (is_worse floats before.error_rate after.state.error_rate
              || not (floats.lt after.state.error_rate slo.error_rate_below))
            && attempts == 0
    unfolding verify verdict_of should_rollback
    rollback_decided attempts h = ground (arith, checks_fixed)
