-- ===== src/Execution/Verifier.antt =====
-- backend/app/services/verifier.py. The detail line, which no decision reads, is left out.
use text.Mathlib.Text.{◌==◌ as str_eq}
use proof_ops.Common.{
  String, Bool, true, not, ◌&&◌, Option, none, some, List, [], ◌∷◌, ◌++◌, if◌then◌else◌, Result, ok,
  err,
}
use proof_ops.Contracts.Identifier.{is_identifier}
use proof_ops.Execution.Numbers.{Floats, is_positive}
use proof_ops.Execution.Sandbox.{SandboxState}

-- backend/app/contracts/enums.py: `Verdict`.
pub data Verdict : Type 0 where
  resolved partial failed worsened rollback_required escalate : Verdict

-- What is observed after an execution: a snapshot, and the two readings that the mock tier lacks.
pub record Observed (F : Type 0) : Type 0 where
  pub state : SandboxState F
  pub crashloop : Bool
  pub latency_p95 : Option F

pub record Slo (F : Type 0) : Type 0 where
  pub error_rate_below : F
  pub latency_p95_below : Option F

abbrev pub Checks : Type 0
Checks = List (String × Bool)

pub record VerificationResult : Type 0 where
  pub execution_id : String
  pub verdict : Verdict
  pub checks : Checks

abbrev pub all_pass : Checks → Bool
all_pass [] = true
all_pass ((_, b) ∷ cs) = b && all_pass cs

module _ {F : Type 0} (floats : Floats F) where
  -- `checks["version_as_expected"]`, when a version is expected.
  abbrev pub version_check : Option String → String → Checks
  version_check none v = []
  version_check (some e) v = ("version_as_expected", str_eq v e) ∷ []

  -- Evaluated only when there is a threshold and a reading.
  abbrev pub latency_check : Option F → Option F → Checks
  latency_check (some threshold) (some seen) =
      ("latency_p95_below_slo", floats.lt seen threshold) ∷ []
  latency_check _ _ = []

  unfoldable pub checks_of : Observed F → Slo F → Option String → Checks
  checks_of after slo expected =
      ("error_rate_below_slo", floats.lt after.state.error_rate slo.error_rate_below)
      ∷ ("pods_ready", after.state.pods_ready)
      ∷ ("replicas_positive", is_positive after.state.replicas)
      ∷ (version_check expected after.state.deployment_version
          ++ ("no_crashloop", not after.crashloop)
            ∷ latency_check slo.latency_p95_below after.latency_p95)

  -- `err > err_before * 1.2 and err_before > 0`
  unfoldable pub is_worse : F → F → Bool
  is_worse rate_before rate =
      floats.lt (floats.raised rate_before) rate && floats.lt floats.nought rate_before

  -- The returns of `verify`, in order; `reversible` is the constant of the code.
  unfoldable pub verdict_of : Bool → Bool → Bool → Verdict
  verdict_of worse every_check rate_ok =
      let reversible : Bool = true in
      if worse
      then worsened
      else if every_check
      then resolved
      else if rate_ok && not every_check
      then partial
      else if not rate_ok && reversible
      then rollback_required
      else failed

  -- The record raises on an execution id that is no identifier of 128 characters at most.
  unfoldable pub verify :
      String
      → SandboxState F
      → Observed F
      → Slo F
      → Option String
      → Result (Unit {0}) VerificationResult
  unfolding checks_of is_worse verdict_of
  verify execution_id before after slo expected =
      let checks = checks_of after slo expected in
      if is_identifier 128 execution_id
      then ok (record {
        execution_id = execution_id;
        verdict =
            verdict_of (is_worse before.error_rate after.state.error_rate) (all_pass checks)
              (floats.lt after.state.error_rate slo.error_rate_below);
        checks = checks;
      })
      else err tt
