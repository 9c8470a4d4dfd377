-- ===== src/Pipeline/Report.antt =====
-- backend/app/services/pipeline.py: the report, and what the conductor computes without a call.
use Prim.Native.String.{String}
use Prim.Native.Char.{code}
use proof_ops.Common.{
  ◌==◌, Bool, true, false, not, ◌&&◌, ◌||◌, Option, none, some, List, [], ◌∷◌, if◌then◌else◌,
}
use proof_ops.Contracts.Vocabulary.{Decision, deny}
use proof_ops.Execution.Verifier.{Verdict, resolved}
use proof_ops.Validator.Scan.{Segment, key, index, Issue, no_rollback, shell_meta, destructive_sql}

pub data Outcome : Type 0 where
  resolved_run escalated_run : Outcome

-- The report; what it copies from the run and the agents is left out.
pub record Report (F : Type 0) : Type 0 where
  pub path : Outcome
  pub decision : Decision
  pub action_id : String
  pub execution_id : String
  pub verdict : Verdict
  pub verdicts : List Verdict
  pub rolled_back : Bool
  pub after_error_rate : F

abbrev pub verdict_name : Verdict → String
verdict_name resolved = "RESOLVED"
verdict_name Verdict.partial = "PARTIAL"
verdict_name Verdict.failed = "FAILED"
verdict_name Verdict.worsened = "WORSENED"
verdict_name Verdict.rollback_required = "ROLLBACK_REQUIRED"
verdict_name Verdict.escalate = "ESCALATE"

abbrev pub is_resolved : Verdict → Bool
is_resolved resolved = true
is_resolved _ = false

-- `version = str(deploys[0].get("to_v", "v23")) if deploys else "v23"`
abbrev pub first_version : List String → String
first_version [] = "v23"
first_version (v ∷ vs) = v

-- `max(metrics)`, the first of the greatest.
abbrev pub greatest : {F : Type 0} → (F → F → Bool) → F → List F → F
greatest lt best [] = best
greatest lt best (x ∷ xs) = greatest lt (if lt best x then x else best) xs

abbrev pub greatest_or : {F : Type 0} → (F → F → Bool) → F → List F → F
greatest_or lt x [] = x
greatest_or lt x (y ∷ ys) = greatest lt y ys

-- `pattern in text`
abbrev pub starts_with : String → String → Bool
starts_with String.[] s = true
starts_with (String.◌∷◌ c p) String.[] = false
starts_with (String.◌∷◌ c p) (String.◌∷◌ d s) = code c == code d && starts_with p s

abbrev pub occurs_in : String → String → Bool
occurs_in p String.[] = starts_with p String.[]
occurs_in p (String.◌∷◌ c s) = starts_with p (String.◌∷◌ c s) || occurs_in p s

-- `"requires rollback_action" not in issue`: of the paths that an issue quotes only a key can hold
-- a blank, and a runbook id holds none.
abbrev pub is_quoted : List Segment → Bool
is_quoted [] = false
is_quoted (key k ∷ rest) = occurs_in "requires rollback_action" k || is_quoted rest
is_quoted (index i ∷ rest) = is_quoted rest

abbrev pub is_kept : Issue → Bool
is_kept no_rollback = false
is_kept (shell_meta at) = not (is_quoted at)
is_kept (destructive_sql at) = not (is_quoted at)
is_kept _ = true

abbrev pub kept_issues : List Issue → List Issue
kept_issues [] = []
kept_issues (i ∷ is) = if is_kept i then i ∷ kept_issues is else kept_issues is

abbrev pub refused_by : Bool → Decision → Option String
refused_by false d = some "rollback refused: validator rejected rollback: "
refused_by true deny = some "rollback refused: policy DENY rollback "
refused_by true _ = none
