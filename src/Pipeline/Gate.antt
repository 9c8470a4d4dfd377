-- ===== src/Pipeline/Gate.antt =====
-- The gates before the executor.
use proof_ops.Common.{
  Bool-cases, not, ◌&&◌, ℕ, suc, ◌≤◌, ◌≡◌, ◌≢◌, ◌⊎◌, inl, inr, refl, sym, Bool, true, false, List,
  [], ◌∷◌, ◌++◌, Option, some, none, is_empty, String, length, length-append, arith, Result, ok,
  err,
}
use mathlib.Core.Path.{subst}
use proof_ops.Common.Steps.{Meets, and_then, stopped, went, ◌>>=◌}
use proof_ops.Contracts.Value.{Value}
use proof_ops.Contracts.Vocabulary.{Action, Decision, allow, escalate, deny}
use proof_ops.Fsm.Once.{execute_once}
use proof_ops.Execution.Sandbox.{SandboxState}
use proof_ops.Execution.Verifier.{VerificationResult, Verdict, Slo}
use proof_ops.Execution.Rollback.{should_rollback, rollback_for}
use proof_ops.Validator.Rules.{Runbook, validate_action}
use proof_ops.Pipeline.Desk.{
  Stop, Desk, Services, Applied, execute, verify_action, bank, bank_or_stop, verified,
}
use proof_ops.Validator.Scan.{Issue}
use proof_ops.Pipeline.Steps.{Same, same, Same-Meets, note-Same, record_run-Same}
use proof_ops.Pipeline.Stages.{Case, judged}
use proof_ops.Pipeline.Report.{is_resolved, Report, kept_issues, refused_by}
use proof_ops.Pipeline.Perform.{
  state_before, refusal, checked, undo, undo_or_refuse, gated, rolled, close, diff_note, perform,
}
use proof_ops.Pipeline.Steps.{Every, Every-last}

unrefused :
    (issues : List Issue) (d : Decision)
    → refused_by (is_empty issues) d ≡ none
    → (issues ≡ []) × (d ≢ deny)
unrefused [] allow h = (refl, λ e. cc)
unrefused [] escalate h = (refl, λ e. cc)
unrefused [] deny h = cc
unrefused (i ∷ is) d h = cc

module _ {F : Type 0} (services : Services F) where
  execute-acted :
      (x : Action) (id : String) (s : SandboxState F) (d : Desk F)
      → ((execute services x id s d).1.acted ≡ d.acted)
        ⊎ ((execute services x id s d).1.acted ≡ d.acted ++ x ∷ [])
  unfolding execute execute_once
  execute-acted x id s d = ground arith

  banked-Same :
      (r : Result Stop VerificationResult) {l : List Action} (d : Desk F)
      → d.acted ≡ l
      → Same l (bank_or_stop services r d)
  unfolding bank ◌>>=◌
  banked-Same (err x) d e = stopped e
  banked-Same (ok v) d e = went e

  verified-Same :
      (id : String) (s t : SandboxState F) (slo : Slo F) (expected : Option String)
      {l : List Action} (d : Desk F)
      → d.acted ≡ l
      → Same l (verified services id s t slo expected d)
  unfolding verified
  verified-Same id s t slo expected d e =
      banked-Same (verify_action services id s t slo expected) d e

  module _ (c : Case F) where
    checked-Same :
        (tag id : String) (s t : SandboxState F) (expected : Option String) {l : List Action}
        (d : Desk F)
        → d.acted ≡ l
        → Same l (checked services c tag id s t expected d)
    unfolding checked
    checked-Same tag id s t expected d e = and_then _ (same _ e) (λ _ d1 e1.
        and_then _ (verified-Same id s t c.slo expected d1 e1)
          (λ v d2 e2. and_then _ (note-Same services _ _ _ _ _ d2 e2) (λ _ d3 e3. went e3)))

    close-Same :
        (r : Report F) {l : List Action} (d : Desk F) → d.acted ≡ l → Same l (close services c r d)
    unfolding close
    close-Same r d e =
        and_then _ (same _ e)
          (λ _ d1 e1. and_then _ (record_run-Same services d1 e1) (λ _ d2 e2. went e2))

    diff_note-Same :
        (resumed : Bool) (a : Action) {l : List Action} (d : Desk F)
        → d.acted ≡ l
        → Same l (diff_note services c resumed a d)
    diff_note-Same false a d e = went e
    diff_note-Same true a d e = note-Same services _ _ _ _ _ d e

    module _ (a : Action) (rb : Runbook) (bundle matrix : Value) where
      -- The planned action past its gates, and its rollback past its own.
      pub data IsCleared : Action → Type 0 where
        planned :
            validate_action services.casts services.sql a (some rb) ≡ []
            → (judged services c a bundle matrix).decision ≢ deny
            → IsCleared a
        undoing :
            {b : Action}
            → rollback_for services.minus (services.new_id "rollback") a (state_before services c)
              ≡ ok b
            → kept_issues (validate_action services.casts services.sql b (some rb)) ≡ []
            → (judged services c b bundle matrix).decision ≢ deny
            → IsCleared b

      -- Every action is cleared, and there are at most `n`.
      abbrev pub Within : ℕ → List Action → Type 0
      Within n l = Every IsCleared l × (length l ≤ n)

      widen : {n : ℕ} → n ≤ 2 → (l : List Action) → Within n l → Within 2 l
      widen h l w = (w.0, omega (arith, h, w.1))

      abbrev After : ℕ → {A : Type 0} → Result Stop A × Desk F → Type 0
      After n = Meets (λ d. Within 2 d.acted) (λ a d. Within n d.acted)

      execute-Within :
          {n : ℕ} {x : Action} (id : String) (s : SandboxState F) (d : Desk F)
          → IsCleared x
          → n ≤ 1
          → Within n d.acted
          → After (suc n) (execute services x id s d)
      execute-Within {n} {x} id s d h le w = go (execute services x id s d) (execute-acted x id s d)
        where
          grown : (l : List Action) → (l ≡ d.acted) ⊎ (l ≡ d.acted ++ x ∷ []) → Within (suc n) l
          grown l (inl e) = subst (Within (suc n)) (sym e) (w.0, omega (arith, w.1))
          grown l (inr e) =
              subst (Within (suc n)) (sym e)
                (Every-last w.0 h, omega (arith, length-append d.acted (x ∷ []), w.1))

          go :
              (r : Result Stop (Applied F) × Desk F)
              → (r.1.acted ≡ d.acted) ⊎ (r.1.acted ≡ d.acted ++ x ∷ [])
              → After (suc n) r
          go (ok y, d') e = went (grown d'.acted e)
          go (err y, d') e = stopped (widen (omega (arith, le)) d'.acted (grown d'.acted e))

      -- A step that calls no executor, in a state with `n` calls.
      keep :
          {A : Type 0} {n : ℕ} {r : Result Stop A × Desk F} {l : List Action}
          → n ≤ 2
          → Within n l
          → Same l r
          → After n r
      keep h w s = Same-Meets s (widen h) w

      undo-Within :
          (resumed : Bool) (id : String) {b : Action} (s t : SandboxState F) (v : Verdict)
          (d : Desk F)
          → IsCleared b
          → Within 1 d.acted
          → After 2 (undo services c resumed id a b s t v d)
      unfolding undo
      undo-Within resumed id s t v d h w =
          and_then _ (keep (omega arith) w (note-Same services _ _ _ _ _ d refl)) (λ _ d1 w1.
            and_then _ (keep (omega arith) w1 (same _ refl)) (λ _ d2 w2.
              and_then _ (execute-Within id t d2 h (omega arith) w2) (λ y d3 w3.
                and_then _ (keep (omega arith) w3 (checked-Same _ _ _ _ _ d3 refl)) (λ v2 d4 w4.
                  and_then _ (keep (omega arith) w4 (note-Same services _ _ _ _ _ d4 refl))
                    (λ _ d5 w5. went w5)))))

      -- A rollback that nothing refuses is past its gates.
      cleared :
          {b : Action}
          → rollback_for services.minus (services.new_id "rollback") a (state_before services c)
            ≡ ok b
          → refusal services c b rb bundle matrix ≡ none
          → IsCleared b
      unfolding refusal
      cleared {b} e h = let u = unrefused _ _ h in undoing e u.0 u.1

      offered-Within :
          (resumed : Bool) (id : String) {b : Action} (s t : SandboxState F) (v : Verdict)
          (reason : Option String) (d : Desk F)
          → (reason ≡ none → IsCleared b)
          → Within 1 d.acted
          → After 2 (undo_or_refuse services c resumed id a b s t v reason d)
      offered-Within resumed id s t v (some reason) d h w =
          and_then _ (keep (omega arith) w (note-Same services _ _ _ _ _ d refl))
            (λ _ d1 w1. went (widen (omega arith) d1.acted w1))
      offered-Within resumed id s t v none d h w =
          and_then _ (undo-Within resumed id s t v d (h refl) w) (λ _ d1 w1. went w1)

      gated-Within :
          (resumed : Bool) (t : SandboxState F) (v : Verdict) (r : Result (Unit {0}) Action)
          (d : Desk F)
          → rollback_for services.minus (services.new_id "rollback") a (state_before services c) ≡ r
          → Within 1 d.acted
          → After 2 (gated services c resumed a rb bundle matrix (state_before services c) t v r d)
      unfolding gated
      gated-Within resumed t v (err x) d e w = went (widen (omega arith) d.acted w)
      gated-Within resumed t v (ok b) d e w =
          offered-Within resumed _ _ t v (refusal services c b rb bundle matrix) d (cleared e) w

      rolled-Within :
          (resumed : Bool) (t : SandboxState F) (v : Verdict) (d : Desk F)
          → Within 1 d.acted
          → After 2 (rolled services c resumed a rb bundle matrix (state_before services c) t v d)
      unfolding rolled
      rolled-Within resumed t v d w =
          elim (Bool-cases (not (is_resolved v) && should_rollback v 0)) [
            | inl h ↦ rw h (gated-Within resumed t v _ d refl w)
            | inr h ↦ rw h (went (widen (omega arith) d.acted w))
          ]

      -- From EXECUTING to the report.
      pub perform-Within :
          (resumed : Bool) (decision : Decision) (d : Desk F)
          → IsCleared a
          → Within 0 d.acted
          → After 2 (perform services c resumed decision a rb bundle matrix d)
      unfolding perform
      perform-Within resumed decision d h w =
          and_then _ (keep (omega arith) w (same _ refl)) (λ _ d1 w1.
            and_then _ (execute-Within _ _ d1 h (omega arith) w1) (λ y d2 w2.
              and_then _ (keep (omega arith) w2 (diff_note-Same resumed a d2 refl)) (λ _ d3 w3.
                and_then _ (keep (omega arith) w3 (checked-Same _ _ _ _ _ d3 refl)) (λ v d4 w4.
                  and_then _ (rolled-Within resumed y.1 v d4 w4)
                    (λ r d5 w5. keep (omega arith) w5 (close-Same _ d5 refl))))))
