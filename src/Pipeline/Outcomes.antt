-- ===== src/Pipeline/Outcomes.antt =====
-- What `run_pipeline` and `resume_from_approval` promise.
use mathlib.Core.Path.{subst}
use proof_ops.Common.{
  ◌≤◌, true, false, ◌≡◌, inl, inr, sym, List, [], some, String, length, Result, ok, arith,
  Result-cases,
}
use proof_ops.Common.Steps.{settled, Meets, Meets-weaken, and_then}
use proof_ops.Contracts.Value.{Value}
use proof_ops.Contracts.Vocabulary.{Action, Decision}
use proof_ops.Fsm.Run.{Permit}
use proof_ops.Audit.Chain.{AuditChain}
use proof_ops.Validator.Rules.{Runbook}
use proof_ops.Pipeline.Desk.{Stop, Desk, Services}
use proof_ops.Pipeline.Stages.{Case, start, judged}
use proof_ops.Pipeline.Report.{Report}
use proof_ops.Pipeline.Conduct.{conduct, run_pipeline, resume}
use proof_ops.Pipeline.Steps.{Every, nobody, same}
use proof_ops.Pipeline.Gate.{IsCleared, planned, Within, perform-Within}
use proof_ops.Pipeline.Grants.{
  Granted, granted_lem, or_stop-Knows, investigate-Same, planned_action-Knows, validated-Knows,
  authorize-Knows, revalidated-Knows, rejudged-Knows, guard-Same,
}

module _ {F : Type 0} (services : Services F) (c : Case F) where
  -- The calls of a run: none, or the plan and its rollback, past the gates with the same documents,
  -- when the policy's decision or an approval grants them.
  pub data IsGuarded : List Action → Type 0 where
    idle : IsGuarded []
    ran :
        {a : Action} {id : String} {rb : Runbook} {bundle matrix : Value} {l : List Action}
        → c.plan ≡ some a
        → c.runbook id ≡ some rb
        → c.bundle ≡ some bundle
        → c.matrix ≡ some matrix
        → Granted (judged services c a bundle matrix).decision c.approval
        → Every (IsCleared services c a rb bundle matrix) l
        → length l ≤ 2
        → IsGuarded l

  IsGuarded-idle : (d : Desk F) → d.acted ≡ [] → IsGuarded d.acted
  IsGuarded-idle d h = subst IsGuarded (sym h) idle

  from_idle :
      {A : Type 0} {Q : A → Desk F → Type 0} {r : Result Stop A × Desk F}
      → Meets (λ d. d.acted ≡ []) Q r
      → Meets (λ d. IsGuarded d.acted) Q r
  from_idle h = Meets-weaken h IsGuarded-idle (λ a d e. e)

  conduct-Meets :
      (d : Desk F)
      → d.acted ≡ []
      → Meets (λ d'. IsGuarded d'.acted) (λ r d'. IsGuarded d'.acted) (conduct services c d)
  unfolding conduct
  conduct-Meets d h = and_then _ (from_idle ((investigate-Same services c d h))) (λ x d1 h1.
      and_then _ (from_idle ((planned_action-Knows services c c.plan d1 h1))) (λ a d2 p.
        and_then _ (from_idle ((or_stop-Knows _ (c.runbook x.1) d2 p.1))) (λ rb d3 q.
          and_then _ (from_idle ((validated-Knows services c a rb d3 q.1))) (λ _ d4 v.
            and_then _ (from_idle ((or_stop-Knows _ c.bundle d4 v.1))) (λ bundle d5 b.
              and_then _ (from_idle ((or_stop-Knows _ c.matrix d5 b.1))) (λ matrix d6 m.
                and_then _
                  (from_idle
                    ((authorize-Knows services c a (judged services c a bundle matrix) d6 m.1)))
                  (λ _ d7 g.
                    Meets-weaken
                      (perform-Within services c a rb bundle matrix false
                        (judged services c a bundle matrix).decision d7
                        (planned v.0 (granted_lem g.0))
                        (subst (Within services c a rb bundle matrix 0) (sym g.1)
                          (nobody, omega arith)))
                      (λ d' w. ran p.0 q.0 b.0 m.0 g.0 w.0 w.1)
                      (λ r d' w. ran p.0 q.0 b.0 m.0 g.0 w.0 w.1))))))))

  start-idle : (chain : AuditChain) {d : Desk F} → start services c chain ≡ ok d → d.acted ≡ []
  unfolding start
  start-idle chain h = ground arith

  -- The run that a call made.
  pub run_of :
      (chain : AuditChain) {r : Result Stop (Report F)} {d : Desk F}
      → run_pipeline services c chain ≡ (r, some d)
      → (d0 : Desk F) × (start services c chain ≡ ok d0) × (conduct services c d0 ≡ (r, d))
  unfolding run_pipeline
  run_of chain h = elim (Result-cases (start services c chain)) [
    | inl (d0, e) ↦ (d0, e, ground (arith, h, e))
    | inr (x, e) ↦ ground (arith, h, e)
  ]

  -- Nothing runs unchecked: whatever `run_pipeline` returns or raises, the executor was called with
  -- at most two actions, each of them the planner's action or its `rollback_for`, all judged with
  -- one runbook and the loaded bundle and matrix; the planner's action had no validator issue and
  -- was granted, by ALLOW or by ESCALATE with an approval; a rollback had no issue but its own
  -- missing rollback, and was not denied.
  pub run_pipeline-IsGuarded :
      (chain : AuditChain) {r : Result Stop (Report F)} {d : Desk F}
      → run_pipeline services c chain ≡ (r, some d)
      → IsGuarded d.acted
  run_pipeline-IsGuarded chain h =
      let run = run_of chain h in
      subst (λ x. IsGuarded x.1.acted) run.2
        (settled (conduct-Meets run.0 (start-idle chain run.1)))

  -- The calls of a resumed run: none, or the approved action and its rollback.
  pub data IsBacked (a : Action) : List Action → Type 0 where
    waiting : IsBacked a []
    resumed :
        {rb : Runbook} {bundle matrix : Value} {l : List Action}
        → c.runbook a.runbook_id ≡ some rb
        → c.bundle ≡ some bundle
        → c.matrix ≡ some matrix
        → Every (IsCleared services c a rb bundle matrix) l
        → length l ≤ 2
        → IsBacked a l

  IsBacked-waiting : {a : Action} (d : Desk F) → d.acted ≡ [] → IsBacked a d.acted
  IsBacked-waiting d h = subst (IsBacked _) (sym h) waiting

  from_waiting :
      {A : Type 0} {Q : A → Desk F → Type 0} {r : Result Stop A × Desk F} {a : Action}
      → Meets (λ d. d.acted ≡ []) Q r
      → Meets (λ d. IsBacked a d.acted) Q r
  from_waiting h = Meets-weaken h IsBacked-waiting (λ x d e. e)

  resume-Meets :
      (a : Action) (permit : Permit) (decision : Decision) (d : Desk F)
      → d.acted ≡ []
      → Meets
          (λ d'. IsBacked a d'.acted)
          (λ r d'. IsBacked a d'.acted)
          (resume services c a permit decision d)
  unfolding resume
  resume-Meets a permit decision d h = and_then _ (from_waiting (guard-Same _ _ d h)) (λ _ d1 h1.
      and_then _ (from_waiting (or_stop-Knows _ (c.runbook a.runbook_id) d1 h1)) (λ rb d2 q.
        and_then _ (from_waiting (revalidated-Knows services c a rb d2 q.1)) (λ _ d3 v.
          and_then _ (from_waiting (or_stop-Knows _ c.bundle d3 v.1)) (λ bundle d4 b.
            and_then _ (from_waiting (or_stop-Knows _ c.matrix d4 b.1)) (λ matrix d5 m.
              and_then _
                (from_waiting
                  (rejudged-Knows services c a (judged services c a bundle matrix) d5 m.1))
                (λ _ d6 g. and_then _ (from_waiting (same _ g.1)) (λ _ d7 h7.
                  Meets-weaken
                    (perform-Within services c a rb bundle matrix true decision d7 (planned v.0 g.0)
                      (subst (Within services c a rb bundle matrix 0) (sym h7)
                        (nobody, omega arith)))
                    (λ d' w. resumed q.0 b.0 m.0 w.0 w.1)
                    (λ r d' w. resumed q.0 b.0 m.0 w.0 w.1))))))))

  -- The same of `resume_from_approval`, from a state without calls: the executor is called with at
  -- most two actions, the approved one, without validator issues and not denied by the policy as
  -- loaded at the resume, or its rollback past its own gates; the runbook is the action's.
  pub resume-IsBacked :
      (a : Action) (permit : Permit) (decision : Decision) (d : Desk F)
      → d.acted ≡ []
      → IsBacked a (resume services c a permit decision d).1.acted
  resume-IsBacked a permit decision d h = settled (resume-Meets a permit decision d h)
