-- ===== src/Pipeline/Desk.antt =====
-- backend/app/services/pipeline.py: what the conductor holds, and the services it calls.
use proof_ops.Common.{
  ℕ, ◌+◌, ◌-◌, String, Bool, false, Option, none, some, List, [], ◌∷◌, ◌++◌, ltb, length, drop,
  if◌then◌else◌, Result, ok, err, Exec, pure, raise,
}
use proof_ops.Common.Steps.{◌>>◌}
use proof_ops.Contracts.Value.{Value, Fields}
use proof_ops.Contracts.Vocabulary.{Action}
use proof_ops.Contracts.Enums.{IncidentStatus}
use proof_ops.Fsm.Run.{Rejection, Permit, make_permit, IncidentRun}
use proof_ops.Fsm.Advance.{advance}
use proof_ops.Fsm.Once.{Raised, rejected, fault, execute_once, audit_records}
use proof_ops.Audit.Event.{Snapshot, Codec}
use proof_ops.Audit.Chain.{AuditChain, AuditError, Emission, emit}
use proof_ops.Audit.FsmRecords.{record_fsm}
use proof_ops.Execution.Numbers.{Floats, Casts}
use proof_ops.Execution.Sandbox.{SandboxState, Execution, apply}
use proof_ops.Execution.Verifier.{Slo, VerificationResult, verify}

-- What ends a run early: the outcomes of the pipeline, and the exceptions of what it calls.
pub data Stop : Type 0 where
  blocked stalled failed unreachable_cluster : Stop
  rejection : Rejection → Stop
  unrecorded : AuditError → Stop
  exception : Stop

abbrev pub Applied : Type 0 → Type 0
Applied F = Execution F × SandboxState F

-- The run, the chain, the verifications banked on the run, and every action that the executor was
-- called with.
pub record Desk (F : Type 0) : Type 0 where
  pub run : IncidentRun (Applied F)
  pub chain : AuditChain
  pub verifications : List VerificationResult
  pub acted : List Action

-- What the conductor is given besides the incident: libraries, settings, the live tier, and the
-- approvals router. `minus` makes the value of a negative integer, `draw` fresh event ids with the
-- time.
pub record Services (F : Type 0) : Type 0 where
  pub codec : Codec
  pub floats : Floats F
  pub casts : Casts
  pub sql : String → Bool
  pub minus : ℕ → Value
  pub params_hash : Fields → String
  pub draw : ℕ → String × ℕ
  pub new_id : String → String
  pub live : Bool
  pub reachable : Bool
  pub k8s : Action → SandboxState F → Option (Applied F)
  pub prometheus :
      String → SandboxState F → SandboxState F → Slo F → Option String → Option VerificationResult
  pub hitl_permit : Action → String → String → ℕ → Exec AuditChain Stop Permit
  pub park : Action → ℕ → Exec AuditChain Stop (Unit {0})

-- A step of the conductor.
abbrev pub Act : Type 0 → Type 0 → Type 0
Act F A = Exec (Desk F) Stop A

module _ {A : Type 0} where
  abbrev pub as_rejection : Result Rejection A → Result Stop A
  as_rejection (ok a) = ok a
  as_rejection (err x) = err (rejection x)

  abbrev pub as_unrecorded : Result AuditError A → Result Stop A
  as_unrecorded (ok a) = ok a
  as_unrecorded (err x) = err (unrecorded x)

  abbrev pub as_stop : Result (Raised Stop) (A × Bool) → Result Stop A
  as_stop (ok (a, duplicate)) = ok a
  as_stop (err (rejected x)) = err (rejection x)
  as_stop (err (fault x)) = err x

module _ {F A : Type 0} where
  -- A call of the state machine, of the chain, and of what touches neither.
  abbrev pub on_run : Exec (IncidentRun (Applied F)) Rejection A → Act F A
  on_run m d = let r = m d.run in (as_rejection r.0, record d { run = r.1 })

  abbrev pub on_chain : Exec AuditChain AuditError A → Act F A
  on_chain m d = let r = m d.chain in (as_unrecorded r.0, record d { chain = r.1 })

  abbrev pub on_approvals : Exec AuditChain Stop A → Act F A
  on_approvals m d = let r = m d.chain in (r.0, record d { chain = r.1 })

  abbrev pub or_stop : Stop → Option A → Act F A
  or_stop e none = raise e
  or_stop e (some a) = pure a

module _ {F : Type 0} (now : ℕ) where
  -- `fsm_svc.advance(run, to, reason=..., permit=..., refs=..., now=ts)`
  abbrev pub move : IncidentStatus → String → List String → Option Permit → Act F IncidentStatus
  move to reason refs permit =
      on_run
        (advance (record { to = to; reason = reason; refs = refs; permit = permit; now = now }))

  -- `_walk` of one state
  abbrev pub walk : IncidentStatus → Act F IncidentStatus
  walk to = move to "" [] none

module _ {F : Type 0} (services : Services F) where
  -- `chain.emit(kind, actor="control-plane", ...)`
  unfoldable pub note : String → String → String → Snapshot → String → Act F (Unit {0})
  note kind action_id execution_id policy result d =
      let (event_id, ts) = services.draw (length d.chain.events) in
      let m : Emission = record {
        event_id = event_id;
        ts = ts;
        event_type = kind;
        actor = "control-plane";
        agent = "";
        input_hash = "";
        evidence_ids = [];
        policy = policy;
        action_id = action_id;
        approval_id = "";
        execution_id = execution_id;
        result = result;
      } in
      let r = emit services.codec m d.chain in
      elim r.0 [
        | ok e ↦ (ok tt, record d { chain = r.1 })
        | err x ↦ (err (unrecorded x), record d { chain = r.1 })
      ]

  -- `audit_mod.record_fsm(chain, fsm_svc.audit_records(run))`
  unfoldable pub record_run : Act F ℕ
  record_run d =
      on_chain
        (record_fsm services.codec "control-plane" (λ n. services.draw (length d.chain.events + n))
          (audit_records d.run))
        d

  -- `_stop`
  abbrev pub stop : {A : Type 0} → Stop → Act F A
  stop e = record_run >> raise e

  -- `_permit_for`
  unfoldable pub permit_for : Action → Bool → ℕ → String → Result Rejection Permit
  permit_for a auto now token_ref = make_permit (record {
    action_id = a.action_id;
    params_hash = services.params_hash a.parameters;
    expires_at = now + 300;
    token_ref = token_ref;
    auto = auto;
  })

  -- `_apply_action`
  unfoldable pub apply_action : Action → SandboxState F → Result Stop (Applied F)
  apply_action a s =
      if services.live
      then if services.reachable
        then elim (services.k8s a s) [ none ↦ err exception | some x ↦ ok x ]
        else err unreachable_cluster
      else elim (apply services.floats services.casts (services.new_id "execution") a s) [
        | err x ↦ err exception
        | ok x ↦ ok x
      ]

  -- `fsm_svc.execute_once(run, action_id, execution_id, _apply_action, action, state)`
  unfoldable pub execute : Action → String → SandboxState F → Act F (Applied F)
  execute a execution_id s d =
      let r =
        execute_once a.action_id execution_id (λ acted. (apply_action a s, acted ++ a ∷ [])) d.run
          d.acted in
      (as_stop r.0, record d { run = r.1; acted = r.2 })

  -- `_verify_action`, and `_bank_verification`, which keeps the last fifty.
  unfoldable pub verify_action :
      String
      → SandboxState F
      → SandboxState F
      → Slo F
      → Option String
      → Result Stop VerificationResult
  verify_action execution_id before after slo expected =
      if services.live
      then elim (services.prometheus execution_id before after slo expected) [
        | none ↦ err exception
        | some v ↦ ok v
      ]
      else elim (verify services.floats execution_id before
          (record { state = after; crashloop = false; latency_p95 = none }) slo expected) [
            | err x ↦ err exception
            | ok v ↦ ok v
          ]

  unfoldable pub bank : VerificationResult → Act F (Unit {0})
  bank v d =
      let all = d.verifications ++ v ∷ [] in
      (
        ok tt,
        record d {
          verifications = if ltb 50 (length all) then drop (length all - 50) all else all;
        },
      )

  abbrev pub bank_or_stop : Result Stop VerificationResult → Act F VerificationResult
  bank_or_stop (err x) d = (err x, d)
  bank_or_stop (ok v) d = (bank v >> pure v) d

  unfoldable pub verified :
      String → SandboxState F → SandboxState F → Slo F → Option String → Act F VerificationResult
  verified execution_id before after slo expected =
      bank_or_stop (verify_action execution_id before after slo expected)
