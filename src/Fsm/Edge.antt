-- ===== src/Fsm/Edge.antt =====
-- The diagram of `TRANSITIONS` as a relation, to match on.
use proof_ops.Common.{◌≡◌, refl, true}
use proof_ops.Contracts.Enums.{
  IncidentStatus, new, triaging, correlated, investigating, diagnosing, planned, policy_check,
  blocked, awaiting_approval, approved, executing, verifying, resolved, rollback, escalated,
  rca_pending, rca_published, audited,
}
use proof_ops.Fsm.Run.{allowed}

infix 40 ◌⟶◌
pub data ◌⟶◌ : IncidentStatus → IncidentStatus → Type 0 where
  new_triaging : new ⟶ triaging
  triaging_correlated : triaging ⟶ correlated
  triaging_escalated : triaging ⟶ escalated
  correlated_investigating : correlated ⟶ investigating
  correlated_escalated : correlated ⟶ escalated
  investigating_diagnosing : investigating ⟶ diagnosing
  investigating_escalated : investigating ⟶ escalated
  diagnosing_planned : diagnosing ⟶ planned
  diagnosing_escalated : diagnosing ⟶ escalated
  planned_policy_check : planned ⟶ policy_check
  planned_diagnosing : planned ⟶ diagnosing
  planned_escalated : planned ⟶ escalated
  policy_check_blocked : policy_check ⟶ blocked
  policy_check_awaiting_approval : policy_check ⟶ awaiting_approval
  policy_check_approved : policy_check ⟶ approved
  awaiting_approval_approved : awaiting_approval ⟶ approved
  awaiting_approval_escalated : awaiting_approval ⟶ escalated
  approved_executing : approved ⟶ executing
  executing_verifying : executing ⟶ verifying
  verifying_resolved : verifying ⟶ resolved
  verifying_rollback : verifying ⟶ rollback
  verifying_escalated : verifying ⟶ escalated
  resolved_rca_pending : resolved ⟶ rca_pending
  rollback_verifying : rollback ⟶ verifying
  escalated_rca_pending : escalated ⟶ rca_pending
  rca_pending_rca_published : rca_pending ⟶ rca_published
  rca_published_audited : rca_published ⟶ audited

pub allowed-⟶ : (s t : IncidentStatus) → allowed s t ≡ true → s ⟶ t
allowed-⟶ new triaging h = new_triaging
allowed-⟶ triaging correlated h = triaging_correlated
allowed-⟶ triaging escalated h = triaging_escalated
allowed-⟶ correlated investigating h = correlated_investigating
allowed-⟶ correlated escalated h = correlated_escalated
allowed-⟶ investigating diagnosing h = investigating_diagnosing
allowed-⟶ investigating escalated h = investigating_escalated
allowed-⟶ diagnosing planned h = diagnosing_planned
allowed-⟶ diagnosing escalated h = diagnosing_escalated
allowed-⟶ planned policy_check h = planned_policy_check
allowed-⟶ planned diagnosing h = planned_diagnosing
allowed-⟶ planned escalated h = planned_escalated
allowed-⟶ policy_check blocked h = policy_check_blocked
allowed-⟶ policy_check awaiting_approval h = policy_check_awaiting_approval
allowed-⟶ policy_check approved h = policy_check_approved
allowed-⟶ awaiting_approval approved h = awaiting_approval_approved
allowed-⟶ awaiting_approval escalated h = awaiting_approval_escalated
allowed-⟶ approved executing h = approved_executing
allowed-⟶ executing verifying h = executing_verifying
allowed-⟶ verifying resolved h = verifying_resolved
allowed-⟶ verifying rollback h = verifying_rollback
allowed-⟶ verifying escalated h = verifying_escalated
allowed-⟶ resolved rca_pending h = resolved_rca_pending
allowed-⟶ rollback verifying h = rollback_verifying
allowed-⟶ escalated rca_pending h = escalated_rca_pending
allowed-⟶ rca_pending rca_published h = rca_pending_rca_published
allowed-⟶ rca_published audited h = rca_published_audited
allowed-⟶ _ _ h = cc

pub ⟶-allowed : {s t : IncidentStatus} → s ⟶ t → allowed s t ≡ true
⟶-allowed new_triaging = refl
⟶-allowed triaging_correlated = refl
⟶-allowed triaging_escalated = refl
⟶-allowed correlated_investigating = refl
⟶-allowed correlated_escalated = refl
⟶-allowed investigating_diagnosing = refl
⟶-allowed investigating_escalated = refl
⟶-allowed diagnosing_planned = refl
⟶-allowed diagnosing_escalated = refl
⟶-allowed planned_policy_check = refl
⟶-allowed planned_diagnosing = refl
⟶-allowed planned_escalated = refl
⟶-allowed policy_check_blocked = refl
⟶-allowed policy_check_awaiting_approval = refl
⟶-allowed policy_check_approved = refl
⟶-allowed awaiting_approval_approved = refl
⟶-allowed awaiting_approval_escalated = refl
⟶-allowed approved_executing = refl
⟶-allowed executing_verifying = refl
⟶-allowed verifying_resolved = refl
⟶-allowed verifying_rollback = refl
⟶-allowed verifying_escalated = refl
⟶-allowed resolved_rca_pending = refl
⟶-allowed rollback_verifying = refl
⟶-allowed escalated_rca_pending = refl
⟶-allowed rca_pending_rca_published = refl
⟶-allowed rca_published_audited = refl
