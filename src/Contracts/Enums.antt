-- ===== src/Contracts/Enums.antt =====
-- backend/app/contracts/enums.py: the closed vocabularies that the services share.
use proof_ops.Common.{ℕ, String, Bool, ◌==◌}

-- `IncidentStatus` and `FSM_STATES`.
pub data IncidentStatus : Type 0 where
  new triaging correlated investigating diagnosing planned : IncidentStatus
  policy_check blocked awaiting_approval approved executing verifying : IncidentStatus
  resolved rollback escalated rca_pending rca_published audited : IncidentStatus

-- The position of a status in `FSM_STATES`.
abbrev pub status_index : IncidentStatus → ℕ
status_index new = 0
status_index triaging = 1
status_index correlated = 2
status_index investigating = 3
status_index diagnosing = 4
status_index planned = 5
status_index policy_check = 6
status_index blocked = 7
status_index awaiting_approval = 8
status_index approved = 9
status_index executing = 10
status_index verifying = 11
status_index resolved = 12
status_index rollback = 13
status_index escalated = 14
status_index rca_pending = 15
status_index rca_published = 16
status_index audited = 17

-- `==` on statuses.
abbrev pub status_eq : IncidentStatus → IncidentStatus → Bool
status_eq s t = status_index s == status_index t

-- `str(status)`: the value of the member.
abbrev pub status_name : IncidentStatus → String
status_name new = "NEW"
status_name triaging = "TRIAGING"
status_name correlated = "CORRELATED"
status_name investigating = "INVESTIGATING"
status_name diagnosing = "DIAGNOSING"
status_name planned = "PLANNED"
status_name policy_check = "POLICY_CHECK"
status_name blocked = "BLOCKED"
status_name awaiting_approval = "AWAITING_APPROVAL"
status_name approved = "APPROVED"
status_name executing = "EXECUTING"
status_name verifying = "VERIFYING"
status_name resolved = "RESOLVED"
status_name rollback = "ROLLBACK"
status_name escalated = "ESCALATED"
status_name rca_pending = "RCA_PENDING"
status_name rca_published = "RCA_PUBLISHED"
status_name audited = "AUDITED"
