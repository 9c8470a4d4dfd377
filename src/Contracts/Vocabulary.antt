-- ===== src/Contracts/Vocabulary.antt =====
-- backend/app/contracts/enums.py: actions, environments, risks, decisions and verdicts, and the
-- `Action` of backend/app/contracts/action.py.
use proof_ops.Common.{String, Option, List, [], ◌∷◌}
use proof_ops.Contracts.Value.{Fields}

pub data ActionType : Type 0 where
  read describe logs metrics list : ActionType
  restart_pod scale_deployment rolling_restart rollback_deployment patch_config : ActionType
  delete_pod delete_deployment delete_namespace rbac_change secret_access : ActionType
  db_write reboot_node shell : ActionType

unfoldable pub action_name : ActionType → String
action_name read = "read"
action_name describe = "describe"
action_name logs = "logs"
action_name metrics = "metrics"
action_name list = "list"
action_name restart_pod = "restart_pod"
action_name scale_deployment = "scale_deployment"
action_name rolling_restart = "rolling_restart"
action_name rollback_deployment = "rollback_deployment"
action_name patch_config = "patch_config"
action_name delete_pod = "delete_pod"
action_name delete_deployment = "delete_deployment"
action_name delete_namespace = "delete_namespace"
action_name rbac_change = "rbac_change"
action_name secret_access = "secret_access"
action_name db_write = "db_write"
action_name reboot_node = "reboot_node"
action_name shell = "shell"

-- `ACTION_TYPES`
abbrev pub action_types : List ActionType
action_types =
    read ∷ describe ∷ logs ∷ metrics ∷ list ∷ restart_pod ∷ scale_deployment ∷ rolling_restart
    ∷ rollback_deployment ∷ patch_config ∷ delete_pod ∷ delete_deployment ∷ delete_namespace
    ∷ rbac_change ∷ secret_access ∷ db_write ∷ reboot_node ∷ shell ∷ []

pub data Environment : Type 0 where
  dev staging prod mock : Environment

unfoldable pub environment_name : Environment → String
environment_name dev = "dev"
environment_name staging = "staging"
environment_name prod = "prod"
environment_name mock = "mock"

pub data RiskLevel : Type 0 where
  green yellow red : RiskLevel

pub data Decision : Type 0 where
  allow escalate deny : Decision

-- The proposal: typed data, no authority. `risk_level` is the model's own advice.
pub record Action : Type 0 where
  pub action_id : String
  pub incident_id : String
  pub agent_id : String
  pub action_type : ActionType
  pub resource_type : String
  pub resource_id : String
  pub environment : Environment
  pub namespace : String
  pub parameters : Fields
  pub risk_level : RiskLevel
  pub reason : String
  pub evidence_ids : List String
  pub runbook_id : String
  pub runbook_version : String
  pub expected_outcome : String
  pub rollback_action : Option Fields
  pub verification_plan : List String
