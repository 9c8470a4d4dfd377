-- ===== src/Execution/Sandbox.antt =====
-- backend/app/services/sandbox.py. The snapshot has the keys that `initial_state` gives it, so the
-- defaults of the code's reads never apply.
use Prim.Native.String.{◌++◌ as str_append}
use text.Mathlib.Text.{◌==◌ as str_eq}
use proof_ops.Common.{
  ℕ, ◌+◌, String, Bool, true, false, not, ◌||◌, Option, none, some, List, [], ◌∷◌, ◌++◌, ◌==◌,
  if◌then◌else◌, Result, ok, err,
}
use proof_ops.Contracts.Value.{Value, Fields, get}
use proof_ops.Contracts.Vocabulary.{
  ActionType, read, describe, logs, metrics, list, restart_pod, scale_deployment, rolling_restart,
  rollback_deployment, patch_config, action_name, Action,
}
use proof_ops.Execution.Numbers.{Floats, ℤ, pos, ℤ_eq, Casts, int, str_of}

pub record SandboxState (F : Type 0) : Type 0 where
  pub service : String
  pub deployment_version : String
  pub replicas : ℤ
  pub error_rate : F
  pub pods_ready : Bool
  pub restarts : ℕ
  pub config_rev : String

-- backend/app/contracts/enums.py: `ExecutorTier`.
pub data ExecutorTier : Type 0 where
  mock docker k8s : ExecutorTier

pub record Execution (F : Type 0) : Type 0 where
  pub execution_id : String
  pub action_id : String
  pub incident_id : String
  pub tier : ExecutorTier
  pub before : SandboxState F
  pub after : SandboxState F
  pub changed : List String
  pub log_lines : List String
  pub idempotency_key : String

pub data SandboxError : Type 0 where
  not_executable bad_replicas : SandboxError

-- `READ_TYPES`
abbrev pub is_read : ActionType → Bool
is_read read = true
is_read describe = true
is_read logs = true
is_read metrics = true
is_read list = true
is_read _ = false

-- `MOCKABLE` less the reads.
abbrev pub is_mutation : ActionType → Bool
is_mutation restart_pod = true
is_mutation scale_deployment = true
is_mutation rolling_restart = true
is_mutation rollback_deployment = true
is_mutation patch_config = true
is_mutation _ = false

abbrev pub bool_differs : Bool → Bool → Bool
bool_differs true b = not b
bool_differs false b = b

abbrev pub when : Bool → String → List String
when true s = s ∷ []
when false s = []

module _ {F : Type 0} (floats : Floats F) (casts : Casts) where
  abbrev pub initial_state : String → String → F → SandboxState F
  initial_state service version error_rate = record {
    service = service;
    deployment_version = version;
    replicas = pos 3;
    error_rate = error_rate;
    pods_ready = true;
    restarts = 0;
    config_rev = "c1";
  }

  -- `p.get("replicas", state.get("replicas", 3))` under `int`
  abbrev pub wanted_replicas : Option Value → ℤ → Option ℤ
  wanted_replicas none now = some now
  wanted_replicas (some v) now = int casts v

  -- `str(p.get("to_version", "v22"))`
  abbrev pub target_version : Option Value → String
  target_version none = "v22"
  target_version (some v) = str_of casts v

  -- The branches of `apply` on the action's type: the state after, nothing where `int` raises.
  unfoldable pub mutated : ActionType → Fields → SandboxState F → Option (SandboxState F)
  mutated rollback_deployment p s = some (record s {
    deployment_version = target_version (get "to_version" p);
    error_rate = floats.rolled_back_rate;
  })
  mutated restart_pod p s = some (record s { restarts = s.restarts + 1; pods_ready = true })
  mutated scale_deployment p s = elim (wanted_replicas (get "replicas" p) s.replicas) [
    | none ↦ none
    | some n ↦ some (record s { replicas = n })
  ]
  mutated rolling_restart p s =
      some (record s { restarts = s.restarts + 1; error_rate = floats.halved s.error_rate })
  mutated patch_config p s = some (record s { config_rev = "c2" })
  mutated _ p s = some s

  unfoldable pub log_of : Action → List String
  log_of a =
      str_append "mock-exec "
        (str_append (action_name a.action_type) (str_append " " a.resource_id))
      ∷ elim a.action_type [
        | rollback_deployment ↦
            str_append "rolled back to " (target_version (get "to_version" a.parameters)) ∷ []
        | _ ↦ []
      ]

  -- The keys of `diff`.
  unfoldable pub changed_keys : SandboxState F → SandboxState F → List String
  changed_keys s t =
      when (not (str_eq s.service t.service)) "service"
      ++ (when (not (str_eq s.deployment_version t.deployment_version)) "deployment_version"
          ++ (when (not (ℤ_eq s.replicas t.replicas)) "replicas"
              ++ (when (not (floats.same s.error_rate t.error_rate)) "error_rate"
                  ++ (when (bool_differs s.pods_ready t.pods_ready) "pods_ready"
                      ++ (when (not (s.restarts == t.restarts)) "restarts"
                          ++ when (not (str_eq s.config_rev t.config_rev)) "config_rev")))))

  unfoldable pub execution_of : String → Action → SandboxState F → SandboxState F → Execution F
  unfolding log_of changed_keys
  execution_of id a s t = record {
    execution_id = id;
    action_id = a.action_id;
    incident_id = a.incident_id;
    tier = mock;
    before = s;
    after = t;
    changed = changed_keys s t;
    log_lines = log_of a;
    idempotency_key = a.action_id;
  }

  -- `apply`, over the fresh id of the record.
  unfoldable pub apply :
      String → Action → SandboxState F → Result SandboxError (Execution F × SandboxState F)
  unfolding mutated execution_of
  apply id a s =
      if is_read a.action_type || is_mutation a.action_type
      then elim (mutated a.action_type a.parameters s) [
        | none ↦ err bad_replicas
        | some t ↦ ok (execution_of id a s t, t)
      ]
      else err not_executable
