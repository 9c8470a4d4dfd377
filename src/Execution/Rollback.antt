-- ===== src/Execution/Rollback.antt =====
-- backend/app/services/rollback.py: whether to roll back, and the inverse of an action.
use Prim.Native.String.{◌++◌ as str_append}
use proof_ops.Common.{ℕ, String, Bool, true, false, ◌&&◌, none, ltb, if◌then◌else◌, Result, ok, err}
use proof_ops.Contracts.Value.{Value, num, str, Fields, no_binding, binding}
use proof_ops.Contracts.Vocabulary.{
  ActionType, scale_deployment, rollback_deployment, patch_config, Action, green,
}
use proof_ops.Execution.Numbers.{ℤ, pos, negsuc}
use proof_ops.Execution.Sandbox.{SandboxState, is_mutation}
use proof_ops.Execution.Verifier.{Verdict, failed, worsened, rollback_required}

abbrev pub max_auto_rollbacks : ℕ
max_auto_rollbacks = 1

-- `ROLLBACK_ON`
abbrev pub rolls_back_on : Verdict → Bool
rolls_back_on failed = true
rolls_back_on worsened = true
rolls_back_on rollback_required = true
rolls_back_on _ = false

unfoldable pub should_rollback : Verdict → ℕ → Bool
should_rollback verdict attempts = rolls_back_on verdict && ltb attempts max_auto_rollbacks

-- `REVERSIBLE`, the types that `MOCKABLE` adds to the reads.
abbrev pub is_reversible_type : ActionType → Bool
is_reversible_type = is_mutation

-- The value of an integer; `minus` gives a negative one.
abbrev pub int_value : (ℕ → Value) → ℤ → Value
int_value minus (pos n) = num n
int_value minus (negsuc n) = minus n

module _ {F : Type 0} where
  -- `inverse`, from the snapshot before the action.
  unfoldable pub inverse_of : (ℕ → Value) → ActionType → Fields → SandboxState F → Fields
  inverse_of minus scale_deployment p before =
      binding "replicas" (int_value minus before.replicas) no_binding
  inverse_of minus rollback_deployment p before =
      binding "to_version" (str before.deployment_version) no_binding
  inverse_of minus patch_config p before = binding "config_rev" (str before.config_rev) no_binding
  inverse_of minus _ p before = p

  -- The action that takes another back, with the defaults of the contract.
  unfoldable pub inverse_action : (ℕ → Value) → String → Action → SandboxState F → Action
  unfolding inverse_of
  inverse_action minus id a before = record a {
    action_id = id;
    agent_id = "rollback-controller";
    parameters = inverse_of minus a.action_type a.parameters before;
    risk_level = green;
    reason = str_append "auto-rollback of " a.action_id;
    expected_outcome = "restore pre-action state";
    rollback_action = none;
  }

  -- `rollback_for`, over the fresh id of the action; the error is its ValueError. What it copies
  -- from a valid action passes the contract again; the contract's bound of 16384 bytes on the inverse
  -- parameters is left out.
  unfoldable pub rollback_for :
      (ℕ → Value) → String → Action → SandboxState F → Result (Unit {0}) Action
  rollback_for minus id a before =
      if is_reversible_type a.action_type then ok (inverse_action minus id a before) else err tt
