-- ===== src/Execution/Restore.antt =====
-- What an automatic rollback restores.
use proof_ops.Common.{ℕ, ◌+◌, String, ◌≡◌, true, some, ok, arith}
use proof_ops.Contracts.Value.{Value, get}
use proof_ops.Contracts.Vocabulary.{
  ActionType, restart_pod, scale_deployment, rolling_restart, rollback_deployment, patch_config,
  Action,
}
use proof_ops.Execution.Numbers.{Floats, pos, Casts}
use proof_ops.Execution.Sandbox.{SandboxState, Execution, mutated, execution_of, apply}
use proof_ops.Execution.Rollback.{is_reversible_type, inverse_of, inverse_action, rollback_for}

module _ {F : Type 0} (floats : Floats F) where
  -- The state `t` that is reached from `s` by an action and its rollback.
  abbrev pub Restored : ActionType → SandboxState F → SandboxState F → Type 0
  Restored scale_deployment s t = t ≡ s
  Restored rollback_deployment s t = t ≡ record s { error_rate = floats.rolled_back_rate }
  Restored restart_pod s t = t ≡ record s { restarts = s.restarts + 1 + 1; pods_ready = true }
  Restored rolling_restart s t = t ≡ record s {
    restarts = s.restarts + 1 + 1;
    error_rate = floats.halved (floats.halved s.error_rate);
  }
  Restored patch_config s t = t ≡ record s { config_rev = "c2" }
  Restored _ s t = ⊥

  module _ (casts : Casts) (minus : ℕ → Value) where
    mutated_back :
        (ty : ActionType) (a : Action) (n : ℕ) (s s' : SandboxState F)
        → s.replicas ≡ pos n
        → is_reversible_type ty ≡ true
        → mutated floats casts ty a.parameters s ≡ some s'
        → (t : SandboxState F) × (mutated floats casts ty (inverse_of minus ty a.parameters s) s'
            ≡ some t)
          × Restored ty s t
    unfolding mutated inverse_of get
    mutated_back scale_deployment a n s s' e r h =
        (record s' { replicas = pos n }, ground arith, ground arith)
    mutated_back rollback_deployment a n s s' e r h = (
      record s' { deployment_version = s.deployment_version; error_rate = floats.rolled_back_rate },
      ground arith,
      ground arith,
    )
    mutated_back restart_pod a n s s' e r h =
        (record s' { restarts = s'.restarts + 1; pods_ready = true }, ground arith, ground arith)
    mutated_back rolling_restart a n s s' e r h = (
      record s' { restarts = s'.restarts + 1; error_rate = floats.halved s'.error_rate },
      ground arith,
      ground arith,
    )
    mutated_back patch_config a n s s' e r h =
        (record s' { config_rev = "c2" }, ground arith, ground arith)
    mutated_back _ a n s s' e r h = ground arith

    applied :
        (id : String) (a : Action) (s s' : SandboxState F) {x : Execution F}
        → apply floats casts id a s ≡ ok (x, s')
        → mutated floats casts a.action_type a.parameters s ≡ some s'
    unfolding apply
    applied id a s s' h = ground arith

    -- What a rollback restores: for a reversible type, once the action was applied, `rollback_for`
    -- gives an action that applies, and the two together leave the replicas as they were, the
    -- version as it was with the error rate of a rollback, two restarts for one, and for
    -- `patch_config` the revision "c2", whatever it was before. The replica count is not negative.
    pub rollback_restores :
        (id id' id'' : String) (a : Action) (n : ℕ) (s s' : SandboxState F) {x : Execution F}
        → s.replicas ≡ pos n
        → is_reversible_type a.action_type ≡ true
        → apply floats casts id a s ≡ ok (x, s')
        → (b : Action) × (y : Execution F) × (t : SandboxState F) × (rollback_for minus id' a s
            ≡ ok b)
          × (apply floats casts id'' b s' ≡ ok (y, t))
          × Restored a.action_type s t
    unfolding apply rollback_for inverse_action
    rollback_restores id id' id'' a n s s' e r h =
        let (t, m, back) = mutated_back a.action_type a n s s' e r (applied id a s s' h) in
        let b = inverse_action minus id' a s in
        (b, execution_of floats casts id'' b s' t, t, ground arith, ground (arith, m), back)
