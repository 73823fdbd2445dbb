-- ===== src/Controllers/Reconcile.antt =====
-- internal/controllers/device_config_reconciler.go: Reconcile, over the interface of its helper.
use operator_for_ai_chips_on.Common.{ℕ, String, Bool, false, none, some, if◌then◌else◌, is_some}
use operator_for_ai_chips_on.Api.{DeviceConfig}
use operator_for_ai_chips_on.Kube.{Util, Client, GoError, wrapf}

-- ctrl.Result
pub record CtrlResult : Type 0 where
  pub requeue : Bool
  pub requeue_after : ℕ

abbrev pub no_result : CtrlResult
no_result = record { requeue = false; requeue_after = 0 }

-- What a method reads and writes: the world and the DeviceConfig.
pub record State {U : Util} (C : Client U) : Type 0 where
  pub world : C.World
  pub dev_config : DeviceConfig

-- A method that returns an `error`.
abbrev pub Step : {U : Util} → Client U → Type 0
Step {U} C = State C → GoError U × State C

-- deviceConfigReconcilerHelperAPI
pub record HelperApi {U : Util} (C : Client U) : Type 0 where
  pub finalize_device_config : Step C
  pub set_finalizer : Step C
  pub handle_kmm_module : Step C
  pub handle_custom_scheduler : Step C
  pub handle_node_metrics : Step C

module _ {U : Util} {C : Client U} where
  -- `if err != nil { return err }`
  infixl 5 ◌>>◌
  unfoldable pub ◌>>◌ : Step C → Step C → Step C
  ◌>>◌ m n s = let (e, s') = m s in elim e [ some f ↦ (some f, s') | none ↦ n s' ]

  -- `if err != nil { return fmt.Errorf(prefix + "%v", err) }`
  unfoldable pub or_fail : String → Step C → Step C
  or_fail prefix m s =
      let (e, s') = m s in elim e [ some f ↦ (some (wrapf U prefix f), s') | none ↦ (none, s') ]

  -- The handlers that Reconcile calls once the finalizer is set.
  unfoldable pub handle_all : HelperApi C → Step C
  handle_all api = do
    or_fail "failed to handle KMM module for DeviceConfig: " api.handle_kmm_module
    or_fail "failed to handle customScheduler for DeviceConfig: " api.handle_custom_scheduler
    or_fail "failed to handle node metrics for DeviceConfig: " api.handle_node_metrics

  -- Reconcile of a DeviceConfig that is not being deleted
  unfoldable pub reconcile_live : HelperApi C → Step C
  reconcile_live api = do
    or_fail "failed to set finalizer for DeviceConfig: " api.set_finalizer
    handle_all api

  -- Reconcile
  unfoldable pub reconcile : HelperApi C → State C → CtrlResult × GoError U × State C
  reconcile api s =
      let (e, s') =
        if is_some s.dev_config.meta.deletion_timestamp
        then or_fail "failed to finalize DeviceConfig: " api.finalize_device_config s
        else reconcile_live api s in
      (no_result, e, s')
