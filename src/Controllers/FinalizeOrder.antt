-- ===== src/Controllers/FinalizeOrder.antt =====
-- internal/controllers/device_config_reconciler.go: the client calls of finalizeDeviceConfig.
use operator_for_ai_chips_on.Common.{◌⊎◌, is_some, ◌≤◌, ◌≡◌, true, false, List, [], ◌∷◌, arith}
use operator_for_ai_chips_on.Api.{DeviceConfig}
use operator_for_ai_chips_on.Kube.{module_kind, daemon_set_kind, Util, Client, GoError}
use operator_for_ai_chips_on.K8s.{NamespacedName}
use operator_for_ai_chips_on.Kube.Traced.{
  Call, got, deleted, patched, traced, present, absent, is_patch, is_apply, is_delete, any, writes,
}
use operator_for_ai_chips_on.Controllers.Objects.{
  device_config_finalizer, module_name, metrics_name, Helper,
}
use operator_for_ai_chips_on.Controllers.Reconcile.{State}
use operator_for_ai_chips_on.Controllers.Helper.{finalize_device_config}

-- The state of a run that starts with an empty record of calls.
abbrev pub start : {U : Util} (C : Client U) → C.World → DeviceConfig → State (traced C)
start C w d = record { world = (w, []); dev_config = d }

module _ {U : Util} (C : Client U) (h : Helper U) (w : C.World) (d : DeviceConfig) where
  abbrev finalize_log : List Call
  finalize_log = (finalize_device_config (traced C) h (start C w d)).1.world.1

  abbrev finalize_error : GoError U
  finalize_error = (finalize_device_config (traced C) h (start C w d)).0

  -- If finalizeDeviceConfig patches the DeviceConfig at all, then its calls are exactly these: the
  -- DaemonSet was looked for and is absent, then the Module was looked for and is absent, and then
  -- the finalizer is taken off. This holds whatever the API server answers.
  pub finalize-patch :
      any is_patch finalize_log ≡ true
      → finalize_log
        ≡ got daemon_set_kind (metrics_name d) absent
          ∷ got module_kind (module_name d) absent
          ∷ patched (record d { meta = U.remove_finalizer d.meta device_config_finalizer }) d
          ∷ []
  unfolding finalize_device_config
  finalize-patch p = ground arith

  -- One call of finalizeDeviceConfig writes at most once, never creates or updates an object of the
  -- DeviceConfig, and writes exactly once unless it returns an
  -- error.
  pub finalize-writes :
      (writes finalize_log ≤ 1)
      × (any is_apply finalize_log ≡ false)
      × ((writes finalize_log ≡ 1) ⊎ (is_some finalize_error ≡ true))
  unfolding finalize_device_config
  finalize-writes = ground arith

  -- If finalizeDeviceConfig deletes the Module, then it looked for the DaemonSet before and found
  -- none, and it found the Module.
  pub finalize-delete_module :
      any (is_delete module_kind) finalize_log ≡ true
      → (n : NamespacedName) × (finalize_log
          ≡ got daemon_set_kind (metrics_name d) absent
            ∷ got module_kind (module_name d) present
            ∷ deleted module_kind n
            ∷ [])
  unfolding finalize_device_config
  finalize-delete_module p = ground arith
