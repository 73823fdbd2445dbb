-- ===== src/Controllers/Helper.antt =====
-- internal/controllers/device_config_reconciler.go: the methods of deviceConfigReconcilerHelper.
use operator_for_ai_chips_on.Common.{
  Option, Error, ◌<>◌, none, some, errorf, Result, ok, err, if◌then◌else◌,
}
use operator_for_ai_chips_on.Api.{DeviceConfig}
use operator_for_ai_chips_on.Kube.{
  module_kind, daemon_set_kind, deployment_kind, Util, Client, OperationResult, error_text,
}
use operator_for_ai_chips_on.Controllers.Objects.{
  device_config_finalizer, module_name, metrics_name, new_module, new_scheduler, new_extension,
  new_daemon_set, Helper, mutate_scheduler, mutate_extension, mutate_metrics, mutate_module,
}
use operator_for_ai_chips_on.Controllers.Reconcile.{Step, HelperApi, ◌>>◌, or_fail}

-- `opRes, err := CreateOrPatch(…)`, of which the caller returns `err`.
abbrev pub error_of : {E : Type 0} → Result E OperationResult → Option (Error E)
error_of (ok _) = none
error_of (err e) = some e

module _ {U : Util} (C : Client U) (h : Helper U) where
  -- setFinalizer
  unfoldable pub set_finalizer : Step C
  set_finalizer s =
      let d = s.dev_config in
      if U.contains_finalizer d.meta device_config_finalizer
      then (none, s)
      else (let d' : DeviceConfig = record d {
        meta = U.add_finalizer d.meta device_config_finalizer;
      } in
          let (e, d'', w) = C.patch d' d s.world in (e, record { world = w; dev_config = d'' }))

  -- The second half of finalizeDeviceConfig, which is reached when there is no DaemonSet.
  unfoldable pub finalize_module : Step C
  unfolding error_text
  finalize_module s =
      let d = s.dev_config in
      let (found, w) = C.get module_kind (module_name d) s.world in
      elim found [
        | ok m ↦
            let (e, w') = C.delete module_kind m w in (e, record { world = w'; dev_config = d })
        | err e ↦
            if U.is_not_found e
            then (let d' : DeviceConfig = record d {
              meta = U.remove_finalizer d.meta device_config_finalizer;
            } in
                let (r, d'', w') = C.patch d' d w in (r, record { world = w'; dev_config = d'' }))
            else (
              some (
                  errorf (
                    "failed to get the requested Module "
                    <> (U.render_name (module_name d) <> (": " <> error_text U e)))),
              record { world = w; dev_config = d },
            )
      ]

  -- finalizeDeviceConfig
  unfoldable pub finalize_device_config : Step C
  unfolding finalize_module error_text
  finalize_device_config s =
      let d = s.dev_config in
      let (found, w) = C.get daemon_set_kind (metrics_name d) s.world in
      elim found [
        | ok ds ↦
            let (e, w') = C.delete daemon_set_kind ds w in
            (e, record { world = w'; dev_config = d })
        | err e ↦
            if U.is_not_found e then finalize_module (record { world = w; dev_config = d }) else (
              some (
                  errorf (
                    "failed to get nodemetrics daemonset "
                    <> (U.render_name (metrics_name d) <> (": " <> error_text U e)))),
              record { world = w; dev_config = d },
            )
      ]

  -- handleKMMModule
  unfoldable pub handle_kmm_module : Step C
  unfolding mutate_module
  handle_kmm_module s =
      let d = s.dev_config in
      let (r, _, w) = C.create_or_patch module_kind (new_module d) (mutate_module h d) s.world in
      (error_of r, record { world = w; dev_config = d })

  unfoldable pub apply_scheduler : Step C
  unfolding mutate_scheduler
  apply_scheduler s =
      let d = s.dev_config in
      let (r, _, w) =
        C.create_or_patch deployment_kind (new_scheduler d) (mutate_scheduler h d) s.world in
      (error_of r, record { world = w; dev_config = d })

  unfoldable pub apply_extension : Step C
  unfolding mutate_extension
  apply_extension s =
      let d = s.dev_config in
      let (r, _, w) =
        C.create_or_patch deployment_kind (new_extension d) (mutate_extension h d) s.world in
      (error_of r, record { world = w; dev_config = d })

  -- handleCustomScheduler
  unfoldable pub handle_custom_scheduler : Step C
  unfolding apply_scheduler apply_extension
  handle_custom_scheduler = do
    or_fail "failed to create/patch custom scheduler deployment: " apply_scheduler
    apply_extension

  -- handleNodeMetrics
  unfoldable pub handle_node_metrics : Step C
  unfolding mutate_metrics
  handle_node_metrics s =
      let d = s.dev_config in
      let (r, _, w) =
        C.create_or_patch daemon_set_kind (new_daemon_set d) (mutate_metrics h d) s.world in
      (error_of r, record { world = w; dev_config = d })

  -- newDeviceConfigReconcilerHelper
  unfoldable pub new_device_config_reconciler_helper : HelperApi C
  new_device_config_reconciler_helper = record {
    finalize_device_config = finalize_device_config;
    set_finalizer = set_finalizer;
    handle_kmm_module = handle_kmm_module;
    handle_custom_scheduler = handle_custom_scheduler;
    handle_node_metrics = handle_node_metrics;
  }
