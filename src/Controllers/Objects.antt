-- ===== src/Controllers/Objects.antt =====
-- internal/controllers/device_config_reconciler.go: the objects that belong to a DeviceConfig, and
-- the closures that write them.
use operator_for_ai_chips_on.Common.{String, ◌<>◌, none, some}
use operator_for_ai_chips_on.K8s.{
  NamespacedName, ObjectMeta, Module, DaemonSet, Deployment, named, zero_module_spec,
  zero_daemon_set_spec, zero_deployment_spec,
}
use operator_for_ai_chips_on.Api.{DeviceConfig}
use operator_for_ai_chips_on.Kube.{Util, GoError}
use operator_for_ai_chips_on.KmmModule.{KmmModuleApi}
use operator_for_ai_chips_on.CustomScheduler.{CustomSchedulerApi}
use operator_for_ai_chips_on.NodeMetrics.{NodeMetricsApi}

abbrev pub device_config_finalizer : String
device_config_finalizer = "awslabs.node.kubernetes.io/deviceconfig-finalizer"

-- The names of the objects that belong to a DeviceConfig.
abbrev pub module_name : DeviceConfig → NamespacedName
module_name d = record { namespace = d.meta.namespace; name = d.meta.name }

abbrev pub metrics_name : DeviceConfig → NamespacedName
metrics_name d = record { namespace = d.meta.namespace; name = d.meta.name <> "-node-metrics" }

abbrev pub scheduler_name : DeviceConfig → NamespacedName
scheduler_name d = record {
  namespace = d.meta.namespace;
  name = d.meta.name <> "-custom-scheduler";
}

abbrev pub extension_name : DeviceConfig → NamespacedName
extension_name d = record {
  namespace = d.meta.namespace;
  name = d.meta.name <> "-custom-scheduler-extension";
}

abbrev pub meta_of : NamespacedName → ObjectMeta
meta_of n = named n.namespace n.name

-- What `CreateOrPatch` is first given.
abbrev pub new_module : DeviceConfig → Module
new_module d = record { meta = meta_of (module_name d); spec = zero_module_spec }

abbrev pub new_scheduler : DeviceConfig → Deployment
new_scheduler d = record { meta = meta_of (scheduler_name d); spec = zero_deployment_spec }

abbrev pub new_extension : DeviceConfig → Deployment
new_extension d = record { meta = meta_of (extension_name d); spec = zero_deployment_spec }

abbrev pub new_daemon_set : DeviceConfig → DaemonSet
new_daemon_set d = record { meta = meta_of (metrics_name d); spec = zero_daemon_set_spec }

-- deviceConfigReconcilerHelper, but for its client.
pub record Helper (U : Util) : Type 0 where
  pub kmm_handler : KmmModuleApi U
  pub cs_handler : CustomSchedulerApi
  pub nm_handler : NodeMetricsApi U
  pub scheme : U.Scheme

module _ {U : Util} where
  -- The closures that the handlers give to `CreateOrPatch`.
  unfoldable pub mutate_scheduler : Helper U → DeviceConfig → Deployment → Deployment × GoError U
  mutate_scheduler h d dp =
      let dp' = h.cs_handler.set_custom_scheduler_as_desired dp d in
      let (meta, r) = U.set_controller_reference d dp'.meta h.scheme in
      (record dp' { meta = meta }, r)

  unfoldable pub mutate_extension : Helper U → DeviceConfig → Deployment → Deployment × GoError U
  mutate_extension h d dp =
      let dp' = h.cs_handler.set_custom_scheduler_extension_as_desired dp d in
      let (meta, r) = U.set_controller_reference d dp'.meta h.scheme in
      (record dp' { meta = meta }, r)

  -- The pointer that is passed is not nil, and the handler writes through it.
  unfoldable pub mutate_metrics : Helper U → DeviceConfig → DaemonSet → DaemonSet × GoError U
  mutate_metrics h d ds =
      let (written, r) = h.nm_handler.set_node_metrics_as_desired (some ds) d in
      (elim written [ some ds' ↦ ds' | none ↦ ds ], r)

  unfoldable pub mutate_module : Helper U → DeviceConfig → Module → Module × GoError U
  mutate_module h d m = h.kmm_handler.set_kmm_module_as_desired m d
