-- ===== src/NodeMetrics/Laws.antt =====
-- internal/nodemetrics/nodemetrics.go: SetNodeMetricsAsDesired.
use operator_for_ai_chips_on.Common.{◌≡◌, refl, true, false, none, some, [], ◌∷◌, is_some}
use operator_for_ai_chips_on.K8s.{DaemonSet}
use operator_for_ai_chips_on.K8s.Selectors.{selector_selects, pod_mounts_declared, images_given}
use operator_for_ai_chips_on.Api.{DeviceConfig}
use operator_for_ai_chips_on.Kube.{Util}
use operator_for_ai_chips_on.NodeMetrics.{set_node_metrics_as_desired}

-- The DaemonSet of the metrics of a DeviceConfig: its selector matches its pods, every mount names a
-- volume, its pods run on the nodes where KMM has loaded the module of the DeviceConfig, and its
-- container has no image, for which the API server refuses it.
pub record IsPlaced (U : Util) (d : DeviceConfig) (ds : DaemonSet) : Type 0 where
  pub selected : selector_selects ds.spec.selector ds.spec.template.labels ≡ true
  pub mounted : pod_mounts_declared ds.spec.template.spec ≡ true
  pub nodes :
      ds.spec.template.spec.node_selector
      ≡ (U.kernel_module_ready_node_label d.meta.namespace d.meta.name, "") ∷ []
  pub imageless : images_given ds.spec.template.spec ≡ false

module _ (U : Util) (scheme : U.Scheme) (d : DeviceConfig) where
  -- SetNodeMetricsAsDesired fails on a nil pointer. Of any DaemonSet it makes one whose selector
  -- matches its own pods, whose mounts name declared volumes, whose pods run on the nodes where
  -- the kernel module of this DeviceConfig is ready, and whose container has no image, whatever the
  -- DeviceConfig says; its metadata and the error are what SetControllerReference answers.
  pub set_node_metrics-IsPlaced :
      (is_some (set_node_metrics_as_desired U scheme none d).1 ≡ true)
      × ((ds : DaemonSet)
          → (ds' : DaemonSet) × (set_node_metrics_as_desired U scheme (some ds) d
              ≡ (some ds', (U.set_controller_reference d ds.meta scheme).1))
            × IsPlaced U d ds'
            × (ds'.meta ≡ (U.set_controller_reference d ds.meta scheme).0))
  unfolding set_node_metrics_as_desired selector_selects pod_mounts_declared images_given
  set_node_metrics-IsPlaced = (
    refl,
    λ ds.
        (_, refl, record { selected = refl; mounted = refl; nodes = refl; imageless = refl }, refl),
  )
