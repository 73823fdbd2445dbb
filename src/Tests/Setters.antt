-- ===== src/Tests/Setters.antt =====
-- The setters of the desired objects.
use operator_for_ai_chips_on.Common.{[], ◌≡◌, refl, true, false, some, none, is_some}
use operator_for_ai_chips_on.Common.Dict.{lookup}
use operator_for_ai_chips_on.K8s.{DaemonSet, named}
use operator_for_ai_chips_on.K8s.Selectors.{selector_selects}
use operator_for_ai_chips_on.Kube.Memory.{memory_util}
use operator_for_ai_chips_on.KmmModule.{set_kmm_module_as_desired, get_node_selector}
use operator_for_ai_chips_on.KmmModule.Laws.{
  IsWanted, set_kmm_module-IsWanted, get_node_selector-label,
}
use operator_for_ai_chips_on.NodeMetrics.{set_node_metrics_as_desired}
use operator_for_ai_chips_on.NodeMetrics.Laws.{IsPlaced, set_node_metrics-IsPlaced}
use operator_for_ai_chips_on.CustomScheduler.{
  set_custom_scheduler_as_desired, set_custom_scheduler_extension_as_desired,
}
use operator_for_ai_chips_on.CustomScheduler.Laws.{
  IsDeployable, set_custom_scheduler-IsDeployable, set_custom_scheduler_extension-IsDeployable,
  selectors_apart,
}
use operator_for_ai_chips_on.Controllers.Objects.{
  new_module, new_daemon_set, new_scheduler, new_extension,
}
use operator_for_ai_chips_on.Tests.Samples.{neuron, in_use}

set_kmm_module-IsWanted_example :
    let (m, e) = set_kmm_module_as_desired memory_util tt (new_module neuron) neuron in
    IsWanted neuron m
    × (m.meta ≡ (memory_util.set_controller_reference neuron (new_module neuron).meta tt).0)
    × (e ≡ (memory_util.set_controller_reference neuron (new_module neuron).meta tt).1)
    × (m.spec.others ≡ [])
set_kmm_module-IsWanted_example = set_kmm_module-IsWanted memory_util tt (new_module neuron) neuron

get_node_selector-label_example :
    lookup "feature.node.kubernetes.io/pci-1d0f.present" (get_node_selector neuron) ≡ some "true"
get_node_selector-label_example =
    get_node_selector-label neuron "feature.node.kubernetes.io/pci-1d0f.present"

set_node_metrics-IsPlaced_example :
    (is_some (set_node_metrics_as_desired memory_util tt none neuron).1 ≡ true)
    × ((ds : DaemonSet)
        → (ds' : DaemonSet) × (set_node_metrics_as_desired memory_util tt (some ds) neuron
            ≡ (some ds', (memory_util.set_controller_reference neuron ds.meta tt).1))
          × IsPlaced memory_util neuron ds'
          × (ds'.meta ≡ (memory_util.set_controller_reference neuron ds.meta tt).0))
set_node_metrics-IsPlaced_example = set_node_metrics-IsPlaced memory_util tt neuron

set_custom_scheduler-IsDeployable_example :
    ((set_custom_scheduler_as_desired (new_scheduler neuron) neuron).meta
      ≡ named "ai" "neuron-custom-scheduler")
    × IsDeployable "scheduler" (set_custom_scheduler_as_desired (new_scheduler neuron) neuron).spec
set_custom_scheduler-IsDeployable_example =
    set_custom_scheduler-IsDeployable (new_scheduler neuron) neuron

-- The DeviceConfig names no image for the extension.
set_custom_scheduler_extension-IsDeployable_example :
    ((set_custom_scheduler_extension_as_desired (new_extension neuron) neuron).meta
      ≡ named "ai" "neuron-custom-scheduler-extension")
    × IsDeployable "" (set_custom_scheduler_extension_as_desired (new_extension neuron) neuron).spec
set_custom_scheduler_extension-IsDeployable_example =
    set_custom_scheduler_extension-IsDeployable (new_extension neuron) neuron

abbrev metrics : DaemonSet
metrics = new_daemon_set neuron

abbrev measured : DaemonSet
measured = elim (set_node_metrics_as_desired memory_util tt (some metrics) neuron).0 [
  | none ↦ metrics
  | some ds ↦ ds
]

selectors_apart_example :
    let s = (set_custom_scheduler_as_desired (new_scheduler neuron) neuron).spec in
    let x = (set_custom_scheduler_extension_as_desired (new_extension in_use) in_use).spec in
    (selector_selects s.selector x.template.labels ≡ false)
    × (selector_selects x.selector s.template.labels ≡ false)
    × (selector_selects s.selector measured.spec.template.labels ≡ false)
    × (selector_selects x.selector measured.spec.template.labels ≡ false)
    × (selector_selects measured.spec.selector s.template.labels ≡ false)
    × (selector_selects measured.spec.selector x.template.labels ≡ false)
unfolding set_node_metrics_as_desired
selectors_apart_example =
    selectors_apart memory_util tt (new_scheduler neuron) (new_extension in_use) metrics measured
      neuron in_use neuron refl
