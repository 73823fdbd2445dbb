-- ===== src/Tests/Samples.antt =====
-- A DeviceConfig, its helper, and servers in memory that hold it and its objects.
use operator_for_ai_chips_on.Common.{pos, none, some, [], ◌∷◌, false, if◌then◌else◌}
use operator_for_ai_chips_on.Api.{DeviceConfig, DeploymentStatus}
use operator_for_ai_chips_on.K8s.{Module}
use operator_for_ai_chips_on.Kube.Memory.{World, memory_util, same_name}
use operator_for_ai_chips_on.KmmModule.{new_kmm_module}
use operator_for_ai_chips_on.NodeMetrics.{new_node_metrics}
use operator_for_ai_chips_on.CustomScheduler.{new_custom_scheduler}
use operator_for_ai_chips_on.Controllers.Objects.{
  Helper, device_config_finalizer, module_name, metrics_name, new_module, new_daemon_set,
}

abbrev pub helper : Helper memory_util
helper = record {
  kmm_handler = new_kmm_module memory_util tt;
  cs_handler = new_custom_scheduler;
  nm_handler = new_node_metrics memory_util tt;
  scheme = tt;
}

abbrev no_status : DeploymentStatus
no_status = record {
  nodes_matching_selector_number = pos 0;
  desired_number = pos 0;
  available_number = pos 0;
}

-- A DeviceConfig as a user makes it.
abbrev pub neuron : DeviceConfig
neuron = record {
  meta = record {
    namespace = "ai";
    name = "neuron";
    deletion_timestamp = none;
    finalizers = [];
    owner_references = [];
  };
  spec = record {
    use_in_tree_drivers = false;
    drivers_image = "drivers";
    device_plugin_image = "plugin";
    custom_scheduler_image = "scheduler";
    scheduler_extension_image = "";
    image_repo_secret = none;
    selector = none;
  };
  status = record { device_plugin = no_status; drivers = no_status };
}

-- The same in use, and when it is being deleted.
abbrev pub in_use : DeviceConfig
in_use = record neuron {
  meta = record (neuron.meta) { finalizers = "other" ∷ device_config_finalizer ∷ [] };
}

abbrev pub deleting : DeviceConfig
deleting = record in_use { meta = record (in_use.meta) { deletion_timestamp = some 7 } }

abbrev pub empty : World
empty = record {
  modules = λ _. none;
  daemon_sets = λ _. none;
  deployments = λ _. none;
  configs = λ _. none;
}

-- A server that holds a DeviceConfig and no object of it.
abbrev pub holding : DeviceConfig → World
holding d = record empty { configs = λ n. if same_name (module_name d) n then some d else none }

-- The Module, with the finalizer that KMM puts on it.
abbrev pub held_module : Module
held_module = record (new_module neuron) {
  meta = record ((new_module neuron).meta) {
    finalizers = "kmm.node.kubernetes.io/module-finalizer" ∷ [];
  };
}

abbrev pub with_module : World → World
with_module w = record w {
  modules = λ n. if same_name (module_name neuron) n then some held_module else none;
}

abbrev pub with_daemon_set : World → World
with_daemon_set w = record w {
  daemon_sets =
      λ n. if same_name (metrics_name neuron) n then some (new_daemon_set neuron) else none;
}
