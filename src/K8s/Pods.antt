-- ===== src/K8s/Pods.antt =====
-- Pods, DaemonSets, Deployments (k8s.io/api) and Modules (kernel-module-management).
use operator_for_ai_chips_on.Common.{ℕ, String, Bool, Option, none, List, []}
use operator_for_ai_chips_on.Common.Dict.{Dict}
use operator_for_ai_chips_on.K8s.Meta.{ObjectMeta, LocalObjectReference}

pub record HostPathVolumeSource : Type 0 where
  pub path : String
  pub type : Option String

pub record ConfigMapVolumeSource : Type 0 where
  pub name : String

-- One pointer for each kind of source; at most one is set.
pub record VolumeSource : Type 0 where
  pub host_path : Option HostPathVolumeSource
  pub config_map : Option ConfigMapVolumeSource

pub record Volume : Type 0 where
  pub name : String
  pub volume_source : VolumeSource

pub record VolumeMount : Type 0 where
  pub name : String
  pub mount_path : String

pub record ObjectFieldSelector : Type 0 where
  pub field_path : String

pub record EnvVarSource : Type 0 where
  pub field_ref : Option ObjectFieldSelector

pub record EnvVar : Type 0 where
  pub name : String
  pub value : String
  pub value_from : Option EnvVarSource

pub record HttpGetAction : Type 0 where
  pub path : String
  pub port : ℕ
  pub scheme : String

pub record Probe : Type 0 where
  pub initial_delay_seconds : ℕ
  pub http_get : Option HttpGetAction

pub record ContainerPort : Type 0 where
  pub name : String
  pub host_port : ℕ
  pub container_port : ℕ
  pub protocol : String

pub record SecurityContext : Type 0 where
  pub privileged : Option Bool
  pub run_as_user : Option ℕ

-- resource.Quantity, by the text that resource.MustParse is given.
pub data Quantity : Type 0 where
  must_parse : String → Quantity

pub record Container : Type 0 where
  pub name : String
  pub image : String
  pub args : List String
  pub command : List String
  pub image_pull_policy : String
  pub env : List EnvVar
  pub liveness_probe : Option Probe
  pub readiness_probe : Option Probe
  pub requests : Dict Quantity
  pub security_context : Option SecurityContext
  pub volume_mounts : List VolumeMount
  pub ports : List ContainerPort

pub record PodSpec : Type 0 where
  pub service_account_name : String
  pub containers : List Container
  pub volumes : List Volume
  pub node_selector : Dict String
  pub priority_class_name : String
  pub scheduler_name : String

pub record PodTemplateSpec : Type 0 where
  pub labels : Dict String
  pub spec : PodSpec

pub record LabelSelector : Type 0 where
  pub match_labels : Dict String

pub record DaemonSetSpec : Type 0 where
  pub selector : Option LabelSelector
  pub template : PodTemplateSpec

pub record DaemonSet : Type 0 where
  pub meta : ObjectMeta
  pub spec : DaemonSetSpec

pub record DeploymentSpec : Type 0 where
  pub replicas : Option ℕ
  pub strategy_type : String
  pub selector : Option LabelSelector
  pub template : PodTemplateSpec

pub record Deployment : Type 0 where
  pub meta : ObjectMeta
  pub spec : DeploymentSpec

pub record KernelMapping : Type 0 where
  pub regexp : String
  pub container_image : String
  pub in_tree_modules_to_remove : List String

pub record ModuleLoaderContainerSpec : Type 0 where
  pub modprobe_module_name : String
  pub kernel_mappings : List KernelMapping
  pub image_pull_policy : String

pub record ModuleLoaderSpec : Type 0 where
  pub container : ModuleLoaderContainerSpec
  pub service_account_name : String

pub record DevicePluginContainerSpec : Type 0 where
  pub image : String
  pub env : List EnvVar
  pub volume_mounts : List VolumeMount

pub record DevicePluginSpec : Type 0 where
  pub service_account_name : String
  pub container : DevicePluginContainerSpec
  pub volumes : List Volume

-- A nil selector map is `none`. The fields that the operator does not name are texts by their names.
pub record ModuleSpec : Type 0 where
  pub module_loader : Option ModuleLoaderSpec
  pub device_plugin : Option DevicePluginSpec
  pub image_repo_secret : Option LocalObjectReference
  pub selector : Option (Dict String)
  pub others : Dict String

pub record Module : Type 0 where
  pub meta : ObjectMeta
  pub spec : ModuleSpec

-- The zero values, from which the literals start.
abbrev pub zero_container : Container
zero_container = record {
  name = "";
  image = "";
  args = [];
  command = [];
  image_pull_policy = "";
  env = [];
  liveness_probe = none;
  readiness_probe = none;
  requests = [];
  security_context = none;
  volume_mounts = [];
  ports = [];
}

abbrev pub zero_pod_spec : PodSpec
zero_pod_spec = record {
  service_account_name = "";
  containers = [];
  volumes = [];
  node_selector = [];
  priority_class_name = "";
  scheduler_name = "";
}

abbrev pub zero_template : PodTemplateSpec
zero_template = record { labels = []; spec = zero_pod_spec }

abbrev pub zero_module_spec : ModuleSpec
zero_module_spec = record {
  module_loader = none;
  device_plugin = none;
  image_repo_secret = none;
  selector = none;
  others = [];
}

abbrev pub zero_daemon_set_spec : DaemonSetSpec
zero_daemon_set_spec = record { selector = none; template = zero_template }

abbrev pub zero_deployment_spec : DeploymentSpec
zero_deployment_spec = record {
  replicas = none;
  strategy_type = "";
  selector = none;
  template = zero_template;
}
