-- ===== src/KmmModule.antt =====
-- internal/kmmmodule/kmmmodule.go: the KMM Module that a DeviceConfig asks for.
-- A function that writes through `mod` returns the new Module. `devConfig.Spec.Selector` and
-- `ImageRepoSecret` are shared with the Module in Go, and neither is written through afterwards.
pub mod Laws
pub mod Nodes
use operator_for_ai_chips_on.Common.{String, ◌<>◌, Option, none, some, List, [], ◌∷◌}
use operator_for_ai_chips_on.Common.Dict.{Dict, insert}
use operator_for_ai_chips_on.K8s.{Module}
use operator_for_ai_chips_on.Api.{DeviceConfig, pci_vendor_id}
use operator_for_ai_chips_on.Kube.{Util, GoError, wrapf}

abbrev pub gpu_driver_module_name : String
gpu_driver_module_name = "neuron"

-- v1.PullAlways and v1.HostPathDirectory
abbrev pub pull_always : String
pull_always = "Always"

abbrev pub host_path_directory : String
host_path_directory = "Directory"

-- fmt.Sprintf("feature.node.kubernetes.io/pci-%s.present", PCIVendorID)
unfoldable pub pci_present_label : String
pci_present_label = "feature.node.kubernetes.io/pci-" <> (pci_vendor_id <> ".present")

unfoldable pub get_node_selector : DeviceConfig → Dict String
unfolding insert pci_present_label
get_node_selector dev_config = elim dev_config.spec.selector [
  | some selector ↦ selector
  | none ↦ insert pci_present_label "true" []
]

module _ (U : Util) where
  -- KMMModuleAPI
  pub record KmmModuleApi : Type 0 where
    pub set_kmm_module_as_desired : Module → DeviceConfig → Module × GoError U

  -- Its error is always nil.
  unfoldable pub set_kmm_module_loader : Module → DeviceConfig → Module × GoError U
  unfolding get_node_selector
  set_kmm_module_loader m dev_config =
      let drivers_image : String = dev_config.spec.drivers_image <> "-$KERNEL_VERSION" in
      (
        record m {
          spec = record (m.spec) {
            module_loader = some (record {
              container = record {
                modprobe_module_name = gpu_driver_module_name;
                kernel_mappings =
                    record {
                      regexp = "^.+$";
                      container_image = drivers_image;
                      in_tree_modules_to_remove = gpu_driver_module_name ∷ [];
                    }
                    ∷ [];
                image_pull_policy = pull_always;
              };
              service_account_name = "awslabs-gpu-operator-kmm-module-loader";
            });
            image_repo_secret = dev_config.spec.image_repo_secret;
            selector = some (get_node_selector dev_config);
          };
        },
        none,
      )

  unfoldable pub set_kmm_device_plugin : Module → DeviceConfig → Module
  set_kmm_device_plugin m dev_config = record m {
    spec = record (m.spec) {
      device_plugin = some (record {
        service_account_name = "awslabs-gpu-operator-kmm-device-plugin";
        container = record {
          image = dev_config.spec.device_plugin_image;
          env =
              record {
                name = "NODE_NAME";
                value = "";
                value_from =
                    some (record { field_ref = some (record { field_path = "spec.nodeName" }) });
              }
              ∷ [];
          volume_mounts = record { name = "sys"; mount_path = "/sys" } ∷ [];
        };
        volumes =
            record {
              name = "sys";
              volume_source = record {
                host_path = some (record { path = "/sys"; type = some host_path_directory });
                config_map = none;
              };
            }
            ∷ [];
      });
    };
  }

  -- kmmModule.SetKMMModuleAsDesired
  unfoldable pub set_kmm_module_as_desired : U.Scheme → Module → DeviceConfig → Module × GoError U
  unfolding set_kmm_module_loader set_kmm_device_plugin wrapf
  set_kmm_module_as_desired scheme m dev_config =
      let (loaded, e) = set_kmm_module_loader m dev_config in
      elim e [
        | some failed ↦ (loaded, some (wrapf U "failed to set KMM Module: " failed))
        | none ↦
            let plugged = set_kmm_device_plugin loaded dev_config in
            let (meta, r) = U.set_controller_reference dev_config plugged.meta scheme in
            (record plugged { meta = meta }, r)
      ]

  -- NewKMMModule. The client is stored and never used.
  unfoldable pub new_kmm_module : U.Scheme → KmmModuleApi
  unfolding set_kmm_module_as_desired
  new_kmm_module scheme = record { set_kmm_module_as_desired = set_kmm_module_as_desired scheme }
