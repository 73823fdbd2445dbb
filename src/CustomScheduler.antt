-- ===== src/CustomScheduler.antt =====
-- internal/customscheduler/customscheduler.go: the Deployments of the scheduler for Neuron
-- devices and of its extension.
pub mod Laws
use operator_for_ai_chips_on.Common.{ℕ, String, Bool, false, Option, none, some, List, [], ◌∷◌}
use operator_for_ai_chips_on.Common.Dict.{Dict}
use operator_for_ai_chips_on.K8s.{
  Volume, VolumeMount, Deployment, Quantity, must_parse, zero_container, zero_pod_spec,
}
use operator_for_ai_chips_on.Api.{DeviceConfig}
use operator_for_ai_chips_on.Kube.{Util}

-- CustomScheduler
pub record CustomSchedulerApi : Type 0 where
  pub set_custom_scheduler_as_desired : Deployment → DeviceConfig → Deployment
  pub set_custom_scheduler_extension_as_desired : Deployment → DeviceConfig → Deployment

abbrev pub scheduler_labels : Dict String
scheduler_labels =
    ("app.kubernetes.io/name", "aws-neuron")
    ∷ ("app.kubernetes.io/component", "aws-neuron")
    ∷ ("app.kubernetes.io/part-of", "aws-neuron")
    ∷ ("app.kubernetes.io/instance", "neuron-release")
    ∷ ("tier", "control-plane")
    ∷ []

unfoldable pub set_custom_scheduler_as_desired : Deployment → DeviceConfig → Deployment
set_custom_scheduler_as_desired dp dev_config =
    let container_volume_mounts : List VolumeMount =
      record { name = "config-volume"; mount_path = "/etc/kubernetes/neuron-scheduler" } ∷ [] in
    let volumes : List Volume =
      record {
        name = "config-volume";
        volume_source = record {
          host_path = none;
          config_map = some (record { name = "awslabs-gpu-operator-neuron-scheduler-config" });
        };
      }
      ∷ [] in
    record dp {
      spec = record {
        selector = some (record { match_labels = scheduler_labels });
        replicas = some 1;
        strategy_type = "";
        template = record {
          labels = scheduler_labels;
          spec = record zero_pod_spec {
            service_account_name = "awslabs-gpu-operator-neuron-scheduler";
            containers =
                record zero_container {
                  name = "kube-second-scheduler";
                  image = dev_config.spec.custom_scheduler_image;
                  args =
                      "--config=/etc/kubernetes/neuron-scheduler/neuron_scheduler_config.yaml"
                      ∷ "--leader-elect=true" ∷ "--v=2" ∷ [];
                  command = "/usr/local/bin/kube-scheduler" ∷ [];
                  image_pull_policy = "IfNotPresent";
                  liveness_probe = some (record {
                    initial_delay_seconds = 15;
                    http_get = some (record { path = "/healthz"; port = 10259; scheme = "HTTPS" });
                  });
                  readiness_probe = some (record {
                    initial_delay_seconds = 0;
                    http_get = some (record { path = "/healthz"; port = 10259; scheme = "HTTPS" });
                  });
                  requests = ("cpu", must_parse "0.1") ∷ [];
                  security_context = some (record { privileged = some false; run_as_user = none });
                  volume_mounts = container_volume_mounts;
                }
                ∷ [];
            volumes = volumes;
          };
        };
      };
    }

abbrev pub extension_labels : Dict String
extension_labels =
    ("app.kubernetes.io/name", "aws-neuron")
    ∷ ("app.kubernetes.io/instance", "neuron-scheduler-extension")
    ∷ ("app.kubernetes.io/component", "aws-neuron")
    ∷ ("app.kubernetes.io/part-of", "aws-neuron")
    ∷ []

unfoldable pub set_custom_scheduler_extension_as_desired : Deployment → DeviceConfig → Deployment
set_custom_scheduler_extension_as_desired dp dev_config = record dp {
  spec = record {
    replicas = some 1;
    strategy_type = "Recreate";
    selector = some (record { match_labels = extension_labels });
    template = record {
      labels = extension_labels;
      spec = record zero_pod_spec {
        service_account_name = "awslabs-gpu-operator-neuron-scheduler";
        priority_class_name = "system-node-critical";
        scheduler_name = "neuron-scheduler";
        containers =
            record zero_container {
              name = "neuron-scheduler-extension";
              image = dev_config.spec.scheduler_extension_image;
              image_pull_policy = "IfNotPresent";
              env = record { name = "PORT"; value = "12345"; value_from = none } ∷ [];
            }
            ∷ [];
      };
    };
  };
}

-- NewCustomScheduler. The scheme is stored and never used.
unfoldable pub new_custom_scheduler : CustomSchedulerApi
unfolding set_custom_scheduler_as_desired set_custom_scheduler_extension_as_desired
new_custom_scheduler = record {
  set_custom_scheduler_as_desired = set_custom_scheduler_as_desired;
  set_custom_scheduler_extension_as_desired = set_custom_scheduler_extension_as_desired;
}
