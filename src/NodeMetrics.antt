-- ===== src/NodeMetrics.antt =====
-- internal/nodemetrics/nodemetrics.go: the DaemonSet that reads the metrics of the nodes.
pub mod Laws
use operator_for_ai_chips_on.Common.{
  ℕ, String, Bool, true, Option, none, some, List, [], ◌∷◌, Error, errorf,
}
use operator_for_ai_chips_on.Common.Dict.{Dict}
use operator_for_ai_chips_on.K8s.{
  Volume, VolumeMount, ContainerPort, DaemonSet, zero_container, zero_pod_spec,
}
use operator_for_ai_chips_on.Api.{DeviceConfig}
use operator_for_ai_chips_on.Kube.{Util, GoError}

abbrev pub metrics_port_name : String
metrics_port_name = "node-metrics"

abbrev pub metrics_port : ℕ
metrics_port = 9110

abbrev pub metrics_service_account : String
metrics_service_account = "awslabs-gpu-operator-node-metrics"

abbrev pub metrics_image : String
metrics_image = ""

unfoldable pub get_volumes_and_mount : List Volume × List VolumeMount
get_volumes_and_mount = (
  record {
    name = "root-volume";
    volume_source = record {
      host_path = some (record { path = "/"; type = some "Directory" });
      config_map = none;
    };
  }
      ∷ record {
        name = "sys-volume";
        volume_source = record {
          host_path = some (record { path = "/sys"; type = some "Directory" });
          config_map = none;
        };
      }
      ∷ [],
  record { name = "root-volume"; mount_path = "/host/root" }
      ∷ record { name = "sys-volume"; mount_path = "/host/sys" }
      ∷ [],
)

unfoldable pub get_ports : List ContainerPort
get_ports =
    record {
      name = metrics_port_name;
      host_port = metrics_port;
      container_port = metrics_port;
      protocol = "TCP";
    }
    ∷ []

abbrev pub match_labels : Dict String
match_labels =
    ("app.kubernetes.io/component", "awslabs-gpu")
    ∷ ("app.kubernetes.io/name", "awslabs-gpu")
    ∷ ("app.kubernetes.io/part-of", "awslabs-gpu")
    ∷ ("app.kubernetes.io/role", "awslabs-gpu-metrics")
    ∷ []

module _ (U : Util) where
  -- NodeMetrics. The DaemonSet is behind a pointer, which may be nil.
  pub record NodeMetricsApi : Type 0 where
    pub set_node_metrics_as_desired : Option DaemonSet → DeviceConfig → Option DaemonSet × GoError U

  set_daemon_set : U.Scheme → DaemonSet → DeviceConfig → DaemonSet × GoError U
  unfolding get_volumes_and_mount get_ports
  set_daemon_set scheme ds dev_config =
      let (volumes, volumes_mounts) = get_volumes_and_mount in
      let node_selector : Dict String =
        (U.kernel_module_ready_node_label dev_config.meta.namespace dev_config.meta.name, "")
        ∷ [] in
      let (meta, r) = U.set_controller_reference dev_config ds.meta scheme in
      (
        record {
          meta = meta;
          spec = record {
            selector = some (record { match_labels = match_labels });
            template = record {
              labels = match_labels;
              spec = record zero_pod_spec {
                containers =
                    record zero_container {
                      name = "node-metrics-container";
                      image = metrics_image;
                      image_pull_policy = "Always";
                      security_context =
                          some (record { privileged = some true; run_as_user = some 0 });
                      volume_mounts = volumes_mounts;
                      ports = get_ports;
                    }
                    ∷ [];
                node_selector = node_selector;
                service_account_name = metrics_service_account;
                volumes = volumes;
              };
            };
          };
        },
        r,
      )

  -- nodeMetrics.SetNodeMetricsAsDesired
  unfoldable pub set_node_metrics_as_desired :
      U.Scheme → Option DaemonSet → DeviceConfig → Option DaemonSet × GoError U
  unfolding set_daemon_set
  set_node_metrics_as_desired scheme none dev_config =
      (none, some (errorf "daemon set is not initialized, zero pointer"))
  set_node_metrics_as_desired scheme (some ds) dev_config =
      let (ds', r) = set_daemon_set scheme ds dev_config in (some ds', r)

  -- NewNodeMetrcis
  unfoldable pub new_node_metrics : U.Scheme → NodeMetricsApi
  unfolding set_node_metrics_as_desired
  new_node_metrics scheme = record {
    set_node_metrics_as_desired = set_node_metrics_as_desired scheme;
  }
