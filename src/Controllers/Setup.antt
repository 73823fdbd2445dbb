-- ===== src/Controllers/Setup.antt =====
-- internal/controllers/device_config_reconciler.go: the reconciler and its registration with the
-- manager.
use operator_for_ai_chips_on.Common.{String, List, [], ◌∷◌}
use operator_for_ai_chips_on.Kube.{
  Kind, module_kind, daemon_set_kind, deployment_kind, Util, Client, GoError,
}
use operator_for_ai_chips_on.KmmModule.{KmmModuleApi}
use operator_for_ai_chips_on.CustomScheduler.{CustomSchedulerApi}
use operator_for_ai_chips_on.NodeMetrics.{NodeMetricsApi}
use operator_for_ai_chips_on.Controllers.Reconcile.{HelperApi}
use operator_for_ai_chips_on.Controllers.Helper.{new_device_config_reconciler_helper}

abbrev pub device_config_reconciler_name : String
device_config_reconciler_name = "DriverAndPluginReconciler"

-- What the controller builder is told: For(&DeviceConfig{}), Owns(…) and Named(…).
pub record Registration : Type 0 where
  pub for_kind : String
  pub owns : List Kind
  pub controller_name : String

abbrev pub registration : Registration
registration = record {
  for_kind = "DeviceConfig";
  owns = module_kind ∷ daemon_set_kind ∷ deployment_kind ∷ [];
  controller_name = device_config_reconciler_name;
}

module _ {U : Util} (C : Client U) where
  pub record DeviceConfigReconciler : Type 1 where
    pub helper : HelperApi C

  unfoldable pub new_device_config_reconciler :
      KmmModuleApi U → CustomSchedulerApi → NodeMetricsApi U → U.Scheme → DeviceConfigReconciler
  unfolding new_device_config_reconciler_helper
  new_device_config_reconciler kmm_handler cs_handler nm_handler scheme = record {
    helper = new_device_config_reconciler_helper C (record {
      kmm_handler = kmm_handler;
      cs_handler = cs_handler;
      nm_handler = nm_handler;
      scheme = scheme;
    });
  }

  -- SetupWithManager. `complete` is Complete of the controller builder, on what the builder was
  -- told and the reconciler.
  unfoldable pub setup_with_manager :
      DeviceConfigReconciler
      → (complete : Registration → DeviceConfigReconciler → GoError U) → GoError U
  setup_with_manager r complete = complete registration r
