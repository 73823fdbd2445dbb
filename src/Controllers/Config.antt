-- ===== src/Controllers/Config.antt =====
-- internal/controllers/device_config_reconciler.go: the DeviceConfig behind the pointer of a method.
use operator_for_ai_chips_on.Common.{String, ◌≡◌, refl, ◌∙◌}
use operator_for_ai_chips_on.Kube.{Util, Client}
use operator_for_ai_chips_on.Controllers.Objects.{Helper}
use operator_for_ai_chips_on.Controllers.Reconcile.{State, Step, handle_all, ◌>>◌, or_fail}
use operator_for_ai_chips_on.Controllers.Steps.{or_fail-state, >>-post}
use operator_for_ai_chips_on.Controllers.Helper.{
  new_device_config_reconciler_helper, handle_kmm_module, handle_custom_scheduler,
  handle_node_metrics, apply_scheduler, apply_extension,
}

-- The DeviceConfig is the same after the method, failing or not.
abbrev pub KeepsConfig : {U : Util} {C : Client U} → Step C → Type 0
KeepsConfig {C} m = (s : State C) → (m s).1.dev_config ≡ s.dev_config

module _ {U : Util} {C : Client U} (m : Step C) where
  pub or_fail-KeepsConfig : (prefix : String) → KeepsConfig m → KeepsConfig (or_fail prefix m)
  or_fail-KeepsConfig prefix k s = rw (or_fail-state prefix m s) (k s)

  >>-KeepsConfig : (n : Step C) → KeepsConfig m → KeepsConfig n → KeepsConfig (m >> n)
  >>-KeepsConfig n k l s = >>-post (λ t. t.dev_config ≡ s.dev_config) m n s (k s) (l (m s).1 ∙ k s)

module _ {U : Util} (C : Client U) (h : Helper U) where
  pub apply_scheduler-KeepsConfig : KeepsConfig (apply_scheduler C h)
  unfolding apply_scheduler
  apply_scheduler-KeepsConfig s = refl

  apply_extension-KeepsConfig : KeepsConfig (apply_extension C h)
  unfolding apply_extension
  apply_extension-KeepsConfig s = refl

  pub handle_kmm_module-KeepsConfig : KeepsConfig (handle_kmm_module C h)
  unfolding handle_kmm_module
  handle_kmm_module-KeepsConfig s = refl

  handle_node_metrics-KeepsConfig : KeepsConfig (handle_node_metrics C h)
  unfolding handle_node_metrics
  handle_node_metrics-KeepsConfig s = refl

  pub handle_custom_scheduler-KeepsConfig : KeepsConfig (handle_custom_scheduler C h)
  unfolding handle_custom_scheduler
  handle_custom_scheduler-KeepsConfig =
      >>-KeepsConfig _ _ (or_fail-KeepsConfig _ _ apply_scheduler-KeepsConfig)
        apply_extension-KeepsConfig

  pub handle_all-KeepsConfig : KeepsConfig (handle_all (new_device_config_reconciler_helper C h))
  unfolding handle_all new_device_config_reconciler_helper
  handle_all-KeepsConfig =
      >>-KeepsConfig _ _ (or_fail-KeepsConfig _ _ handle_kmm_module-KeepsConfig) (
        >>-KeepsConfig _ _ (or_fail-KeepsConfig _ _ handle_custom_scheduler-KeepsConfig)
          (or_fail-KeepsConfig _ _ handle_node_metrics-KeepsConfig))
