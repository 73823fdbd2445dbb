-- ===== src/Controllers/Stored.antt =====
-- internal/controllers/device_config_reconciler.go: the stored DeviceConfigs under a method.

use operator_for_ai_chips_on.Common.{String, ◌≡◌, ◌∙◌}
use operator_for_ai_chips_on.K8s.{NamespacedName}
use operator_for_ai_chips_on.Kube.{Util, Client}
use operator_for_ai_chips_on.Kube.Lawful.{IsQuiet}
use operator_for_ai_chips_on.Controllers.Objects.{Helper}
use operator_for_ai_chips_on.Controllers.Reconcile.{State, Step, handle_all, ◌>>◌, or_fail}
use operator_for_ai_chips_on.Controllers.Helper.{
  new_device_config_reconciler_helper, handle_kmm_module, handle_custom_scheduler,
  handle_node_metrics, apply_scheduler, apply_extension,
}
use operator_for_ai_chips_on.Controllers.Steps.{or_fail-state, >>-post}

module _ {U : Util} {C : Client U} (Q : IsQuiet C) where
  -- The stored DeviceConfigs are the same after the method.
  abbrev pub KeepsStored : Step C → Type 0
  KeepsStored m = (s : State C) (n : NamespacedName) → Q.stored n (m s).1.world ≡ Q.stored n s.world

  or_fail-KeepsStored :
      (prefix : String) (m : Step C) → KeepsStored m → KeepsStored (or_fail prefix m)
  or_fail-KeepsStored prefix m k s n = rw (or_fail-state prefix m s) (k s n)

  >>-KeepsStored : (m n : Step C) → KeepsStored m → KeepsStored n → KeepsStored (m >> n)
  >>-KeepsStored m n k l s x =
      >>-post (λ t. Q.stored x t.world ≡ Q.stored x s.world) m n s (k s x) (l (m s).1 x ∙ k s x)

  module _ (h : Helper U) where
    handle_custom_scheduler-KeepsStored : KeepsStored (handle_custom_scheduler C h)
    unfolding handle_custom_scheduler apply_scheduler apply_extension
    handle_custom_scheduler-KeepsStored =
        >>-KeepsStored _ _ (or_fail-KeepsStored _ _ (λ s n. Q.apply_stored _ _ _ _ n))
          (λ s n. Q.apply_stored _ _ _ _ n)

    pub handle_all-KeepsStored : KeepsStored (handle_all (new_device_config_reconciler_helper C h))
    unfolding handle_all new_device_config_reconciler_helper handle_kmm_module handle_node_metrics
    handle_all-KeepsStored =
        >>-KeepsStored _ _ (or_fail-KeepsStored _ _ (λ s n. Q.apply_stored _ _ _ _ n)) (
          >>-KeepsStored _ _ (or_fail-KeepsStored _ _ handle_custom_scheduler-KeepsStored)
            (or_fail-KeepsStored _ _ (λ s n. Q.apply_stored _ _ _ _ n)))
