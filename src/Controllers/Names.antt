-- ===== src/Controllers/Names.antt =====
-- internal/controllers/device_config_reconciler.go: the names of the objects of different DeviceConfigs.
use Prim.Native.String.{count}
use text.Mathlib.TextLemmas.{append_cancel_right, append_assoc, append_inj, length-append}
use operator_for_ai_chips_on.Common.{String, ◌<>◌, ◌≡◌, ◌≢◌, ◌↔◌, refl, sym, ap, ◌∙◌, eq_iff, arith}
use operator_for_ai_chips_on.K8s.{NamespacedName}
use operator_for_ai_chips_on.Api.{DeviceConfig}
use operator_for_ai_chips_on.Controllers.Objects.{
  module_name, metrics_name, scheduler_name, extension_name,
}

-- Texts that end in different texts of one length differ.
ends_apart : (s t u v : String) → count u ≡ count v → u ≢ v → s <> u ≢ t <> v
ends_apart s t u v same differ p =
    differ (append_inj p (omega (arith, length-append s u, length-append t v, ap count p, same))).1

pub scheduler-ne-extension : (a b : DeviceConfig) → scheduler_name a ≢ extension_name b
scheduler-ne-extension a b p =
    ends_apart a.meta.name (b.meta.name <> "-custom-sc") "-custom-scheduler" "heduler-extension"
      refl (ground (arith, eq_iff "-custom-scheduler" "heduler-extension"))
      (ap (λ (n : NamespacedName). n.name) p
        ∙ sym (append_assoc b.meta.name "-custom-sc" "heduler-extension"))

same_module :
    (a b : DeviceConfig) (suffix : String) {m n : NamespacedName}
    → m ≡ record { namespace = a.meta.namespace; name = a.meta.name <> suffix }
    → n ≡ record { namespace = b.meta.namespace; name = b.meta.name <> suffix }
    → (m ≡ n) ↔ (module_name a ≡ module_name b)
same_module a b suffix p q = (
  λ e. cc (e, p, q, append_cancel_right a.meta.name b.meta.name suffix (cc (e, p, q))),
  λ e. cc (e, p, q),
)

-- Two DeviceConfigs share the name of their scheduler Deployments, of their extension Deployments
-- or of their DaemonSets exactly if they have one name and one namespace, and no scheduler
-- Deployment has the name of an extension Deployment.
pub names_apart :
    (a b : DeviceConfig)
    → ((scheduler_name a ≡ scheduler_name b) ↔ (module_name a ≡ module_name b))
      × ((extension_name a ≡ extension_name b) ↔ (module_name a ≡ module_name b))
      × ((metrics_name a ≡ metrics_name b) ↔ (module_name a ≡ module_name b))
      × (scheduler_name a ≢ extension_name b)
names_apart a b = (
  same_module a b "-custom-scheduler" refl refl,
  same_module a b "-custom-scheduler-extension" refl refl,
  same_module a b "-node-metrics" refl refl,
  scheduler-ne-extension a b,
)
