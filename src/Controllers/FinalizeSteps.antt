-- ===== src/Controllers/FinalizeSteps.antt =====
-- internal/controllers/device_config_reconciler.go: the last step of finalizeDeviceConfig, which takes the
-- finalizer off.
use mathlib.Core.Path.{subst}
use operator_for_ai_chips_on.Common.{
  ◌≡◌, sym, ap, ◌∙◌, false, ◌⊎◌, inl, inr, none, some, Option, arith,
}
use operator_for_ai_chips_on.K8s.{ObjectMeta}
use operator_for_ai_chips_on.Api.{DeviceConfig}
use operator_for_ai_chips_on.Kube.{Util, Client}
use operator_for_ai_chips_on.Kube.Lawful.{HandlesFinalizers, IsQuiet, IsPatched, SameObject}
use operator_for_ai_chips_on.Controllers.Objects.{
  device_config_finalizer, Helper, module_name, metrics_name,
}
use operator_for_ai_chips_on.Controllers.Reconcile.{State}
use operator_for_ai_chips_on.Controllers.Guard.{has_finalizer}

pub SameObject-trans : {l m n : ObjectMeta} → SameObject l m → SameObject m n → SameObject l n
SameObject-trans p q = record {
  namespace = p.namespace ∙ q.namespace;
  name = p.name ∙ q.name;
  deletion_timestamp = p.deletion_timestamp ∙ q.deletion_timestamp;
}

pub module_name-same :
    (d e : DeviceConfig) → SameObject d.meta e.meta → module_name d ≡ module_name e
module_name-same d e p = cc (p.namespace, p.name)

pub metrics_name-same :
    (d e : DeviceConfig) → SameObject d.meta e.meta → metrics_name d ≡ metrics_name e
metrics_name-same d e p = cc (p.namespace, p.name)

module _ {U : Util} {C : Client U} (Q : IsQuiet C) where
  abbrev pub at : DeviceConfig → C.World → State C
  at d w = record { world = w; dev_config = d }

module _ {U : Util} {C : Client U} (Q : IsQuiet C) (F : HandlesFinalizers U) (h : Helper U) where
  abbrev pub without_finalizer : DeviceConfig → DeviceConfig
  without_finalizer d = record d { meta = U.remove_finalizer d.meta device_config_finalizer }

  -- What a patch that takes the finalizer off the stored DeviceConfig leaves.
  pub patched-config :
      (d e : DeviceConfig) (before after : Option DeviceConfig)
      → before ≡ some d
      → IsPatched (without_finalizer d) d before after e
      → ((after ≡ none) ⊎ ((c : DeviceConfig) × (after ≡ some c) × SameObject c.meta d.meta))
        × (has_finalizer Q after ≡ false)
  patched-config d e before after fresh p =
      let d' = without_finalizer d in
      let (c, found, merged) = p.merged in
      let stored : c ≡ d = ground (arith, found, fresh) in
      let same : SameObject e.meta d.meta =
        subst (λ (x : DeviceConfig). SameObject e.meta x.meta) stored
          (merged.same (F.remove-SameObject d.meta device_config_finalizer)) in
      let sent : e.meta.finalizers ≡ d'.meta.finalizers = elim merged.finalizers [
        | inl (_, q) ↦ q
        | inr (q, r) ↦ r ∙ (ap (λ (x : DeviceConfig). x.meta.finalizers) stored ∙ sym q)
      ] in
      let removed : U.contains_finalizer e.meta device_config_finalizer ≡ false =
        F.contains_of_finalizers e.meta d'.meta device_config_finalizer sent
        ∙ F.contains-remove d.meta device_config_finalizer in
      elim p.left [
        | inl q ↦ (inr (e, q, same), ap (has_finalizer Q) q ∙ removed)
        | inr (q, _, _) ↦ (inl q, ap (has_finalizer Q) q)
      ]
