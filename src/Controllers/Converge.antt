-- ===== src/Controllers/Converge.antt =====
-- internal/controllers/device_config_reconciler.go: Reconcile of a DeviceConfig that is not being deleted, when it
-- returns nil.
use mathlib.Core.Path.{subst}
use operator_for_ai_chips_on.Common.{
  ◌≡◌, refl, sym, ap, ◌∙◌, false, inl, inr, none, some, is_some, Bool-cases,
}
use operator_for_ai_chips_on.Api.{DeviceConfig}
use operator_for_ai_chips_on.Kube.{Util, Client, GoError}
use operator_for_ai_chips_on.Kube.Lawful.{HandlesFinalizers, IsQuiet, SameObject}
use operator_for_ai_chips_on.Controllers.Objects.{device_config_finalizer, Helper, module_name}
use operator_for_ai_chips_on.Controllers.Reconcile.{
  State, Step, reconcile, reconcile_live, handle_all, CtrlResult,
}
use operator_for_ai_chips_on.Controllers.Helper.{new_device_config_reconciler_helper, set_finalizer}
use operator_for_ai_chips_on.Controllers.Steps.{or_fail->>-nil, reconcile-live}
use operator_for_ai_chips_on.Controllers.Config.{handle_all-KeepsConfig}
use operator_for_ai_chips_on.Controllers.Guard.{
  has_finalizer, IsProtected, set_finalizer-IsProtected,
}
use operator_for_ai_chips_on.Controllers.Stored.{handle_all-KeepsStored}
use operator_for_ai_chips_on.Controllers.Applied.{AllHold, handle_all-AllHold}

module _ {U : Util} {C : Client U} (Q : IsQuiet C) (F : HandlesFinalizers U) (h : Helper U)
    (d : DeviceConfig) (w : C.World) where
  abbrev at : State C
  at = record { world = w; dev_config = d }

  -- The state `s` in which the API server holds the DeviceConfig `d` with the finalizer, and what
  -- the handlers make of the Module, of the two Deployments and of the DaemonSet, for the
  -- DeviceConfig that the method is left with, which is `d` but for finalizers, owners and status.
  pub record IsConverged (s : State C) : Type 0 where
    pub protected : IsProtected Q (module_name d) s.world
    pub objects : AllHold Q h s.dev_config s.world
    pub same_meta : SameObject s.dev_config.meta d.meta
    pub same_spec : s.dev_config.spec ≡ d.spec

  pub set_finalizer-config :
      Q.stored (module_name d) w ≡ some d
      → (set_finalizer C h at).0 ≡ none
      → SameObject (set_finalizer C h at).1.dev_config.meta d.meta
        × ((set_finalizer C h at).1.dev_config.spec ≡ d.spec)
  unfolding set_finalizer
  set_finalizer-config fresh nil =
      elim (Bool-cases (U.contains_finalizer d.meta device_config_finalizer)) [
        | inl c ↦ rw c (record { namespace = refl; name = refl; deletion_timestamp = refl }, refl)
        | inr c ↦ rw c (patched (rw c at nil))
      ]
    where
      d' : DeviceConfig
      d' = record d { meta = U.add_finalizer d.meta device_config_finalizer }

      patched :
          (C.patch d' d w).0 ≡ none
          → SameObject (C.patch d' d w).1.meta d.meta × ((C.patch d' d w).1.spec ≡ d.spec)
      patched good =
          let same = F.add-SameObject d.meta device_config_finalizer in
          let key : module_name d' ≡ module_name d = cc (same.namespace, same.name) in
          let (c, found, merged) = (Q.patch_succeeded d' d w good).merged in
          let stored : c ≡ d = cc (found, fresh, key) in
          subst
            (λ (x : DeviceConfig).
              SameObject (C.patch d' d w).1.meta x.meta × ((C.patch d' d w).1.spec ≡ x.spec))
            stored (merged.same same, merged.spec refl)

  reconcile_live-IsConverged :
      Q.stored (module_name d) w ≡ some d
      → (reconcile_live (new_device_config_reconciler_helper C h) at).0 ≡ none
      → IsConverged (reconcile_live (new_device_config_reconciler_helper C h) at).1
  unfolding reconcile_live new_device_config_reconciler_helper
  reconcile_live-IsConverged fresh nil =
      let fst : GoError U × State C → GoError U = λ r. r.0 in
      let m : Step C = set_finalizer C h in
      let rest : Step C = handle_all (new_device_config_reconciler_helper C h) in
      let k = or_fail->>-nil _ m rest at nil in
      let config = set_finalizer-config fresh k.0 in
      let kept = handle_all-KeepsConfig C h (m at).1 in
      subst (λ (r : GoError U × State C). IsConverged r.1) (sym k.1)
        (record {
          protected =
              ap (has_finalizer Q) (handle_all-KeepsStored Q h (m at).1 (module_name d))
              ∙ set_finalizer-IsProtected Q F h d w fresh k.0;
          objects =
              subst (λ c. AllHold Q h c (rest (m at).1).1.world) (sym kept)
                (handle_all-AllHold Q h (m at).1 (ap fst (sym k.1) ∙ nil));
          same_meta = subst (λ (c : DeviceConfig). SameObject c.meta d.meta) (sym kept) config.0;
          same_spec = ap (λ (c : DeviceConfig). c.spec) kept ∙ config.1;
        })

  abbrev pub result : CtrlResult × GoError U × State C
  result = reconcile (new_device_config_reconciler_helper C h) at

  -- If Reconcile is given the stored DeviceConfig, which is not being deleted, and returns nil, then
  -- the API server holds the DeviceConfig with the finalizer, and the Module, the two Deployments
  -- and the DaemonSet are stored as the closures of the handlers make them, without an error.
  pub reconcile-IsConverged :
      Q.stored (module_name d) w ≡ some d
      → is_some d.meta.deletion_timestamp ≡ false
      → result.1 ≡ none
      → IsConverged result.2
  reconcile-IsConverged fresh live nil =
      let same = reconcile-live (new_device_config_reconciler_helper C h) at live in
      subst (λ (r : CtrlResult × GoError U × State C). IsConverged r.2) (sym same)
        (reconcile_live-IsConverged fresh
          (ap (λ (r : CtrlResult × GoError U × State C). r.1) (sym same) ∙ nil))
