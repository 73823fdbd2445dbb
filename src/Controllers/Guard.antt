-- ===== src/Controllers/Guard.antt =====
-- internal/controllers/device_config_reconciler.go: setFinalizer, finalizeDeviceConfig and Reconcile, and the
-- finalizer that guards the objects of a DeviceConfig.
use mathlib.Core.Path.{subst}
use operator_for_ai_chips_on.Common.{
  String, ◌≡◌, ◌≢◌, refl, sym, ap, ◌∙◌, true, false, ◌⊎◌, inl, inr, false, Bool, Option, none, some,
  arith, Bool-cases, Result, is_some, ok, err,
}
use operator_for_ai_chips_on.K8s.{NamespacedName, Module, DaemonSet}
use operator_for_ai_chips_on.Api.{DeviceConfig}
use operator_for_ai_chips_on.Kube.{module_kind, daemon_set_kind, Util, Client, GoError}
use operator_for_ai_chips_on.Kube.Lawful.{HandlesFinalizers, IsQuiet, IsPatched}
use operator_for_ai_chips_on.Controllers.Objects.{
  device_config_finalizer, module_name, metrics_name, Helper,
}
use operator_for_ai_chips_on.Controllers.Reconcile.{
  State, Step, CtrlResult, reconcile, reconcile_live, handle_all, or_fail,
}
use operator_for_ai_chips_on.Controllers.Helper.{
  set_finalizer, finalize_device_config, finalize_module, new_device_config_reconciler_helper,
}
use operator_for_ai_chips_on.Controllers.Stored.{handle_all-KeepsStored}
use operator_for_ai_chips_on.Controllers.Steps.{
  >>-of_error, >>-of_nil, or_fail-of_error, or_fail-of_nil, error_cases, or_fail-state,
  reconcile-live, reconcile-deleted,
}

module _ {U : Util} {C : Client U} (Q : IsQuiet C) where
  -- The API server holds the DeviceConfig, with the finalizer.
  abbrev pub has_finalizer : Option DeviceConfig → Bool
  has_finalizer none = false
  has_finalizer (some c) = U.contains_finalizer c.meta device_config_finalizer

  abbrev pub IsProtected : NamespacedName → C.World → Type 0
  IsProtected n w = has_finalizer (Q.stored n w) ≡ true

  abbrev pub IsGuarded : DeviceConfig → C.World → Type 0
  IsGuarded d w =
      IsProtected (module_name d) w
      ⊎ ((Q.find daemon_set_kind (metrics_name d) w ≡ none)
          × (Q.find module_kind (module_name d) w ≡ none))

  -- The DeviceConfig that a method is given is the one that the API server holds.
  abbrev pub IsFresh : State C → Type 0
  IsFresh s = Q.stored (module_name s.dev_config) s.world ≡ some s.dev_config

module _ {U : Util} {C : Client U} (Q : IsQuiet C) (F : HandlesFinalizers U) (h : Helper U)
    (d : DeviceConfig) (w : C.World) where
  -- The DeviceConfig that setFinalizer sends.
  abbrev with_finalizer : DeviceConfig
  with_finalizer = record d { meta = U.add_finalizer d.meta device_config_finalizer }

  abbrev without_finalizer : DeviceConfig
  without_finalizer = record d { meta = U.remove_finalizer d.meta device_config_finalizer }

  abbrev at : State C
  at = record { world = w; dev_config = d }

  -- A patch that adds the finalizer and takes effect leaves it on what is stored.
  added-has_finalizer :
      (e : DeviceConfig) (before after : Option DeviceConfig)
      → U.contains_finalizer d.meta device_config_finalizer ≡ false
      → IsPatched with_finalizer d before after e
      → (after ≡ some e)
        × (e.meta.finalizers ≡ with_finalizer.meta.finalizers)
        × (U.contains_finalizer e.meta device_config_finalizer ≡ true)
  added-has_finalizer e before after missing p =
      let there = F.contains-add d.meta device_config_finalizer in
      let sent : e.meta.finalizers ≡ with_finalizer.meta.finalizers = elim p.merged.2.finalizers [
        | inl (_, q) ↦ q
        | inr (q, _) ↦ ground (
          arith,
          there,
          F.contains_of_finalizers with_finalizer.meta d.meta device_config_finalizer q,
        )
      ] in
      let has : U.contains_finalizer e.meta device_config_finalizer ≡ true =
        F.contains_of_finalizers e.meta with_finalizer.meta device_config_finalizer sent ∙ there in
      elim p.left [
        | inl q ↦ (q, sent, has)
        | inr (_, q, _) ↦ ground (arith, has, F.contains-nil e.meta device_config_finalizer q)
      ]

  -- So what a patch that returns nil answers is stored, and has the finalizer.
  pub patch-added :
      U.contains_finalizer d.meta device_config_finalizer ≡ false
      → (C.patch with_finalizer d w).0 ≡ none
      → let (_, answer, w') = C.patch with_finalizer d w in
        (Q.stored (module_name d) w' ≡ some answer)
        × (answer.meta.finalizers ≡ with_finalizer.meta.finalizers)
        × (U.contains_finalizer answer.meta device_config_finalizer ≡ true)
  patch-added missing nil =
      let same = F.add-SameObject d.meta device_config_finalizer in
      let key : module_name with_finalizer ≡ module_name d = cc (same.namespace, same.name) in
      let k =
        added-has_finalizer (C.patch with_finalizer d w).1 _ _ missing
          (Q.patch_succeeded with_finalizer d w nil) in
      (ap (λ n. Q.stored n (C.patch with_finalizer d w).2) (sym key) ∙ k.0, k.1, k.2)

  pub patch-IsProtected :
      U.contains_finalizer d.meta device_config_finalizer ≡ false
      → (C.patch with_finalizer d w).0 ≡ none
      → IsProtected Q (module_name d) (C.patch with_finalizer d w).2
  patch-IsProtected missing nil = ground (arith, patch-added missing nil)

  -- A failed patch may have taken effect.
  pub patch_failed-IsProtected :
      (n : NamespacedName)
      → U.contains_finalizer d.meta device_config_finalizer ≡ false
      → (C.patch with_finalizer d w).0 ≢ none
      → (Q.stored n (C.patch with_finalizer d w).2 ≡ Q.stored n w)
        ⊎ IsProtected Q n (C.patch with_finalizer d w).2
  patch_failed-IsProtected n missing failed = elim (Q.patch_failed with_finalizer d w n failed) [
    | inl same ↦ inl same
    | inr (e, p) ↦
        let k = added-has_finalizer e _ _ missing p in inr (ap (has_finalizer Q) k.0 ∙ k.2)
  ]

  pub set_finalizer-IsProtected :
      Q.stored (module_name d) w ≡ some d
      → (set_finalizer C h at).0 ≡ none
      → IsProtected Q (module_name d) (set_finalizer C h at).1.world
  unfolding set_finalizer
  set_finalizer-IsProtected fresh nil = ground (arith, patch-IsProtected)

  set_finalizer-IsGuarded :
      Q.stored (module_name d) w ≡ some d
      → IsGuarded Q d w
      → IsGuarded Q d (set_finalizer C h at).1.world
  unfolding set_finalizer
  set_finalizer-IsGuarded fresh g = ground (
    arith,
    patch-IsProtected,
    patch_failed-IsProtected (module_name d),
    Q.patch_find with_finalizer d w daemon_set_kind (metrics_name d),
    Q.patch_find with_finalizer d w module_kind (module_name d),
  )

  finalize_module-IsGuarded :
      Q.find daemon_set_kind (metrics_name d) w ≡ none
      → IsGuarded Q d w
      → IsGuarded Q d (finalize_module C h at).1.world
  unfolding finalize_module
  finalize_module-IsGuarded no_ds g = split (C.get module_kind (module_name d) w).0 refl
    where
      same : (C.get module_kind (module_name d) w).1 ≡ w
      same = Q.get_world module_kind (module_name d) w

      split :
          (r : Result U.Failure Module)
          → (C.get module_kind (module_name d) w).0 ≡ r
          → IsGuarded Q d (finalize_module C h at).1.world
      split (ok m) p = ground (
        arith,
        same,
        Q.delete_stored module_kind m w (module_name d),
        Q.delete_find module_kind m w daemon_set_kind (metrics_name d),
        Q.delete_find module_kind m w module_kind (module_name d),
      )
      split (err e) p = ground (
        arith,
        same,
        Q.get_absent module_kind (module_name d) w e p,
        Q.patch_find without_finalizer d w daemon_set_kind (metrics_name d),
        Q.patch_find without_finalizer d w module_kind (module_name d),
      )

  finalize_device_config-IsGuarded :
      IsGuarded Q d w → IsGuarded Q d (finalize_device_config C h at).1.world
  unfolding finalize_device_config
  finalize_device_config-IsGuarded g = split (C.get daemon_set_kind (metrics_name d) w).0 refl
    where
      same : (C.get daemon_set_kind (metrics_name d) w).1 ≡ w
      same = Q.get_world daemon_set_kind (metrics_name d) w

      split :
          (r : Result U.Failure DaemonSet)
          → (C.get daemon_set_kind (metrics_name d) w).0 ≡ r
          → IsGuarded Q d (finalize_device_config C h at).1.world
      split (ok m) p = ground (
        arith,
        same,
        Q.delete_stored daemon_set_kind m w (module_name d),
        Q.delete_find daemon_set_kind m w daemon_set_kind (metrics_name d),
        Q.delete_find daemon_set_kind m w module_kind (module_name d),
      )
      split (err e) p = ground (
        arith,
        same,
        Q.get_absent daemon_set_kind (metrics_name d) w e p,
        finalize_module-IsGuarded,
      )

  abbrev after_reconcile : C.World
  after_reconcile = (reconcile (new_device_config_reconciler_helper C h) at).2.world

  reconcile_live-IsGuarded :
      Q.stored (module_name d) w ≡ some d
      → IsGuarded Q d w
      → IsGuarded Q d (reconcile_live (new_device_config_reconciler_helper C h) at).1.world
  unfolding reconcile_live new_device_config_reconciler_helper
  reconcile_live-IsGuarded fresh g =
      let prefix : String = "failed to set finalizer for DeviceConfig: " in
      let m : Step C = set_finalizer C h in
      let rest : Step C = handle_all (new_device_config_reconciler_helper C h) in
      elim (error_cases m at) [
        | inl (e, p) ↦
            subst (λ (r : GoError U × State C). IsGuarded Q d r.1.world)
              (sym (
                >>-of_error (or_fail prefix m) at rest _
                  (ap (λ (r : GoError U × State C). r.0) (or_fail-of_error m at prefix e p))))
              (rw or_fail-state (set_finalizer-IsGuarded fresh g))
        | inr p ↦
            subst (λ (r : GoError U × State C). IsGuarded Q d r.1.world)
              (sym (
                >>-of_nil (or_fail prefix m) at rest
                  (ap (λ (r : GoError U × State C). r.0) (or_fail-of_nil m at prefix p))))
              (inl (
                ap (has_finalizer Q) (handle_all-KeepsStored Q h _ _ ∙ rw or_fail-state refl)
                ∙ set_finalizer-IsProtected fresh p))
      ]

  -- If the DeviceConfig that Reconcile is given is the one that the API server holds, and either
  -- the stored DeviceConfig has the finalizer or its DaemonSet and its Module are absent, then one
  -- of the two holds after Reconcile too, whichever call fails.
  pub reconcile-IsGuarded :
      Q.stored (module_name d) w ≡ some d → IsGuarded Q d w → IsGuarded Q d after_reconcile
  unfolding new_device_config_reconciler_helper
  reconcile-IsGuarded fresh g = elim (Bool-cases (is_some d.meta.deletion_timestamp)) [
    | inl deleting ↦
        subst (λ (r : CtrlResult × GoError U × State C). IsGuarded Q d r.2.world)
          (sym (reconcile-deleted (new_device_config_reconciler_helper C h) at deleting))
          (rw or_fail-state (finalize_device_config-IsGuarded g))
    | inr live ↦
        subst (λ (r : CtrlResult × GoError U × State C). IsGuarded Q d r.2.world)
          (sym (reconcile-live (new_device_config_reconciler_helper C h) at live))
          (reconcile_live-IsGuarded fresh g)
  ]
