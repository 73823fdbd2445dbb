-- ===== src/Controllers/Shared/Keeps.antt =====
-- internal/controllers/device_config_reconciler.go: what Reconcile keeps, over a client that others share.
use mathlib.Core.Path.{subst}
use operator_for_ai_chips_on.Common.{
  String, ◌≡◌, refl, sym, ap, true, inl, inr, Result, ok, err, arith, Bool-cases, is_some,
  if◌then◌else◌,
}
use operator_for_ai_chips_on.K8s.{Module, DaemonSet}
use operator_for_ai_chips_on.Api.{DeviceConfig}
use operator_for_ai_chips_on.Kube.{module_kind, daemon_set_kind, Util, Client, GoError}
use operator_for_ai_chips_on.Controllers.Objects.{
  device_config_finalizer, module_name, metrics_name, Helper,
}
use operator_for_ai_chips_on.Controllers.Reconcile.{
  State, Step, CtrlResult, reconcile, reconcile_live, handle_all, or_fail,
}
use operator_for_ai_chips_on.Controllers.Helper.{
  set_finalizer, finalize_device_config, finalize_module, new_device_config_reconciler_helper,
}
use operator_for_ai_chips_on.Controllers.Steps.{
  >>-of_error, >>-of_nil, or_fail-of_error, or_fail-of_nil, error_cases, or_fail-state,
  reconcile-live, reconcile-deleted,
}
use operator_for_ai_chips_on.Controllers.Shared.{Guards}
use operator_for_ai_chips_on.Controllers.Shared.Protects.{
  IsKept, at, handle_all-Protects, set_finalizer-Protected, set_finalizer-IsKept,
}

module _ {U : Util} {C : Client U} {d : DeviceConfig} (G : Guards C d) (h : Helper U) where
  module _ (w : C.World) where
    get_module-IsKept : IsKept G h w → IsKept G h (C.get module_kind (module_name d) w).1
    get_module-IsKept k = elim k [
      | inl p ↦ inl (G.get_protected _ _ w p)
      | inr (a, b) ↦ inr (G.get_no_daemon_set _ _ w a, G.get_no_module _ _ w b)
    ]

    get_daemon_set-IsKept : IsKept G h w → IsKept G h (C.get daemon_set_kind (metrics_name d) w).1
    get_daemon_set-IsKept k = elim k [
      | inl p ↦ inl (G.get_protected _ _ w p)
      | inr (a, b) ↦ inr (G.get_no_daemon_set _ _ w a, G.get_no_module _ _ w b)
    ]

    delete_module-IsKept : (o : Module) → IsKept G h w → IsKept G h (C.delete module_kind o w).1
    delete_module-IsKept o k = elim k [
      | inl p ↦ inl (G.delete_protected _ o w p)
      | inr (a, b) ↦ inr (G.delete_no_daemon_set _ o w a, G.delete_no_module _ o w b)
    ]

    delete_daemon_set-IsKept :
        (o : DaemonSet) → IsKept G h w → IsKept G h (C.delete daemon_set_kind o w).1
    delete_daemon_set-IsKept o k = elim k [
      | inl p ↦ inl (G.delete_protected _ o w p)
      | inr (a, b) ↦ inr (G.delete_no_daemon_set _ o w a, G.delete_no_module _ o w b)
    ]

  -- The branches of finalizeDeviceConfig. Whatever a read that is not answered by an object does, the
  -- rest runs on the world that it left.
  module _ (w : C.World) where
    abbrev after_module : C.World
    after_module = (C.get module_kind (module_name d) w).1

    abbrev after_daemon_set : C.World
    after_daemon_set = (C.get daemon_set_kind (metrics_name d) w).1

    abbrev without_finalizer : DeviceConfig
    without_finalizer = record d { meta = U.remove_finalizer d.meta device_config_finalizer }

    finalize_module-world :
        (r : Result U.Failure Module)
        → (C.get module_kind (module_name d) w).0 ≡ r
        → (finalize_module C h (at G h w)).1.world ≡ elim r [
          | ok o ↦ (C.delete module_kind o after_module).1
          | err e ↦
              if U.is_not_found e
              then (C.patch without_finalizer d after_module).2
              else after_module
        ]
    unfolding finalize_module
    finalize_module-world (ok o) p = ground (arith, p)
    finalize_module-world (err e) p = ground (arith, p)

    finalize_device_config-world :
        (r : Result U.Failure DaemonSet)
        → (C.get daemon_set_kind (metrics_name d) w).0 ≡ r
        → (finalize_device_config C h (at G h w)).1.world ≡ elim r [
          | ok o ↦ (C.delete daemon_set_kind o after_daemon_set).1
          | err e ↦
              if U.is_not_found e
              then (finalize_module C h (at G h after_daemon_set)).1.world
              else after_daemon_set
        ]
    unfolding finalize_device_config
    finalize_device_config-world (ok o) p = ground (arith, p)
    finalize_device_config-world (err e) p = ground (arith, p)

  finalize_module-IsKept :
      (w : C.World)
      → G.NoDaemonSet w
      → IsKept G h w
      → IsKept G h (finalize_module C h (at G h w)).1.world
  finalize_module-IsKept w no_ds k = split (C.get module_kind (module_name d) w).0 refl
    where
      split :
          (r : Result U.Failure Module)
          → (C.get module_kind (module_name d) w).0 ≡ r
          → IsKept G h (finalize_module C h (at G h w)).1.world
      split (ok o) p =
          subst (IsKept G h) (sym (finalize_module-world w (ok o) p))
            (delete_module-IsKept (after_module w) o (get_module-IsKept w k))
      split (err e) p = elim (Bool-cases (U.is_not_found e)) [
        | inl absent ↦ subst (IsKept G h) (sym (finalize_module-world w (err e) p)) (
            rw absent (
              inr (
                G.patch_no_daemon_set (without_finalizer w) (after_module w)
                    (G.get_no_daemon_set _ _ w no_ds),
                G.patch_no_module (without_finalizer w) (after_module w)
                    (G.module_absent w e p absent),
              )))
        | inr other ↦
            subst (IsKept G h) (sym (finalize_module-world w (err e) p))
              (rw other (get_module-IsKept w k))
      ]

  finalize_device_config-IsKept :
      (w : C.World) → IsKept G h w → IsKept G h (finalize_device_config C h (at G h w)).1.world
  finalize_device_config-IsKept w k = split (C.get daemon_set_kind (metrics_name d) w).0 refl
    where
      split :
          (r : Result U.Failure DaemonSet)
          → (C.get daemon_set_kind (metrics_name d) w).0 ≡ r
          → IsKept G h (finalize_device_config C h (at G h w)).1.world
      split (ok o) p =
          subst (IsKept G h) (sym (finalize_device_config-world w (ok o) p))
            (delete_daemon_set-IsKept (after_daemon_set w) o (get_daemon_set-IsKept w k))
      split (err e) p = elim (Bool-cases (U.is_not_found e)) [
        | inl absent ↦ subst (IsKept G h) (sym (finalize_device_config-world w (err e) p)) (
            rw absent (
              finalize_module-IsKept (after_daemon_set w) (G.daemon_set_absent w e p absent)
                (get_daemon_set-IsKept w k)))
        | inr other ↦
            subst (IsKept G h) (sym (finalize_device_config-world w (err e) p))
              (rw other (get_daemon_set-IsKept w k))
      ]

  reconcile_live-IsKept :
      (w : C.World)
      → (U.contains_finalizer d.meta device_config_finalizer ≡ true → G.Protected w)
      → IsKept G h w
      → IsKept G h (reconcile_live (new_device_config_reconciler_helper C h) (at G h w)).1.world
  unfolding reconcile_live new_device_config_reconciler_helper
  reconcile_live-IsKept w there k =
      let prefix : String = "failed to set finalizer for DeviceConfig: " in
      let m : Step C = set_finalizer C h in
      let rest : Step C = handle_all (new_device_config_reconciler_helper C h) in
      elim (error_cases m (at G h w)) [
        | inl (e, p) ↦
            subst (λ (r : GoError U × State C). IsKept G h r.1.world)
              (sym (
                >>-of_error (or_fail prefix m) (at G h w) rest _ (
                  ap (λ (r : GoError U × State C). r.0)
                    (or_fail-of_error m (at G h w) prefix e p))))
              (rw or_fail-state (set_finalizer-IsKept G h w there k))
        | inr p ↦
            subst (λ (r : GoError U × State C). IsKept G h r.1.world)
              (sym (
                >>-of_nil (or_fail prefix m) (at G h w) rest
                  (ap (λ (r : GoError U × State C). r.0) (or_fail-of_nil m (at G h w) prefix p))))
              (inl (
                handle_all-Protects G h (or_fail prefix m (at G h w)).1
                  (rw or_fail-state (set_finalizer-Protected G h w there p))))
      ]

  -- Reconcile, of a DeviceConfig that has the finalizer only if the stored one has it.
  pub reconcile-IsKept :
      (w : C.World)
      → (U.contains_finalizer d.meta device_config_finalizer ≡ true → G.Protected w)
      → IsKept G h w
      → IsKept G h (reconcile (new_device_config_reconciler_helper C h) (at G h w)).2.world
  unfolding new_device_config_reconciler_helper
  reconcile-IsKept w there k = elim (Bool-cases (is_some d.meta.deletion_timestamp)) [
    | inl deleting ↦
        subst (λ (r : CtrlResult × GoError U × State C). IsKept G h r.2.world)
          (sym (reconcile-deleted (new_device_config_reconciler_helper C h) (at G h w) deleting))
          (rw or_fail-state (finalize_device_config-IsKept w k))
    | inr live ↦
        subst (λ (r : CtrlResult × GoError U × State C). IsKept G h r.2.world)
          (sym (reconcile-live (new_device_config_reconciler_helper C h) (at G h w) live))
          (reconcile_live-IsKept w there k)
  ]
