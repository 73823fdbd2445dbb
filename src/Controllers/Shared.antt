-- ===== src/Controllers/Shared.antt =====
-- internal/controllers/device_config_reconciler.go: Reconcile over a client that others share, who may write
-- between any two of its calls.
pub mod Protects
pub mod Keeps
use operator_for_ai_chips_on.Common.{◌≡◌, ◌≢◌, true, false, ◌⊎◌, Option, none, some, Error, err}
use operator_for_ai_chips_on.K8s.{NamespacedName}
use operator_for_ai_chips_on.Api.{DeviceConfig}
use operator_for_ai_chips_on.Kube.{Kind, Obj, module_kind, daemon_set_kind, Util, Client, GoError}
use operator_for_ai_chips_on.Controllers.Objects.{
  device_config_finalizer, module_name, metrics_name,
}

module _ {U : Util} (C : Client U) (d : DeviceConfig) where
  abbrev pub with_finalizer : DeviceConfig
  with_finalizer = record d { meta = U.add_finalizer d.meta device_config_finalizer }

  -- What a call keeps: that the stored DeviceConfig has the finalizer, and that the DaemonSet and the
  -- Module are absent.
  pub record Guards : Type 1 where
    pub Protected : C.World → Type 0
    pub NoDaemonSet : C.World → Type 0
    pub NoModule : C.World → Type 0
    pub get_protected :
        (k : Kind) (n : NamespacedName) (w : C.World) → Protected w → Protected (C.get k n w).1
    pub get_no_daemon_set :
        (k : Kind) (n : NamespacedName) (w : C.World) → NoDaemonSet w → NoDaemonSet (C.get k n w).1
    pub get_no_module :
        (k : Kind) (n : NamespacedName) (w : C.World) → NoModule w → NoModule (C.get k n w).1
    pub daemon_set_absent :
        (w : C.World) (e : Error U.Failure)
        → (C.get daemon_set_kind (metrics_name d) w).0 ≡ err e
        → U.is_not_found e ≡ true
        → NoDaemonSet (C.get daemon_set_kind (metrics_name d) w).1
    pub module_absent :
        (w : C.World) (e : Error U.Failure)
        → (C.get module_kind (module_name d) w).0 ≡ err e
        → U.is_not_found e ≡ true
        → NoModule (C.get module_kind (module_name d) w).1
    pub delete_protected :
        (k : Kind) (o : Obj k) (w : C.World) → Protected w → Protected (C.delete k o w).1
    pub delete_no_daemon_set :
        (k : Kind) (o : Obj k) (w : C.World) → NoDaemonSet w → NoDaemonSet (C.delete k o w).1
    pub delete_no_module :
        (k : Kind) (o : Obj k) (w : C.World) → NoModule w → NoModule (C.delete k o w).1
    pub patch_protects :
        (w : C.World)
        → U.contains_finalizer d.meta device_config_finalizer ≡ false
        → (C.patch with_finalizer d w).0 ≡ none
        → Protected (C.patch with_finalizer d w).2
    pub patch_failed :
        (w : C.World)
        → U.contains_finalizer d.meta device_config_finalizer ≡ false
        → (C.patch with_finalizer d w).0 ≢ none
        → Protected w
        → Protected (C.patch with_finalizer d w).2
    pub patch_no_daemon_set :
        (x : DeviceConfig) (w : C.World) → NoDaemonSet w → NoDaemonSet (C.patch x d w).2
    pub patch_no_module : (x : DeviceConfig) (w : C.World) → NoModule w → NoModule (C.patch x d w).2
    pub apply_protected :
        (k : Kind) (o : Obj k) (f : Obj k → Obj k × GoError U) (w : C.World)
        → Protected w
        → Protected (C.create_or_patch k o f w).2
