-- ===== src/Controllers/Overwrites.antt =====
-- internal/controllers/device_config_reconciler.go: Reconcile of a DeviceConfig that is not the stored one any
-- more.
use operator_for_ai_chips_on.Common.{
  String, Error, ◌≡◌, ◌≢◌, sym, ap, ◌∙◌, false, none, some, is_some, arith,
}
use operator_for_ai_chips_on.Api.{DeviceConfig}
use operator_for_ai_chips_on.Kube.{Util, Client, GoError, wrapf}
use operator_for_ai_chips_on.Kube.Lawful.{HandlesFinalizers, IsQuiet}
use operator_for_ai_chips_on.Controllers.Objects.{Helper, device_config_finalizer, module_name}
use operator_for_ai_chips_on.Controllers.Reconcile.{
  State, Step, CtrlResult, handle_all, reconcile_live,
}
use operator_for_ai_chips_on.Controllers.Helper.{new_device_config_reconciler_helper, set_finalizer}
use operator_for_ai_chips_on.Controllers.Guard.{patch-added}
use operator_for_ai_chips_on.Controllers.Stored.{handle_all-KeepsStored}
use operator_for_ai_chips_on.Controllers.Steps.{or_fail->>-later, reconcile-live}
use operator_for_ai_chips_on.Controllers.Converge.{result}
use operator_for_ai_chips_on.Controllers.FinalizeSteps.{at}

module _ {U : Util} {C : Client U} (Q : IsQuiet C) (F : HandlesFinalizers U) (h : Helper U)
    (d : DeviceConfig) (w : C.World) where
  abbrev added : DeviceConfig
  added = record d { meta = U.add_finalizer d.meta device_config_finalizer }

  set_finalizer-overwrites :
      U.contains_finalizer d.meta device_config_finalizer ≡ false
      → (set_finalizer C h (at Q d w)).0 ≡ none
      → (e : DeviceConfig)
      → Q.stored (module_name d) (set_finalizer C h (at Q d w)).1.world ≡ some e
      → (f : String) → U.contains_finalizer e.meta f ≡ U.contains_finalizer added.meta f
  unfolding set_finalizer
  set_finalizer-overwrites missing nil e p f =
      let same = F.add-SameObject d.meta device_config_finalizer in
      ground
        (arith, missing, same, patch-added Q F h d w, F.contains_of_finalizers e.meta added.meta f)

  -- Whatever DeviceConfig is stored, if Reconcile is given one of the same name that does not have the
  -- finalizer and is not being deleted, and returns no error of setFinalizer, then a DeviceConfig that
  -- is stored under that name afterwards has exactly the finalizers that the given one had, and the operator's: a
  -- finalizer that was added to the stored DeviceConfig in the meantime is lost.
  pub reconcile-overwrites :
      is_some d.meta.deletion_timestamp ≡ false
      → U.contains_finalizer d.meta device_config_finalizer ≡ false
      → ((x : Error U.Failure)
          → (result Q F h d w).1 ≢ some (wrapf U "failed to set finalizer for DeviceConfig: " x))
      → (e : DeviceConfig) → Q.stored (module_name d) (result Q F h d w).2.world ≡ some e
      → (f : String)
      → U.contains_finalizer e.meta f
        ≡ U.contains_finalizer (U.add_finalizer d.meta device_config_finalizer) f
  unfolding reconcile_live new_device_config_reconciler_helper
  reconcile-overwrites live missing nil e p f =
      let m : Step C = set_finalizer C h in
      let rest : Step C = handle_all (new_device_config_reconciler_helper C h) in
      let same = reconcile-live (new_device_config_reconciler_helper C h) (at Q d w) live in
      let k =
        or_fail->>-later "failed to set finalizer for DeviceConfig: " m rest (at Q d w)
          (λ x q. nil x (ap (λ (r : CtrlResult × GoError U × State C). r.1) same ∙ q)) in
      let whole : (result Q F h d w).2 ≡ (rest (m (at Q d w)).1).1 =
        ap (λ (r : CtrlResult × GoError U × State C). r.2) same
        ∙ ap (λ (r : GoError U × State C). r.1) k.1 in
      set_finalizer-overwrites missing k.0 e
        (sym (
            ap (λ (s : State C). Q.stored (module_name d) s.world) whole
            ∙ handle_all-KeepsStored Q h (m (at Q d w)).1 (module_name d))
          ∙ p)
        f
