-- ===== src/Controllers/Twice.antt =====
-- internal/controllers/device_config_reconciler.go: a Reconcile after a Reconcile.
use mathlib.Core.Path.{subst}
use operator_for_ai_chips_on.Common.{
  ◌≡◌, refl, sym, ap, ◌∙◌, true, false, none, some, is_some, arith,
}
use operator_for_ai_chips_on.K8s.{NamespacedName}
use operator_for_ai_chips_on.Api.{DeviceConfig}
use operator_for_ai_chips_on.Kube.{Util, Client, GoError}
use operator_for_ai_chips_on.Kube.Lawful.{HandlesFinalizers, HandlesOwners, IsQuiet, IsSteady}
use operator_for_ai_chips_on.Controllers.Objects.{device_config_finalizer, Helper, module_name}
use operator_for_ai_chips_on.Controllers.Reconcile.{
  State, Step, CtrlResult, handle_all, reconcile_live,
}
use operator_for_ai_chips_on.Controllers.Helper.{new_device_config_reconciler_helper, set_finalizer}
use operator_for_ai_chips_on.Controllers.Config.{handle_all-KeepsConfig}
use operator_for_ai_chips_on.Controllers.Guard.{patch-added}
use operator_for_ai_chips_on.Controllers.Stored.{handle_all-KeepsStored}
use operator_for_ai_chips_on.Controllers.Steps.{or_fail->>-nil, reconcile-live}
use operator_for_ai_chips_on.Controllers.Applied.{AllHold}
use operator_for_ai_chips_on.Controllers.Converge.{result}
use operator_for_ai_chips_on.Controllers.Desired.{real_helper}
use operator_for_ai_chips_on.Controllers.Fixes.{handle_all-Fixes}
use operator_for_ai_chips_on.Controllers.Fixed.{SameObjects}

module _ {U : Util} {C : Client U} (Q : IsQuiet C) (F : HandlesFinalizers U) (h : Helper U)
    (d : DeviceConfig) (w : C.World) where
  abbrev at : State C
  at = record { world = w; dev_config = d }

  -- What setFinalizer leaves is what is stored, and has the finalizer.
  set_finalizer-stored :
      Q.stored (module_name d) w ≡ some d
      → (set_finalizer C h at).0 ≡ none
      → let s = (set_finalizer C h at).1 in
        (Q.stored (module_name d) s.world ≡ some s.dev_config)
        × (U.contains_finalizer s.dev_config.meta device_config_finalizer ≡ true)
  unfolding set_finalizer
  set_finalizer-stored fresh nil =
      let d' : DeviceConfig = record d { meta = U.add_finalizer d.meta device_config_finalizer } in
      let same = F.add-SameObject d.meta device_config_finalizer in
      ground (arith, same, patch-added Q F h d w)

  set_finalizer-there :
      U.contains_finalizer d.meta device_config_finalizer ≡ true → set_finalizer C h at ≡ (none, at)
  unfolding set_finalizer
  set_finalizer-there c = rw c refl

  -- What Reconcile leaves is what is stored, and has the finalizer.
  pub reconcile-stored :
      Q.stored (module_name d) w ≡ some d
      → is_some d.meta.deletion_timestamp ≡ false
      → (result Q F h d w).1 ≡ none
      → let s = (result Q F h d w).2 in
        (Q.stored (module_name d) s.world ≡ some s.dev_config)
        × (U.contains_finalizer s.dev_config.meta device_config_finalizer ≡ true)
  unfolding reconcile_live new_device_config_reconciler_helper
  reconcile-stored fresh live nil =
      let m : Step C = set_finalizer C h in
      let rest : Step C = handle_all (new_device_config_reconciler_helper C h) in
      let same = reconcile-live (new_device_config_reconciler_helper C h) at live in
      let k =
        or_fail->>-nil "failed to set finalizer for DeviceConfig: " m rest at
          (ap (λ (r : CtrlResult × GoError U × State C). r.1) (sym same) ∙ nil) in
      let kept = handle_all-KeepsConfig C h (m at).1 in
      let after = set_finalizer-stored fresh k.0 in
      subst
        (λ (s : State C).
          (Q.stored (module_name d) s.world ≡ some s.dev_config)
          × (U.contains_finalizer s.dev_config.meta device_config_finalizer ≡ true))
        (sym (
          ap (λ (r : CtrlResult × GoError U × State C). r.2) same
          ∙ ap (λ (r : GoError U × State C). r.1) k.1))
        (
          handle_all-KeepsStored Q h (m at).1 (module_name d) ∙ (after.0 ∙ ap some (sym kept)),
          ap (λ (c : DeviceConfig). U.contains_finalizer c.meta device_config_finalizer) kept
              ∙ after.1,
        )

module _ {U : Util} {C : Client U} (Q : IsQuiet C) (F : HandlesFinalizers U) (O : HandlesOwners U)
    (S : IsSteady Q) (scheme : U.Scheme) (d : DeviceConfig) (w : C.World) where
  -- The state `s` in which nothing has changed since the DeviceConfig was `d` and the world `w`: the
  -- stored DeviceConfigs and the four objects are the same, and so is the DeviceConfig behind the
  -- pointer.
  pub record IsUnchanged (s : State C) : Type 0 where
    pub objects : SameObjects Q d w s.world
    pub configs : (n : NamespacedName) → Q.stored n s.world ≡ Q.stored n w
    pub dev_config : s.dev_config ≡ d

  pub reconcile-fixed :
      U.contains_finalizer d.meta device_config_finalizer ≡ true
      → is_some d.meta.deletion_timestamp ≡ false
      → AllHold Q (real_helper U scheme) d w
      → (result Q F (real_helper U scheme) d w).1 ≡ none
      → IsUnchanged (result Q F (real_helper U scheme) d w).2
  unfolding reconcile_live new_device_config_reconciler_helper
  reconcile-fixed there live a nil =
      let h : Helper U = real_helper U scheme in
      let s : State C = at Q F h d w in
      let rest : Step C = handle_all (new_device_config_reconciler_helper C h) in
      let same = reconcile-live (new_device_config_reconciler_helper C h) s live in
      let k =
        or_fail->>-nil "failed to set finalizer for DeviceConfig: " (set_finalizer C h) rest s
          (ap (λ (r : CtrlResult × GoError U × State C). r.1) (sym same) ∙ nil) in
      let whole : (result Q F h d w).2 ≡ (rest s).1 =
        ap (λ (r : CtrlResult × GoError U × State C). r.2) same
        ∙ (ap (λ (r : GoError U × State C). r.1) k.1
            ∙ ap (λ (r : GoError U × State C). (rest r.1).1)
                (set_finalizer-there Q F h d w there)) in
      let rest_nil : (rest s).0 ≡ none =
        ap (λ (r : GoError U × State C). (rest r.1).0) (sym (set_finalizer-there Q F h d w there))
        ∙ (ap (λ (r : GoError U × State C). r.0) (sym k.1)
            ∙ (ap (λ (r : CtrlResult × GoError U × State C). r.1) (sym same) ∙ nil)) in
      subst IsUnchanged (sym whole) (record {
        objects = handle_all-Fixes Q scheme O S s a rest_nil;
        configs = handle_all-KeepsStored Q h s;
        dev_config = handle_all-KeepsConfig C h s;
      })
