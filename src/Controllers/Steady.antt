-- ===== src/Controllers/Steady.antt =====
-- internal/controllers/device_config_reconciler.go: Reconcile again and again.
use mathlib.Core.Path.{subst}
use mathlib.Core.Option.{some-injective}
use operator_for_ai_chips_on.Common.{◌≡◌, refl, sym, ap, ◌∙◌, true, false, none, some, is_some}
use operator_for_ai_chips_on.K8s.{NamespacedName}
use operator_for_ai_chips_on.Api.{DeviceConfig}
use operator_for_ai_chips_on.Kube.{Util, Client}
use operator_for_ai_chips_on.Kube.Lawful.{HandlesFinalizers, HandlesOwners, IsQuiet, IsSteady}
use operator_for_ai_chips_on.Controllers.Objects.{device_config_finalizer, module_name}
use operator_for_ai_chips_on.Controllers.Reconcile.{State}
use operator_for_ai_chips_on.Controllers.Applied.{AllHold}
use operator_for_ai_chips_on.Controllers.Converge.{result, reconcile-IsConverged}
use operator_for_ai_chips_on.Controllers.Desired.{real_helper}
use operator_for_ai_chips_on.Controllers.Fixed.{SameObjects, SameObjects-trans, AllHold-same}
use operator_for_ai_chips_on.Controllers.Twice.{reconcile-stored, reconcile-fixed}

module _ {U : Util} {C : Client U} (Q : IsQuiet C) (F : HandlesFinalizers U) (O : HandlesOwners U)
    (S : IsSteady Q) (scheme : U.Scheme) where
  -- Reconciles of what is stored under a name, all of which return nil.
  pub data Repeats (n : NamespacedName) (v : C.World) : C.World → Type 0 where
    here : Repeats n v v
    again :
        {u : C.World}
        → Repeats n v u
        → (e : DeviceConfig) → Q.stored n u ≡ some e
        → (result Q F (real_helper U scheme) e u).1 ≡ none
        → Repeats n v (result Q F (real_helper U scheme) e u).2.world

  -- The stored DeviceConfigs and the four objects of `d` are the same.
  pub record IsSame (d : DeviceConfig) (v u : C.World) : Type 0 where
    pub objects : SameObjects Q d v u
    pub configs : (n : NamespacedName) → Q.stored n u ≡ Q.stored n v

  module _ (d : DeviceConfig) (v : C.World)
      (there : U.contains_finalizer d.meta device_config_finalizer ≡ true)
      (live : is_some d.meta.deletion_timestamp ≡ false)
      (a : AllHold Q (real_helper U scheme) d v) where
    -- One more, of the DeviceConfig itself.
    again-IsSame :
        (u : C.World)
        → IsSame d v u
        → (result Q F (real_helper U scheme) d u).1 ≡ none
        → IsSame d v (result Q F (real_helper U scheme) d u).2.world
    again-IsSame u k nil =
        let next =
          reconcile-fixed Q F O S scheme d u there live
            (AllHold-same Q (real_helper U scheme) d v u k.objects a) nil in
        record {
          objects = SameObjects-trans Q d k.objects next.objects;
          configs = λ n. next.configs n ∙ k.configs n;
        }

    Repeats-IsSame :
        {n : NamespacedName} {u : C.World} → Q.stored n v ≡ some d → Repeats n v u → IsSame d v u
    Repeats-IsSame p here = record {
      objects = record { kmm_module = refl; scheduler = refl; extension = refl; metrics = refl };
      configs = λ n. refl;
    }
    Repeats-IsSame {n} p (again {u} r e q nil) =
        let k = Repeats-IsSame p r in
        let same : e ≡ d = some-injective e d (sym q ∙ (k.configs n ∙ p)) in
        subst
          (λ (c : DeviceConfig).
            (result Q F (real_helper U scheme) c u).1 ≡ none
            → IsSame d v (result Q F (real_helper U scheme) c u).2.world)
          (sym same) (again-IsSame u k) nil

module _ {U : Util} {C : Client U} (Q : IsQuiet C) (F : HandlesFinalizers U) (O : HandlesOwners U)
    (S : IsSteady Q) (scheme : U.Scheme) (d : DeviceConfig) (w : C.World) where
  -- The state after a first Reconcile.
  abbrev pub first : State C
  first = (result Q F (real_helper U scheme) d w).2

  -- If Reconcile, with the helper that main makes, is given the stored DeviceConfig, which is not
  -- being deleted, and returns nil, then any number of further Reconciles of what is stored under its
  -- name, if all of them return nil and nobody else interferes, change neither a stored DeviceConfig
  -- nor the Module, the two Deployments and the DaemonSet of the DeviceConfig. It is assumed that the
  -- defaults of the API server leave the metadata of a workload alone, and the fields of a Module
  -- that the operator does not name.
  pub Repeats-IsSteady :
      Q.stored (module_name d) w ≡ some d
      → is_some d.meta.deletion_timestamp ≡ false
      → (result Q F (real_helper U scheme) d w).1 ≡ none
      → (u : C.World) → Repeats Q F O S scheme (module_name d) first.world u
      → IsSame Q F O S scheme first.dev_config first.world u
  Repeats-IsSteady fresh live nil u r =
      let k = reconcile-IsConverged Q F (real_helper U scheme) d w fresh live nil in
      let kept = reconcile-stored Q F (real_helper U scheme) d w fresh live nil in
      Repeats-IsSame Q F O S scheme first.dev_config first.world kept.1
        (ap is_some k.same_meta.deletion_timestamp ∙ live) k.objects kept.0 r
