-- ===== src/Controllers/Fixed.antt =====
-- internal/controllers/device_config_reconciler.go: the handlers, when the API server already holds
-- what they would write.

use operator_for_ai_chips_on.Common.{◌≡◌, sym, ap, ◌∙◌, inl, inr, none, some}
use operator_for_ai_chips_on.K8s.{NamespacedName, ObjectMeta}
use operator_for_ai_chips_on.Api.{DeviceConfig}
use operator_for_ai_chips_on.Kube.{
  Kind, module_kind, daemon_set_kind, deployment_kind, Obj, Util, Client, GoError,
}
use operator_for_ai_chips_on.Kube.Traced.{obj_key}
use operator_for_ai_chips_on.Kube.Lawful.{IsQuiet, HandlesOwners, IsSteady}
use operator_for_ai_chips_on.KmmModule.{new_kmm_module, set_kmm_module_as_desired}
use operator_for_ai_chips_on.CustomScheduler.{
  new_custom_scheduler, set_custom_scheduler_as_desired, set_custom_scheduler_extension_as_desired,
}
use operator_for_ai_chips_on.NodeMetrics.{new_node_metrics, set_node_metrics_as_desired}
use operator_for_ai_chips_on.Controllers.Objects.{
  Helper, module_name, metrics_name, scheduler_name, extension_name, mutate_module,
  mutate_scheduler, mutate_extension, mutate_metrics,
}
use operator_for_ai_chips_on.Controllers.Reconcile.{State}
use operator_for_ai_chips_on.Controllers.Helper.{
  error_of, handle_kmm_module, apply_scheduler, apply_extension, handle_node_metrics,
}
use operator_for_ai_chips_on.Controllers.Applied.{error_of-nil, Holds, AllHold}
use operator_for_ai_chips_on.Controllers.Desired.{real_helper}
use operator_for_ai_chips_on.Controllers.Names.{scheduler-ne-extension}

module _ {U : Util} {C : Client U} (Q : IsQuiet C) where
  -- Writing over what was stored once gives the same.
  abbrev IsStable : (k : Kind) → (Obj k → Obj k × GoError U) → Type 0
  IsStable k f = (b : Obj k) → (f b).1 ≡ none → (f (Q.admit k (f b).0)).0 ≡ (f b).0

  apply-fixed :
      (k : Kind) (o : Obj k) (f : Obj k → Obj k × GoError U) (w : C.World)
      → IsStable k f
      → Holds Q k (obj_key k o) f w
      → error_of (C.create_or_patch k o f w).0 ≡ none
      → Q.find k (obj_key k o) (C.create_or_patch k o f w).2 ≡ Q.find k (obj_key k o) w
  apply-fixed k o f w stable (b, good, found) p =
      let (x, q) = error_of-nil (C.create_or_patch k o f w).0 p in
      let (before, there, _, after) = Q.apply_ok k o f w x q in
      let same : before ≡ Q.admit k (f b).0 = elim there [
        | inl e ↦ cc (e, found)
        | inr (e, _) ↦ cc (e, found)
      ] in
      after
      ∙ (ap (λ (y : Obj k). some (Q.admit k (f y).0)) same
          ∙ (ap (λ (y : Obj k). some (Q.admit k y)) (stable b good) ∙ sym found))

module _ {U : Util} {C : Client U} (Q : IsQuiet C) (O : HandlesOwners U) (S : IsSteady Q)
    (scheme : U.Scheme) (d : DeviceConfig) where
  mutate_module-IsStable : IsStable Q module_kind (mutate_module (real_helper U scheme) d)
  unfolding mutate_module new_kmm_module set_kmm_module_as_desired
  mutate_module-IsStable b good =
      let f = mutate_module (real_helper U scheme) d in
      let owned : ObjectMeta → ObjectMeta = λ m. (U.set_controller_reference d m scheme).0 in
      ap
        (λ x. record ((f b).0) {
          meta = owned (Q.admit module_kind (f b).0).meta;
          spec = record ((f b).0.spec) { others = x };
        })
        (S.admit_module_others (f b).0)
      ∙ ap (λ m. record ((f b).0) { meta = m })
          (ap owned (S.admit_module (f b).0) ∙ O.reference_again d b.meta scheme good)

  mutate_scheduler-IsStable : IsStable Q deployment_kind (mutate_scheduler (real_helper U scheme) d)
  unfolding mutate_scheduler new_custom_scheduler set_custom_scheduler_as_desired
  mutate_scheduler-IsStable b good =
      let f = mutate_scheduler (real_helper U scheme) d in
      ap (λ m. record ((f b).0) { meta = m })
        (ap (λ m. (U.set_controller_reference d m scheme).0) (S.admit_deployment (f b).0)
          ∙ O.reference_again d b.meta scheme good)

  mutate_extension-IsStable : IsStable Q deployment_kind (mutate_extension (real_helper U scheme) d)
  unfolding mutate_extension new_custom_scheduler set_custom_scheduler_extension_as_desired
  mutate_extension-IsStable b good =
      let f = mutate_extension (real_helper U scheme) d in
      ap (λ m. record ((f b).0) { meta = m })
        (ap (λ m. (U.set_controller_reference d m scheme).0) (S.admit_deployment (f b).0)
          ∙ O.reference_again d b.meta scheme good)

  mutate_metrics-IsStable : IsStable Q daemon_set_kind (mutate_metrics (real_helper U scheme) d)
  unfolding mutate_metrics new_node_metrics set_node_metrics_as_desired
  mutate_metrics-IsStable b good =
      let f = mutate_metrics (real_helper U scheme) d in
      ap (λ m. record ((f b).0) { meta = m })
        (ap (λ m. (U.set_controller_reference d m scheme).0) (S.admit_daemon_set (f b).0)
          ∙ O.reference_again d b.meta scheme good)

module _ {U : Util} {C : Client U} (Q : IsQuiet C) where
  -- The four objects of a DeviceConfig are the same in both worlds.
  pub record SameObjects (d : DeviceConfig) (w w' : C.World) : Type 0 where
    pub kmm_module : Q.find module_kind (module_name d) w' ≡ Q.find module_kind (module_name d) w
    pub scheduler :
        Q.find deployment_kind (scheduler_name d) w' ≡ Q.find deployment_kind (scheduler_name d) w
    pub extension :
        Q.find deployment_kind (extension_name d) w' ≡ Q.find deployment_kind (extension_name d) w
    pub metrics :
        Q.find daemon_set_kind (metrics_name d) w' ≡ Q.find daemon_set_kind (metrics_name d) w

  pub SameObjects-trans :
      (d : DeviceConfig) {u v w : C.World}
      → SameObjects d u v
      → SameObjects d v w
      → SameObjects d u w
  SameObjects-trans d p q = record {
    kmm_module = q.kmm_module ∙ p.kmm_module;
    scheduler = q.scheduler ∙ p.scheduler;
    extension = q.extension ∙ p.extension;
    metrics = q.metrics ∙ p.metrics;
  }

  Holds-same :
      (k : Kind) (n : NamespacedName) (f : Obj k → Obj k × GoError U) (w w' : C.World)
      → Q.find k n w' ≡ Q.find k n w
      → Holds Q k n f w
      → Holds Q k n f w'
  Holds-same k n f w w' p (b, good, found) = (b, good, p ∙ found)

  pub AllHold-same :
      (h : Helper U) (d : DeviceConfig) (w w' : C.World)
      → SameObjects d w w'
      → AllHold Q h d w
      → AllHold Q h d w'
  AllHold-same h d w w' p a = record {
    kmm_module =
        Holds-same module_kind (module_name d) (mutate_module h d) w w' p.kmm_module a.kmm_module;
    scheduler =
        Holds-same deployment_kind (scheduler_name d) (mutate_scheduler h d) w w' p.scheduler
          a.scheduler;
    extension =
        Holds-same deployment_kind (extension_name d) (mutate_extension h d) w w' p.extension
          a.extension;
    metrics =
        Holds-same daemon_set_kind (metrics_name d) (mutate_metrics h d) w w' p.metrics a.metrics;
  }

module _ {U : Util} {C : Client U} (Q : IsQuiet C) (O : HandlesOwners U) (S : IsSteady Q)
    (scheme : U.Scheme) (s : State C)
    (a : AllHold Q (real_helper U scheme) s.dev_config s.world) where
  pub handle_kmm_module-fixed :
      (handle_kmm_module C (real_helper U scheme) s).0 ≡ none
      → SameObjects Q s.dev_config s.world (handle_kmm_module C (real_helper U scheme) s).1.world
  unfolding handle_kmm_module
  handle_kmm_module-fixed nil = record {
    kmm_module =
        apply-fixed Q module_kind _ _ s.world (mutate_module-IsStable Q O S scheme s.dev_config)
          a.kmm_module nil;
    scheduler = Q.apply_other_kind module_kind _ _ _ deployment_kind _ (λ x. cc (x));
    extension = Q.apply_other_kind module_kind _ _ _ deployment_kind _ (λ x. cc (x));
    metrics = Q.apply_other_kind module_kind _ _ _ daemon_set_kind _ (λ x. cc (x));
  }

  pub apply_scheduler-fixed :
      (apply_scheduler C (real_helper U scheme) s).0 ≡ none
      → SameObjects Q s.dev_config s.world (apply_scheduler C (real_helper U scheme) s).1.world
  unfolding apply_scheduler
  apply_scheduler-fixed nil = record {
    kmm_module = Q.apply_other_kind deployment_kind _ _ _ module_kind _ (λ x. cc (x));
    scheduler =
        apply-fixed Q deployment_kind _ _ s.world
          (mutate_scheduler-IsStable Q O S scheme s.dev_config) a.scheduler nil;
    extension =
        Q.apply_other_name deployment_kind _ _ _ (extension_name s.dev_config)
          (λ x. scheduler-ne-extension s.dev_config s.dev_config (sym x));
    metrics = Q.apply_other_kind deployment_kind _ _ _ daemon_set_kind _ (λ x. cc (x));
  }

  pub apply_extension-fixed :
      (apply_extension C (real_helper U scheme) s).0 ≡ none
      → SameObjects Q s.dev_config s.world (apply_extension C (real_helper U scheme) s).1.world
  unfolding apply_extension
  apply_extension-fixed nil = record {
    kmm_module = Q.apply_other_kind deployment_kind _ _ _ module_kind _ (λ x. cc (x));
    scheduler =
        Q.apply_other_name deployment_kind _ _ _ (scheduler_name s.dev_config)
          (scheduler-ne-extension s.dev_config s.dev_config);
    extension =
        apply-fixed Q deployment_kind _ _ s.world
          (mutate_extension-IsStable Q O S scheme s.dev_config) a.extension nil;
    metrics = Q.apply_other_kind deployment_kind _ _ _ daemon_set_kind _ (λ x. cc (x));
  }

  pub handle_node_metrics-fixed :
      (handle_node_metrics C (real_helper U scheme) s).0 ≡ none
      → SameObjects Q s.dev_config s.world (handle_node_metrics C (real_helper U scheme) s).1.world
  unfolding handle_node_metrics
  handle_node_metrics-fixed nil = record {
    kmm_module = Q.apply_other_kind daemon_set_kind _ _ _ module_kind _ (λ x. cc (x));
    scheduler = Q.apply_other_kind daemon_set_kind _ _ _ deployment_kind _ (λ x. cc (x));
    extension = Q.apply_other_kind daemon_set_kind _ _ _ deployment_kind _ (λ x. cc (x));
    metrics =
        apply-fixed Q daemon_set_kind _ _ s.world
          (mutate_metrics-IsStable Q O S scheme s.dev_config) a.metrics nil;
  }
