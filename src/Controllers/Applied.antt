-- ===== src/Controllers/Applied.antt =====
-- internal/controllers/device_config_reconciler.go: the handlers, when they return nil.
use mathlib.Core.Path.{subst}
use operator_for_ai_chips_on.Common.{◌≡◌, refl, sym, ap, ◌∙◌, none, some, Result, ok, err}
use operator_for_ai_chips_on.K8s.{NamespacedName}
use operator_for_ai_chips_on.Api.{DeviceConfig}
use operator_for_ai_chips_on.Kube.{
  Kind, module_kind, daemon_set_kind, deployment_kind, Obj, OperationResult, Util, Client, GoError,
}
use operator_for_ai_chips_on.Kube.Traced.{obj_key}
use operator_for_ai_chips_on.Kube.Lawful.{IsQuiet}
use operator_for_ai_chips_on.Controllers.Objects.{
  Helper, module_name, metrics_name, scheduler_name, extension_name, mutate_module,
  mutate_scheduler, mutate_extension, mutate_metrics,
}
use operator_for_ai_chips_on.Controllers.Reconcile.{State, Step, handle_all, or_fail}
use operator_for_ai_chips_on.Controllers.Helper.{
  error_of, new_device_config_reconciler_helper, handle_kmm_module, apply_scheduler,
  apply_extension, handle_custom_scheduler, handle_node_metrics,
}
use operator_for_ai_chips_on.Controllers.Steps.{or_fail-nil, or_fail-state, or_fail->>-nil}
use operator_for_ai_chips_on.Controllers.Config.{
  handle_kmm_module-KeepsConfig, handle_custom_scheduler-KeepsConfig,
}
use operator_for_ai_chips_on.Controllers.Names.{scheduler-ne-extension}

pub error_of-nil :
    {E : Type 0} (r : Result E OperationResult)
    → error_of r ≡ none
    → (x : OperationResult) × (r ≡ ok x)
error_of-nil (ok x) p = (x, refl)
error_of-nil (err e) p = cc

module _ {U : Util} {C : Client U} (Q : IsQuiet C) where
  -- The API server holds what the closure `f` makes of some object, without an error.
  abbrev pub Holds : (k : Kind) → NamespacedName → (Obj k → Obj k × GoError U) → C.World → Type 0
  Holds k n f w =
      (before : Obj k) × ((f before).1 ≡ none) × (Q.find k n w ≡ some (Q.admit k (f before).0))

  apply-Holds :
      (k : Kind) (o : Obj k) (f : Obj k → Obj k × GoError U) (w : C.World)
      → error_of (C.create_or_patch k o f w).0 ≡ none
      → Holds k (obj_key k o) f (C.create_or_patch k o f w).2
  apply-Holds k o f w p =
      let (x, q) = error_of-nil (C.create_or_patch k o f w).0 p in
      let (before, _, good, found) = Q.apply_ok k o f w x q in (before, good, found)

  -- A method that leaves the object alone.
  abbrev Leaves : (k : Kind) → NamespacedName → C.World → C.World → Type 0
  Leaves k n w w' = Q.find k n w' ≡ Q.find k n w

  Holds-Leaves :
      (k : Kind) (n : NamespacedName) (f : Obj k → Obj k × GoError U) (w w' : C.World)
      → Leaves k n w w'
      → Holds k n f w
      → Holds k n f w'
  Holds-Leaves k n f w w' l (before, good, found) = (before, good, l ∙ found)

  module _ (h : Helper U) (s : State C) where
    handle_kmm_module-Holds :
        (handle_kmm_module C h s).0 ≡ none
        → Holds module_kind
            (module_name s.dev_config)
            (mutate_module h s.dev_config)
            (handle_kmm_module C h s).1.world
    unfolding handle_kmm_module
    handle_kmm_module-Holds p = apply-Holds _ _ _ _ p

    apply_scheduler-Holds :
        (apply_scheduler C h s).0 ≡ none
        → Holds deployment_kind
            (scheduler_name s.dev_config)
            (mutate_scheduler h s.dev_config)
            (apply_scheduler C h s).1.world
    unfolding apply_scheduler
    apply_scheduler-Holds p = apply-Holds _ _ _ _ p

    apply_extension-Holds :
        (apply_extension C h s).0 ≡ none
        → Holds deployment_kind
            (extension_name s.dev_config)
            (mutate_extension h s.dev_config)
            (apply_extension C h s).1.world
    unfolding apply_extension
    apply_extension-Holds p = apply-Holds _ _ _ _ p

    handle_node_metrics-Holds :
        (handle_node_metrics C h s).0 ≡ none
        → Holds daemon_set_kind
            (metrics_name s.dev_config)
            (mutate_metrics h s.dev_config)
            (handle_node_metrics C h s).1.world
    unfolding handle_node_metrics
    handle_node_metrics-Holds p = apply-Holds _ _ _ _ p

    -- After the two Deployments are applied.
    abbrev BothHold : C.World → Type 0
    BothHold w =
        Holds deployment_kind (scheduler_name s.dev_config) (mutate_scheduler h s.dev_config) w
        × Holds deployment_kind (extension_name s.dev_config) (mutate_extension h s.dev_config) w
        × ((n : NamespacedName) → Leaves module_kind n s.world w)

    apply_extension-BothHold :
        (apply_scheduler C h s).0 ≡ none
        → (apply_extension C h (apply_scheduler C h s).1).0 ≡ none
        → BothHold (apply_extension C h (apply_scheduler C h s).1).1.world
    unfolding apply_scheduler apply_extension
    apply_extension-BothHold p q = (
      Holds-Leaves deployment_kind (scheduler_name s.dev_config) (mutate_scheduler h s.dev_config) _
          _
          (Q.apply_other_name deployment_kind _ _ _ _
            (scheduler-ne-extension s.dev_config s.dev_config))
          (apply_scheduler-Holds p),
      apply-Holds _ _ _ _ q,
      λ n.
          Q.apply_other_kind deployment_kind _ _ _ module_kind n (λ x. cc (x))
          ∙ Q.apply_other_kind deployment_kind _ _ _ module_kind n (λ x. cc (x)),
    )

    handle_custom_scheduler-BothHold :
        (handle_custom_scheduler C h s).0 ≡ none → BothHold (handle_custom_scheduler C h s).1.world
    unfolding handle_custom_scheduler
    handle_custom_scheduler-BothHold p =
        let fst : GoError U × State C → GoError U = λ r. r.0 in
        let k = or_fail->>-nil _ (apply_scheduler C h) (apply_extension C h) s p in
        subst (λ (r : GoError U × State C). BothHold r.1.world) (sym k.1)
          (apply_extension-BothHold k.0 (ap fst (sym k.1) ∙ p))

  -- What the API server holds of the Module and the Deployments of a DeviceConfig.
  pub record MostHold (h : Helper U) (d : DeviceConfig) (w : C.World) : Type 0 where
    pub kmm_module : Holds module_kind (module_name d) (mutate_module h d) w
    pub scheduler : Holds deployment_kind (scheduler_name d) (mutate_scheduler h d) w
    pub extension : Holds deployment_kind (extension_name d) (mutate_extension h d) w

  -- What it holds of all of its objects.
  pub record AllHold (h : Helper U) (d : DeviceConfig) (w : C.World) : Type 0 where
    pub kmm_module : Holds module_kind (module_name d) (mutate_module h d) w
    pub scheduler : Holds deployment_kind (scheduler_name d) (mutate_scheduler h d) w
    pub extension : Holds deployment_kind (extension_name d) (mutate_extension h d) w
    pub metrics : Holds daemon_set_kind (metrics_name d) (mutate_metrics h d) w

  module _ (h : Helper U) where
    -- handleNodeMetrics leaves the others alone, failing or not.
    handle_node_metrics-MostHold :
        (s : State C)
        → MostHold h s.dev_config s.world
        → MostHold h s.dev_config (handle_node_metrics C h s).1.world
    unfolding handle_node_metrics
    handle_node_metrics-MostHold s k = record {
      kmm_module =
          Holds-Leaves module_kind (module_name s.dev_config) (mutate_module h s.dev_config) _ _
            (Q.apply_other_kind daemon_set_kind _ _ _ module_kind _ (λ x. cc (x))) k.kmm_module;
      scheduler =
          Holds-Leaves deployment_kind (scheduler_name s.dev_config)
            (mutate_scheduler h s.dev_config) _ _
            (Q.apply_other_kind daemon_set_kind _ _ _ deployment_kind _ (λ x. cc (x))) k.scheduler;
      extension =
          Holds-Leaves deployment_kind (extension_name s.dev_config)
            (mutate_extension h s.dev_config) _ _
            (Q.apply_other_kind daemon_set_kind _ _ _ deployment_kind _ (λ x. cc (x))) k.extension;
    }

    module _ (s : State C) where
      -- The states after handleKMMModule and after handleCustomScheduler.
      abbrev pub after_module : State C
      after_module = (handle_kmm_module C h s).1

      abbrev pub after_scheduler : State C
      after_scheduler = (handle_custom_scheduler C h after_module).1

      same_config : after_scheduler.dev_config ≡ s.dev_config
      same_config =
          handle_custom_scheduler-KeepsConfig C h after_module ∙ handle_kmm_module-KeepsConfig C h s

      pub handle_rest-MostHold :
          (handle_kmm_module C h s).0 ≡ none
          → (handle_custom_scheduler C h after_module).0 ≡ none
          → MostHold h s.dev_config (handle_node_metrics C h after_scheduler).1.world
      handle_rest-MostHold p q =
          let both = handle_custom_scheduler-BothHold h after_module q in
          let same = handle_kmm_module-KeepsConfig C h s in
          subst (λ d. MostHold h d (handle_node_metrics C h after_scheduler).1.world) same_config
            (handle_node_metrics-MostHold after_scheduler (
              subst (λ d. MostHold h d after_scheduler.world)
                (sym (handle_custom_scheduler-KeepsConfig C h after_module))
                (record {
                  kmm_module = Holds-Leaves module_kind _ _ _ _ (both.2 _) (
                      subst
                        (λ d.
                          Holds module_kind (module_name d) (mutate_module h d) after_module.world)
                        (sym same) (handle_kmm_module-Holds h s p));
                  scheduler = both.0;
                  extension = both.1;
                })))

      pub handle_rest-metrics :
          (handle_node_metrics C h after_scheduler).0 ≡ none
          → Holds daemon_set_kind
              (metrics_name s.dev_config)
              (mutate_metrics h s.dev_config)
              (handle_node_metrics C h after_scheduler).1.world
      handle_rest-metrics r =
          subst
            (λ d.
              Holds daemon_set_kind (metrics_name d) (mutate_metrics h d)
                (handle_node_metrics C h after_scheduler).1.world)
            same_config (handle_node_metrics-Holds h after_scheduler r)

    pub handle_all-AllHold :
        (s : State C)
        → (handle_all (new_device_config_reconciler_helper C h) s).0 ≡ none
        → AllHold h s.dev_config (handle_all (new_device_config_reconciler_helper C h) s).1.world
    unfolding handle_all new_device_config_reconciler_helper
    handle_all-AllHold s p =
        let fst : GoError U × State C → GoError U = λ r. r.0 in
        let kmm : Step C = handle_kmm_module C h in
        let cs : Step C = handle_custom_scheduler C h in
        let nm : Step C = handle_node_metrics C h in
        let k = or_fail->>-nil _ kmm _ s p in
        let l = or_fail->>-nil _ cs (or_fail _ nm) (kmm s).1 (ap fst (sym k.1) ∙ p) in
        let m = or_fail-nil _ nm (cs (kmm s).1).1 (ap fst (sym l.1) ∙ (ap fst (sym k.1) ∙ p)) in
        let most = handle_rest-MostHold s k.0 l.0 in
        subst (λ (r : GoError U × State C). AllHold h s.dev_config r.1.world) (sym (k.1 ∙ l.1))
          (rw or_fail-state (record {
            kmm_module = most.kmm_module;
            scheduler = most.scheduler;
            extension = most.extension;
            metrics = handle_rest-metrics s m;
          }))
