-- ===== src/Controllers/Succeeds.antt =====
-- internal/controllers/device_config_reconciler.go: the handlers, when no object is there and every
-- call succeeds.

use operator_for_ai_chips_on.Common.{
  ◌≢◌, Option, ◌≡◌, refl, sym, ap, ◌∙◌, ◌==◌, true, false, none, some, Error, Result, ok, err,
  is_ok,
}
use operator_for_ai_chips_on.K8s.{NamespacedName, ObjectMeta, DaemonSet}
use operator_for_ai_chips_on.Kube.{
  Kind, module_kind, daemon_set_kind, deployment_kind, OperationResult, Util, Client, GoError,
}
use operator_for_ai_chips_on.Kube.Traced.{key_of}
use operator_for_ai_chips_on.Kube.Lawful.{
  HandlesOwners, IsQuiet, IsPrompt, IsValidating, SameObject,
}
use operator_for_ai_chips_on.K8s.Selectors.{images_given}
use operator_for_ai_chips_on.KmmModule.{new_kmm_module}
use operator_for_ai_chips_on.KmmModule.Laws.{set_kmm_module-IsWanted}
use operator_for_ai_chips_on.CustomScheduler.{new_custom_scheduler}
use operator_for_ai_chips_on.CustomScheduler.Laws.{
  set_custom_scheduler-IsDeployable, set_custom_scheduler_extension-IsDeployable,
}
use operator_for_ai_chips_on.NodeMetrics.{new_node_metrics}
use operator_for_ai_chips_on.NodeMetrics.Laws.{set_node_metrics-IsPlaced}
use operator_for_ai_chips_on.Controllers.Names.{scheduler-ne-extension}
use operator_for_ai_chips_on.Controllers.Steps.{or_fail->>-nil, or_fail->>-returns}
use operator_for_ai_chips_on.Controllers.Objects.{
  Helper, module_name, metrics_name, scheduler_name, extension_name, new_module, new_scheduler,
  new_extension, new_daemon_set, mutate_module, mutate_scheduler, mutate_extension, mutate_metrics,
}
use operator_for_ai_chips_on.Controllers.Reconcile.{State}
use operator_for_ai_chips_on.Controllers.Helper.{
  error_of, handle_kmm_module, apply_scheduler, apply_extension, handle_custom_scheduler,
  handle_node_metrics,
}
use operator_for_ai_chips_on.Controllers.Desired.{real_helper}

error_of-ok : {E : Type 0} (r : Result E OperationResult) → is_ok r ≡ true → error_of r ≡ none
error_of-ok (ok x) p = refl
error_of-ok (err e) p = cc (p)

error_of-err :
    {E : Type 0} (r : Result E OperationResult)
    → is_ok r ≡ false
    → (e : Error E) × (error_of r ≡ some e)
error_of-err (ok x) p = cc (p)
error_of-err (err e) p = (e, refl)

pub key_of-same : {m n : ObjectMeta} → SameObject m n → key_of m ≡ key_of n
key_of-same p = cc (p.namespace, p.name)

module _ {U : Util} {C : Client U} (Q : IsQuiet C) (P : IsPrompt Q) (O : HandlesOwners U)
    (scheme : U.Scheme) (s : State C) where
  pub handle_kmm_module-nil :
      Q.find module_kind (module_name s.dev_config) s.world ≡ none
      → (handle_kmm_module C (real_helper U scheme) s).0 ≡ none
  unfolding handle_kmm_module mutate_module new_kmm_module
  handle_kmm_module-nil a =
      let d = s.dev_config in
      let owner = O.reference_SameObject d (new_module d).meta scheme in
      let k = set_kmm_module-IsWanted U scheme (new_module d) d in
      error_of-ok (C.create_or_patch _ _ _ _).0 (
        P.apply_succeeds module_kind (new_module d) (mutate_module (real_helper U scheme) d) s.world
          a (k.2 ∙ O.reference_ok d (new_module d).meta scheme refl)
          (ap key_of k.1 ∙ key_of-same owner) refl)

  apply_scheduler-nil :
      Q.find deployment_kind (scheduler_name s.dev_config) s.world ≡ none
      → (s.dev_config.spec.custom_scheduler_image == "") ≡ false
      → (apply_scheduler C (real_helper U scheme) s).0 ≡ none
  unfolding apply_scheduler mutate_scheduler new_custom_scheduler
  apply_scheduler-nil a given =
      let d = s.dev_config in
      let (k, deployable) = set_custom_scheduler-IsDeployable (new_scheduler d) d in
      error_of-ok (C.create_or_patch _ _ _ _).0 (
        P.apply_succeeds deployment_kind (new_scheduler d)
          (mutate_scheduler (real_helper U scheme) d) s.world a
          (O.reference_ok d _ scheme (ap (λ (m : ObjectMeta). m.owner_references) k))
          (key_of-same (O.reference_SameObject d _ scheme) ∙ ap key_of k)
          (deployable.imaged ∙ rw given refl))

  apply_extension-nil :
      Q.find deployment_kind (extension_name s.dev_config) s.world ≡ none
      → (s.dev_config.spec.scheduler_extension_image == "") ≡ false
      → (apply_extension C (real_helper U scheme) s).0 ≡ none
  unfolding apply_extension mutate_extension new_custom_scheduler
  apply_extension-nil a given =
      let d = s.dev_config in
      let (k, deployable) = set_custom_scheduler_extension-IsDeployable (new_extension d) d in
      error_of-ok (C.create_or_patch _ _ _ _).0 (
        P.apply_succeeds deployment_kind (new_extension d)
          (mutate_extension (real_helper U scheme) d) s.world a
          (O.reference_ok d _ scheme (ap (λ (m : ObjectMeta). m.owner_references) k))
          (key_of-same (O.reference_SameObject d _ scheme) ∙ ap key_of k)
          (deployable.imaged ∙ rw given refl))

  -- The DaemonSet, which has no image, is refused.
  pub handle_node_metrics-refused :
      IsValidating Q
      → Q.find daemon_set_kind (metrics_name s.dev_config) s.world ≡ none
      → let r = handle_node_metrics C (real_helper U scheme) s in
        ((e : Error U.Failure) × (r.0 ≡ some e))
        × (Q.find daemon_set_kind (metrics_name s.dev_config) r.1.world ≡ none)
  unfolding handle_node_metrics mutate_metrics new_node_metrics
  handle_node_metrics-refused V a =
      let d = s.dev_config in
      let (ds, same, placed, _) = (set_node_metrics-IsPlaced U scheme d).1 (new_daemon_set d) in
      let written : Option DaemonSet → DaemonSet =
        λ o. elim o [ some x ↦ x | none ↦ new_daemon_set d ] in
      let (failed, gone) =
        V.refused daemon_set_kind (new_daemon_set d) (mutate_metrics (real_helper U scheme) d)
          s.world a
          (ap (λ (r : Option DaemonSet × GoError U). images_given (written r.0).spec.template.spec)
              same
            ∙ placed.imageless) in
      (error_of-err (C.create_or_patch _ _ _ _).0 failed, gone)

  pub handle_kmm_module-find :
      (j : Kind) (n : NamespacedName)
      → j ≢ module_kind
      → Q.find j n (handle_kmm_module C (real_helper U scheme) s).1.world ≡ Q.find j n s.world
  unfolding handle_kmm_module
  handle_kmm_module-find j n x = Q.apply_other_kind module_kind _ _ _ j n x

  apply_scheduler-find :
      (n : NamespacedName)
      → Q.find daemon_set_kind n (apply_scheduler C (real_helper U scheme) s).1.world
        ≡ Q.find daemon_set_kind n s.world
  unfolding apply_scheduler
  apply_scheduler-find n = Q.apply_other_kind deployment_kind _ _ _ daemon_set_kind n (λ x. cc (x))

  apply_extension-find :
      (n : NamespacedName)
      → Q.find daemon_set_kind n (apply_extension C (real_helper U scheme) s).1.world
        ≡ Q.find daemon_set_kind n s.world
  unfolding apply_extension
  apply_extension-find n = Q.apply_other_kind deployment_kind _ _ _ daemon_set_kind n (λ x. cc (x))

  -- The extension is still absent when the scheduler is there.
  apply_scheduler-extension :
      Q.find deployment_kind (extension_name s.dev_config) s.world ≡ none
      → let t = (apply_scheduler C (real_helper U scheme) s).1 in
        Q.find deployment_kind (extension_name t.dev_config) t.world ≡ none
  unfolding apply_scheduler
  apply_scheduler-extension a =
      Q.apply_other_name deployment_kind _ _ _ (extension_name s.dev_config)
        (λ x. scheduler-ne-extension s.dev_config s.dev_config (sym x))
      ∙ a

  apply_scheduler-given :
      (s.dev_config.spec.scheduler_extension_image == "") ≡ false
      → ((apply_scheduler C (real_helper U scheme) s).1.dev_config.spec.scheduler_extension_image
          == "")
        ≡ false
  unfolding apply_scheduler
  apply_scheduler-given given = given

module _ {U : Util} {C : Client U} (Q : IsQuiet C) (P : IsPrompt Q) (O : HandlesOwners U)
    (scheme : U.Scheme) where
  pub handle_custom_scheduler-nil :
      (s : State C)
      → Q.find deployment_kind (scheduler_name s.dev_config) s.world ≡ none
      → Q.find deployment_kind (extension_name s.dev_config) s.world ≡ none
      → (s.dev_config.spec.custom_scheduler_image == "") ≡ false
      → (s.dev_config.spec.scheduler_extension_image == "") ≡ false
      → ((handle_custom_scheduler C (real_helper U scheme) s).0 ≡ none)
        × ((n : NamespacedName)
            → Q.find daemon_set_kind n (handle_custom_scheduler C (real_helper U scheme) s).1.world
              ≡ Q.find daemon_set_kind n s.world)
  unfolding handle_custom_scheduler
  handle_custom_scheduler-nil s a b i j =
      let h : Helper U = real_helper U scheme in
      let t : State C = (apply_scheduler C h s).1 in
      let nil =
        or_fail->>-returns "failed to create/patch custom scheduler deployment: "
          (apply_scheduler C h) (apply_extension C h) s (apply_scheduler-nil Q P O scheme s a i)
          (apply_extension-nil Q P O scheme t (apply_scheduler-extension Q P O scheme s b)
            (apply_scheduler-given Q P O scheme s j)) in
      (
        nil,
        λ n.
            ap (λ (r : GoError U × State C). Q.find daemon_set_kind n r.1.world)
              (or_fail->>-nil "failed to create/patch custom scheduler deployment: "
                (apply_scheduler C h) (apply_extension C h) s nil).1
            ∙ (apply_extension-find Q P O scheme t n ∙ apply_scheduler-find Q P O scheme s n),
      )
