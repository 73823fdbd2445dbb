-- ===== src/Controllers/First.antt =====
-- internal/controllers/device_config_reconciler.go: the first Reconcile of a DeviceConfig, on an API server that
-- validates what is created.
use mathlib.Core.Path.{subst}
use operator_for_ai_chips_on.Common.{
  ◌≡◌, refl, sym, ap, ◌∙◌, ◌==◌, false, inr, none, some, is_some, arith,
}
use operator_for_ai_chips_on.K8s.{NamespacedName}
use operator_for_ai_chips_on.Api.{DeviceConfig}
use operator_for_ai_chips_on.Kube.{
  Kind, module_kind, daemon_set_kind, deployment_kind, Util, Client, GoError,
}
use operator_for_ai_chips_on.Kube.Lawful.{
  HandlesFinalizers, HandlesOwners, IsQuiet, IsPrompt, IsValidating, SameObject,
}
use operator_for_ai_chips_on.Controllers.Objects.{
  Helper, device_config_finalizer, module_name, metrics_name, scheduler_name, extension_name,
}
use operator_for_ai_chips_on.Controllers.Reconcile.{
  State, Step, CtrlResult, handle_all, reconcile_live, or_fail,
}
use operator_for_ai_chips_on.Controllers.Helper.{
  set_finalizer, new_device_config_reconciler_helper, handle_kmm_module, handle_custom_scheduler,
  handle_node_metrics,
}
use operator_for_ai_chips_on.Controllers.Config.{
  handle_kmm_module-KeepsConfig, handle_custom_scheduler-KeepsConfig,
}
use operator_for_ai_chips_on.Controllers.Steps.{or_fail->>-passes, or_fail-of_error, reconcile-live}
use operator_for_ai_chips_on.Controllers.Handled.{IsOfMetrics, metrics_text}
use operator_for_ai_chips_on.Controllers.Guard.{
  has_finalizer, IsProtected, set_finalizer-IsProtected,
}
use operator_for_ai_chips_on.Controllers.Stored.{handle_all-KeepsStored}
use operator_for_ai_chips_on.Controllers.Desired.{real_helper, IsDesired, reconcile-IsDesired}
use operator_for_ai_chips_on.Controllers.Converge.{result, set_finalizer-config}
use operator_for_ai_chips_on.Controllers.Succeeds.{
  handle_kmm_module-nil, handle_kmm_module-find, handle_node_metrics-refused,
  handle_custom_scheduler-nil,
}

module _ {U : Util} {C : Client U} (Q : IsQuiet C) where
  -- None of the objects of the DeviceConfig exists.
  pub record IsVacant (d : DeviceConfig) (w : C.World) : Type 0 where
    pub kmm_module : Q.find module_kind (module_name d) w ≡ none
    pub scheduler : Q.find deployment_kind (scheduler_name d) w ≡ none
    pub extension : Q.find deployment_kind (extension_name d) w ≡ none
    pub metrics : Q.find daemon_set_kind (metrics_name d) w ≡ none

module _ {U : Util} {C : Client U} (Q : IsQuiet C) (F : HandlesFinalizers U) (P : IsPrompt Q)
    (V : IsValidating Q) (O : HandlesOwners U) (scheme : U.Scheme) where
  IsVacant-names :
      (d e : DeviceConfig) (w w' : C.World)
      → SameObject e.meta d.meta
      → ((k : Kind) (n : NamespacedName) → Q.find k n w' ≡ Q.find k n w)
      → IsVacant Q d w
      → IsVacant Q e w'
  IsVacant-names d e w w' same f v =
      let p : module_name e ≡ module_name d = cc (same.namespace, same.name) in
      let q : metrics_name e ≡ metrics_name d = cc (same.namespace, same.name) in
      let r : scheduler_name e ≡ scheduler_name d = cc (same.namespace, same.name) in
      let t : extension_name e ≡ extension_name d = cc (same.namespace, same.name) in
      record {
        kmm_module =
            f module_kind (module_name e) ∙ (ap (λ n. Q.find module_kind n w) p ∙ v.kmm_module);
        scheduler =
            f deployment_kind (scheduler_name e)
            ∙ (ap (λ n. Q.find deployment_kind n w) r ∙ v.scheduler);
        extension =
            f deployment_kind (extension_name e)
            ∙ (ap (λ n. Q.find deployment_kind n w) t ∙ v.extension);
        metrics =
            f daemon_set_kind (metrics_name e)
            ∙ (ap (λ n. Q.find daemon_set_kind n w) q ∙ v.metrics);
      }

  -- The images of the DeviceConfig are given.
  abbrev pub IsComplete : DeviceConfig → Type 0
  IsComplete d =
      ((d.spec.custom_scheduler_image == "") ≡ false)
      × ((d.spec.scheduler_extension_image == "") ≡ false)

  -- What the handlers return and leave: an error of handleNodeMetrics, and no DaemonSet.
  abbrev IsRefused : DeviceConfig → GoError U × State C → Type 0
  IsRefused d r = IsOfMetrics U r.0 × (Q.find daemon_set_kind (metrics_name d) r.1.world ≡ none)

  handle_node_metrics-IsRefused :
      (s : State C)
      → Q.find daemon_set_kind (metrics_name s.dev_config) s.world ≡ none
      → IsRefused s.dev_config
          (or_fail metrics_text (handle_node_metrics C (real_helper U scheme)) s)
  handle_node_metrics-IsRefused s a =
      let nm : Step C = handle_node_metrics C (real_helper U scheme) in
      let ((e, failed), gone) = handle_node_metrics-refused Q P O scheme s V a in
      subst (IsRefused s.dev_config) (sym (or_fail-of_error nm s metrics_text e failed))
        ((e, refl), gone)

  handle_all-IsRefused :
      (s : State C)
      → IsVacant Q s.dev_config s.world
      → IsComplete s.dev_config
      → IsRefused s.dev_config
          (handle_all (new_device_config_reconciler_helper C (real_helper U scheme)) s)
  unfolding handle_all new_device_config_reconciler_helper
  handle_all-IsRefused s v given =
      let h : Helper U = real_helper U scheme in
      let kmm : Step C = handle_kmm_module C h in
      let cs : Step C = handle_custom_scheduler C h in
      let t : State C = (kmm s).1 in
      let u : State C = (cs t).1 in
      let same_t = handle_kmm_module-KeepsConfig C h s in
      let same_u = handle_custom_scheduler-KeepsConfig C h t ∙ same_t in
      let deployment_left : (n : NamespacedName)
          → Q.find deployment_kind n t.world ≡ Q.find deployment_kind n s.world =
        λ n. handle_kmm_module-find Q P O scheme s deployment_kind n (λ x. cc (x)) in
      let given_t = subst IsComplete (sym same_t) given in
      let done =
        handle_custom_scheduler-nil Q P O scheme t
          (deployment_left (scheduler_name t.dev_config)
            ∙ (ap (λ d. Q.find deployment_kind (scheduler_name d) s.world) same_t ∙ v.scheduler))
          (deployment_left (extension_name t.dev_config)
            ∙ (ap (λ d. Q.find deployment_kind (extension_name d) s.world) same_t ∙ v.extension))
          given_t.0 given_t.1 in
      let last = handle_node_metrics-IsRefused u (
        done.1 (metrics_name u.dev_config)
        ∙ (handle_kmm_module-find Q P O scheme s daemon_set_kind (metrics_name u.dev_config)
              (λ x. cc (x))
            ∙ (ap (λ d. Q.find daemon_set_kind (metrics_name d) s.world) same_u ∙ v.metrics))) in
      subst (IsRefused s.dev_config)
        (sym (
          or_fail->>-passes "failed to handle KMM module for DeviceConfig: " kmm _ s
            (handle_kmm_module-nil Q P O scheme s v.kmm_module)
          ∙ or_fail->>-passes "failed to handle customScheduler for DeviceConfig: " cs _ t done.0))
        (subst
          (λ d. IsRefused d (or_fail metrics_text (handle_node_metrics C (real_helper U scheme)) u))
          same_u last)

  module _ (d : DeviceConfig) (w : C.World) where
    abbrev at : State C
    at = record { world = w; dev_config = d }

    abbrev first : State C
    first = (set_finalizer C (real_helper U scheme) at).1

    set_finalizer-nil :
        Q.stored (module_name d) w ≡ some d → (set_finalizer C (real_helper U scheme) at).0 ≡ none
    unfolding set_finalizer
    set_finalizer-nil fresh =
        let d' : DeviceConfig = record d {
          meta = U.add_finalizer d.meta device_config_finalizer;
        } in
        let same = F.add-SameObject d.meta device_config_finalizer in
        let key : module_name d' ≡ module_name d = cc (same.namespace, same.name) in
        ground (arith, P.patch_ok d' d d w (ap (λ n. Q.stored n w) key ∙ fresh))

    set_finalizer-find : (k : Kind) (n : NamespacedName) → Q.find k n first.world ≡ Q.find k n w
    unfolding set_finalizer
    set_finalizer-find k n =
        let d' : DeviceConfig = record d {
          meta = U.add_finalizer d.meta device_config_finalizer;
        } in
        ground (arith, Q.patch_find d' d w k n)

    reconcile-IsRefused :
        Q.stored (module_name d) w ≡ some d
        → is_some d.meta.deletion_timestamp ≡ false
        → IsVacant Q d w
        → IsComplete d
        → let r = result Q F (real_helper U scheme) d w in
          IsRefused d (r.1, r.2) × IsProtected Q (module_name d) r.2.world
    unfolding reconcile_live new_device_config_reconciler_helper
    reconcile-IsRefused fresh live v given =
        let h : Helper U = real_helper U scheme in
        let rest : Step C = handle_all (new_device_config_reconciler_helper C h) in
        let second : CtrlResult × GoError U × State C → GoError U × State C = λ r. (r.1, r.2) in
        let nil = set_finalizer-nil fresh in
        let config = set_finalizer-config Q F h d w fresh nil in
        let whole =
          ap second (reconcile-live (new_device_config_reconciler_helper C h) at live)
          ∙ or_fail->>-passes "failed to set finalizer for DeviceConfig: " (set_finalizer C h) rest
              at nil in
        let refused =
          handle_all-IsRefused first
            (IsVacant-names d first.dev_config w first.world config.0 set_finalizer-find v)
            (
              ap (λ x. x.custom_scheduler_image == "") config.1 ∙ given.0,
              ap (λ x. x.scheduler_extension_image == "") config.1 ∙ given.1,
            ) in
        let name : metrics_name first.dev_config ≡ metrics_name d =
          cc (config.0.namespace, config.0.name) in
        subst (λ (r : GoError U × State C). IsRefused d r × IsProtected Q (module_name d) r.1.world)
          (sym whole)
          (
            (
              refused.0,
              ap (λ n. Q.find daemon_set_kind n (rest first).1.world) (sym name) ∙ refused.1,
            ),
            ap (has_finalizer Q) (handle_all-KeepsStored Q h first (module_name d))
                ∙ set_finalizer-IsProtected Q F h d w fresh nil,
          )

    -- If the API server accepts every call, but for the creation of a workload that has a container
    -- without an image, and nobody else interferes, then the first Reconcile of a stored
    -- DeviceConfig that is not being deleted, of which no object exists yet, and which names both
    -- images, with the helper that main makes, returns an error of handleNodeMetrics. The API server
    -- then holds the DeviceConfig with the finalizer, and the Module and the two Deployments that
    -- the DeviceConfig asks for, and no DaemonSet of the metrics.
    pub reconcile-first :
        Q.stored (module_name d) w ≡ some d
        → is_some d.meta.deletion_timestamp ≡ false
        → IsVacant Q d w
        → IsComplete d
        → let r = result Q F (real_helper U scheme) d w in
          IsOfMetrics U r.1
          × IsProtected Q (module_name d) r.2.world
          × IsDesired Q r.2.dev_config r.2.world
          × (Q.find daemon_set_kind (metrics_name d) r.2.world ≡ none)
    reconcile-first fresh live v given =
        let k = reconcile-IsRefused fresh live v given in
        (k.0.0, k.1, (reconcile-IsDesired Q F scheme d w fresh live (inr k.0.0)).0, k.0.1)
