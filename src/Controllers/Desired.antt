-- ===== src/Controllers/Desired.antt =====
-- internal/controllers/device_config_reconciler.go: Reconcile with the three builders of the repository, when it
-- returns nil or an error of handleNodeMetrics.
use mathlib.Core.Path.{subst}
use operator_for_ai_chips_on.Common.{
  ◌≡◌, sym, ap, ◌∙◌, false, ◌⊎◌, inl, inr, Option, none, some, is_some,
}
use operator_for_ai_chips_on.K8s.{Module, DaemonSet, Deployment}
use operator_for_ai_chips_on.Api.{DeviceConfig}
use operator_for_ai_chips_on.Kube.{
  module_kind, daemon_set_kind, deployment_kind, Util, Client, GoError,
}
use operator_for_ai_chips_on.Kube.Lawful.{HandlesFinalizers, IsQuiet, SameObject}
use operator_for_ai_chips_on.KmmModule.{new_kmm_module}
use operator_for_ai_chips_on.KmmModule.Laws.{IsWanted, set_kmm_module-IsWanted}
use operator_for_ai_chips_on.CustomScheduler.{new_custom_scheduler}
use operator_for_ai_chips_on.CustomScheduler.Laws.{
  IsDeployable, set_custom_scheduler-IsDeployable, set_custom_scheduler_extension-IsDeployable,
}
use operator_for_ai_chips_on.NodeMetrics.{new_node_metrics}
use operator_for_ai_chips_on.NodeMetrics.Laws.{IsPlaced, set_node_metrics-IsPlaced}
use operator_for_ai_chips_on.Controllers.Objects.{
  Helper, module_name, metrics_name, scheduler_name, extension_name, mutate_module,
  mutate_scheduler, mutate_extension, mutate_metrics,
}
use operator_for_ai_chips_on.Controllers.Applied.{Holds}
use operator_for_ai_chips_on.Controllers.Converge.{result, set_finalizer-config}
use operator_for_ai_chips_on.Controllers.Handled.{IsOfMetrics, reconcile-MostHandled}
use operator_for_ai_chips_on.Controllers.Reconcile.{State}
use operator_for_ai_chips_on.Controllers.Helper.{set_finalizer}

-- The helper that main makes.
abbrev pub real_helper : (U : Util) → U.Scheme → Helper U
real_helper U scheme = record {
  kmm_handler = new_kmm_module U scheme;
  cs_handler = new_custom_scheduler;
  nm_handler = new_node_metrics U scheme;
  scheme = scheme;
}

module _ {U : Util} {C : Client U} (Q : IsQuiet C) where
  -- The API server holds the Module and the Deployments that a DeviceConfig asks for.
  pub record IsDesired (d : DeviceConfig) (w : C.World) : Type 0 where
    pub kmm_module :
        (m : Module) × IsWanted d m
        × (Q.find module_kind (module_name d) w ≡ some (Q.admit module_kind m))
    pub scheduler :
        (dp : Deployment) × IsDeployable d.spec.custom_scheduler_image dp.spec
        × (Q.find deployment_kind (scheduler_name d) w ≡ some (Q.admit deployment_kind dp))
    pub extension :
        (dp : Deployment) × IsDeployable d.spec.scheduler_extension_image dp.spec
        × (Q.find deployment_kind (extension_name d) w ≡ some (Q.admit deployment_kind dp))

  -- The API server holds the DaemonSet of the metrics that a DeviceConfig asks for.
  abbrev pub IsMeasured : DeviceConfig → C.World → Type 0
  IsMeasured d w =
      (ds : DaemonSet) × IsPlaced U d ds
      × (Q.find daemon_set_kind (metrics_name d) w ≡ some (Q.admit daemon_set_kind ds))

  module _ (scheme : U.Scheme) (d : DeviceConfig) (w : C.World) where
    kmm_module-IsWanted :
        Holds Q module_kind (module_name d) (mutate_module (real_helper U scheme) d) w
        → (m : Module) × IsWanted d m
          × (Q.find module_kind (module_name d) w ≡ some (Q.admit module_kind m))
    unfolding mutate_module new_kmm_module
    kmm_module-IsWanted (before, _, found) =
        (_, (set_kmm_module-IsWanted U scheme before d).0, found)

    scheduler-IsDeployable :
        Holds Q deployment_kind (scheduler_name d) (mutate_scheduler (real_helper U scheme) d) w
        → (dp : Deployment) × IsDeployable d.spec.custom_scheduler_image dp.spec
          × (Q.find deployment_kind (scheduler_name d) w ≡ some (Q.admit deployment_kind dp))
    unfolding mutate_scheduler new_custom_scheduler
    scheduler-IsDeployable (before, _, found) =
        (_, (set_custom_scheduler-IsDeployable before d).1, found)

    extension-IsDeployable :
        Holds Q deployment_kind (extension_name d) (mutate_extension (real_helper U scheme) d) w
        → (dp : Deployment) × IsDeployable d.spec.scheduler_extension_image dp.spec
          × (Q.find deployment_kind (extension_name d) w ≡ some (Q.admit deployment_kind dp))
    unfolding mutate_extension new_custom_scheduler
    extension-IsDeployable (before, _, found) =
        (_, (set_custom_scheduler_extension-IsDeployable before d).1, found)

    metrics-IsMeasured :
        Holds Q daemon_set_kind (metrics_name d) (mutate_metrics (real_helper U scheme) d) w
        → IsMeasured d w
    unfolding mutate_metrics new_node_metrics
    metrics-IsMeasured (before, _, found) =
        let (ds, same, deployable, _) = (set_node_metrics-IsPlaced U scheme d).1 before in
        (
          ds,
          deployable,
          found
              ∙ ap
                  (λ (r : Option DaemonSet × GoError U).
                    some (
                      Q.admit daemon_set_kind
                        (elim r.0 [ some written ↦ written | none ↦ before ])))
                  same,
        )

module _ {U : Util} {C : Client U} (Q : IsQuiet C) (F : HandlesFinalizers U) (scheme : U.Scheme)
    (d : DeviceConfig) (w : C.World) where
  -- If Reconcile, with the helper that main makes, is given the stored DeviceConfig, which is not
  -- being deleted, and returns nil or an error of handleNodeMetrics, then the API server holds, up
  -- to its own defaults, a Module that the DeviceConfig asks for and two Deployments whose selectors
  -- match their own pods, whose mounts name declared volumes and whose container runs the image that
  -- the DeviceConfig names; and if it returns nil, a DaemonSet whose selector matches its own pods,
  -- whose mounts name declared volumes, whose pods run on the nodes where the kernel module is
  -- ready, and whose container has no image. The DeviceConfig is the one that the patch of the
  -- finalizer left, with the same specification, name and namespace.
  pub reconcile-IsDesired :
      Q.stored (module_name d) w ≡ some d
      → is_some d.meta.deletion_timestamp ≡ false
      → ((result Q F (real_helper U scheme) d w).1 ≡ none)
        ⊎ IsOfMetrics U (result Q F (real_helper U scheme) d w).1
      → let r = result Q F (real_helper U scheme) d w in
        IsDesired Q r.2.dev_config r.2.world
        × (((r.1 ≡ none) × IsMeasured Q r.2.dev_config r.2.world) ⊎ IsOfMetrics U r.1)
        × SameObject r.2.dev_config.meta d.meta
        × (r.2.dev_config.spec ≡ d.spec)
  reconcile-IsDesired fresh live passed =
      let h : Helper U = real_helper U scheme in
      let w' : C.World = (result Q F h d w).2.world in
      let (nil, (most, last), kept) =
        reconcile-MostHandled Q h (record { world = w; dev_config = d }) live passed in
      let config = set_finalizer-config Q F h d w fresh nil in
      let t : State C = (set_finalizer C h (record { world = w; dev_config = d })).1 in
      subst
        (λ (e : DeviceConfig).
          IsDesired Q e w'
          × ((((result Q F h d w).1 ≡ none) × IsMeasured Q e w')
              ⊎ IsOfMetrics U (result Q F h d w).1)
          × SameObject e.meta d.meta
          × (e.spec ≡ d.spec))
        (sym kept)
        (
          record {
            kmm_module = kmm_module-IsWanted Q scheme t.dev_config w' most.kmm_module;
            scheduler = scheduler-IsDeployable Q scheme t.dev_config w' most.scheduler;
            extension = extension-IsDeployable Q scheme t.dev_config w' most.extension;
          },
          elim last [
            | inl (done, metrics) ↦ inl (done, metrics-IsMeasured Q scheme t.dev_config w' metrics)
            | inr e ↦ inr e
          ],
          config.0,
          config.1,
        )
