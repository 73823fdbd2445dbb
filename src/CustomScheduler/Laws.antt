-- ===== src/CustomScheduler/Laws.antt =====
-- internal/customscheduler/customscheduler.go: the two setters.
use mathlib.Core.Path.{subst}
use operator_for_ai_chips_on.Common.{
  String, ◌≡◌, refl, true, false, some, ◌==◌, arith, map, [], ◌∷◌, if◌then◌else◌,
}
use operator_for_ai_chips_on.K8s.{Deployment, DeploymentSpec, DaemonSet}
use operator_for_ai_chips_on.K8s.Selectors.{selector_selects, pod_mounts_declared, images_given}
use operator_for_ai_chips_on.Api.{DeviceConfig}
use operator_for_ai_chips_on.CustomScheduler.{
  set_custom_scheduler_as_desired, set_custom_scheduler_extension_as_desired,
}
use operator_for_ai_chips_on.NodeMetrics.{set_node_metrics_as_desired}
use operator_for_ai_chips_on.Kube.{Util}

-- Its selector matches its own pods, every mount names a volume, one replica is asked for, its one
-- container runs the given image, and has an image at all exactly if that text is not empty.
pub record IsDeployable (image : String) (spec : DeploymentSpec) : Type 0 where
  pub selected : selector_selects spec.selector spec.template.labels ≡ true
  pub mounted : pod_mounts_declared spec.template.spec ≡ true
  pub single : spec.replicas ≡ some 1
  pub runs : map (λ c. c.image) spec.template.spec.containers ≡ image ∷ []
  pub imaged : images_given spec.template.spec ≡ (if image == "" then false else true)

module _ (dp : Deployment) (d : DeviceConfig) where
  -- The setter of the scheduler keeps the metadata and makes a Deployment of one replica whose
  -- selector matches its own pods, whose mounts name declared volumes, and whose one container runs
  -- `customSchedulerImage`, so that it has an image exactly if that field is not empty.
  pub set_custom_scheduler-IsDeployable :
      let dp' = set_custom_scheduler_as_desired dp d in
      (dp'.meta ≡ dp.meta) × IsDeployable d.spec.custom_scheduler_image dp'.spec
  unfolding set_custom_scheduler_as_desired selector_selects pod_mounts_declared images_given
  set_custom_scheduler-IsDeployable = (
    refl,
    record { selected = refl; mounted = refl; single = refl; runs = refl; imaged = ground arith },
  )

  -- The same of the setter of the extension, with `schedulerExtensionImage`.
  pub set_custom_scheduler_extension-IsDeployable :
      let dp' = set_custom_scheduler_extension_as_desired dp d in
      (dp'.meta ≡ dp.meta) × IsDeployable d.spec.scheduler_extension_image dp'.spec
  unfolding set_custom_scheduler_extension_as_desired selector_selects pod_mounts_declared
      images_given
  set_custom_scheduler_extension-IsDeployable = (
    refl,
    record { selected = refl; mounted = refl; single = refl; runs = refl; imaged = ground arith },
  )

of_some : {A : Type 0} (P : A → Type 0) {a b : A} → some a ≡ some b → P a → P b
of_some P {a} {b} p x = subst P {x = a} {y = b} (cc (p)) x

-- Whatever the DeviceConfigs, the selector of a scheduler Deployment, of an extension Deployment and
-- of a DaemonSet of the metrics matches none of the pods of the other two.
pub selectors_apart :
    (U : Util) (scheme : U.Scheme) (dp ep : Deployment) (before ds : DaemonSet)
    (d e f : DeviceConfig)
    → (set_node_metrics_as_desired U scheme (some before) f).0 ≡ some ds
    → let s = (set_custom_scheduler_as_desired dp d).spec in
      let x = (set_custom_scheduler_extension_as_desired ep e).spec in
      (selector_selects s.selector x.template.labels ≡ false)
      × (selector_selects x.selector s.template.labels ≡ false)
      × (selector_selects s.selector ds.spec.template.labels ≡ false)
      × (selector_selects x.selector ds.spec.template.labels ≡ false)
      × (selector_selects ds.spec.selector s.template.labels ≡ false)
      × (selector_selects ds.spec.selector x.template.labels ≡ false)
unfolding set_custom_scheduler_as_desired set_custom_scheduler_extension_as_desired selector_selects
    set_node_metrics_as_desired
selectors_apart U scheme dp ep before ds d e f p =
    let s : DeploymentSpec = (set_custom_scheduler_as_desired dp d).spec in
    let x : DeploymentSpec = (set_custom_scheduler_extension_as_desired ep e).spec in
    of_some
      (λ (y : DaemonSet).
        (selector_selects s.selector x.template.labels ≡ false)
        × (selector_selects x.selector s.template.labels ≡ false)
        × (selector_selects s.selector y.spec.template.labels ≡ false)
        × (selector_selects x.selector y.spec.template.labels ≡ false)
        × (selector_selects y.spec.selector s.template.labels ≡ false)
        × (selector_selects y.spec.selector x.template.labels ≡ false))
      p (refl, refl, refl, refl, refl, refl)
