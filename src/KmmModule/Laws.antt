-- ===== src/KmmModule/Laws.antt =====
-- internal/kmmmodule/kmmmodule.go: SetKMMModuleAsDesired and getNodeSelector.
use operator_for_ai_chips_on.Common.{
  String, ◌<>◌, ◌≡◌, refl, true, Option, none, some, [], ◌∷◌, arith, ◌==◌, eq_iff, if◌then◌else◌,
}
use operator_for_ai_chips_on.Common.Dict.{lookup}
use operator_for_ai_chips_on.K8s.{Module}
use operator_for_ai_chips_on.K8s.Selectors.{mounts_declared}
use operator_for_ai_chips_on.Api.{DeviceConfig}
use operator_for_ai_chips_on.Kube.{Util}
use operator_for_ai_chips_on.KmmModule.{set_kmm_module_as_desired, get_node_selector}

-- The pointer is not nil, and what it points to satisfies the predicate.
abbrev Given : {A : Type 0} → Option A → (A → Type 0) → Type 0
Given none P = ⊥
Given (some a) P = P a

-- What a DeviceConfig asks of its Module: the kernel mapping for every kernel names the drivers
-- image for the running kernel, the module that is loaded is the one of the tree that is removed,
-- the device plugin runs its image over volumes that are declared, and the secret and the nodes are
-- those of the DeviceConfig.
pub record IsWanted (d : DeviceConfig) (m : Module) : Type 0 where
  pub mappings : Given m.spec.module_loader λ l.
      l.container.kernel_mappings
      ≡ record {
        regexp = "^.+$";
        container_image = d.spec.drivers_image <> "-$KERNEL_VERSION";
        in_tree_modules_to_remove = l.container.modprobe_module_name ∷ [];
      }
        ∷ []
  pub plugin_image : Given m.spec.device_plugin λ p. p.container.image ≡ d.spec.device_plugin_image
  pub plugin_mounts :
      Given m.spec.device_plugin λ p. mounts_declared p.container.volume_mounts p.volumes ≡ true
  pub secret : m.spec.image_repo_secret ≡ d.spec.image_repo_secret
  pub selector : m.spec.selector ≡ some (get_node_selector d)

module _ (U : Util) (scheme : U.Scheme) where
  -- Whatever the Module was before, it is what the DeviceConfig asks for after
  -- SetKMMModuleAsDesired: the kernel mapping for every kernel names the drivers image with the
  -- suffix `-$KERNEL_VERSION`, the module that is loaded is the one of the tree that is removed, the
  -- device plugin runs its image and mounts volumes that are declared, and the secret and the node
  -- selector are those of the DeviceConfig. Its metadata and the error are what
  -- SetControllerReference answers for the metadata that it had, and the fields of its specification
  -- that the operator does not name are as they were.
  pub set_kmm_module-IsWanted :
      (m : Module) (d : DeviceConfig)
      → let (m', e) = set_kmm_module_as_desired U scheme m d in
        IsWanted d m'
        × (m'.meta ≡ (U.set_controller_reference d m.meta scheme).0)
        × (e ≡ (U.set_controller_reference d m.meta scheme).1)
        × (m'.spec.others ≡ m.spec.others)
  unfolding set_kmm_module_as_desired mounts_declared
  set_kmm_module-IsWanted m d = (
    record {
      mappings = refl;
      plugin_image = refl;
      plugin_mounts = refl;
      secret = refl;
      selector = refl;
    },
    refl,
    refl,
    refl,
  )

-- The nodes are those of the selector of the DeviceConfig, also if it is empty, and those that carry
-- the label of the PCI vendor if there is none.
pub get_node_selector-label :
    (d : DeviceConfig) (k : String)
    → lookup k (get_node_selector d) ≡ elim d.spec.selector [
      | some selector ↦ lookup k selector
      | none ↦ if k == "feature.node.kubernetes.io/pci-1d0f.present" then some "true" else none
    ]
unfolding get_node_selector lookup
get_node_selector-label d k = ground (
  arith,
  eq_iff k "feature.node.kubernetes.io/pci-1d0f.present",
  eq_iff "feature.node.kubernetes.io/pci-1d0f.present" k,
)
