-- ===== src/Api/Heap.antt =====
-- A store for what the generated code of api/v1alpha1 shares by pointer: secrets, label maps,
-- DeviceConfigs and the arrays behind slices. Addresses are numbers; those from `next` on are free.
use operator_for_ai_chips_on.Common.{
  ℕ, suc, String, Bool, Option, none, some, List, ◌==ℕ◌, if◌then◌else◌,
}
use operator_for_ai_chips_on.Common.Dict.{Dict}
use operator_for_ai_chips_on.K8s.{LocalObjectReference}
use operator_for_ai_chips_on.Api.{DeviceConfigStatus}

abbrev pub Ptr : Type 0
Ptr = ℕ

-- metav1.TypeMeta
pub record TypeMeta : Type 0 where
  pub kind : String
  pub api_version : String

-- The DeviceConfigSpec struct as it lies in memory.
pub record SpecCell : Type 0 where
  pub use_in_tree_drivers : Bool
  pub drivers_image : String
  pub device_plugin_image : String
  pub custom_scheduler_image : String
  pub scheduler_extension_image : String
  pub image_repo_secret : Option Ptr
  pub selector : Option Ptr

-- The DeviceConfig struct; `M` is the type of its metadata, whose code is elsewhere.
pub record ConfigCell (M : Type 0) : Type 0 where
  pub type_meta : TypeMeta
  pub object_meta : M
  pub spec : SpecCell
  pub status : DeviceConfigStatus

-- `R` is the store of what metadata refers to.
pub record Heap (M R : Type 0) : Type 0 where
  pub next : Ptr
  pub secrets : Ptr → Option LocalObjectReference
  pub maps : Ptr → Option (Dict String)
  pub configs : Ptr → Option (ConfigCell M)
  pub arrays : Ptr → Option (List (ConfigCell M))
  pub metas : R

abbrev pub update {ℓ} : {A : Type ℓ} → (Ptr → Option A) → Ptr → A → Ptr → Option A
update f p a q = if p ==ℕ q then some a else f q

-- `none` is a fault, such as a read through a dangling pointer.
abbrev pub Cmd : (M R : Type 0) → Type 0 → Type 0
Cmd M R A = Heap M R → Option (A × Heap M R)

module _ {M R : Type 0} where
  abbrev pub pure : {A : Type 0} → A → Cmd M R A
  pure a h = some (a, h)

  infixl 5 ◌>>=◌
  abbrev pub ◌>>=◌ : {A B : Type 0} → Cmd M R A → (A → Cmd M R B) → Cmd M R B
  ◌>>=◌ m f h = elim (m h) [ none ↦ none | some (a, h') ↦ f a h' ]

  -- `*p`
  abbrev pub load : {A : Type 0} → (Heap M R → Ptr → Option A) → Ptr → Cmd M R A
  load cells p h = elim (cells h p) [ none ↦ none | some a ↦ some (a, h) ]

  -- `new(T)` followed by a write of the whole value.
  abbrev pub new_secret : LocalObjectReference → Cmd M R Ptr
  new_secret a h =
      some (h.next, record h { next = suc h.next; secrets = update h.secrets h.next a })

  abbrev pub new_map : Dict String → Cmd M R Ptr
  new_map a h = some (h.next, record h { next = suc h.next; maps = update h.maps h.next a })

  abbrev pub new_config : ConfigCell M → Cmd M R Ptr
  new_config a h =
      some (h.next, record h { next = suc h.next; configs = update h.configs h.next a })

  abbrev pub new_array : List (ConfigCell M) → Cmd M R Ptr
  new_array a h = some (h.next, record h { next = suc h.next; arrays = update h.arrays h.next a })
