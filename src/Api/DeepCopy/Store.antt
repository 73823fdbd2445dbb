-- ===== src/Api/DeepCopy/Store.antt =====
-- The store under the copies of api/v1alpha1/zz_generated.deepcopy.go: the values in it, and what it
-- means that a run only allocates.
use operator_for_ai_chips_on.Common.{
  suc, ◌≤◌, ◌<◌, String, ◌≡◌, refl, ap, ◌∙◌, Bool, true, Option, none, some, arith, is_some,
}
use operator_for_ai_chips_on.Common.Dict.{Dict, lookup}
use operator_for_ai_chips_on.K8s.{ObjectMeta, LocalObjectReference}
use operator_for_ai_chips_on.Api.{DeviceConfigStatus}
use operator_for_ai_chips_on.Api.Heap.{TypeMeta, Ptr, SpecCell, ConfigCell, Heap, Cmd, update}

-- The run does not fault, and its result satisfies the predicate.
abbrev pub Returns : {M R A : Type 0} → Option (A × Heap M R) → (A → Heap M R → Type 0) → Type 0
Returns none P = ⊥
Returns (some (a, h)) P = P a h

-- The value of a map is a function of the key.
abbrev pub map_value : Option (Dict String) → Option (String → Option String)
map_value none = none
map_value (some m) = some (λ k. lookup k m)

pub update-old :
    {A : Type 0} (f : Ptr → Option A) (a : A) (p q : Ptr) → q < p → update f p a q ≡ f q
update-old f a p q l = ground arith

pub update-new : {A : Type 0} (f : Ptr → Option A) (a : A) (p : Ptr) → update f p a p ≡ some a
update-new f a p = ground arith

module _ {M R : Type 0} where
  abbrev pub secret_at : Heap M R → Option Ptr → Option LocalObjectReference
  secret_at h none = none
  secret_at h (some p) = h.secrets p

  abbrev pub map_at : Heap M R → Option Ptr → Option (String → Option String)
  map_at h none = none
  map_at h (some p) = map_value (h.maps p)

  -- Everything below the free addresses is as it was, and so is the value `V` of all metadata.
  pub record IsExtended (V : M → R → ObjectMeta) (h h' : Heap M R) : Type 0 where
    pub next : h.next ≤ h'.next
    pub secrets : (p : Ptr) → p < h.next → h'.secrets p ≡ h.secrets p
    pub maps : (p : Ptr) → p < h.next → h'.maps p ≡ h.maps p
    pub configs : (p : Ptr) → p < h.next → h'.configs p ≡ h.configs p
    pub arrays : (p : Ptr) → p < h.next → h'.arrays p ≡ h.arrays p
    pub metas : (m : M) → V m h'.metas ≡ V m h.metas

  -- A nil pointer, or one to an allocated cell.
  abbrev pub IsSecretPtr : Heap M R → Option Ptr → Type 0
  IsSecretPtr h none = Unit {0}
  IsSecretPtr h (some p) = (p < h.next) × (is_some (h.secrets p) ≡ true)

  abbrev pub IsMapPtr : Heap M R → Option Ptr → Type 0
  IsMapPtr h none = Unit {0}
  IsMapPtr h (some p) = (p < h.next) × (is_some (h.maps p) ≡ true)

  -- Nil, or not allocated in `h`.
  abbrev pub IsNew : Heap M R → Option Ptr → Type 0
  IsNew h none = Unit {0}
  IsNew h (some p) = h.next ≤ p

  pub IsExtended-refl : (V : M → R → ObjectMeta) (h : Heap M R) → IsExtended V h h
  IsExtended-refl V h = record {
    next = omega arith;
    secrets = λ p _. refl;
    maps = λ p _. refl;
    configs = λ p _. refl;
    arrays = λ p _. refl;
    metas = λ _. refl;
  }

  pub IsExtended-trans :
      (V : M → R → ObjectMeta) (h i j : Heap M R)
      → IsExtended V h i
      → IsExtended V i j
      → IsExtended V h j
  IsExtended-trans V h i j e f = record {
    next = omega (arith, e.next, f.next);
    secrets = λ p l. f.secrets p (omega (arith, e.next, l)) ∙ e.secrets p l;
    maps = λ p l. f.maps p (omega (arith, e.next, l)) ∙ e.maps p l;
    configs = λ p l. f.configs p (omega (arith, e.next, l)) ∙ e.configs p l;
    arrays = λ p l. f.arrays p (omega (arith, e.next, l)) ∙ e.arrays p l;
    metas = λ m. f.metas m ∙ e.metas m;
  }

  pub Returns-bind :
      {A B : Type 0} (m : Option (A × Heap M R)) (f : A → Cmd M R B) (P : A → Heap M R → Type 0)
      (Q : B → Heap M R → Type 0)
      → Returns m P
      → ((a : A) (h : Heap M R) → P a h → Returns (f a h) Q)
      → Returns (elim m [ none ↦ none | some (a, h') ↦ f a h' ]) Q
  Returns-bind none f P Q r k = absurd r
  Returns-bind (some (a, h)) f P Q r k = k a h r

  abbrev pub with_secret : Heap M R → LocalObjectReference → Heap M R
  with_secret h v = record h { next = suc h.next; secrets = update h.secrets h.next v }

  abbrev pub with_map : Heap M R → Dict String → Heap M R
  with_map h m = record h { next = suc h.next; maps = update h.maps h.next m }

  pub IsExtended-with_secret :
      (V : M → R → ObjectMeta) (h : Heap M R) (v : LocalObjectReference)
      → IsExtended V h (with_secret h v)
  IsExtended-with_secret V h v = record {
    next = omega arith;
    secrets = λ p l. update-old h.secrets v h.next p l;
    maps = λ p _. refl;
    configs = λ p _. refl;
    arrays = λ p _. refl;
    metas = λ _. refl;
  }

  pub IsExtended-with_map :
      (V : M → R → ObjectMeta) (h : Heap M R) (m : Dict String) → IsExtended V h (with_map h m)
  IsExtended-with_map V h m = record {
    next = omega arith;
    secrets = λ p _. refl;
    maps = λ p l. update-old h.maps m h.next p l;
    configs = λ p _. refl;
    arrays = λ p _. refl;
    metas = λ _. refl;
  }

-- What a struct means, its pointers followed. The value of a DeviceConfig is parametric in that of
-- its metadata.
pub record SpecValue : Type 0 where
  pub use_in_tree_drivers : Bool
  pub drivers_image : String
  pub device_plugin_image : String
  pub custom_scheduler_image : String
  pub scheduler_extension_image : String
  pub image_repo_secret : Option LocalObjectReference
  pub selector : Option (String → Option String)

pub record ConfigValue : Type 0 where
  pub type_meta : TypeMeta
  pub object_meta : ObjectMeta
  pub spec : SpecValue
  pub status : DeviceConfigStatus

module _ {M R : Type 0} where
  abbrev pub spec_value : Heap M R → SpecCell → SpecValue
  spec_value h s = record {
    use_in_tree_drivers = s.use_in_tree_drivers;
    drivers_image = s.drivers_image;
    device_plugin_image = s.device_plugin_image;
    custom_scheduler_image = s.custom_scheduler_image;
    scheduler_extension_image = s.scheduler_extension_image;
    image_repo_secret = secret_at h s.image_repo_secret;
    selector = map_at h s.selector;
  }

  abbrev pub config_value : (M → R → ObjectMeta) → Heap M R → ConfigCell M → ConfigValue
  config_value V h c = record {
    type_meta = c.type_meta;
    object_meta = V c.object_meta h.metas;
    spec = spec_value h c.spec;
    status = c.status;
  }

  -- The pointers of the struct are nil or lead to allocated cells.
  abbrev pub IsValidSpec : Heap M R → SpecCell → Type 0
  IsValidSpec h s = IsSecretPtr h s.image_repo_secret × IsMapPtr h s.selector

  -- The pointers of the struct are nil or lead to cells that `h` has not allocated.
  abbrev pub IsNewSpec : Heap M R → SpecCell → Type 0
  IsNewSpec h s = IsNew h s.image_repo_secret × IsNew h s.selector

  -- Allocation changes neither the value nor the validity of what is there.
  module _ (V : M → R → ObjectMeta) (h h' : Heap M R) (e : IsExtended V h h') where
    pub secret_at-extended : (o : Option Ptr) → IsSecretPtr h o → secret_at h' o ≡ secret_at h o
    secret_at-extended none ok = refl
    secret_at-extended (some p) ok = e.secrets p ok.0

    pub map_at-extended : (o : Option Ptr) → IsMapPtr h o → map_at h' o ≡ map_at h o
    map_at-extended none ok = refl
    map_at-extended (some p) ok = ap map_value (e.maps p ok.0)

    pub IsSecretPtr-extended : (o : Option Ptr) → IsSecretPtr h o → IsSecretPtr h' o
    IsSecretPtr-extended none ok = tt
    IsSecretPtr-extended (some p) ok = (omega (arith, e.next), ap is_some (e.secrets p ok.0) ∙ ok.1)

    pub IsMapPtr-extended : (o : Option Ptr) → IsMapPtr h o → IsMapPtr h' o
    IsMapPtr-extended none ok = tt
    IsMapPtr-extended (some p) ok = (omega (arith, e.next), ap is_some (e.maps p ok.0) ∙ ok.1)

    pub IsNew-extended : (o : Option Ptr) → IsNew h' o → IsNew h o
    IsNew-extended none f = tt
    IsNew-extended (some p) f = omega (arith, e.next)

    pub IsValidSpec-extended : (s : SpecCell) → IsValidSpec h s → IsValidSpec h' s
    IsValidSpec-extended s ok =
        (IsSecretPtr-extended s.image_repo_secret ok.0, IsMapPtr-extended s.selector ok.1)

    pub spec_value-extended : (s : SpecCell) → IsValidSpec h s → spec_value h' s ≡ spec_value h s
    spec_value-extended s ok =
        cc (secret_at-extended s.image_repo_secret ok.0, map_at-extended s.selector ok.1)

    pub config_value-extended :
        (c : ConfigCell M) → IsValidSpec h c.spec → config_value V h' c ≡ config_value V h c
    config_value-extended c ok = cc (e.metas c.object_meta, spec_value-extended c.spec ok)
