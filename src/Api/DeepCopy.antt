-- ===== src/Api/DeepCopy.antt =====
-- api/v1alpha1/zz_generated.deepcopy.go, over an explicit store.
pub mod Maps
pub mod Store
pub mod Pointers
pub mod Laws
pub mod Objects
pub mod Items
pub mod Lists
use operator_for_ai_chips_on.Common.{ℕ, String, Option, none, some, List, [], ◌∷◌}
use operator_for_ai_chips_on.Common.Dict.{Dict, insert}
use operator_for_ai_chips_on.K8s.{LocalObjectReference}
use operator_for_ai_chips_on.Api.{DeploymentStatus, DeviceConfigStatus}
use operator_for_ai_chips_on.Api.Heap.{
  Ptr, SpecCell, ConfigCell, Heap, Cmd, pure, ◌>>=◌, load, new_secret, new_map, new_config,
  new_array,
}

-- What the generated code takes from elsewhere: the copy of an ObjectMeta, and the order in which
-- `range` visits the entries of a map, of which the language promises nothing.
pub record Runtime (M R : Type 0) : Type 0 where
  pub copy_meta : M → R → M × R
  pub range : Dict String → List (String × String)

-- `for key, val := range *in { (*out)[key] = val }`
unfoldable pub copy_entries : List (String × String) → Dict String → Dict String
unfolding insert
copy_entries [] out = out
copy_entries ((key, val) ∷ entries) out = copy_entries entries (insert key val out)

-- The statuses hold no pointer.
unfoldable pub copy_deployment_status : DeploymentStatus → DeploymentStatus
copy_deployment_status s = s

unfoldable pub copy_status : DeviceConfigStatus → DeviceConfigStatus
copy_status s = record s { device_plugin = s.device_plugin; drivers = s.drivers }

module _ {M R : Type 0} (rt : Runtime M R) where
  unfoldable pub copy_secret : Option Ptr → Cmd M R (Option Ptr)
  copy_secret none = pure none
  copy_secret (some p) = do value ← load (λ h. h.secrets) p; q ← new_secret value; pure (some q)

  unfoldable pub copy_selector : Option Ptr → Cmd M R (Option Ptr)
  unfolding copy_entries
  copy_selector none = pure none
  copy_selector (some p) = do
    entries ← load (λ h. h.maps) p
    q ← new_map (copy_entries (rt.range entries) [])
    pure (some q)

  -- (*DeviceConfigSpec).DeepCopyInto: `*out = *in`, and then new targets for the two pointers.
  unfoldable pub copy_spec : SpecCell → Cmd M R SpecCell
  copy_spec s = do
    secret ← copy_secret s.image_repo_secret
    selector ← copy_selector s.selector
    pure (record s { image_repo_secret = secret; selector = selector })

  unfoldable pub copy_object_meta : M → Cmd M R M
  copy_object_meta m h =
      let (m', metas) = rt.copy_meta m h.metas in some (m', record h { metas = metas })

  -- (*DeviceConfig).DeepCopyInto
  unfoldable pub copy_config : ConfigCell M → Cmd M R (ConfigCell M)
  copy_config c = do
    meta ← copy_object_meta c.object_meta
    spec ← copy_spec c.spec
    pure (record c { object_meta = meta; spec = spec; status = c.status })

  -- (*DeviceConfig).DeepCopy, and DeepCopyObject: nil for nil.
  unfoldable pub deep_copy : Option Ptr → Cmd M R (Option Ptr)
  deep_copy none = pure none
  deep_copy (some p) = do
    c ← load (λ h. h.configs) p
    c' ← copy_config c
    q ← new_config c'
    pure (some q)

  -- `for i := range *in { (*in)[i].DeepCopyInto(&(*out)[i]) }`
  unfoldable pub copy_items : List (ConfigCell M) → Cmd M R (List (ConfigCell M))
  copy_items [] = pure []
  copy_items (c ∷ cs) = do c' ← copy_config c; cs' ← copy_items cs; pure (c' ∷ cs')

  -- The items of (*DeviceConfigList).DeepCopyInto.
  unfoldable pub copy_list : Option Ptr → Cmd M R (Option Ptr)
  copy_list none = pure none
  copy_list (some p) = do
    items ← load (λ h. h.arrays) p
    items' ← copy_items items
    q ← new_array items'
    pure (some q)
