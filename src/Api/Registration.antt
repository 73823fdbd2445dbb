-- ===== src/Api/Registration.antt =====
-- api/v1alpha1/groupversion_info.go and the init of api/v1alpha1/deviceconfig_types.go: the API group
-- and the types that it adds to a scheme.
use operator_for_ai_chips_on.Common.{String, Bool, List, [], ◌∷◌}
use operator_for_ai_chips_on.Kube.{Util, GoError}

pub record GroupVersion : Type 0 where
  pub group : String
  pub version : String

abbrev pub group_version : GroupVersion
group_version = record { group = "k8s.aws"; version = "v1alpha1" }

-- The Go types of the package that are objects: DeviceConfig and DeviceConfigList.
pub data ObjectType : Type 0 where
  device_config device_config_list : ObjectType

-- The name of the struct, under which a scheme registers it.
abbrev pub type_name : ObjectType → String
type_name device_config = "DeviceConfig"
type_name device_config_list = "DeviceConfigList"

-- scheme.Builder of controller-runtime, and runtime.Scheme as `Recognizes` shows it.
pub record Builders (U : Util) : Type 1 where
  pub Builder : Type 0
  -- &scheme.Builder{GroupVersion: gv}
  pub new_builder : GroupVersion → Builder
  pub register : Builder → List ObjectType → Builder
  pub add_to_scheme : Builder → U.Scheme → GoError U × U.Scheme
  pub recognizes : U.Scheme → GroupVersion → String → Bool

module _ {U : Util} (builders : Builders U) where
  -- SchemeBuilder before init
  unfoldable pub scheme_builder : builders.Builder
  scheme_builder = builders.new_builder group_version

  -- init: SchemeBuilder.Register(&DeviceConfig{}, &DeviceConfigList{})
  unfoldable pub registered_builder : builders.Builder
  unfolding scheme_builder
  registered_builder = builders.register scheme_builder (device_config ∷ device_config_list ∷ [])

  -- AddToScheme, which has the pointer SchemeBuilder and so adds what init registered.
  unfoldable pub add_to_scheme : U.Scheme → GoError U × U.Scheme
  unfolding registered_builder
  add_to_scheme scheme = builders.add_to_scheme registered_builder scheme
