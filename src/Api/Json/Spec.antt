-- ===== src/Api/Json/Spec.antt =====
-- api/v1alpha1/deviceconfig_types.go: a DeviceConfigSpec as a document.
pub mod RoundTrip
use mathlib.Core.Option
use operator_for_ai_chips_on.Common.{
  String, Bool, true, false, not, Option, none, some, List, [], ◌∷◌, ◌==◌, if◌then◌else◌,
}
use operator_for_ai_chips_on.Common.Dict.{Dict}
use operator_for_ai_chips_on.K8s.{LocalObjectReference}
use operator_for_ai_chips_on.Api.{DeviceConfigSpec}
use operator_for_ai_chips_on.Api.Json.{
  Json, Fields, null, bool, text, object, end, field, Codec, omit_empty, is_empty, encode_entries,
  decode_bool, decode_text, decode_selector,
}

abbrev pub zero_spec : DeviceConfigSpec
zero_spec = record {
  use_in_tree_drivers = false;
  drivers_image = "";
  device_plugin_image = "";
  custom_scheduler_image = "";
  scheduler_extension_image = "";
  image_repo_secret = none;
  selector = none;
}

unfoldable pub encode_text : String → String → Fields → Fields
unfolding omit_empty
encode_text name value rest = omit_empty (value == "") name (text value) rest

module _ (codec : Codec) where
  -- The two fields that may be nil.
  unfoldable pub encode_secret : Option LocalObjectReference → Fields → Fields
  encode_secret none rest = rest
  encode_secret (some r) rest = field "imageRepoSecret" (codec.encode_reference r) rest

  unfoldable pub encode_selector : Option (Dict String) → Fields → Fields
  unfolding omit_empty encode_entries
  encode_selector none rest = rest
  encode_selector (some m) rest =
      let entries = codec.in_order m in
      omit_empty (is_empty entries) "selector" (object (encode_entries entries)) rest

  unfoldable pub encode_spec : DeviceConfigSpec → Json
  unfolding omit_empty encode_text encode_secret encode_selector
  encode_spec s = object (
      omit_empty (not s.use_in_tree_drivers) "useInTreeDrivers" (bool s.use_in_tree_drivers) (
        encode_text "driversImage" s.drivers_image (
          encode_text "devicePluginImage" s.device_plugin_image (
            encode_text "customSchedulerImage" s.custom_scheduler_image (
              encode_text "schedulerExtensionImage" s.scheduler_extension_image
                (encode_secret s.image_repo_secret (encode_selector s.selector end)))))))

  -- A nil pointer gets a new target first.
  unfoldable pub decode_secret :
      Json → Option LocalObjectReference → Option (Option LocalObjectReference)
  decode_secret null old = some none
  decode_secret value old =
      elim (codec.decode_reference value (elim old [ some r ↦ r | none ↦ record { name = "" } ])) [
        | none ↦ none
        | some r ↦ some (some r)
      ]

  -- One field; a name that is not known is passed over.
  unfoldable pub decode_field : String → Json → DeviceConfigSpec → Option DeviceConfigSpec
  unfolding decode_bool decode_text decode_secret decode_selector
  decode_field name value s =
      if name == "useInTreeDrivers"
      then Option.map (λ b. record s { use_in_tree_drivers = b })
          (decode_bool value s.use_in_tree_drivers)
      else if name == "driversImage"
      then Option.map (λ t. record s { drivers_image = t }) (decode_text value s.drivers_image)
      else if name == "devicePluginImage"
      then Option.map (λ t. record s { device_plugin_image = t })
          (decode_text value s.device_plugin_image)
      else if name == "customSchedulerImage"
      then Option.map (λ t. record s { custom_scheduler_image = t })
          (decode_text value s.custom_scheduler_image)
      else if name == "schedulerExtensionImage"
      then Option.map (λ t. record s { scheduler_extension_image = t })
          (decode_text value s.scheduler_extension_image)
      else if name == "imageRepoSecret"
      then Option.map (λ r. record s { image_repo_secret = r })
          (decode_secret value s.image_repo_secret)
      else if name == "selector"
      then Option.map (λ m. record s { selector = m }) (decode_selector value s.selector)
      else some s

  unfoldable pub decode_fields : Fields → DeviceConfigSpec → Option DeviceConfigSpec
  unfolding decode_field
  decode_fields end s = some s
  decode_fields (field name value rest) s = elim (decode_field name value s) [
    | none ↦ none
    | some s' ↦ decode_fields rest s'
  ]

  -- Into the struct `s`
  unfoldable pub decode_spec : Json → DeviceConfigSpec → Option DeviceConfigSpec
  unfolding decode_fields
  decode_spec null s = some s
  decode_spec (object fields) s = decode_fields fields s
  decode_spec _ s = none
