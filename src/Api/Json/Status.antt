-- ===== src/Api/Json/Status.antt =====
-- api/v1alpha1/deviceconfig_types.go: a DeviceConfigStatus as a document.
pub mod Counts
use mathlib.Core.Option
use operator_for_ai_chips_on.Common.{
  ℤ, pos, negsuc, String, Bool, false, Option, none, some, ◌==◌, ◌==ℕ◌, if◌then◌else◌,
}
use operator_for_ai_chips_on.Api.{DeploymentStatus, DeviceConfigStatus}
use operator_for_ai_chips_on.Api.Json.{
  Json, Fields, null, number, object, end, field, omit_empty, decode_int32,
}

abbrev pub zero_deployment_status : DeploymentStatus
zero_deployment_status = record {
  nodes_matching_selector_number = pos 0;
  desired_number = pos 0;
  available_number = pos 0;
}

abbrev pub zero_status : DeviceConfigStatus
zero_status = record { device_plugin = zero_deployment_status; drivers = zero_deployment_status }

abbrev pub is_zero : ℤ → Bool
is_zero (pos n) = n ==ℕ 0
is_zero (negsuc n) = false

unfoldable pub encode_number : String → ℤ → Fields → Fields
unfolding omit_empty
encode_number name n rest = omit_empty (is_zero n) name (number n) rest

unfoldable pub encode_deployment_status : DeploymentStatus → Json
unfolding encode_number
encode_deployment_status s = object (
    encode_number "nodesMatchingSelectorNumber" s.nodes_matching_selector_number (
      encode_number "desiredNumber" s.desired_number
        (encode_number "availableNumber" s.available_number end)))

-- A struct is never empty, so the `omitempty` of the device plugin omits nothing.
unfoldable pub encode_status : DeviceConfigStatus → Json
unfolding omit_empty encode_deployment_status
encode_status s = object (
    omit_empty false "devicePlugin" (encode_deployment_status s.device_plugin)
      (field "driver" (encode_deployment_status s.drivers) end))

unfoldable pub decode_number_field : String → Json → DeploymentStatus → Option DeploymentStatus
unfolding decode_int32
decode_number_field name value s =
    if name == "nodesMatchingSelectorNumber"
    then Option.map (λ n. record s { nodes_matching_selector_number = n })
        (decode_int32 value s.nodes_matching_selector_number)
    else if name == "desiredNumber"
    then Option.map (λ n. record s { desired_number = n }) (decode_int32 value s.desired_number)
    else if name == "availableNumber"
    then Option.map (λ n. record s { available_number = n }) (decode_int32 value s.available_number)
    else some s

unfoldable pub decode_number_fields : Fields → DeploymentStatus → Option DeploymentStatus
unfolding decode_number_field
decode_number_fields end s = some s
decode_number_fields (field name value rest) s = elim (decode_number_field name value s) [
  | none ↦ none
  | some s' ↦ decode_number_fields rest s'
]

unfoldable pub decode_deployment_status : Json → DeploymentStatus → Option DeploymentStatus
unfolding decode_number_fields
decode_deployment_status null s = some s
decode_deployment_status (object fields) s = decode_number_fields fields s
decode_deployment_status _ s = none

unfoldable pub decode_status_field : String → Json → DeviceConfigStatus → Option DeviceConfigStatus
unfolding decode_deployment_status
decode_status_field name value s =
    if name == "devicePlugin"
    then Option.map (λ d. record s { device_plugin = d })
        (decode_deployment_status value s.device_plugin)
    else if name == "driver"
    then Option.map (λ d. record s { drivers = d }) (decode_deployment_status value s.drivers)
    else some s

unfoldable pub decode_status_fields : Fields → DeviceConfigStatus → Option DeviceConfigStatus
unfolding decode_status_field
decode_status_fields end s = some s
decode_status_fields (field name value rest) s = elim (decode_status_field name value s) [
  | none ↦ none
  | some s' ↦ decode_status_fields rest s'
]

-- Into the struct `s`
unfoldable pub decode_status : Json → DeviceConfigStatus → Option DeviceConfigStatus
unfolding decode_status_fields
decode_status null s = some s
decode_status (object fields) s = decode_status_fields fields s
decode_status _ s = none
