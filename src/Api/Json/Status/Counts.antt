-- ===== src/Api/Json/Status/Counts.antt =====
-- api/v1alpha1/deviceconfig_types.go: the numbers of a status in a document.
use mathlib.Core.Option
use operator_for_ai_chips_on.Common.{
  ℤ, pos, negsuc, String, ◌≡◌, refl, sym, ap, ◌∙◌, inl, inr, true, Option, none, some, arith,
  Bool-cases,
}
use operator_for_ai_chips_on.Api.{DeploymentStatus, DeviceConfigStatus}
use operator_for_ai_chips_on.Api.Json.{
  Fields, number, end, field, is_int32, omit_empty, decode_int32,
}
use operator_for_ai_chips_on.Api.Json.Status.{
  zero_deployment_status, zero_status, is_zero, encode_number, encode_deployment_status,
  encode_status, decode_number_field, decode_number_fields, decode_deployment_status,
  decode_status_field, decode_status_fields, decode_status,
}

-- Every number is an `int32`.
pub record IsCounts (s : DeploymentStatus) : Type 0 where
  pub nodes : is_int32 s.nodes_matching_selector_number ≡ true
  pub desired : is_int32 s.desired_number ≡ true
  pub available : is_int32 s.available_number ≡ true

pub record IsStatus (s : DeviceConfigStatus) : Type 0 where
  pub device_plugin : IsCounts s.device_plugin
  pub drivers : IsCounts s.drivers

is_zero-pos : (n : ℤ) → is_zero n ≡ true → n ≡ pos 0
is_zero-pos (pos n) z = ground arith
is_zero-pos (negsuc n) z = ground arith

decode_int32-number : (n old : ℤ) → is_int32 n ≡ true → decode_int32 (number n) old ≡ some n
unfolding decode_int32
decode_int32-number n old fits = rw fits refl

-- A number that was encoded is decoded, and one that was omitted is the zero that was there.
decode_number_fields-encode_number :
    (n : ℤ) (name : String) (rest : Fields) (set : ℤ → DeploymentStatus)
    → decode_number_field name (number n) (set (pos 0))
      ≡ Option.map set (decode_int32 (number n) (pos 0))
    → is_int32 n ≡ true
    → decode_number_fields (encode_number name n rest) (set (pos 0))
      ≡ decode_number_fields rest (set n)
unfolding encode_number omit_empty decode_number_fields
decode_number_fields-encode_number n name rest set known fits = elim (Bool-cases (is_zero n)) [
  | inl z ↦ rw z (ap (λ k. decode_number_fields rest (set k)) (sym (is_zero-pos n z)))
  | inr z ↦ rw z (
      ap
        (λ (o : Option DeploymentStatus). elim o [
          | none ↦ none
          | some s ↦ decode_number_fields rest s
        ])
        (known ∙ ap (Option.map set) (decode_int32-number n (pos 0) fits)))
]

decode_deployment_status-encode :
    (s : DeploymentStatus)
    → IsCounts s
    → decode_deployment_status (encode_deployment_status s) zero_deployment_status ≡ some s
unfolding encode_deployment_status decode_deployment_status decode_number_field decode_number_fields
decode_deployment_status-encode s fits =
    decode_number_fields-encode_number s.nodes_matching_selector_number
      "nodesMatchingSelectorNumber" _
      (λ n. record zero_deployment_status { nodes_matching_selector_number = n }) refl fits.nodes
    ∙ (decode_number_fields-encode_number s.desired_number "desiredNumber" _
          (λ n. record s { desired_number = n; available_number = pos 0 }) refl fits.desired
        ∙ decode_number_fields-encode_number s.available_number "availableNumber" end
            (λ n. record s { available_number = n }) refl fits.available)

-- A status whose numbers are of type int32 is decoded from its own document, into a zero status.
pub decode_status-encode_status :
    (s : DeviceConfigStatus) → IsStatus s → decode_status (encode_status s) zero_status ≡ some s
unfolding encode_status omit_empty decode_status decode_status_fields decode_status_field
decode_status-encode_status s fits =
    ap
      (λ (o : Option DeploymentStatus).
        elim (Option.map (λ d. record zero_status { device_plugin = d }) o) [
          | none ↦ none
          | some t ↦
              decode_status_fields (field "driver" (encode_deployment_status s.drivers) end) t
        ])
      (decode_deployment_status-encode s.device_plugin fits.device_plugin)
    ∙ ap
        (λ (o : Option DeploymentStatus). elim (Option.map (λ d. record s { drivers = d }) o) [
          | none ↦ none
          | some t ↦ some t
        ])
        (decode_deployment_status-encode s.drivers fits.drivers)
