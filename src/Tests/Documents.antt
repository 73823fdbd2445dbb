-- ===== src/Tests/Documents.antt =====
-- DeviceConfigs as documents, with references to secrets that are written as an object of one field.
use operator_for_ai_chips_on.Common.{pos, negsuc, ◌≡◌, refl, Option, none, some, [], ◌∷◌}
use operator_for_ai_chips_on.K8s.{LocalObjectReference}
use operator_for_ai_chips_on.Api.{DeviceConfig, DeviceConfigSpec, DeviceConfigStatus}
use operator_for_ai_chips_on.Api.Json.{
  Json, Codec, null, number, text, object, end, field, decode_int32,
}
use operator_for_ai_chips_on.Api.Json.Spec.{zero_spec, encode_spec, decode_spec}
use operator_for_ai_chips_on.Api.Json.Spec.RoundTrip.{IsCodec, IsRestored, decode_spec-IsRestored}
use operator_for_ai_chips_on.Api.Json.Status.{
  zero_status, zero_deployment_status, encode_status, decode_status,
}
use operator_for_ai_chips_on.Api.Json.Status.Counts.{IsStatus, decode_status-encode_status}
use operator_for_ai_chips_on.KmmModule.Nodes.{HasNodes, decode_spec-HasNodes}
use operator_for_ai_chips_on.Tests.Samples.{neuron}
use operator_for_ai_chips_on.Tests.Maps.{in_order, in_order-HasDistinctKeys, lookup-in_order}

abbrev decode_name : Json → Option LocalObjectReference
decode_name (object (field name (text value) rest)) = some (record { name = value })
decode_name _ = none

abbrev codec : Codec
codec = record {
  encode_reference = λ r. object (field "name" (text r.name) end);
  decode_reference = λ j old. decode_name j;
  in_order = in_order;
}

abbrev codec-IsCodec : IsCodec codec
codec-IsCodec = record {
  reference_fields = λ r. field "name" (text r.name) end;
  is_object = λ r. refl;
  reads = λ r. refl;
  distinct = in_order-HasDistinctKeys;
  visits = lookup-in_order;
}

abbrev labelled : DeviceConfig
labelled = record neuron {
  spec = record (neuron.spec) {
    image_repo_secret = some (record { name = "pull" });
    selector = some (("zone", "a") ∷ ("tier", "gpu") ∷ []);
  };
}

-- What is empty is left out.
encode_neuron :
    encode_spec codec neuron.spec
    ≡ object (
        field "driversImage" (text "drivers") (
          field "devicePluginImage"
            (text "plugin")
            (field "customSchedulerImage" (text "scheduler") end)))
unfolding encode_spec
encode_neuron = refl

-- null for a text is passed over, and a text for a map is an error.
decode_null :
    decode_spec codec (object (field "driversImage" null (field "other" (text "x") end))) zero_spec
    ≡ some zero_spec
unfolding decode_spec
decode_null = refl

decode_text_for_map : decode_spec codec (object (field "selector" (text "x") end)) zero_spec ≡ none
unfolding decode_spec
decode_text_for_map = refl

abbrev running : DeviceConfigStatus
running = record {
  device_plugin = record {
    nodes_matching_selector_number = pos 2147483647;
    desired_number = negsuc 2147483647;
    available_number = pos 0;
  };
  drivers = record zero_deployment_status { desired_number = pos 3 };
}

-- Of a status, an int32 is read at its bounds and refused beyond them.
decode_at_bounds : decode_int32 (number (negsuc 2147483647)) (pos 0) ≡ some (negsuc 2147483647)
unfolding decode_int32
decode_at_bounds = refl

decode_too_large : decode_int32 (number (pos 2147483648)) (pos 0) ≡ none
unfolding decode_int32
decode_too_large = refl

running-IsStatus : IsStatus running
running-IsStatus = record {
  device_plugin = record { nodes = refl; desired = refl; available = refl };
  drivers = record { nodes = refl; desired = refl; available = refl };
}

decode_status-encode_status_example :
    decode_status (encode_status running) zero_status ≡ some running
decode_status-encode_status_example = decode_status-encode_status running running-IsStatus

decode_spec-IsRestored_example :
    (t : DeviceConfigSpec) × (decode_spec codec (encode_spec codec labelled.spec) zero_spec
      ≡ some t)
    × IsRestored labelled.spec t
decode_spec-IsRestored_example = decode_spec-IsRestored codec codec-IsCodec labelled.spec

decode_spec-HasNodes_example :
    (t : DeviceConfigSpec) × (decode_spec codec (encode_spec codec labelled.spec) zero_spec
      ≡ some t)
    × HasNodes labelled t
decode_spec-HasNodes_example = decode_spec-HasNodes codec codec-IsCodec labelled
