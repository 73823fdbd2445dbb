-- ===== src/KmmModule/Nodes.antt =====
-- internal/kmmmodule/kmmmodule.go: getNodeSelector of a DeviceConfig that was a document.
use operator_for_ai_chips_on.Common.{String, ◌≡◌, refl, ◌∙◌, none, some, [], ◌∷◌, arith}
use operator_for_ai_chips_on.Common.Dict.{lookup}
use operator_for_ai_chips_on.Api.{DeviceConfig, DeviceConfigSpec}
use operator_for_ai_chips_on.Api.Json.{Codec}
use operator_for_ai_chips_on.Api.Json.Spec.{zero_spec, encode_spec, decode_spec}
use operator_for_ai_chips_on.Api.Json.Spec.RoundTrip.{IsCodec, label, decode_spec-IsRestored}
use operator_for_ai_chips_on.KmmModule.{get_node_selector}

get_node_selector-some :
    (d : DeviceConfig) (key value : String)
    → label d.spec.selector key ≡ some value
    → (k : String) → lookup k (get_node_selector d) ≡ label d.spec.selector k
unfolding get_node_selector lookup
get_node_selector-some d key value e k = ground (arith, e)

get_node_selector-none :
    (d : DeviceConfig)
    → d.spec.selector ≡ none
    → get_node_selector d ≡ ("feature.node.kubernetes.io/pci-1d0f.present", "true") ∷ []
unfolding get_node_selector
get_node_selector-none d e = rw e refl

-- The nodes of `d`, once its specification is `t`: those of the selector of `d`, if this has a label,
-- and otherwise those that carry the label of the PCI vendor.
pub record HasNodes (d : DeviceConfig) (t : DeviceConfigSpec) : Type 0 where
  pub labelled :
      (key value : String)
      → label d.spec.selector key ≡ some value
      → (k : String)
      → lookup k (get_node_selector (record d { spec = t })) ≡ label d.spec.selector k
  pub unlabelled :
      ((key : String) → label d.spec.selector key ≡ none)
      → get_node_selector (record d { spec = t })
        ≡ ("feature.node.kubernetes.io/pci-1d0f.present", "true") ∷ []

-- After the specification of a DeviceConfig was written as a document and read back, the selector
-- that getNodeSelector gives has the labels of the selector of the DeviceConfig if there is one, and
-- otherwise, also if that selector is empty and not nil, the label of the PCI vendor alone. It is
-- assumed that the reference to a secret is written as an object that is read back, and that the
-- entries of a map are written once each, in whatever order.
pub decode_spec-HasNodes :
    (codec : Codec) (C : IsCodec codec) (d : DeviceConfig)
    → (t : DeviceConfigSpec) × (decode_spec codec (encode_spec codec d.spec) zero_spec ≡ some t)
      × HasNodes d t
decode_spec-HasNodes codec C d =
    let (t, decoded, same) = decode_spec-IsRestored codec C d.spec in
    (
      t,
      decoded,
      record {
        labelled = λ key value e k.
            get_node_selector-some (record d { spec = t }) key value (same.labels key ∙ e) k
            ∙ same.labels k;
        unlabelled = λ no_label. get_node_selector-none (record d { spec = t }) (same.nil no_label);
      },
    )
