-- ===== src/Api/Json.antt =====
-- api/v1alpha1/deviceconfig_types.go: the `json` tags of DeviceConfigSpec and DeviceConfigStatus, as
-- encoding/json reads them. A document is a tree whose numbers are integers; field names are matched exactly, as Kubernetes
-- decodes them. `none` is an error of the decoder.
pub mod Entries
pub mod Spec
pub mod Status
use operator_for_ai_chips_on.Common.{
  ℤ, pos, negsuc, String, Bool, true, false, Option, none, some, List, [], ◌∷◌, ◌==◌, ltb,
  if◌then◌else◌,
}
use operator_for_ai_chips_on.Common.Dict.{Dict, insert}
use operator_for_ai_chips_on.K8s.{LocalObjectReference}

mutual
  pub data Json : Type 0 where
    null : Json
    bool : Bool → Json
    number : ℤ → Json
    text : String → Json
    array : Items → Json
    object : Fields → Json

  pub data Items : Type 0 where
    nil : Items
    cons : Json → Items → Items

  pub data Fields : Type 0 where
    end : Fields
    field : String → Json → Fields → Fields

-- What the encoder and the decoder take from elsewhere: the codec of a v1.LocalObjectReference, and
-- the order in which the encoder writes the entries of a map.
pub record Codec : Type 0 where
  pub encode_reference : LocalObjectReference → Json
  pub decode_reference : Json → LocalObjectReference → Option LocalObjectReference
  pub in_order : Dict String → List (String × String)

-- A field with `omitempty`, where the flag says that its value is empty.
unfoldable pub omit_empty : Bool → String → Json → Fields → Fields
omit_empty empty name value rest = if empty then rest else field name value rest

-- len(m) == 0, for what is visited of a map
abbrev pub is_empty : List (String × String) → Bool
is_empty [] = true
is_empty (_ ∷ _) = false

unfoldable pub encode_entries : List (String × String) → Fields
encode_entries [] = end
encode_entries ((key, value) ∷ entries) = field key (text value) (encode_entries entries)

-- null leaves a value that is no pointer and no map as it is.
unfoldable pub decode_bool : Json → Bool → Option Bool
decode_bool null old = some old
decode_bool (bool b) old = some b
decode_bool _ old = none

unfoldable pub decode_text : Json → String → Option String
decode_text null old = some old
decode_text (text s) old = some s
decode_text _ old = none

-- The numbers of an `int32`
abbrev pub is_int32 : ℤ → Bool
is_int32 (pos n) = ltb n 2147483648
is_int32 (negsuc n) = ltb n 2147483648

unfoldable pub decode_int32 : Json → ℤ → Option ℤ
decode_int32 null old = some old
decode_int32 (number n) old = if is_int32 n then some n else none
decode_int32 _ old = none

-- The value of an entry is decoded into a new, empty text.
unfoldable pub decode_entries : Fields → Dict String → Option (Dict String)
unfolding decode_text insert
decode_entries end out = some out
decode_entries (field key value rest) out = elim (decode_text value "") [
  | none ↦ none
  | some v ↦ decode_entries rest (insert key v out)
]

unfoldable pub decode_selector : Json → Option (Dict String) → Option (Option (Dict String))
unfolding decode_entries
decode_selector null old = some none
decode_selector (object fields) old =
    elim (decode_entries fields (elim old [ some m ↦ m | none ↦ [] ])) [
      | none ↦ none
      | some m ↦ some (some m)
    ]
decode_selector _ old = none
