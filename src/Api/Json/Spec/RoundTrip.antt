-- ===== src/Api/Json/Spec/RoundTrip.antt =====
-- api/v1alpha1/deviceconfig_types.go: a DeviceConfigSpec to a document and back.
use mathlib.Core.Option
use operator_for_ai_chips_on.Common.{
  String, Bool, true, false, not, ◌≡◌, refl, sym, ap, ◌∙◌, ◌==◌, inl, inr, Option, none, some, List,
  [], ◌∷◌, arith, Bool-cases, eq_iff, if◌then◌else◌,
}
use operator_for_ai_chips_on.Common.Dict.{Dict, lookup}
use operator_for_ai_chips_on.K8s.{LocalObjectReference}
use operator_for_ai_chips_on.Api.{DeviceConfigSpec}
use operator_for_ai_chips_on.Api.DeepCopy.{copy_entries}
use operator_for_ai_chips_on.Api.DeepCopy.Maps.{HasDistinctKeys, lookup-copy_entries}
use operator_for_ai_chips_on.Api.Json.{
  Fields, bool, text, object, end, Codec, omit_empty, is_empty, decode_bool, decode_text,
}
use operator_for_ai_chips_on.Api.Json.Entries.{decode_selector-encode_entries}
use operator_for_ai_chips_on.Api.Json.Spec.{
  zero_spec, encode_secret, encode_selector, encode_text, encode_spec, decode_secret, decode_field,
  decode_fields, decode_spec,
}

-- A reference is written as an object, which is read back, and the entries of a map are written once
-- each.
pub record IsCodec (codec : Codec) : Type 0 where
  pub reference_fields : LocalObjectReference → Fields
  pub is_object :
      (r : LocalObjectReference) → codec.encode_reference r ≡ object (reference_fields r)
  pub reads :
      (r : LocalObjectReference)
      → codec.decode_reference (object (reference_fields r)) (record { name = "" }) ≡ some r
  pub distinct : (m : Dict String) → HasDistinctKeys (codec.in_order m)
  pub visits : (m : Dict String) (k : String) → lookup k (codec.in_order m) ≡ lookup k m

-- The value of a label, in a selector that may be nil.
abbrev pub label : Option (Dict String) → String → Option String
label none key = none
label (some m) key = lookup key m

-- `t` is `s`, up to a selector that has the same labels and that is nil when it has none.
pub record IsRestored (s t : DeviceConfigSpec) : Type 0 where
  pub same : t ≡ record s { selector = t.selector }
  pub labels : (key : String) → label t.selector key ≡ label s.selector key
  pub nil : ((key : String) → label s.selector key ≡ none) → t.selector ≡ none

module _ (codec : Codec) (C : IsCodec codec) where
  -- The selector that is read back.
  abbrev read_back : Option (Dict String) → Option (Dict String)
  read_back none = none
  read_back (some m) =
      if is_empty (codec.in_order m) then none else some (copy_entries (codec.in_order m) [])

  abbrev then_fields : Fields → Option DeviceConfigSpec → Option DeviceConfigSpec
  then_fields rest o = elim o [ none ↦ none | some s ↦ decode_fields codec rest s ]

  -- A text that was encoded is decoded, and one that was omitted is the empty one that was there.
  decode_fields-encode_text :
      (name value : String) (rest : Fields) (set : String → DeviceConfigSpec)
      → decode_field codec name (text value) (set "") ≡ some (set value)
      → decode_fields codec (encode_text name value rest) (set "")
        ≡ decode_fields codec rest (set value)
  unfolding encode_text omit_empty decode_fields
  decode_fields-encode_text name value rest set known = elim (Bool-cases (value == "")) [
    | inl e ↦ rw e (ap (λ v. decode_fields codec rest (set v)) (sym ((eq_iff value "").0 e)))
    | inr e ↦ rw e (ap (then_fields rest) known)
  ]

  decode_fields-encode_secret :
      (secret : Option LocalObjectReference) (rest : Fields) (s : DeviceConfigSpec)
      → decode_fields codec
          (encode_secret codec secret rest)
          (record s { image_repo_secret = none })
        ≡ decode_fields codec rest (record s { image_repo_secret = secret })
  unfolding encode_secret decode_fields decode_field decode_secret
  decode_fields-encode_secret none rest s = refl
  decode_fields-encode_secret (some r) rest s = rw (C.is_object r) (
      ap
        (λ (o : Option LocalObjectReference). then_fields rest (
          Option.map (λ q. record s { image_repo_secret = q })
            (elim o [ none ↦ none | some q ↦ some (some q) ])))
        (C.reads r))

  decode_fields-encode_selector :
      (m : Option (Dict String)) (s : DeviceConfigSpec)
      → decode_fields codec (encode_selector codec m end) (record s { selector = none })
        ≡ some (record s { selector = read_back m })
  unfolding encode_selector omit_empty decode_fields decode_field
  decode_fields-encode_selector none s = refl
  decode_fields-encode_selector (some m) s = elim (Bool-cases (is_empty (codec.in_order m))) [
    | inl e ↦ rw e refl
    | inr e ↦ rw e (
        ap
          (λ (o : Option (Option (Dict String))).
            then_fields end (Option.map (λ q. record s { selector = q }) o))
          (decode_selector-encode_entries (codec.in_order m) none))
  ]

  decode_fields-encode_bool :
      (b : Bool) (rest : Fields) (s : DeviceConfigSpec)
      → decode_fields codec
          (omit_empty (not b) "useInTreeDrivers" (bool b) rest)
          (record s { use_in_tree_drivers = false })
        ≡ decode_fields codec rest (record s { use_in_tree_drivers = b })
  unfolding omit_empty decode_fields decode_field decode_bool
  decode_fields-encode_bool true rest s = refl
  decode_fields-encode_bool false rest s = refl

  decode_spec-encode_spec :
      (s : DeviceConfigSpec)
      → decode_spec codec (encode_spec codec s) zero_spec
        ≡ some (record s { selector = read_back s.selector })
  unfolding encode_spec decode_spec decode_field decode_text
  decode_spec-encode_spec s =
      decode_fields-encode_bool s.use_in_tree_drivers _ zero_spec
      ∙ (decode_fields-encode_text "driversImage" s.drivers_image _
            (λ v. record zero_spec {
              use_in_tree_drivers = s.use_in_tree_drivers;
              drivers_image = v;
            })
            refl
          ∙ (decode_fields-encode_text "devicePluginImage" s.device_plugin_image _
                (λ v. record s {
                  device_plugin_image = v;
                  custom_scheduler_image = "";
                  scheduler_extension_image = "";
                  image_repo_secret = none;
                  selector = none;
                })
                refl
              ∙ (decode_fields-encode_text "customSchedulerImage" s.custom_scheduler_image _
                    (λ v. record s {
                      custom_scheduler_image = v;
                      scheduler_extension_image = "";
                      image_repo_secret = none;
                      selector = none;
                    })
                    refl
                  ∙ (decode_fields-encode_text "schedulerExtensionImage" s.scheduler_extension_image
                        _
                        (λ v. record s {
                          scheduler_extension_image = v;
                          image_repo_secret = none;
                          selector = none;
                        })
                        refl
                      ∙ (decode_fields-encode_secret s.image_repo_secret _
                            (record s { selector = none })
                          ∙ decode_fields-encode_selector s.selector s)))))

  read_back-label :
      (m : Option (Dict String)) (key : String) → label (read_back m) key ≡ label m key
  unfolding lookup
  read_back-label none key = refl
  read_back-label (some m) key = by_entries (codec.in_order m) (C.distinct m) (C.visits m key)
    where
      by_entries :
          (entries : List (String × String))
          → HasDistinctKeys entries
          → lookup key entries ≡ lookup key m
          → label (if is_empty entries then none else some (copy_entries entries [])) key
            ≡ lookup key m
      by_entries [] distinct same = same
      by_entries (e ∷ entries) distinct same = lookup-copy_entries (e ∷ entries) key distinct ∙ same

  read_back-none :
      (m : Option (Dict String)) → ((key : String) → label m key ≡ none) → read_back m ≡ none
  unfolding lookup
  read_back-none none no_label = refl
  read_back-none (some m) no_label = by_entries (codec.in_order m) (C.visits m)
    where
      by_entries :
          (entries : List (String × String))
          → ((key : String) → lookup key entries ≡ lookup key m)
          → (if is_empty entries then none else some (copy_entries entries [])) ≡ none
      by_entries [] same = refl
      by_entries ((key, value) ∷ entries) same =
          ground (arith, same key, no_label key, eq_iff key key)

  -- A DeviceConfigSpec is decoded from its own document, into a zero DeviceConfigSpec, up to its
  -- selector: this has the same labels, and it is nil if there are none. It is assumed that the
  -- reference to a secret is written as an object that is read back, and that the entries of a map
  -- are written once each, in whatever order.
  pub decode_spec-IsRestored :
      (s : DeviceConfigSpec)
      → (t : DeviceConfigSpec) × (decode_spec codec (encode_spec codec s) zero_spec ≡ some t)
        × IsRestored s t
  decode_spec-IsRestored s = (
    record s { selector = read_back s.selector },
    decode_spec-encode_spec s,
    record { same = refl; labels = read_back-label s.selector; nil = read_back-none s.selector },
  )
