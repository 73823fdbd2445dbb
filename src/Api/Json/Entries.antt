-- ===== src/Api/Json/Entries.antt =====
-- api/v1alpha1/deviceconfig_types.go: a selector in a document.
use operator_for_ai_chips_on.Common.{String, ◌≡◌, refl, ap, Option, none, some, List, [], ◌∷◌}
use operator_for_ai_chips_on.Common.Dict.{Dict}
use operator_for_ai_chips_on.Api.DeepCopy.{copy_entries}
use operator_for_ai_chips_on.Api.Json.{
  object, encode_entries, decode_text, decode_entries, decode_selector,
}

-- Decoding what was encoded inserts the entries one by one.
decode_entries-encode_entries :
    (entries : List (String × String)) (out : Dict String)
    → decode_entries (encode_entries entries) out ≡ some (copy_entries entries out)
unfolding decode_entries encode_entries decode_text copy_entries
decode_entries-encode_entries [] out = refl
decode_entries-encode_entries ((key, value) ∷ entries) out = decode_entries-encode_entries entries _

pub decode_selector-encode_entries :
    (entries : List (String × String)) (old : Option (Dict String))
    → decode_selector (object (encode_entries entries)) old
      ≡ some (some (copy_entries entries (elim old [ some m ↦ m | none ↦ [] ])))
unfolding decode_selector
decode_selector-encode_entries entries old =
    ap (λ (m : Option (Dict String)). elim m [ none ↦ none | some m ↦ some (some m) ])
      (decode_entries-encode_entries entries _)
