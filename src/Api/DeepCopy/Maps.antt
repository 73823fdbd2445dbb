-- ===== src/Api/DeepCopy/Maps.antt =====
-- api/v1alpha1/zz_generated.deepcopy.go: the loop that copies a selector.
use operator_for_ai_chips_on.Common.{
  String, ◌≡◌, refl, ◌∙◌, Option, none, some, List, [], ◌∷◌, arith, eq_iff,
}
use operator_for_ai_chips_on.Common.Dict.{Dict, lookup, insert, lookup-insert}
use operator_for_ai_chips_on.Api.DeepCopy.{copy_entries}

-- No key is visited twice.
abbrev pub HasDistinctKeys : List (String × String) → Type 0
HasDistinctKeys [] = Unit
HasDistinctKeys ((k, v) ∷ es) = (lookup k es ≡ none) × HasDistinctKeys es

abbrev or_else : Option String → Option String → Option String
or_else none o = o
or_else (some v) o = some v

or_else-none : (o : Option String) → or_else o none ≡ o
or_else-none none = refl
or_else-none (some v) = refl

lookup-copy_entries_onto :
    (es : List (String × String)) (out : Dict String) (k : String)
    → HasDistinctKeys es
    → lookup k (copy_entries es out) ≡ or_else (lookup k es) (lookup k out)
unfolding copy_entries lookup
lookup-copy_entries_onto [] out k d = refl
lookup-copy_entries_onto ((j, v) ∷ es) out k (new, d) =
    ground
      (arith, lookup-copy_entries_onto es (insert j v out) k d, lookup-insert out j v k, eq_iff j k)

-- A copy, made by visiting each key of a map once in whatever order, has the same values at the
-- same keys.
pub lookup-copy_entries :
    (es : List (String × String)) (k : String)
    → HasDistinctKeys es
    → lookup k (copy_entries es []) ≡ lookup k es
unfolding lookup
lookup-copy_entries es k d = lookup-copy_entries_onto es [] k d ∙ or_else-none (lookup k es)
