-- ===== src/Tests/Maps.antt =====
-- A `range` that visits the entries of a map in their order, each key once.
use operator_for_ai_chips_on.Common.{
  String, ◌≡◌, refl, none, List, [], ◌∷◌, arith, ◌==◌, eq_iff, if◌then◌else◌,
}
use operator_for_ai_chips_on.Common.Dict.{Dict, lookup}
use operator_for_ai_chips_on.Api.DeepCopy.Maps.{HasDistinctKeys}

abbrev drop_key : String → Dict String → Dict String
drop_key k [] = []
drop_key k ((j, v) ∷ m) = let rest = drop_key k m in if j == k then rest else (j, v) ∷ rest

abbrev pub in_order : Dict String → List (String × String)
in_order [] = []
in_order ((k, v) ∷ m) = (k, v) ∷ drop_key k (in_order m)

lookup-drop_key :
    (k : String) (m : Dict String) (j : String)
    → lookup j (drop_key k m) ≡ (if k == j then none else lookup j m)
unfolding lookup
lookup-drop_key k [] j = ground arith
lookup-drop_key k ((i, v) ∷ m) j =
    ground (arith, lookup-drop_key k m j, eq_iff k j, eq_iff i j, eq_iff i k)

drop_key-HasDistinctKeys :
    (k : String) (m : Dict String) → HasDistinctKeys m → HasDistinctKeys (drop_key k m)
drop_key-HasDistinctKeys k [] d = tt
drop_key-HasDistinctKeys k ((j, v) ∷ m) d =
    ground (arith, lookup-drop_key k m j, drop_key-HasDistinctKeys k m)

pub in_order-HasDistinctKeys : (m : Dict String) → HasDistinctKeys (in_order m)
in_order-HasDistinctKeys [] = tt
in_order-HasDistinctKeys ((k, v) ∷ m) = (
  ground (arith, lookup-drop_key k (in_order m) k, eq_iff k k),
  drop_key-HasDistinctKeys k (in_order m) (in_order-HasDistinctKeys m),
)

pub lookup-in_order : (m : Dict String) (k : String) → lookup k (in_order m) ≡ lookup k m
unfolding lookup
lookup-in_order [] k = refl
lookup-in_order ((j, v) ∷ m) k =
    ground (arith, lookup-drop_key j (in_order m) k, lookup-in_order m k)
