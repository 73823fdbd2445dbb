-- ===== src/Common/Dict.antt =====
-- Go's `map[string]V`, as an association list in which the first entry of a key counts.
use Prim.Native.String.{String}
use mathlib.Core.Path.{◌≡◌, refl}
use mathlib.Core.Option.{Option, none, some}
use mathlib.Core.List.{List, [], ◌∷◌}
use native.Mathlib.Omega.{arith}
use text.Mathlib.Text.{◌==◌}
use text.Mathlib.TextEquality.{eq_iff}
use operator_for_ai_chips_on.Common.Base.{if◌then◌else◌}

abbrev pub Dict {ℓ} : Type ℓ → Type ℓ
Dict V = List (String × V)

module _ {ℓ} {V : Type ℓ} where
  -- entries[key], where `none` stands for a missing key
  unfoldable pub lookup : String → Dict V → Option V
  lookup key [] = none
  lookup key (entry ∷ entries) =
      let (name, val) = entry in if name == key then some val else lookup key entries

  -- entries[key] = val: a new key goes to the end.
  unfoldable pub insert : String → V → Dict V → Dict V
  insert key val [] = (key, val) ∷ []
  insert key val (entry ∷ entries) =
      let rest = insert key val entries in
      if entry.0 == key then (key, val) ∷ entries else entry ∷ rest

  -- What a read gives after a write.
  pub lookup-insert :
      (entries : Dict V) (key : String) (val : V) (other : String)
      → lookup other (insert key val entries)
        ≡ (if key == other then some val else lookup other entries)
  unfolding lookup insert
  lookup-insert [] key val other = refl
  lookup-insert (entry ∷ entries) key val other = ground (
    arith,
    lookup-insert entries key val other,
    eq_iff entry.0 other,
    eq_iff entry.0 key,
    eq_iff key other,
  )
