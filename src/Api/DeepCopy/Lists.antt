-- ===== src/Api/DeepCopy/Lists.antt =====
-- api/v1alpha1/zz_generated.deepcopy.go: the slice of items in (*DeviceConfigList).DeepCopyInto.
use operator_for_ai_chips_on.Common.{suc, ◌≡◌, refl, Option, none, some, List, arith}
use operator_for_ai_chips_on.Api.Heap.{Ptr, ConfigCell, Heap, update}
use operator_for_ai_chips_on.Api.DeepCopy.{Runtime, copy_items, copy_list}
use operator_for_ai_chips_on.Api.DeepCopy.Store.{
  Returns, Returns-bind, IsExtended, IsExtended-trans, IsNew, update-new, update-old,
}
use operator_for_ai_chips_on.Api.DeepCopy.Pointers.{IsFair}
use operator_for_ai_chips_on.Api.DeepCopy.Items.{
  AreValid, AreValid-extended, IsItemsCopy, copy_items-IsItemsCopy,
}

module _ {M R : Type 0} where
  abbrev array_at : Heap M R → Option Ptr → Option (List (ConfigCell M))
  array_at h none = none
  array_at h (some p) = h.arrays p

  abbrev with_array : Heap M R → List (ConfigCell M) → Heap M R
  with_array h cs = record h { next = suc h.next; arrays = update h.arrays h.next cs }

module _ {M R : Type 0} (rt : Runtime M R) (fair : IsFair rt) where
  -- The slice `o`, left in `h'`, for a slice of the items `cs` in `h`: it has a new array, and its
  -- items are a copy.
  pub record IsListCopy (h : Heap M R) (cs : List (ConfigCell M)) (o : Option Ptr) (h' : Heap M R)
      : Type 0 where
    pub pointer : IsNew h o
    pub items : List (ConfigCell M)
    pub cell : array_at h' o ≡ some items
    pub copied : IsItemsCopy rt fair h cs items h'

  with_array-IsExtended :
      (h : Heap M R) (cs : List (ConfigCell M)) → IsExtended fair.meta_value h (with_array h cs)
  with_array-IsExtended h cs = record {
    next = omega arith;
    secrets = λ p _. refl;
    maps = λ p _. refl;
    configs = λ p _. refl;
    arrays = λ p l. update-old h.arrays cs h.next p l;
    metas = λ _. refl;
  }

  copy_list-some :
      (p : Ptr) (h : Heap M R) (cs : List (ConfigCell M))
      → h.arrays p ≡ some cs
      → copy_list rt (some p) h ≡ elim (copy_items rt cs h) [
        | none ↦ none
        | some (ds, h') ↦ some (some h'.next, with_array h' ds)
      ]
  unfolding copy_list
  copy_list-some p h cs e = ground arith

  -- A nil slice stays nil. A slice whose items have valid pointers is copied without a fault to a new
  -- array, whose items have one by one the values of the original; no pointer of theirs leads to a
  -- cell that was there before, and those cells, the original array too, are as they were.
  pub copy_list-IsListCopy :
      (p : Ptr) (h : Heap M R) (cs : List (ConfigCell M))
      → h.arrays p ≡ some cs
      → AreValid h cs
      → (copy_list rt none h ≡ some (none, h)) × Returns (copy_list rt (some p) h) (IsListCopy h cs)
  unfolding copy_list
  copy_list-IsListCopy p h cs e ok = (
    refl,
    rw (copy_list-some p h cs e) (
        Returns-bind (copy_items rt cs h) _ _ (IsListCopy h cs)
          (copy_items-IsItemsCopy rt fair cs h ok)
          λ ds h' k.
            let more = with_array-IsExtended h' ds in
            record {
              pointer = omega (arith, k.extended.next);
              items = ds;
              cell = update-new h'.arrays ds h'.next;
              copied = record {
                same = k.same;
                valid = AreValid-extended rt fair h' (with_array h' ds) more ds k.valid;
                apart = k.apart;
                extended = IsExtended-trans fair.meta_value h h' (with_array h' ds) k.extended more;
              };
            }),
  )
