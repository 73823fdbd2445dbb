-- ===== src/Api/Copies/Slices.antt =====
-- api/v1alpha1/zz_generated.deepcopy.go: the slice of items, nil or not.
use operator_for_ai_chips_on.Common.{◌≡◌, refl, Option, none, some, List, arith}
use operator_for_ai_chips_on.Api.Heap.{Ptr, ConfigCell, Heap}
use operator_for_ai_chips_on.Api.DeepCopy.{Runtime, copy_list}
use operator_for_ai_chips_on.Api.DeepCopy.Store.{IsExtended, IsExtended-refl, IsExtended-trans}
use operator_for_ai_chips_on.Api.DeepCopy.Store.{Returns as HeapReturns}
use operator_for_ai_chips_on.Api.DeepCopy.Pointers.{IsFair}
use operator_for_ai_chips_on.Api.DeepCopy.Items.{AreValid, AreValid-extended}
use operator_for_ai_chips_on.Api.DeepCopy.Lists.{IsListCopy, copy_list-IsListCopy}
use operator_for_ai_chips_on.Api.Copies.{taken}
use operator_for_ai_chips_on.Api.Copies.Specs.{taken-IsExtended}

module _ {M R : Type 0} (rt : Runtime M R) (fair : IsFair rt) where
  IsListCopy-taken :
      (h h' : Heap M R) (cs : List (ConfigCell M)) (o : Option Ptr)
      → IsListCopy rt fair h cs o h'
      → IsListCopy rt fair h cs o (taken h')
  IsListCopy-taken h h' cs none k = ground (arith, k.cell)
  IsListCopy-taken h h' cs (some p) k = record {
    pointer = k.pointer;
    items = k.items;
    cell = k.cell;
    copied = record {
      same = k.copied.same;
      valid =
          AreValid-extended rt fair h' (taken h') (taken-IsExtended rt fair h') k.items
            k.copied.valid;
      apart = k.copied.apart;
      extended =
          IsExtended-trans fair.meta_value h h' (taken h') k.copied.extended
            (taken-IsExtended rt fair h');
    };
  }

  -- A slice is nil, or its array holds DeviceConfigs with valid pointers.
  abbrev pub IsValidSlice : Heap M R → Option Ptr → Type 0
  IsValidSlice h none = Unit {0}
  IsValidSlice h (some p) = (cs : List (ConfigCell M)) × (h.arrays p ≡ some cs) × AreValid h cs

  -- What a copy of a slice is like.
  abbrev pub IsSliceCopy :
      (h : Heap M R) (o : Option Ptr) → IsValidSlice h o → Option Ptr → Heap M R → Type 0
  IsSliceCopy h none ok o' h' = (o' ≡ none) × IsExtended fair.meta_value h h'
  IsSliceCopy h (some p) ok o' h' = IsListCopy rt fair h ok.0 o' h'

  pub IsSliceCopy-taken :
      (h h' : Heap M R) (o : Option Ptr) (ok : IsValidSlice h o) (o' : Option Ptr)
      → IsSliceCopy h o ok o' h'
      → IsSliceCopy h o ok o' (taken h')
  IsSliceCopy-taken h h' none ok o' k =
      (k.0, IsExtended-trans fair.meta_value h h' (taken h') k.1 (taken-IsExtended rt fair h'))
  IsSliceCopy-taken h h' (some p) ok o' k = IsListCopy-taken h h' ok.0 o' k

  -- In any case the heap is only extended.
  pub IsSliceCopy-IsExtended :
      (h h' : Heap M R) (o : Option Ptr) (ok : IsValidSlice h o) (o' : Option Ptr)
      → IsSliceCopy h o ok o' h'
      → IsExtended fair.meta_value h h'
  IsSliceCopy-IsExtended h h' none ok o' k = k.1
  IsSliceCopy-IsExtended h h' (some p) ok o' k = k.copied.extended

  pub copy_list-IsSliceCopy :
      (h : Heap M R) (o : Option Ptr) (ok : IsValidSlice h o)
      → HeapReturns (copy_list rt o h) (IsSliceCopy h o ok)
  unfolding copy_list
  copy_list-IsSliceCopy h none ok = (refl, IsExtended-refl fair.meta_value h)
  copy_list-IsSliceCopy h (some p) (cs, e, ok) = (copy_list-IsListCopy rt fair p h cs e ok).1
