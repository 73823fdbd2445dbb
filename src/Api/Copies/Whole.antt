-- ===== src/Api/Copies/Whole.antt =====
-- api/v1alpha1/zz_generated.deepcopy.go: (*DeviceConfigList).DeepCopy, and DeepCopyObject.
use operator_for_ai_chips_on.Common.{◌≡◌, refl, ap, ◌∙◌, Option, none, some, arith}
use operator_for_ai_chips_on.Api.Heap.{Ptr, ConfigCell}
use operator_for_ai_chips_on.Api.DeepCopy.{Runtime, copy_list, deep_copy}
use operator_for_ai_chips_on.Api.DeepCopy.Store.{IsValidSpec, update-old, update-new}
use operator_for_ai_chips_on.Api.DeepCopy.Pointers.{IsFair}
use operator_for_ai_chips_on.Api.DeepCopy.Objects.{IsDeepCopy, deep_copy-IsDeepCopy}
use operator_for_ai_chips_on.Api.Copies.{
  ListCell, Store, Object, device_config, device_config_list, if_not_nil, copy_meta_of_list,
  copy_whole_list, deep_copy_list, deep_copy_object,
}
use operator_for_ai_chips_on.Api.Copies.Slices.{
  IsValidSlice, IsSliceCopy, IsSliceCopy-taken, IsSliceCopy-IsExtended, copy_list-IsSliceCopy,
}
use operator_for_ai_chips_on.Api.Copies.Values.{Returns, Returns-bind, Returns-load, IsCopied}
use operator_for_ai_chips_on.Api.Copies.Specs.{Returns-on_heap}

module _ {M R L S : Type 0} (rt : Runtime M R) (fair : IsFair rt)
    (copy_list_meta : L → S → L × S) where
  -- The pointer `o` to a copy of the struct `l` in `s`, whose items are valid: the struct is new, its
  -- type and metadata have the value that they had, and its slice is a copy.
  pub record IsWholeCopy {V : Type 0} (list_value : L → S → V) (s : Store M R L S) (l : ListCell L)
      (ok : IsValidSlice rt fair s.heap l.items) (o : Option Ptr) (s' : Store M R L S)
      : Type 0 where
    pub copy : ListCell L
    pub copied : IsCopied (λ t. t.lists) copy s o s'
    pub same_type : copy.type_meta ≡ l.type_meta
    pub same_meta : list_value copy.list_meta s'.list_metas ≡ list_value l.list_meta s.list_metas
    pub items : IsSliceCopy rt fair s.heap l.items ok copy.items s'.heap

  module _ {V : Type 0} (list_value : L → S → V)
      (keeps : (l : L) (r : S)
        → list_value (copy_list_meta l r).0 (copy_list_meta l r).1 ≡ list_value l r) where
    -- What (*DeviceConfigList).DeepCopyInto writes.
    record IsInto (s : Store M R L S) (l : ListCell L) (ok : IsValidSlice rt fair s.heap l.items)
        (copy : ListCell L) (t : Store M R L S) : Type 0 where
      same_lists : (q : Ptr) → t.lists q ≡ s.lists q
      same_type : copy.type_meta ≡ l.type_meta
      same_meta : list_value copy.list_meta t.list_metas ≡ list_value l.list_meta s.list_metas
      items : IsSliceCopy rt fair s.heap l.items ok copy.items t.heap

    copy_whole_list-IsInto :
        (s : Store M R L S) (l : ListCell L) (ok : IsValidSlice rt fair s.heap l.items)
        → Returns (copy_whole_list rt copy_list_meta l s) (IsInto s l ok)
    unfolding copy_whole_list copy_meta_of_list
    copy_whole_list-IsInto s l ok =
        let r : L × S = copy_list_meta l.list_meta s.list_metas in
        let s' : Store M R L S = record s { list_metas = r.1 } in
        Returns-bind _ _
          (λ o t.
            IsSliceCopy rt fair s.heap l.items ok o t.heap
            × (t.lists ≡ s.lists)
            × (t.list_metas ≡ r.1))
          (IsInto s l ok)
          (Returns-on_heap rt fair (copy_list rt l.items s.heap) s'
            (IsSliceCopy rt fair s.heap l.items ok) _
            (copy_list-IsSliceCopy rt fair s.heap l.items ok) λ o h k. (k, refl, refl))
          λ o t k. record {
            same_lists = λ q. ap (λ (f : Ptr → Option (ListCell L)). f q) k.1;
            same_type = refl;
            same_meta = ap (list_value r.0) k.2 ∙ keeps l.list_meta s.list_metas;
            items = k.0;
          }

    deep_copy_list-IsWholeCopy :
        (p : Ptr) (s : Store M R L S) (l : ListCell L) (ok : IsValidSlice rt fair s.heap l.items)
        → s.lists p ≡ some l
        → Returns (deep_copy_list rt copy_list_meta (some p) s) (IsWholeCopy list_value s l ok)
    unfolding deep_copy_list
    deep_copy_list-IsWholeCopy p s l ok e =
        Returns-load (λ t. t.lists) p _ s l (IsWholeCopy list_value s l ok) e
          (Returns-bind (copy_whole_list rt copy_list_meta l s) _ (IsInto s l ok) _
            (copy_whole_list-IsInto s l ok)
            λ c t k.
              let more = IsSliceCopy-IsExtended rt fair s.heap t.heap l.items ok c.items k.items in
              record {
                copy = c;
                copied = record {
                  address = t.heap.next;
                  pointer = refl;
                  is_new = more.next;
                  cell = update-new t.lists c t.heap.next;
                  kept = λ q n.
                      update-old t.lists c t.heap.next q (omega (arith, n, more.next))
                      ∙ k.same_lists q;
                };
                same_type = k.same_type;
                same_meta = k.same_meta;
                items = IsSliceCopy-taken rt fair s.heap t.heap l.items ok c.items k.items;
              })

    -- What a runtime.Object leads to, and what a copy of it is like.
    abbrev pub IsValidObject : Store M R L S → Object → Type 0
    IsValidObject s (device_config none) = Unit {0}
    IsValidObject s (device_config (some p)) =
        (c : ConfigCell M) × (s.heap.configs p ≡ some c) × IsValidSpec s.heap c.spec
    IsValidObject s (device_config_list none) = Unit {0}
    IsValidObject s (device_config_list (some p)) =
        (l : ListCell L) × IsValidSlice rt fair s.heap l.items × (s.lists p ≡ some l)

    abbrev pub IsObjectCopy :
        (s : Store M R L S) (x : Object)
        → IsValidObject s x
        → Option Object
        → Store M R L S
        → Type 0
    IsObjectCopy s (device_config none) ok y s' = (y ≡ none) × (s' ≡ s)
    IsObjectCopy s (device_config (some p)) ok y s' =
        (q : Ptr) × (y ≡ some (device_config (some q)))
        × IsDeepCopy rt fair s.heap ok.0 (some q) s'.heap
    IsObjectCopy s (device_config_list none) ok y s' = (y ≡ none) × (s' ≡ s)
    IsObjectCopy s (device_config_list (some p)) ok y s' =
        (q : Ptr) × (y ≡ some (device_config_list (some q)))
        × IsWholeCopy list_value s ok.0 ok.1 (some q) s'

    device_config-IsObjectCopy :
        (s : Store M R L S) (p : Ptr) (ok : IsValidObject s (device_config (some p)))
        (o : Option Ptr) (t : Store M R L S)
        → IsDeepCopy rt fair s.heap ok.0 o t.heap
        → IsObjectCopy s (device_config (some p)) ok (if_not_nil device_config o) t
    device_config-IsObjectCopy s p ok none t k = ground (arith, k.cell)
    device_config-IsObjectCopy s p ok (some q) t k = (q, refl, k)

    device_config_list-IsObjectCopy :
        (s : Store M R L S) (p : Ptr) (ok : IsValidObject s (device_config_list (some p)))
        (o : Option Ptr) (t : Store M R L S)
        → IsWholeCopy list_value s ok.0 ok.1 o t
        → IsObjectCopy s (device_config_list (some p)) ok (if_not_nil device_config_list o) t
    device_config_list-IsObjectCopy s p ok none t k = ground (arith, k.copied.pointer)
    device_config_list-IsObjectCopy s p ok (some q) t k = (q, refl, k)

    deep_copy_object-nil :
        (s : Store M R L S)
        → (deep_copy_object rt copy_list_meta (device_config none) s ≡ some (none, s))
          × (deep_copy_object rt copy_list_meta (device_config_list none) s ≡ some (none, s))
    unfolding deep_copy_object deep_copy deep_copy_list
    deep_copy_object-nil s = (refl, refl)

    -- DeepCopyObject of an object with valid pointers does not fault. A nil pointer gives a nil
    -- interface. A pointer to a DeviceConfig gives one to a deep copy of the DeviceConfig, and a
    -- pointer to a DeviceConfigList one to a new list of the same type and metadata, whose items are
    -- copies of the items, in a new array, unless the slice is nil. It is assumed that the copy of
    -- list metadata keeps its value.
    pub deep_copy_object-IsObjectCopy :
        (s : Store M R L S) (x : Object) (ok : IsValidObject s x)
        → Returns (deep_copy_object rt copy_list_meta x s) (IsObjectCopy s x ok)
    unfolding deep_copy_object
    deep_copy_object-IsObjectCopy s (device_config none) ok =
        rw (deep_copy_object-nil s).0 (refl, refl)
    deep_copy_object-IsObjectCopy s (device_config (some p)) (c, e, ok) =
        Returns-bind _ _ (λ o t. IsDeepCopy rt fair s.heap c o t.heap)
          (IsObjectCopy s (device_config (some p)) (c, e, ok))
          (Returns-on_heap rt fair (deep_copy rt (some p) s.heap) s (IsDeepCopy rt fair s.heap c) _
            (deep_copy-IsDeepCopy rt fair p s.heap c e ok).1 λ o h k. k)
          λ o t k. device_config-IsObjectCopy s p (c, e, ok) o t k
    deep_copy_object-IsObjectCopy s (device_config_list none) ok =
        rw (deep_copy_object-nil s).1 (refl, refl)
    deep_copy_object-IsObjectCopy s (device_config_list (some p)) (l, ok, e) =
        Returns-bind (deep_copy_list rt copy_list_meta (some p) s) _ (IsWholeCopy list_value s l ok)
          (IsObjectCopy s (device_config_list (some p)) (l, ok, e))
          (deep_copy_list-IsWholeCopy p s l ok e)
          λ o t k. device_config_list-IsObjectCopy s p (l, ok, e) o t k
