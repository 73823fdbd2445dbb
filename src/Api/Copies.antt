-- ===== src/Api/Copies.antt =====
-- api/v1alpha1/zz_generated.deepcopy.go: DeepCopy and DeepCopyObject behind pointers, for every type
-- of the file.
pub mod Values
pub mod Specs
pub mod Slices
pub mod Whole
use operator_for_ai_chips_on.Common.{suc, Option, none, some}
use operator_for_ai_chips_on.Api.{DeploymentStatus, DeviceConfigStatus}
use operator_for_ai_chips_on.Api.Heap.{TypeMeta, Ptr, SpecCell, Heap, Cmd, update}
use operator_for_ai_chips_on.Api.DeepCopy.{
  Runtime, copy_deployment_status, copy_status, copy_spec, copy_list, deep_copy,
}

-- The DeviceConfigList struct; `L` is the type of its metadata, whose code is elsewhere.
pub record ListCell (L : Type 0) : Type 0 where
  pub type_meta : TypeMeta
  pub list_meta : L
  pub items : Option Ptr

-- The store with the other structs that have a DeepCopy. `S` is the store of what list metadata
-- refers to. The free addresses are those of the heap.
pub record Store (M R L S : Type 0) : Type 0 where
  pub heap : Heap M R
  pub lists : Ptr → Option (ListCell L)
  pub specs : Ptr → Option SpecCell
  pub statuses : Ptr → Option DeviceConfigStatus
  pub deployment_statuses : Ptr → Option DeploymentStatus
  pub list_metas : S

-- A runtime.Object: its dynamic type, and a pointer of that type that may be nil.
pub data Object : Type 0 where
  device_config : Option Ptr → Object
  device_config_list : Option Ptr → Object

-- One address more is taken.
abbrev pub taken : {M R : Type 0} → Heap M R → Heap M R
taken h = record h { next = suc h.next }

-- `if c := in.DeepCopy(); c != nil { return c }; return nil`
abbrev pub if_not_nil : (Option Ptr → Object) → Option Ptr → Option Object
if_not_nil type none = none
if_not_nil type (some p) = some (type (some p))

abbrev pub Run : (M R L S : Type 0) → Type 0 → Type 0
Run M R L S A = Store M R L S → Option (A × Store M R L S)

module _ {M R L S : Type 0} where
  abbrev pub pure : {A : Type 0} → A → Run M R L S A
  pure a s = some (a, s)

  infixl 5 ◌>>=◌
  abbrev pub ◌>>=◌ : {A B : Type 0} → Run M R L S A → (A → Run M R L S B) → Run M R L S B
  ◌>>=◌ m f s = elim (m s) [ none ↦ none | some (a, s') ↦ f a s' ]

  -- `*p`
  abbrev pub load : {A : Type 0} → (Store M R L S → Ptr → Option A) → Ptr → Run M R L S A
  load cells p s = elim (cells s p) [ none ↦ none | some a ↦ some (a, s) ]

  abbrev pub on_heap : {A : Type 0} → Cmd M R A → Run M R L S A
  on_heap m s = elim (m s.heap) [ none ↦ none | some (a, h) ↦ some (a, record s { heap = h }) ]

  -- `new(T)` followed by a write of the whole value.
  abbrev pub new_list : ListCell L → Run M R L S Ptr
  new_list a s =
      some (s.heap.next, record s { heap = taken s.heap; lists = update s.lists s.heap.next a })

  abbrev pub new_spec : SpecCell → Run M R L S Ptr
  new_spec a s =
      some (s.heap.next, record s { heap = taken s.heap; specs = update s.specs s.heap.next a })

  abbrev pub new_status : DeviceConfigStatus → Run M R L S Ptr
  new_status a s =
      some
        (s.heap.next, record s { heap = taken s.heap; statuses = update s.statuses s.heap.next a })

  abbrev pub new_deployment_status : DeploymentStatus → Run M R L S Ptr
  new_deployment_status a s = some (
    s.heap.next,
    record s {
      heap = taken s.heap;
      deployment_statuses = update s.deployment_statuses s.heap.next a;
    },
  )

  -- (*DeploymentStatus).DeepCopy
  unfoldable pub deep_copy_deployment_status : Option Ptr → Run M R L S (Option Ptr)
  unfolding copy_deployment_status
  deep_copy_deployment_status none = pure none
  deep_copy_deployment_status (some p) = do
    a ← load (λ s. s.deployment_statuses) p
    q ← new_deployment_status (copy_deployment_status a)
    pure (some q)

  -- (*DeviceConfigStatus).DeepCopy
  unfoldable pub deep_copy_status : Option Ptr → Run M R L S (Option Ptr)
  unfolding copy_status
  deep_copy_status none = pure none
  deep_copy_status (some p) = do
    a ← load (λ s. s.statuses) p
    q ← new_status (copy_status a)
    pure (some q)

module _ {M R L S : Type 0} (rt : Runtime M R) (copy_list_meta : L → S → L × S) where
  -- (*DeviceConfigSpec).DeepCopy
  unfoldable pub deep_copy_spec : Option Ptr → Run M R L S (Option Ptr)
  deep_copy_spec none = pure none
  deep_copy_spec (some p) = do
    a ← load (λ s. s.specs) p
    a' ← on_heap (copy_spec rt a)
    q ← new_spec a'
    pure (some q)

  unfoldable pub copy_meta_of_list : L → Run M R L S L
  copy_meta_of_list l s =
      let (l', metas) = copy_list_meta l s.list_metas in some (l', record s { list_metas = metas })

  -- (*DeviceConfigList).DeepCopyInto
  unfoldable pub copy_whole_list : ListCell L → Run M R L S (ListCell L)
  copy_whole_list l = do
    meta ← copy_meta_of_list l.list_meta
    items ← on_heap (copy_list rt l.items)
    pure (record l { type_meta = l.type_meta; list_meta = meta; items = items })

  -- (*DeviceConfigList).DeepCopy
  unfoldable pub deep_copy_list : Option Ptr → Run M R L S (Option Ptr)
  deep_copy_list none = pure none
  deep_copy_list (some p) = do
    l ← load (λ s. s.lists) p
    l' ← copy_whole_list l
    q ← new_list l'
    pure (some q)

  -- DeepCopyObject of both types; `none` is a nil interface.
  unfoldable pub deep_copy_object : Object → Run M R L S (Option Object)
  deep_copy_object (device_config p) = do
    c ← on_heap (deep_copy rt p)
    pure (if_not_nil device_config c)
  deep_copy_object (device_config_list p) = do
    c ← deep_copy_list p
    pure (if_not_nil device_config_list c)
