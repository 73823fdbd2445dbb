-- ===== src/Api/Copies/Specs.antt =====
-- api/v1alpha1/zz_generated.deepcopy.go: (*DeviceConfigSpec).DeepCopy.
use operator_for_ai_chips_on.Common.{◌≡◌, refl, ap, ◌∙◌, Option, none, some, arith}
use operator_for_ai_chips_on.Api.Heap.{Ptr, SpecCell, Heap}
use operator_for_ai_chips_on.Api.DeepCopy.{Runtime, copy_spec}
use operator_for_ai_chips_on.Api.DeepCopy.Store.{
  IsExtended, IsExtended-trans, IsValidSpec, IsNewSpec, spec_value, update-old, update-new,
}
use operator_for_ai_chips_on.Api.DeepCopy.Store.{Returns as HeapReturns}
use operator_for_ai_chips_on.Api.DeepCopy.Pointers.{IsFair}
use operator_for_ai_chips_on.Api.DeepCopy.Laws.{IsSpecCopy, copy_spec_lem}
use operator_for_ai_chips_on.Api.Copies.{Store, taken, deep_copy_spec}
use operator_for_ai_chips_on.Api.Copies.Values.{Returns, Returns-bind, Returns-load, IsCopied}

pub taken-IsExtended :
    {M R : Type 0} (rt : Runtime M R) (fair : IsFair rt) (h : Heap M R)
    → IsExtended fair.meta_value h (taken h)
taken-IsExtended rt fair h = record {
  next = omega arith;
  secrets = λ p _. refl;
  maps = λ p _. refl;
  configs = λ p _. refl;
  arrays = λ p _. refl;
  metas = λ _. refl;
}

module _ {M R L S : Type 0} (rt : Runtime M R) (fair : IsFair rt) where
  -- The run of a command on the heap leaves the other cells.
  pub Returns-on_heap :
      {A : Type 0} (m : Option (A × Heap M R)) (s : Store M R L S) (P : A → Heap M R → Type 0)
      (Q : A → Store M R L S → Type 0)
      → HeapReturns m P
      → ((a : A) (h : Heap M R) → P a h → Q a (record s { heap = h }))
      → Returns (elim m [ none ↦ none | some (a, h) ↦ some (a, record s { heap = h }) ]) Q
  Returns-on_heap none s P Q r k = absurd r
  Returns-on_heap (some (a, h)) s P Q r k = k a h r

  -- The pointer `o` to a copy of the struct `a` in `s`.
  pub record IsSpecDeepCopy (s : Store M R L S) (a : SpecCell) (o : Option Ptr) (s' : Store M R L S)
      : Type 0 where
    pub copy : SpecCell
    pub copied : IsCopied (λ t. t.specs) copy s o s'
    pub same : spec_value s'.heap copy ≡ spec_value s.heap a
    pub apart : IsNewSpec s.heap copy
    pub extended : IsExtended fair.meta_value s.heap s'.heap

  -- DeepCopy of a nil DeviceConfigSpec is nil. Of a pointer to one with valid pointers it does not
  -- fault, and returns a new pointer to a struct of the same value; no pointer of that struct leads
  -- to a cell that was there before, and those cells are as they were.
  pub deep_copy_spec-IsSpecDeepCopy :
      (copy_list_meta : L → S → L × S) (p : Ptr) (s : Store M R L S) (a : SpecCell)
      → s.specs p ≡ some a
      → IsValidSpec s.heap a
      → (deep_copy_spec rt copy_list_meta none s ≡ some (none, s))
        × Returns (deep_copy_spec rt copy_list_meta (some p) s) (IsSpecDeepCopy s a)
  unfolding deep_copy_spec
  deep_copy_spec-IsSpecDeepCopy copy_list_meta p s a e ok = (
    refl,
    Returns-load (λ t. t.specs) p _ s a (IsSpecDeepCopy s a) e
        (Returns-bind _ _
          (λ b t. IsSpecCopy rt fair s.heap a b t.heap × (t ≡ record s { heap = t.heap }))
          (IsSpecDeepCopy s a)
          (Returns-on_heap (copy_spec rt a s.heap) s (IsSpecCopy rt fair s.heap a) _
            (copy_spec_lem rt fair a s.heap ok) (λ b h k. (k, refl)))
          λ b t k. record {
            copy = b;
            copied = record {
              address = t.heap.next;
              pointer = refl;
              is_new = k.0.extended.next;
              cell = update-new t.specs b t.heap.next;
              kept = λ q l.
                  update-old t.specs b t.heap.next q (omega (arith, l, k.0.extended.next))
                  ∙ ap (λ (u : Store M R L S). u.specs q) k.1;
            };
            same = k.0.same;
            apart = k.0.apart;
            extended =
                IsExtended-trans fair.meta_value s.heap t.heap (taken t.heap) k.0.extended
                  (taken-IsExtended rt fair t.heap);
          }),
  )
