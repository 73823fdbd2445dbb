-- ===== src/Mocks/StatusWriter/Recorder.antt =====
-- internal/client/mock_client.go: MockStatusWriterMockRecorder.
use operator_for_ai_chips_on.Common.{ℕ, true, List, [], ◌∷◌, ◌++◌}
use operator_for_ai_chips_on.Mocks.Gomock.{
  error_type, context_type, object_type, patch_type, sub_resource_create_option_type,
  sub_resource_patch_option_type, sub_resource_update_option_type, Values, Any, MethodType, Gomock,
}
use operator_for_ai_chips_on.Mocks.Doubles.{Run, record_method}

-- reflect.TypeOf((*MockStatusWriter)(nil).Create)
abbrev pub create_method : MethodType
create_method = record {
  inputs = context_type ∷ object_type ∷ object_type ∷ sub_resource_create_option_type ∷ [];
  is_variadic = true;
  outputs = error_type ∷ [];
}

-- reflect.TypeOf((*MockStatusWriter)(nil).Patch)
abbrev pub patch_method : MethodType
patch_method = record {
  inputs = context_type ∷ object_type ∷ patch_type ∷ sub_resource_patch_option_type ∷ [];
  is_variadic = true;
  outputs = error_type ∷ [];
}

-- reflect.TypeOf((*MockStatusWriter)(nil).Update)
abbrev pub update_method : MethodType
update_method = record {
  inputs = context_type ∷ object_type ∷ sub_resource_update_option_type ∷ [];
  is_variadic = true;
  outputs = error_type ∷ [];
}

module _ {V : Values} (G : Gomock V) where
  unfoldable pub expect_create : ℕ → Any V → Any V → Any V → List (Any V) → Run G G.Call
  expect_create mr arg0 arg1 arg2 arg3 =
      record_method mr "Create" create_method ((arg0 ∷ arg1 ∷ arg2 ∷ []) ++ arg3)

  unfoldable pub expect_patch : ℕ → Any V → Any V → Any V → List (Any V) → Run G G.Call
  expect_patch mr arg0 arg1 arg2 arg3 =
      record_method mr "Patch" patch_method ((arg0 ∷ arg1 ∷ arg2 ∷ []) ++ arg3)

  unfoldable pub expect_update : ℕ → Any V → Any V → List (Any V) → Run G G.Call
  expect_update mr arg0 arg1 arg2 =
      record_method mr "Update" update_method ((arg0 ∷ arg1 ∷ []) ++ arg2)
