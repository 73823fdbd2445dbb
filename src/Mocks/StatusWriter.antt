-- ===== src/Mocks/StatusWriter.antt =====
-- internal/client/mock_client.go: MockStatusWriter.
pub mod Recorder
pub mod Calls
pub mod Answers
use operator_for_ai_chips_on.Common.{ℕ, List, [], ◌∷◌}
use operator_for_ai_chips_on.Mocks.Gomock.{
  error_type, context_type, object_type, patch_type, sub_resource_create_option_type,
  sub_resource_patch_option_type, sub_resource_update_option_type, Values, any, Interface, Gomock,
}
use operator_for_ai_chips_on.Mocks.Doubles.{
  Run, ◌>>=◌, new_mock, recorder_of, call_method, append_each, error_result,
}

module _ {V : Values} (G : Gomock V) where
  -- NewMockStatusWriter
  unfoldable pub new_mock_status_writer : G.Controller → Run G ℕ
  new_mock_status_writer ctrl = new_mock ctrl

  -- EXPECT
  unfoldable pub expect : ℕ → Run G ℕ
  expect m = recorder_of m

  unfoldable pub create :
      ℕ
      → Interface V context_type
      → Interface V object_type
      → Interface V object_type
      → List (Interface V sub_resource_create_option_type)
      → Run G (Interface V error_type)
  create m arg0 arg1 arg2 arg3 = do
    let varargs =
        append_each sub_resource_create_option_type
          (any context_type arg0 ∷ any object_type arg1 ∷ any object_type arg2 ∷ []) arg3
    ret ← call_method m "Create" varargs
    error_result ret

  unfoldable pub patch :
      ℕ
      → Interface V context_type
      → Interface V object_type
      → Interface V patch_type
      → List (Interface V sub_resource_patch_option_type)
      → Run G (Interface V error_type)
  patch m arg0 arg1 arg2 arg3 = do
    let varargs =
        append_each sub_resource_patch_option_type
          (any context_type arg0 ∷ any object_type arg1 ∷ any patch_type arg2 ∷ []) arg3
    ret ← call_method m "Patch" varargs
    error_result ret

  unfoldable pub update :
      ℕ
      → Interface V context_type
      → Interface V object_type
      → List (Interface V sub_resource_update_option_type)
      → Run G (Interface V error_type)
  update m arg0 arg1 arg2 = do
    let varargs =
        append_each sub_resource_update_option_type
          (any context_type arg0 ∷ any object_type arg1 ∷ []) arg2
    ret ← call_method m "Update" varargs
    error_result ret
