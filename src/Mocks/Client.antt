-- ===== src/Mocks/Client.antt =====
-- internal/client/mock_client.go: MockClient.
pub mod Recorder
pub mod Calls
pub mod Answers
use operator_for_ai_chips_on.Common.{ℕ, Bool, List, [], ◌∷◌}
use operator_for_ai_chips_on.Mocks.Gomock.{
  string_type, error_type, context_type, runtime_object_type, object_type, object_list_type,
  patch_type, namespaced_name_type, group_version_kind_type, rest_mapper_type, scheme_type,
  sub_resource_writer_type, sub_resource_client_type, create_option_type, delete_option_type,
  delete_all_of_option_type, get_option_type, list_option_type, patch_option_type,
  update_option_type, Values, At, value, any, Interface, Gomock,
}
use operator_for_ai_chips_on.Mocks.Doubles.{
  Run, pure, ◌>>=◌, new_mock, recorder_of, call_method, append_each, as_bool, as_group_version_kind,
  as_rest_mapper, as_scheme, as_sub_resource_writer, as_sub_resource_client, as_error, result_at,
  error_result,
}

module _ {V : Values} (G : Gomock V) where
  -- NewMockClient
  unfoldable pub new_mock_client : G.Controller → Run G ℕ
  new_mock_client ctrl = new_mock ctrl

  -- EXPECT
  unfoldable pub expect : ℕ → Run G ℕ
  expect m = recorder_of m

  unfoldable pub create :
      ℕ
      → Interface V context_type
      → Interface V object_type
      → List (Interface V create_option_type)
      → Run G (Interface V error_type)
  create m arg0 arg1 arg2 = do
    let varargs =
        append_each create_option_type (any context_type arg0 ∷ any object_type arg1 ∷ []) arg2
    ret ← call_method m "Create" varargs
    error_result ret

  unfoldable pub delete :
      ℕ
      → Interface V context_type
      → Interface V object_type
      → List (Interface V delete_option_type)
      → Run G (Interface V error_type)
  delete m arg0 arg1 arg2 = do
    let varargs =
        append_each delete_option_type (any context_type arg0 ∷ any object_type arg1 ∷ []) arg2
    ret ← call_method m "Delete" varargs
    error_result ret

  unfoldable pub delete_all_of :
      ℕ
      → Interface V context_type
      → Interface V object_type
      → List (Interface V delete_all_of_option_type)
      → Run G (Interface V error_type)
  delete_all_of m arg0 arg1 arg2 = do
    let varargs =
        append_each delete_all_of_option_type (any context_type arg0 ∷ any object_type arg1 ∷ [])
          arg2
    ret ← call_method m "DeleteAllOf" varargs
    error_result ret

  unfoldable pub get :
      ℕ
      → Interface V context_type
      → At V namespaced_name_type
      → Interface V object_type
      → List (Interface V get_option_type)
      → Run G (Interface V error_type)
  get m arg0 arg1 arg2 arg3 = do
    let varargs =
        append_each get_option_type
          (any context_type arg0 ∷ value namespaced_name_type arg1 ∷ any object_type arg2 ∷ []) arg3
    ret ← call_method m "Get" varargs
    error_result ret

  unfoldable pub group_version_kind_for :
      ℕ
      → Interface V runtime_object_type
      → Run G (V.Value group_version_kind_type × Interface V error_type)
  group_version_kind_for m arg0 = do
    ret ← call_method m "GroupVersionKindFor" (any runtime_object_type arg0 ∷ [])
    ret0 ← result_at 0 ret
    ret1 ← result_at 1 ret
    pure (as_group_version_kind ret0, as_error ret1)

  unfoldable pub is_object_namespaced :
      ℕ → Interface V runtime_object_type → Run G (Bool × Interface V error_type)
  is_object_namespaced m arg0 = do
    ret ← call_method m "IsObjectNamespaced" (any runtime_object_type arg0 ∷ [])
    ret0 ← result_at 0 ret
    ret1 ← result_at 1 ret
    pure (as_bool ret0, as_error ret1)

  unfoldable pub list :
      ℕ
      → Interface V context_type
      → Interface V object_list_type
      → List (Interface V list_option_type)
      → Run G (Interface V error_type)
  list m arg0 arg1 arg2 = do
    let varargs =
        append_each list_option_type (any context_type arg0 ∷ any object_list_type arg1 ∷ []) arg2
    ret ← call_method m "List" varargs
    error_result ret

  unfoldable pub patch :
      ℕ
      → Interface V context_type
      → Interface V object_type
      → Interface V patch_type
      → List (Interface V patch_option_type)
      → Run G (Interface V error_type)
  patch m arg0 arg1 arg2 arg3 = do
    let varargs =
        append_each patch_option_type
          (any context_type arg0 ∷ any object_type arg1 ∷ any patch_type arg2 ∷ []) arg3
    ret ← call_method m "Patch" varargs
    error_result ret

  unfoldable pub rest_mapper : ℕ → Run G (Interface V rest_mapper_type)
  rest_mapper m = do
    ret ← call_method m "RESTMapper" []
    ret0 ← result_at 0 ret
    pure (as_rest_mapper ret0)

  unfoldable pub scheme : ℕ → Run G (V.Value scheme_type)
  scheme m = do ret ← call_method m "Scheme" []; ret0 ← result_at 0 ret; pure (as_scheme ret0)

  unfoldable pub status : ℕ → Run G (Interface V sub_resource_writer_type)
  status m = do
    ret ← call_method m "Status" []
    ret0 ← result_at 0 ret
    pure (as_sub_resource_writer ret0)

  unfoldable pub sub_resource : ℕ → At V string_type → Run G (Interface V sub_resource_client_type)
  sub_resource m arg0 = do
    ret ← call_method m "SubResource" (value string_type arg0 ∷ [])
    ret0 ← result_at 0 ret
    pure (as_sub_resource_client ret0)

  unfoldable pub update :
      ℕ
      → Interface V context_type
      → Interface V object_type
      → List (Interface V update_option_type)
      → Run G (Interface V error_type)
  update m arg0 arg1 arg2 = do
    let varargs =
        append_each update_option_type (any context_type arg0 ∷ any object_type arg1 ∷ []) arg2
    ret ← call_method m "Update" varargs
    error_result ret
