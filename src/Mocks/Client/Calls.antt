-- ===== src/Mocks/Client/Calls.antt =====
-- internal/client/mock_client.go: MockClient, its calls as data.
use operator_for_ai_chips_on.Mocks.Client
use operator_for_ai_chips_on.Mocks.Client.Recorder.{
  expect_create, expect_delete, expect_delete_all_of, expect_get, expect_group_version_kind_for,
  expect_is_object_namespaced, expect_list, expect_patch, expect_rest_mapper, expect_scheme,
  expect_status, expect_sub_resource, expect_update, create_method, delete_method,
  delete_all_of_method, get_method, group_version_kind_for_method, is_object_namespaced_method,
  list_method, patch_method, rest_mapper_method, scheme_method, status_method, sub_resource_method,
  update_method,
}
use operator_for_ai_chips_on.Mocks.Calls.{
  Description, return_error, return_pair, return_interface, return_value,
}
use operator_for_ai_chips_on.Common.{ℕ, List, [], ◌∷◌, ◌++◌, map}
use operator_for_ai_chips_on.Mocks.Gomock.{
  bool_type, string_type, context_type, runtime_object_type, object_type, object_list_type,
  patch_type, namespaced_name_type, group_version_kind_type, rest_mapper_type, scheme_type,
  sub_resource_writer_type, sub_resource_client_type, create_option_type, delete_option_type,
  delete_all_of_option_type, get_option_type, list_option_type, patch_option_type,
  update_option_type, Values, At, Any, value, any, Interface, Gomock,
}
use operator_for_ai_chips_on.Mocks.Doubles.{Run, ◌>>=◌}

module _ (V : Values) where
  pub data ClientCall : Type 0 where
    create :
        Interface V context_type
        → Interface V object_type
        → List (Interface V create_option_type)
        → ClientCall
    delete :
        Interface V context_type
        → Interface V object_type
        → List (Interface V delete_option_type)
        → ClientCall
    delete_all_of :
        Interface V context_type
        → Interface V object_type
        → List (Interface V delete_all_of_option_type)
        → ClientCall
    get :
        Interface V context_type
        → At V namespaced_name_type
        → Interface V object_type
        → List (Interface V get_option_type)
        → ClientCall
    group_version_kind_for : Interface V runtime_object_type → ClientCall
    is_object_namespaced : Interface V runtime_object_type → ClientCall
    list :
        Interface V context_type
        → Interface V object_list_type
        → List (Interface V list_option_type)
        → ClientCall
    patch :
        Interface V context_type
        → Interface V object_type
        → Interface V patch_type
        → List (Interface V patch_option_type)
        → ClientCall
    rest_mapper : ClientCall
    scheme : ClientCall
    status : ClientCall
    sub_resource : At V string_type → ClientCall
    update :
        Interface V context_type
        → Interface V object_type
        → List (Interface V update_option_type)
        → ClientCall

module _ {V : Values} where
  -- The name, the type and the arguments of a call.
  unfoldable pub describe : ClientCall V → Description V
  describe (create arg0 arg1 arg2) = record {
    method = "Create";
    signature = create_method;
    arguments =
        (any context_type arg0 ∷ any object_type arg1 ∷ []) ++ map (any create_option_type) arg2;
  }
  describe (delete arg0 arg1 arg2) = record {
    method = "Delete";
    signature = delete_method;
    arguments =
        (any context_type arg0 ∷ any object_type arg1 ∷ []) ++ map (any delete_option_type) arg2;
  }
  describe (delete_all_of arg0 arg1 arg2) = record {
    method = "DeleteAllOf";
    signature = delete_all_of_method;
    arguments =
        (any context_type arg0 ∷ any object_type arg1 ∷ [])
        ++ map (any delete_all_of_option_type) arg2;
  }
  describe (get arg0 arg1 arg2 arg3) = record {
    method = "Get";
    signature = get_method;
    arguments =
        (any context_type arg0 ∷ value namespaced_name_type arg1 ∷ any object_type arg2 ∷ [])
        ++ map (any get_option_type) arg3;
  }
  describe (group_version_kind_for arg0) = record {
    method = "GroupVersionKindFor";
    signature = group_version_kind_for_method;
    arguments = any runtime_object_type arg0 ∷ [];
  }
  describe (is_object_namespaced arg0) = record {
    method = "IsObjectNamespaced";
    signature = is_object_namespaced_method;
    arguments = any runtime_object_type arg0 ∷ [];
  }
  describe (list arg0 arg1 arg2) = record {
    method = "List";
    signature = list_method;
    arguments =
        (any context_type arg0 ∷ any object_list_type arg1 ∷ []) ++ map (any list_option_type) arg2;
  }
  describe (patch arg0 arg1 arg2 arg3) = record {
    method = "Patch";
    signature = patch_method;
    arguments =
        (any context_type arg0 ∷ any object_type arg1 ∷ any patch_type arg2 ∷ [])
        ++ map (any patch_option_type) arg3;
  }
  describe rest_mapper = record {
    method = "RESTMapper";
    signature = rest_mapper_method;
    arguments = [];
  }
  describe scheme = record { method = "Scheme"; signature = scheme_method; arguments = [] }
  describe status = record { method = "Status"; signature = status_method; arguments = [] }
  describe (sub_resource arg0) = record {
    method = "SubResource";
    signature = sub_resource_method;
    arguments = value string_type arg0 ∷ [];
  }
  describe (update arg0 arg1 arg2) = record {
    method = "Update";
    signature = update_method;
    arguments =
        (any context_type arg0 ∷ any object_type arg1 ∷ []) ++ map (any update_option_type) arg2;
  }

module _ {V : Values} (G : Gomock V) where
  -- The call, made of a mock, with its results as values.
  unfoldable pub invoke : ClientCall V → ℕ → Run G (List (Any V))
  invoke (create arg0 arg1 arg2) m = return_error (Client.create G m arg0 arg1 arg2)
  invoke (delete arg0 arg1 arg2) m = return_error (Client.delete G m arg0 arg1 arg2)
  invoke (delete_all_of arg0 arg1 arg2) m = return_error (Client.delete_all_of G m arg0 arg1 arg2)
  invoke (get arg0 arg1 arg2 arg3) m = return_error (Client.get G m arg0 arg1 arg2 arg3)
  invoke (group_version_kind_for arg0) m =
      return_pair group_version_kind_type (Client.group_version_kind_for G m arg0)
  invoke (is_object_namespaced arg0) m =
      return_pair bool_type (Client.is_object_namespaced G m arg0)
  invoke (list arg0 arg1 arg2) m = return_error (Client.list G m arg0 arg1 arg2)
  invoke (patch arg0 arg1 arg2 arg3) m = return_error (Client.patch G m arg0 arg1 arg2 arg3)
  invoke rest_mapper m = return_interface rest_mapper_type (Client.rest_mapper G m)
  invoke scheme m = return_value scheme_type (Client.scheme G m)
  invoke status m = return_interface sub_resource_writer_type (Client.status G m)
  invoke (sub_resource arg0) m =
      return_interface sub_resource_client_type (Client.sub_resource G m arg0)
  invoke (update arg0 arg1 arg2) m = return_error (Client.update G m arg0 arg1 arg2)

  -- The call, announced by EXPECT of a mock.
  unfoldable pub announce : ClientCall V → ℕ → Run G G.Call
  announce (create arg0 arg1 arg2) m = do
    mr ← Client.expect G m
    expect_create G mr (any context_type arg0) (any object_type arg1)
        (map (any create_option_type) arg2)
  announce (delete arg0 arg1 arg2) m = do
    mr ← Client.expect G m
    expect_delete G mr (any context_type arg0) (any object_type arg1)
        (map (any delete_option_type) arg2)
  announce (delete_all_of arg0 arg1 arg2) m = do
    mr ← Client.expect G m
    expect_delete_all_of G mr (any context_type arg0) (any object_type arg1)
        (map (any delete_all_of_option_type) arg2)
  announce (get arg0 arg1 arg2 arg3) m = do
    mr ← Client.expect G m
    expect_get G mr (any context_type arg0) (value namespaced_name_type arg1) (any object_type arg2)
        (map (any get_option_type) arg3)
  announce (group_version_kind_for arg0) m = do
    mr ← Client.expect G m
    expect_group_version_kind_for G mr (any runtime_object_type arg0)
  announce (is_object_namespaced arg0) m = do
    mr ← Client.expect G m
    expect_is_object_namespaced G mr (any runtime_object_type arg0)
  announce (list arg0 arg1 arg2) m = do
    mr ← Client.expect G m
    expect_list G mr (any context_type arg0) (any object_list_type arg1)
        (map (any list_option_type) arg2)
  announce (patch arg0 arg1 arg2 arg3) m = do
    mr ← Client.expect G m
    expect_patch G mr (any context_type arg0) (any object_type arg1) (any patch_type arg2)
        (map (any patch_option_type) arg3)
  announce rest_mapper m = do mr ← Client.expect G m; expect_rest_mapper G mr
  announce scheme m = do mr ← Client.expect G m; expect_scheme G mr
  announce status m = do mr ← Client.expect G m; expect_status G mr
  announce (sub_resource arg0) m = do
    mr ← Client.expect G m
    expect_sub_resource G mr (value string_type arg0)
  announce (update arg0 arg1 arg2) m = do
    mr ← Client.expect G m
    expect_update G mr (any context_type arg0) (any object_type arg1)
        (map (any update_option_type) arg2)
