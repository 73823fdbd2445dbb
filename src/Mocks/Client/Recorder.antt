-- ===== src/Mocks/Client/Recorder.antt =====
-- internal/client/mock_client.go: MockClientMockRecorder.
use operator_for_ai_chips_on.Common.{ℕ, true, false, List, [], ◌∷◌, ◌++◌}
use operator_for_ai_chips_on.Mocks.Gomock.{
  bool_type, string_type, error_type, context_type, runtime_object_type, object_type,
  object_list_type, patch_type, namespaced_name_type, group_version_kind_type, rest_mapper_type,
  scheme_type, sub_resource_writer_type, sub_resource_client_type, create_option_type,
  delete_option_type, delete_all_of_option_type, get_option_type, list_option_type,
  patch_option_type, update_option_type, Values, Any, MethodType, Gomock,
}
use operator_for_ai_chips_on.Mocks.Doubles.{Run, record_method}

-- reflect.TypeOf((*MockClient)(nil).Create)
abbrev pub create_method : MethodType
create_method = record {
  inputs = context_type ∷ object_type ∷ create_option_type ∷ [];
  is_variadic = true;
  outputs = error_type ∷ [];
}

-- reflect.TypeOf((*MockClient)(nil).Delete)
abbrev pub delete_method : MethodType
delete_method = record {
  inputs = context_type ∷ object_type ∷ delete_option_type ∷ [];
  is_variadic = true;
  outputs = error_type ∷ [];
}

-- reflect.TypeOf((*MockClient)(nil).DeleteAllOf)
abbrev pub delete_all_of_method : MethodType
delete_all_of_method = record {
  inputs = context_type ∷ object_type ∷ delete_all_of_option_type ∷ [];
  is_variadic = true;
  outputs = error_type ∷ [];
}

-- reflect.TypeOf((*MockClient)(nil).Get)
abbrev pub get_method : MethodType
get_method = record {
  inputs = context_type ∷ namespaced_name_type ∷ object_type ∷ get_option_type ∷ [];
  is_variadic = true;
  outputs = error_type ∷ [];
}

-- reflect.TypeOf((*MockClient)(nil).GroupVersionKindFor)
abbrev pub group_version_kind_for_method : MethodType
group_version_kind_for_method = record {
  inputs = runtime_object_type ∷ [];
  is_variadic = false;
  outputs = group_version_kind_type ∷ error_type ∷ [];
}

-- reflect.TypeOf((*MockClient)(nil).IsObjectNamespaced)
abbrev pub is_object_namespaced_method : MethodType
is_object_namespaced_method = record {
  inputs = runtime_object_type ∷ [];
  is_variadic = false;
  outputs = bool_type ∷ error_type ∷ [];
}

-- reflect.TypeOf((*MockClient)(nil).List)
abbrev pub list_method : MethodType
list_method = record {
  inputs = context_type ∷ object_list_type ∷ list_option_type ∷ [];
  is_variadic = true;
  outputs = error_type ∷ [];
}

-- reflect.TypeOf((*MockClient)(nil).Patch)
abbrev pub patch_method : MethodType
patch_method = record {
  inputs = context_type ∷ object_type ∷ patch_type ∷ patch_option_type ∷ [];
  is_variadic = true;
  outputs = error_type ∷ [];
}

-- reflect.TypeOf((*MockClient)(nil).RESTMapper)
abbrev pub rest_mapper_method : MethodType
rest_mapper_method = record { inputs = []; is_variadic = false; outputs = rest_mapper_type ∷ [] }

-- reflect.TypeOf((*MockClient)(nil).Scheme)
abbrev pub scheme_method : MethodType
scheme_method = record { inputs = []; is_variadic = false; outputs = scheme_type ∷ [] }

-- reflect.TypeOf((*MockClient)(nil).Status)
abbrev pub status_method : MethodType
status_method = record { inputs = []; is_variadic = false; outputs = sub_resource_writer_type ∷ [] }

-- reflect.TypeOf((*MockClient)(nil).SubResource)
abbrev pub sub_resource_method : MethodType
sub_resource_method = record {
  inputs = string_type ∷ [];
  is_variadic = false;
  outputs = sub_resource_client_type ∷ [];
}

-- reflect.TypeOf((*MockClient)(nil).Update)
abbrev pub update_method : MethodType
update_method = record {
  inputs = context_type ∷ object_type ∷ update_option_type ∷ [];
  is_variadic = true;
  outputs = error_type ∷ [];
}

module _ {V : Values} (G : Gomock V) where
  unfoldable pub expect_create : ℕ → Any V → Any V → List (Any V) → Run G G.Call
  expect_create mr arg0 arg1 arg2 =
      record_method mr "Create" create_method ((arg0 ∷ arg1 ∷ []) ++ arg2)

  unfoldable pub expect_delete : ℕ → Any V → Any V → List (Any V) → Run G G.Call
  expect_delete mr arg0 arg1 arg2 =
      record_method mr "Delete" delete_method ((arg0 ∷ arg1 ∷ []) ++ arg2)

  unfoldable pub expect_delete_all_of : ℕ → Any V → Any V → List (Any V) → Run G G.Call
  expect_delete_all_of mr arg0 arg1 arg2 =
      record_method mr "DeleteAllOf" delete_all_of_method ((arg0 ∷ arg1 ∷ []) ++ arg2)

  unfoldable pub expect_get : ℕ → Any V → Any V → Any V → List (Any V) → Run G G.Call
  expect_get mr arg0 arg1 arg2 arg3 =
      record_method mr "Get" get_method ((arg0 ∷ arg1 ∷ arg2 ∷ []) ++ arg3)

  unfoldable pub expect_group_version_kind_for : ℕ → Any V → Run G G.Call
  expect_group_version_kind_for mr arg0 =
      record_method mr "GroupVersionKindFor" group_version_kind_for_method (arg0 ∷ [])

  unfoldable pub expect_is_object_namespaced : ℕ → Any V → Run G G.Call
  expect_is_object_namespaced mr arg0 =
      record_method mr "IsObjectNamespaced" is_object_namespaced_method (arg0 ∷ [])

  unfoldable pub expect_list : ℕ → Any V → Any V → List (Any V) → Run G G.Call
  expect_list mr arg0 arg1 arg2 = record_method mr "List" list_method ((arg0 ∷ arg1 ∷ []) ++ arg2)

  unfoldable pub expect_patch : ℕ → Any V → Any V → Any V → List (Any V) → Run G G.Call
  expect_patch mr arg0 arg1 arg2 arg3 =
      record_method mr "Patch" patch_method ((arg0 ∷ arg1 ∷ arg2 ∷ []) ++ arg3)

  unfoldable pub expect_rest_mapper : ℕ → Run G G.Call
  expect_rest_mapper mr = record_method mr "RESTMapper" rest_mapper_method []

  unfoldable pub expect_scheme : ℕ → Run G G.Call
  expect_scheme mr = record_method mr "Scheme" scheme_method []

  unfoldable pub expect_status : ℕ → Run G G.Call
  expect_status mr = record_method mr "Status" status_method []

  unfoldable pub expect_sub_resource : ℕ → Any V → Run G G.Call
  expect_sub_resource mr arg0 = record_method mr "SubResource" sub_resource_method (arg0 ∷ [])

  unfoldable pub expect_update : ℕ → Any V → Any V → List (Any V) → Run G G.Call
  expect_update mr arg0 arg1 arg2 =
      record_method mr "Update" update_method ((arg0 ∷ arg1 ∷ []) ++ arg2)
