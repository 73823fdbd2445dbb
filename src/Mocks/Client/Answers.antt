-- ===== src/Mocks/Client/Answers.antt =====
-- internal/client/mock_client.go: MockClient, how a call is answered.
use operator_for_ai_chips_on.Mocks.Client
use operator_for_ai_chips_on.Mocks.Client.Recorder.{
  expect_create, expect_delete, expect_delete_all_of, expect_get, expect_group_version_kind_for,
  expect_is_object_namespaced, expect_list, expect_patch, expect_rest_mapper, expect_scheme,
  expect_status, expect_sub_resource, expect_update,
}
use operator_for_ai_chips_on.Mocks.Client.Calls.{
  ClientCall, describe, invoke, announce, create, delete, delete_all_of, get,
  group_version_kind_for, is_object_namespaced, list, patch, rest_mapper, scheme, status,
  sub_resource, update,
}
use operator_for_ai_chips_on.Mocks.Calls.{
  appended, error_results, rest_mapper_results, scheme_results, sub_resource_writer_results,
  sub_resource_client_results, bool_results, kind_results,
}
use operator_for_ai_chips_on.Mocks.Kept.{
  error_results-kept, rest_mapper_results-kept, scheme_results-kept,
  sub_resource_writer_results-kept, sub_resource_client_results-kept, bool_results-kept,
  kind_results-kept,
}
use operator_for_ai_chips_on.Common.{ap, ◌∙◌, ℕ, false, List, [], ◌∷◌, map, ◌≡◌, refl}
use operator_for_ai_chips_on.Mocks.Gomock.{
  bool_type, error_type, context_type, object_type, object_list_type, patch_type,
  namespaced_name_type, group_version_kind_type, rest_mapper_type, scheme_type,
  sub_resource_writer_type, sub_resource_client_type, create_option_type, delete_option_type,
  delete_all_of_option_type, get_option_type, list_option_type, patch_option_type,
  update_option_type, zero_value, Values, Any, value, any, Gomock, HasTypes, exact, absent,
  finished,
}
use operator_for_ai_chips_on.Mocks.Doubles.{Testing, ◌>>=◌, recorder_of, call_method, record_method}

module _ {V : Values} (G : Gomock V) (m : ℕ) (t : Testing G) where
  -- What Call returns is what the method returns.
  pub invoke-answers :
      (c : ClientCall V) (vs : List (Any V)) (t' : Testing G)
      → call_method {G = G} m (describe c).method (describe c).arguments t ≡ finished vs t'
      → HasTypes (describe c).signature.outputs vs
      → invoke G c m t ≡ finished vs t'
  unfolding invoke describe Client.create Client.delete Client.delete_all_of Client.get
      Client.group_version_kind_for Client.is_object_namespaced Client.list Client.patch
      Client.rest_mapper Client.scheme Client.status Client.sub_resource Client.update
  invoke-answers (create arg0 arg1 arg2) vs t' e h =
      ap (error_results G t) (
        appended m "Create" t create_option_type
          (any {V = V} context_type arg0 ∷ any {V = V} object_type arg1 ∷ []) arg2 e)
      ∙ error_results-kept G t vs t' h
  invoke-answers (delete arg0 arg1 arg2) vs t' e h =
      ap (error_results G t) (
        appended m "Delete" t delete_option_type
          (any {V = V} context_type arg0 ∷ any {V = V} object_type arg1 ∷ []) arg2 e)
      ∙ error_results-kept G t vs t' h
  invoke-answers (delete_all_of arg0 arg1 arg2) vs t' e h =
      ap (error_results G t) (
        appended m "DeleteAllOf" t delete_all_of_option_type
          (any {V = V} context_type arg0 ∷ any {V = V} object_type arg1 ∷ []) arg2 e)
      ∙ error_results-kept G t vs t' h
  invoke-answers (get arg0 arg1 arg2 arg3) vs t' e h =
      ap (error_results G t) (
        appended m "Get" t get_option_type
          (any {V = V} context_type arg0
            ∷ value namespaced_name_type arg1
            ∷ any {V = V} object_type arg2
            ∷ [])
          arg3 e)
      ∙ error_results-kept G t vs t' h
  invoke-answers (group_version_kind_for arg0) vs t' e h =
      ap (kind_results G t) e ∙ kind_results-kept G t vs t' h
  invoke-answers (is_object_namespaced arg0) vs t' e h =
      ap (bool_results G t) e ∙ bool_results-kept G t vs t' h
  invoke-answers (list arg0 arg1 arg2) vs t' e h =
      ap (error_results G t) (
        appended m "List" t list_option_type
          (any {V = V} context_type arg0 ∷ any {V = V} object_list_type arg1 ∷ []) arg2 e)
      ∙ error_results-kept G t vs t' h
  invoke-answers (patch arg0 arg1 arg2 arg3) vs t' e h =
      ap (error_results G t) (
        appended m "Patch" t patch_option_type
          (any {V = V} context_type arg0
            ∷ any {V = V} object_type arg1
            ∷ any {V = V} patch_type arg2
            ∷ [])
          arg3 e)
      ∙ error_results-kept G t vs t' h
  invoke-answers rest_mapper vs t' e h =
      ap (rest_mapper_results G t) e ∙ rest_mapper_results-kept G t vs t' h
  invoke-answers scheme vs t' e h = ap (scheme_results G t) e ∙ scheme_results-kept G t vs t' h
  invoke-answers status vs t' e h =
      ap (sub_resource_writer_results G t) e ∙ sub_resource_writer_results-kept G t vs t' h
  invoke-answers (sub_resource arg0) vs t' e h =
      ap (sub_resource_client_results G t) e ∙ sub_resource_client_results-kept G t vs t' h
  invoke-answers (update arg0 arg1 arg2) vs t' e h =
      ap (error_results G t) (
        appended m "Update" t update_option_type
          (any {V = V} context_type arg0 ∷ any {V = V} object_type arg1 ∷ []) arg2 e)
      ∙ error_results-kept G t vs t' h

  -- What EXPECT announces is recorded under the name and the type of the method.
  pub announce-records :
      (c : ClientCall V)
      → announce G c m t
        ≡ (recorder_of {G = G} m >>= λ r.
              record_method r (describe c).method (describe c).signature (describe c).arguments)
            t
  unfolding announce describe Client.expect expect_create expect_delete expect_delete_all_of
      expect_get expect_group_version_kind_for expect_is_object_namespaced expect_list expect_patch
      expect_rest_mapper expect_scheme expect_status expect_sub_resource expect_update
  announce-records (create arg0 arg1 arg2) = refl
  announce-records (delete arg0 arg1 arg2) = refl
  announce-records (delete_all_of arg0 arg1 arg2) = refl
  announce-records (get arg0 arg1 arg2 arg3) = refl
  announce-records (group_version_kind_for arg0) = refl
  announce-records (is_object_namespaced arg0) = refl
  announce-records (list arg0 arg1 arg2) = refl
  announce-records (patch arg0 arg1 arg2 arg3) = refl
  announce-records rest_mapper = refl
  announce-records scheme = refl
  announce-records status = refl
  announce-records (sub_resource arg0) = refl
  announce-records (update arg0 arg1 arg2) = refl

module _ {V : Values} where
  -- The zero values have the types of the results.
  pub outputs-zero :
      (c : ClientCall V)
      → HasTypes {V = V}
          (describe c).signature.outputs
          (map zero_value (describe c).signature.outputs)
  unfolding describe
  outputs-zero (create arg0 arg1 arg2) = (absent error_type refl, tt)
  outputs-zero (delete arg0 arg1 arg2) = (absent error_type refl, tt)
  outputs-zero (delete_all_of arg0 arg1 arg2) = (absent error_type refl, tt)
  outputs-zero (get arg0 arg1 arg2 arg3) = (absent error_type refl, tt)
  outputs-zero (group_version_kind_for arg0) =
      (exact group_version_kind_type V.empty_kind, (absent error_type refl, tt))
  outputs-zero (is_object_namespaced arg0) = (exact bool_type false, (absent error_type refl, tt))
  outputs-zero (list arg0 arg1 arg2) = (absent error_type refl, tt)
  outputs-zero (patch arg0 arg1 arg2 arg3) = (absent error_type refl, tt)
  outputs-zero rest_mapper = (absent rest_mapper_type refl, tt)
  outputs-zero scheme = (exact scheme_type V.nil_scheme, tt)
  outputs-zero status = (absent sub_resource_writer_type refl, tt)
  outputs-zero (sub_resource arg0) = (absent sub_resource_client_type refl, tt)
  outputs-zero (update arg0 arg1 arg2) = (absent error_type refl, tt)
