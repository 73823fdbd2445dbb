-- ===== src/Mocks/StatusWriter/Answers.antt =====
-- internal/client/mock_client.go: MockStatusWriter, how a call is answered.
use operator_for_ai_chips_on.Mocks.StatusWriter
use operator_for_ai_chips_on.Mocks.StatusWriter.Recorder.{
  expect_create, expect_patch, expect_update,
}
use operator_for_ai_chips_on.Mocks.StatusWriter.Calls.{
  StatusWriterCall, describe, invoke, announce, create, patch, update,
}
use operator_for_ai_chips_on.Mocks.Calls.{appended, error_results}
use operator_for_ai_chips_on.Mocks.Kept.{error_results-kept}
use operator_for_ai_chips_on.Common.{ap, ◌∙◌, ℕ, List, [], ◌∷◌, map, ◌≡◌, refl}
use operator_for_ai_chips_on.Mocks.Gomock.{
  error_type, context_type, object_type, patch_type, sub_resource_create_option_type,
  sub_resource_patch_option_type, sub_resource_update_option_type, zero_value, Values, Any, any,
  Gomock, HasTypes, absent, finished,
}
use operator_for_ai_chips_on.Mocks.Doubles.{Testing, ◌>>=◌, recorder_of, call_method, record_method}

module _ {V : Values} (G : Gomock V) (m : ℕ) (t : Testing G) where
  -- What Call returns is what the method returns.
  pub invoke-answers :
      (c : StatusWriterCall V) (vs : List (Any V)) (t' : Testing G)
      → call_method {G = G} m (describe c).method (describe c).arguments t ≡ finished vs t'
      → HasTypes (describe c).signature.outputs vs
      → invoke G c m t ≡ finished vs t'
  unfolding invoke describe StatusWriter.create StatusWriter.patch StatusWriter.update
  invoke-answers (create arg0 arg1 arg2 arg3) vs t' e h =
      ap (error_results G t) (
        appended m "Create" t sub_resource_create_option_type
          (any {V = V} context_type arg0
            ∷ any {V = V} object_type arg1
            ∷ any {V = V} object_type arg2
            ∷ [])
          arg3 e)
      ∙ error_results-kept G t vs t' h
  invoke-answers (patch arg0 arg1 arg2 arg3) vs t' e h =
      ap (error_results G t) (
        appended m "Patch" t sub_resource_patch_option_type
          (any {V = V} context_type arg0
            ∷ any {V = V} object_type arg1
            ∷ any {V = V} patch_type arg2
            ∷ [])
          arg3 e)
      ∙ error_results-kept G t vs t' h
  invoke-answers (update arg0 arg1 arg2) vs t' e h =
      ap (error_results G t) (
        appended m "Update" t sub_resource_update_option_type
          (any {V = V} context_type arg0 ∷ any {V = V} object_type arg1 ∷ []) arg2 e)
      ∙ error_results-kept G t vs t' h

  -- What EXPECT announces is recorded under the name and the type of the method.
  pub announce-records :
      (c : StatusWriterCall V)
      → announce G c m t
        ≡ (recorder_of {G = G} m >>= λ r.
              record_method r (describe c).method (describe c).signature (describe c).arguments)
            t
  unfolding announce describe StatusWriter.expect expect_create expect_patch expect_update
  announce-records (create arg0 arg1 arg2 arg3) = refl
  announce-records (patch arg0 arg1 arg2 arg3) = refl
  announce-records (update arg0 arg1 arg2) = refl

module _ {V : Values} where
  -- The zero values have the types of the results.
  pub outputs-zero :
      (c : StatusWriterCall V)
      → HasTypes {V = V}
          (describe c).signature.outputs
          (map zero_value (describe c).signature.outputs)
  unfolding describe
  outputs-zero (create arg0 arg1 arg2 arg3) = (absent error_type refl, tt)
  outputs-zero (patch arg0 arg1 arg2 arg3) = (absent error_type refl, tt)
  outputs-zero (update arg0 arg1 arg2) = (absent error_type refl, tt)
