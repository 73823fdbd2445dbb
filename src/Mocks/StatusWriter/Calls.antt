-- ===== src/Mocks/StatusWriter/Calls.antt =====
-- internal/client/mock_client.go: MockStatusWriter, its calls as data.
use operator_for_ai_chips_on.Mocks.StatusWriter
use operator_for_ai_chips_on.Mocks.StatusWriter.Recorder.{
  expect_create, expect_patch, expect_update, create_method, patch_method, update_method,
}
use operator_for_ai_chips_on.Mocks.Calls.{Description, return_error}
use operator_for_ai_chips_on.Common.{ℕ, List, [], ◌∷◌, ◌++◌, map}
use operator_for_ai_chips_on.Mocks.Gomock.{
  context_type, object_type, patch_type, sub_resource_create_option_type,
  sub_resource_patch_option_type, sub_resource_update_option_type, Values, Any, any, Interface,
  Gomock,
}
use operator_for_ai_chips_on.Mocks.Doubles.{Run, ◌>>=◌}

module _ (V : Values) where
  pub data StatusWriterCall : Type 0 where
    create :
        Interface V context_type
        → Interface V object_type
        → Interface V object_type
        → List (Interface V sub_resource_create_option_type)
        → StatusWriterCall
    patch :
        Interface V context_type
        → Interface V object_type
        → Interface V patch_type
        → List (Interface V sub_resource_patch_option_type)
        → StatusWriterCall
    update :
        Interface V context_type
        → Interface V object_type
        → List (Interface V sub_resource_update_option_type)
        → StatusWriterCall

module _ {V : Values} where
  -- The name, the type and the arguments of a call.
  unfoldable pub describe : StatusWriterCall V → Description V
  describe (create arg0 arg1 arg2 arg3) = record {
    method = "Create";
    signature = create_method;
    arguments =
        (any context_type arg0 ∷ any object_type arg1 ∷ any object_type arg2 ∷ [])
        ++ map (any sub_resource_create_option_type) arg3;
  }
  describe (patch arg0 arg1 arg2 arg3) = record {
    method = "Patch";
    signature = patch_method;
    arguments =
        (any context_type arg0 ∷ any object_type arg1 ∷ any patch_type arg2 ∷ [])
        ++ map (any sub_resource_patch_option_type) arg3;
  }
  describe (update arg0 arg1 arg2) = record {
    method = "Update";
    signature = update_method;
    arguments =
        (any context_type arg0 ∷ any object_type arg1 ∷ [])
        ++ map (any sub_resource_update_option_type) arg2;
  }

module _ {V : Values} (G : Gomock V) where
  -- The call, made of a mock, with its results as values.
  unfoldable pub invoke : StatusWriterCall V → ℕ → Run G (List (Any V))
  invoke (create arg0 arg1 arg2 arg3) m = return_error (StatusWriter.create G m arg0 arg1 arg2 arg3)
  invoke (patch arg0 arg1 arg2 arg3) m = return_error (StatusWriter.patch G m arg0 arg1 arg2 arg3)
  invoke (update arg0 arg1 arg2) m = return_error (StatusWriter.update G m arg0 arg1 arg2)

  -- The call, announced by EXPECT of a mock.
  unfoldable pub announce : StatusWriterCall V → ℕ → Run G G.Call
  announce (create arg0 arg1 arg2 arg3) m = do
    mr ← StatusWriter.expect G m
    expect_create G mr (any context_type arg0) (any object_type arg1) (any object_type arg2)
        (map (any sub_resource_create_option_type) arg3)
  announce (patch arg0 arg1 arg2 arg3) m = do
    mr ← StatusWriter.expect G m
    expect_patch G mr (any context_type arg0) (any object_type arg1) (any patch_type arg2)
        (map (any sub_resource_patch_option_type) arg3)
  announce (update arg0 arg1 arg2) m = do
    mr ← StatusWriter.expect G m
    expect_update G mr (any context_type arg0) (any object_type arg1)
        (map (any sub_resource_update_option_type) arg2)
