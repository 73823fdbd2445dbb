-- ===== src/Mocks/Module/Calls.antt =====
-- internal/kmmmodule/mock_kmmmodule.go: MockKMMModuleAPI, its calls as data.
use operator_for_ai_chips_on.Mocks.Module
use operator_for_ai_chips_on.Mocks.Module.Recorder.{
  expect_set_kmm_module_as_desired, set_kmm_module_as_desired_method,
}
use operator_for_ai_chips_on.Mocks.Calls.{Description, return_error}
use operator_for_ai_chips_on.Common.{ℕ, List, [], ◌∷◌}
use operator_for_ai_chips_on.Mocks.Gomock.{
  device_config_type, module_type, Values, At, Any, value, Gomock,
}
use operator_for_ai_chips_on.Mocks.Doubles.{Run, ◌>>=◌}

module _ (V : Values) where
  pub data ModuleCall : Type 0 where
    set_kmm_module_as_desired : At V module_type → At V device_config_type → ModuleCall

module _ {V : Values} where
  -- The name, the type and the arguments of a call.
  unfoldable pub describe : ModuleCall V → Description V
  describe (set_kmm_module_as_desired kmm_module dev_config) = record {
    method = "SetKMMModuleAsDesired";
    signature = set_kmm_module_as_desired_method;
    arguments = value module_type kmm_module ∷ value device_config_type dev_config ∷ [];
  }

module _ {V : Values} (G : Gomock V) where
  -- The call, made of a mock, with its results as values.
  unfoldable pub invoke : ModuleCall V → ℕ → Run G (List (Any V))
  invoke (set_kmm_module_as_desired kmm_module dev_config) m =
      return_error (Module.set_kmm_module_as_desired G m kmm_module dev_config)

  -- The call, announced by EXPECT of a mock.
  unfoldable pub announce : ModuleCall V → ℕ → Run G G.Call
  announce (set_kmm_module_as_desired kmm_module dev_config) m = do
    mr ← Module.expect G m
    expect_set_kmm_module_as_desired G mr (value module_type kmm_module)
        (value device_config_type dev_config)
