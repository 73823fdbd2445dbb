-- ===== src/Mocks/Module.antt =====
-- internal/kmmmodule/mock_kmmmodule.go: MockKMMModuleAPI.
pub mod Recorder
pub mod Calls
pub mod Answers
use operator_for_ai_chips_on.Common.{ℕ, [], ◌∷◌}
use operator_for_ai_chips_on.Mocks.Gomock.{
  error_type, device_config_type, module_type, Values, At, value, Interface, Gomock,
}
use operator_for_ai_chips_on.Mocks.Doubles.{
  Run, ◌>>=◌, new_mock, recorder_of, call_method, error_result,
}

module _ {V : Values} (G : Gomock V) where
  -- NewMockKMMModuleAPI
  unfoldable pub new_mock_kmm_module_api : G.Controller → Run G ℕ
  new_mock_kmm_module_api ctrl = new_mock ctrl

  -- EXPECT
  unfoldable pub expect : ℕ → Run G ℕ
  expect m = recorder_of m

  unfoldable pub set_kmm_module_as_desired :
      ℕ → At V module_type → At V device_config_type → Run G (Interface V error_type)
  set_kmm_module_as_desired m kmm_module dev_config = do
    ret ←
        call_method m "SetKMMModuleAsDesired"
          (value module_type kmm_module ∷ value device_config_type dev_config ∷ [])
    error_result ret
