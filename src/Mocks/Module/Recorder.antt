-- ===== src/Mocks/Module/Recorder.antt =====
-- internal/kmmmodule/mock_kmmmodule.go: MockKMMModuleAPIMockRecorder.
use operator_for_ai_chips_on.Common.{ℕ, false, [], ◌∷◌}
use operator_for_ai_chips_on.Mocks.Gomock.{
  error_type, device_config_type, module_type, Values, Any, MethodType, Gomock,
}
use operator_for_ai_chips_on.Mocks.Doubles.{Run, record_method}

-- reflect.TypeOf((*MockKMMModuleAPI)(nil).SetKMMModuleAsDesired)
abbrev pub set_kmm_module_as_desired_method : MethodType
set_kmm_module_as_desired_method = record {
  inputs = module_type ∷ device_config_type ∷ [];
  is_variadic = false;
  outputs = error_type ∷ [];
}

module _ {V : Values} (G : Gomock V) where
  unfoldable pub expect_set_kmm_module_as_desired : ℕ → Any V → Any V → Run G G.Call
  expect_set_kmm_module_as_desired mr kmm_module dev_config =
      record_method mr "SetKMMModuleAsDesired" set_kmm_module_as_desired_method
        (kmm_module ∷ dev_config ∷ [])
