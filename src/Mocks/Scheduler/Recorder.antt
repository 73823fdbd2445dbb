-- ===== src/Mocks/Scheduler/Recorder.antt =====
-- internal/customscheduler/mock_customscheduler.go: MockCustomSchedulerMockRecorder.
use operator_for_ai_chips_on.Common.{ℕ, false, [], ◌∷◌}
use operator_for_ai_chips_on.Mocks.Gomock.{
  device_config_type, deployment_type, Values, Any, MethodType, Gomock,
}
use operator_for_ai_chips_on.Mocks.Doubles.{Run, record_method}

-- reflect.TypeOf((*MockCustomScheduler)(nil).SetCustomSchedulerAsDesired)
abbrev pub set_custom_scheduler_as_desired_method : MethodType
set_custom_scheduler_as_desired_method = record {
  inputs = deployment_type ∷ device_config_type ∷ [];
  is_variadic = false;
  outputs = [];
}

-- reflect.TypeOf((*MockCustomScheduler)(nil).SetCustomSchedulerExtensionAsDesired)
abbrev pub set_custom_scheduler_extension_as_desired_method : MethodType
set_custom_scheduler_extension_as_desired_method = record {
  inputs = deployment_type ∷ device_config_type ∷ [];
  is_variadic = false;
  outputs = [];
}

module _ {V : Values} (G : Gomock V) where
  unfoldable pub expect_set_custom_scheduler_as_desired : ℕ → Any V → Any V → Run G G.Call
  expect_set_custom_scheduler_as_desired mr dp dev_config =
      record_method mr "SetCustomSchedulerAsDesired" set_custom_scheduler_as_desired_method
        (dp ∷ dev_config ∷ [])

  unfoldable pub expect_set_custom_scheduler_extension_as_desired : ℕ → Any V → Any V → Run G G.Call
  expect_set_custom_scheduler_extension_as_desired mr dp dev_config =
      record_method mr "SetCustomSchedulerExtensionAsDesired"
        set_custom_scheduler_extension_as_desired_method (dp ∷ dev_config ∷ [])
