-- ===== src/Mocks/Scheduler.antt =====
-- internal/customscheduler/mock_customscheduler.go: MockCustomScheduler.
pub mod Recorder
pub mod Calls
pub mod Answers
use operator_for_ai_chips_on.Common.{ℕ, [], ◌∷◌}
use operator_for_ai_chips_on.Mocks.Gomock.{
  device_config_type, deployment_type, Values, At, value, Gomock,
}
use operator_for_ai_chips_on.Mocks.Doubles.{Run, pure, ◌>>=◌, new_mock, recorder_of, call_method}

module _ {V : Values} (G : Gomock V) where
  -- NewMockCustomScheduler
  unfoldable pub new_mock_custom_scheduler : G.Controller → Run G ℕ
  new_mock_custom_scheduler ctrl = new_mock ctrl

  -- EXPECT
  unfoldable pub expect : ℕ → Run G ℕ
  expect m = recorder_of m

  unfoldable pub set_custom_scheduler_as_desired :
      ℕ → At V deployment_type → At V device_config_type → Run G (Unit {0})
  set_custom_scheduler_as_desired m dp dev_config = do
    _ ←
        call_method m "SetCustomSchedulerAsDesired"
          (value deployment_type dp ∷ value device_config_type dev_config ∷ [])
    pure tt

  unfoldable pub set_custom_scheduler_extension_as_desired :
      ℕ → At V deployment_type → At V device_config_type → Run G (Unit {0})
  set_custom_scheduler_extension_as_desired m dp dev_config = do
    _ ←
        call_method m "SetCustomSchedulerExtensionAsDesired"
          (value deployment_type dp ∷ value device_config_type dev_config ∷ [])
    pure tt
