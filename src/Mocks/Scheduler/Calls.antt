-- ===== src/Mocks/Scheduler/Calls.antt =====
-- internal/customscheduler/mock_customscheduler.go: MockCustomScheduler, its calls as data.
use operator_for_ai_chips_on.Mocks.Scheduler
use operator_for_ai_chips_on.Mocks.Scheduler.Recorder.{
  expect_set_custom_scheduler_as_desired, expect_set_custom_scheduler_extension_as_desired,
  set_custom_scheduler_as_desired_method, set_custom_scheduler_extension_as_desired_method,
}
use operator_for_ai_chips_on.Mocks.Calls.{Description, return_nothing}
use operator_for_ai_chips_on.Common.{ℕ, List, [], ◌∷◌}
use operator_for_ai_chips_on.Mocks.Gomock.{
  device_config_type, deployment_type, Values, At, Any, value, Gomock,
}
use operator_for_ai_chips_on.Mocks.Doubles.{Run, ◌>>=◌}

module _ (V : Values) where
  pub data SchedulerCall : Type 0 where
    set_custom_scheduler_as_desired : At V deployment_type → At V device_config_type → SchedulerCall
    set_custom_scheduler_extension_as_desired :
        At V deployment_type → At V device_config_type → SchedulerCall

module _ {V : Values} where
  -- The name, the type and the arguments of a call.
  unfoldable pub describe : SchedulerCall V → Description V
  describe (set_custom_scheduler_as_desired dp dev_config) = record {
    method = "SetCustomSchedulerAsDesired";
    signature = set_custom_scheduler_as_desired_method;
    arguments = value deployment_type dp ∷ value device_config_type dev_config ∷ [];
  }
  describe (set_custom_scheduler_extension_as_desired dp dev_config) = record {
    method = "SetCustomSchedulerExtensionAsDesired";
    signature = set_custom_scheduler_extension_as_desired_method;
    arguments = value deployment_type dp ∷ value device_config_type dev_config ∷ [];
  }

module _ {V : Values} (G : Gomock V) where
  -- The call, made of a mock, with its results as values.
  unfoldable pub invoke : SchedulerCall V → ℕ → Run G (List (Any V))
  invoke (set_custom_scheduler_as_desired dp dev_config) m =
      return_nothing (Scheduler.set_custom_scheduler_as_desired G m dp dev_config)
  invoke (set_custom_scheduler_extension_as_desired dp dev_config) m =
      return_nothing (Scheduler.set_custom_scheduler_extension_as_desired G m dp dev_config)

  -- The call, announced by EXPECT of a mock.
  unfoldable pub announce : SchedulerCall V → ℕ → Run G G.Call
  announce (set_custom_scheduler_as_desired dp dev_config) m = do
    mr ← Scheduler.expect G m
    expect_set_custom_scheduler_as_desired G mr (value deployment_type dp)
        (value device_config_type dev_config)
  announce (set_custom_scheduler_extension_as_desired dp dev_config) m = do
    mr ← Scheduler.expect G m
    expect_set_custom_scheduler_extension_as_desired G mr (value deployment_type dp)
        (value device_config_type dev_config)
