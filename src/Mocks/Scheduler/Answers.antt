-- ===== src/Mocks/Scheduler/Answers.antt =====
-- internal/customscheduler/mock_customscheduler.go: MockCustomScheduler, how a call is answered.
use operator_for_ai_chips_on.Mocks.Scheduler
use operator_for_ai_chips_on.Mocks.Scheduler.Recorder.{
  expect_set_custom_scheduler_as_desired, expect_set_custom_scheduler_extension_as_desired,
}
use operator_for_ai_chips_on.Mocks.Scheduler.Calls.{
  SchedulerCall, describe, invoke, announce, set_custom_scheduler_as_desired,
  set_custom_scheduler_extension_as_desired,
}
use operator_for_ai_chips_on.Mocks.Calls.{nothing_results}
use operator_for_ai_chips_on.Mocks.Kept.{nothing_results-kept}
use operator_for_ai_chips_on.Common.{ap, ◌∙◌, ℕ, List, map, ◌≡◌, refl}
use operator_for_ai_chips_on.Mocks.Gomock.{zero_value, Values, Any, Gomock, HasTypes, finished}
use operator_for_ai_chips_on.Mocks.Doubles.{Testing, ◌>>=◌, recorder_of, call_method, record_method}

module _ {V : Values} (G : Gomock V) (m : ℕ) (t : Testing G) where
  -- What Call returns is what the method returns.
  pub invoke-answers :
      (c : SchedulerCall V) (vs : List (Any V)) (t' : Testing G)
      → call_method {G = G} m (describe c).method (describe c).arguments t ≡ finished vs t'
      → HasTypes (describe c).signature.outputs vs
      → invoke G c m t ≡ finished vs t'
  unfolding invoke describe Scheduler.set_custom_scheduler_as_desired
      Scheduler.set_custom_scheduler_extension_as_desired
  invoke-answers (set_custom_scheduler_as_desired dp dev_config) vs t' e h =
      ap (nothing_results G t) e ∙ nothing_results-kept G t vs t' h
  invoke-answers (set_custom_scheduler_extension_as_desired dp dev_config) vs t' e h =
      ap (nothing_results G t) e ∙ nothing_results-kept G t vs t' h

  -- What EXPECT announces is recorded under the name and the type of the method.
  pub announce-records :
      (c : SchedulerCall V)
      → announce G c m t
        ≡ (recorder_of {G = G} m >>= λ r.
              record_method r (describe c).method (describe c).signature (describe c).arguments)
            t
  unfolding announce describe Scheduler.expect expect_set_custom_scheduler_as_desired
      expect_set_custom_scheduler_extension_as_desired
  announce-records (set_custom_scheduler_as_desired dp dev_config) = refl
  announce-records (set_custom_scheduler_extension_as_desired dp dev_config) = refl

module _ {V : Values} where
  -- The zero values have the types of the results.
  pub outputs-zero :
      (c : SchedulerCall V)
      → HasTypes {V = V}
          (describe c).signature.outputs
          (map zero_value (describe c).signature.outputs)
  unfolding describe
  outputs-zero (set_custom_scheduler_as_desired dp dev_config) = tt
  outputs-zero (set_custom_scheduler_extension_as_desired dp dev_config) = tt
