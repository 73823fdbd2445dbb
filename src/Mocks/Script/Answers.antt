-- ===== src/Mocks/Script/Answers.antt =====
-- A call of any of the generated mocks, in terms of gomock's.
use operator_for_ai_chips_on.Common.{ℕ, List, map, ◌≡◌}
use operator_for_ai_chips_on.Mocks.Gomock.{Values, Any, zero_value, HasTypes, Gomock, finished}
use operator_for_ai_chips_on.Mocks.Doubles.{Testing, ◌>>=◌, recorder_of, call_method, record_method}
use operator_for_ai_chips_on.Mocks.Script.{
  MockCall, describe_call, invoke_call, announce_call, client, status_writer, helper,
  custom_scheduler, kmm_module, node_metrics,
}
use operator_for_ai_chips_on.Mocks.Client.Answers as ClientAnswers
use operator_for_ai_chips_on.Mocks.StatusWriter.Answers as StatusWriterAnswers
use operator_for_ai_chips_on.Mocks.Helper.Answers as HelperAnswers
use operator_for_ai_chips_on.Mocks.Scheduler.Answers as SchedulerAnswers
use operator_for_ai_chips_on.Mocks.Module.Answers as ModuleAnswers
use operator_for_ai_chips_on.Mocks.Metrics.Answers as MetricsAnswers

module _ {V : Values} (G : Gomock V) (m : ℕ) (t : Testing G) where
  pub invoke_call-answers :
      (c : MockCall V) (vs : List (Any V)) (t' : Testing G)
      → call_method {G = G} m (describe_call c).method (describe_call c).arguments t
        ≡ finished vs t'
      → HasTypes (describe_call c).signature.outputs vs
      → invoke_call G c m t ≡ finished vs t'
  unfolding invoke_call describe_call
  invoke_call-answers (client c) = ClientAnswers.invoke-answers G m t c
  invoke_call-answers (status_writer c) = StatusWriterAnswers.invoke-answers G m t c
  invoke_call-answers (helper c) = HelperAnswers.invoke-answers G m t c
  invoke_call-answers (custom_scheduler c) = SchedulerAnswers.invoke-answers G m t c
  invoke_call-answers (kmm_module c) = ModuleAnswers.invoke-answers G m t c
  invoke_call-answers (node_metrics c) = MetricsAnswers.invoke-answers G m t c

  pub announce_call-records :
      (c : MockCall V)
      → announce_call G c m t
        ≡ (recorder_of {G = G} m >>= λ r.
              record_method r
                (describe_call c).method
                (describe_call c).signature
                (describe_call c).arguments)
            t
  unfolding announce_call describe_call
  announce_call-records (client c) = ClientAnswers.announce-records G m t c
  announce_call-records (status_writer c) = StatusWriterAnswers.announce-records G m t c
  announce_call-records (helper c) = HelperAnswers.announce-records G m t c
  announce_call-records (custom_scheduler c) = SchedulerAnswers.announce-records G m t c
  announce_call-records (kmm_module c) = ModuleAnswers.announce-records G m t c
  announce_call-records (node_metrics c) = MetricsAnswers.announce-records G m t c

module _ {V : Values} where
  pub outputs-zero_call :
      (c : MockCall V)
      → HasTypes {V = V}
          (describe_call c).signature.outputs
          (map zero_value (describe_call c).signature.outputs)
  unfolding describe_call
  outputs-zero_call (client c) = ClientAnswers.outputs-zero c
  outputs-zero_call (status_writer c) = StatusWriterAnswers.outputs-zero c
  outputs-zero_call (helper c) = HelperAnswers.outputs-zero c
  outputs-zero_call (custom_scheduler c) = SchedulerAnswers.outputs-zero c
  outputs-zero_call (kmm_module c) = ModuleAnswers.outputs-zero c
  outputs-zero_call (node_metrics c) = MetricsAnswers.outputs-zero c
