-- ===== src/Mocks/Metrics/Answers.antt =====
-- internal/nodemetrics/mock_nodemetrics.go: MockNodeMetrics, how a call is answered.
use operator_for_ai_chips_on.Mocks.Metrics
use operator_for_ai_chips_on.Mocks.Metrics.Recorder.{expect_set_node_metrics_as_desired}
use operator_for_ai_chips_on.Mocks.Metrics.Calls.{
  MetricsCall, describe, invoke, announce, set_node_metrics_as_desired,
}
use operator_for_ai_chips_on.Mocks.Calls.{error_results}
use operator_for_ai_chips_on.Mocks.Kept.{error_results-kept}
use operator_for_ai_chips_on.Common.{ap, ◌∙◌, ℕ, List, map, ◌≡◌, refl}
use operator_for_ai_chips_on.Mocks.Gomock.{
  error_type, zero_value, Values, Any, Gomock, HasTypes, absent, finished,
}
use operator_for_ai_chips_on.Mocks.Doubles.{Testing, ◌>>=◌, recorder_of, call_method, record_method}

module _ {V : Values} (G : Gomock V) (m : ℕ) (t : Testing G) where
  -- What Call returns is what the method returns.
  pub invoke-answers :
      (c : MetricsCall V) (vs : List (Any V)) (t' : Testing G)
      → call_method {G = G} m (describe c).method (describe c).arguments t ≡ finished vs t'
      → HasTypes (describe c).signature.outputs vs
      → invoke G c m t ≡ finished vs t'
  unfolding invoke describe Metrics.set_node_metrics_as_desired
  invoke-answers (set_node_metrics_as_desired ds dev_config) vs t' e h =
      ap (error_results G t) e ∙ error_results-kept G t vs t' h

  -- What EXPECT announces is recorded under the name and the type of the method.
  pub announce-records :
      (c : MetricsCall V)
      → announce G c m t
        ≡ (recorder_of {G = G} m >>= λ r.
              record_method r (describe c).method (describe c).signature (describe c).arguments)
            t
  unfolding announce describe Metrics.expect expect_set_node_metrics_as_desired
  announce-records (set_node_metrics_as_desired ds dev_config) = refl

module _ {V : Values} where
  -- The zero values have the types of the results.
  pub outputs-zero :
      (c : MetricsCall V)
      → HasTypes {V = V}
          (describe c).signature.outputs
          (map zero_value (describe c).signature.outputs)
  unfolding describe
  outputs-zero (set_node_metrics_as_desired ds dev_config) = (absent error_type refl, tt)
