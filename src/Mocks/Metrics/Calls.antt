-- ===== src/Mocks/Metrics/Calls.antt =====
-- internal/nodemetrics/mock_nodemetrics.go: MockNodeMetrics, its calls as data.
use operator_for_ai_chips_on.Mocks.Metrics
use operator_for_ai_chips_on.Mocks.Metrics.Recorder.{
  expect_set_node_metrics_as_desired, set_node_metrics_as_desired_method,
}
use operator_for_ai_chips_on.Mocks.Calls.{Description, return_error}
use operator_for_ai_chips_on.Common.{ℕ, List, [], ◌∷◌}
use operator_for_ai_chips_on.Mocks.Gomock.{
  device_config_type, daemon_set_type, Values, At, Any, value, Gomock,
}
use operator_for_ai_chips_on.Mocks.Doubles.{Run, ◌>>=◌}

module _ (V : Values) where
  pub data MetricsCall : Type 0 where
    set_node_metrics_as_desired : At V daemon_set_type → At V device_config_type → MetricsCall

module _ {V : Values} where
  -- The name, the type and the arguments of a call.
  unfoldable pub describe : MetricsCall V → Description V
  describe (set_node_metrics_as_desired ds dev_config) = record {
    method = "SetNodeMetricsAsDesired";
    signature = set_node_metrics_as_desired_method;
    arguments = value daemon_set_type ds ∷ value device_config_type dev_config ∷ [];
  }

module _ {V : Values} (G : Gomock V) where
  -- The call, made of a mock, with its results as values.
  unfoldable pub invoke : MetricsCall V → ℕ → Run G (List (Any V))
  invoke (set_node_metrics_as_desired ds dev_config) m =
      return_error (Metrics.set_node_metrics_as_desired G m ds dev_config)

  -- The call, announced by EXPECT of a mock.
  unfoldable pub announce : MetricsCall V → ℕ → Run G G.Call
  announce (set_node_metrics_as_desired ds dev_config) m = do
    mr ← Metrics.expect G m
    expect_set_node_metrics_as_desired G mr (value daemon_set_type ds)
        (value device_config_type dev_config)
