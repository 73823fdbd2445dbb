-- ===== src/Mocks/Metrics/Recorder.antt =====
-- internal/nodemetrics/mock_nodemetrics.go: MockNodeMetricsMockRecorder.
use operator_for_ai_chips_on.Common.{ℕ, false, [], ◌∷◌}
use operator_for_ai_chips_on.Mocks.Gomock.{
  error_type, device_config_type, daemon_set_type, Values, Any, MethodType, Gomock,
}
use operator_for_ai_chips_on.Mocks.Doubles.{Run, record_method}

-- reflect.TypeOf((*MockNodeMetrics)(nil).SetNodeMetricsAsDesired)
abbrev pub set_node_metrics_as_desired_method : MethodType
set_node_metrics_as_desired_method = record {
  inputs = daemon_set_type ∷ device_config_type ∷ [];
  is_variadic = false;
  outputs = error_type ∷ [];
}

module _ {V : Values} (G : Gomock V) where
  unfoldable pub expect_set_node_metrics_as_desired : ℕ → Any V → Any V → Run G G.Call
  expect_set_node_metrics_as_desired mr ds dev_config =
      record_method mr "SetNodeMetricsAsDesired" set_node_metrics_as_desired_method
        (ds ∷ dev_config ∷ [])
