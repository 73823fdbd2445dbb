-- ===== src/Mocks/Metrics.antt =====
-- internal/nodemetrics/mock_nodemetrics.go: MockNodeMetrics.
pub mod Recorder
pub mod Calls
pub mod Answers
use operator_for_ai_chips_on.Common.{ℕ, [], ◌∷◌}
use operator_for_ai_chips_on.Mocks.Gomock.{
  error_type, device_config_type, daemon_set_type, Values, At, value, Interface, Gomock,
}
use operator_for_ai_chips_on.Mocks.Doubles.{
  Run, ◌>>=◌, new_mock, recorder_of, call_method, error_result,
}

module _ {V : Values} (G : Gomock V) where
  -- NewMockNodeMetrics
  unfoldable pub new_mock_node_metrics : G.Controller → Run G ℕ
  new_mock_node_metrics ctrl = new_mock ctrl

  -- EXPECT
  unfoldable pub expect : ℕ → Run G ℕ
  expect m = recorder_of m

  unfoldable pub set_node_metrics_as_desired :
      ℕ → At V daemon_set_type → At V device_config_type → Run G (Interface V error_type)
  set_node_metrics_as_desired m ds dev_config = do
    ret ←
        call_method m "SetNodeMetricsAsDesired"
          (value daemon_set_type ds ∷ value device_config_type dev_config ∷ [])
    error_result ret
