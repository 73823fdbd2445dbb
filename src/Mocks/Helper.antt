-- ===== src/Mocks/Helper.antt =====
-- internal/controllers/mock_device_config_reconciler.go: MockdeviceConfigReconcilerHelperAPI.
pub mod Recorder
pub mod Calls
pub mod Answers
use operator_for_ai_chips_on.Common.{ℕ, [], ◌∷◌}
use operator_for_ai_chips_on.Mocks.Gomock.{
  error_type, context_type, device_config_type, Values, At, value, any, Interface, Gomock,
}
use operator_for_ai_chips_on.Mocks.Doubles.{
  Run, ◌>>=◌, new_mock, recorder_of, call_method, error_result,
}

module _ {V : Values} (G : Gomock V) where
  -- NewMockdeviceConfigReconcilerHelperAPI
  unfoldable pub new_mock_device_config_reconciler_helper_api : G.Controller → Run G ℕ
  new_mock_device_config_reconciler_helper_api ctrl = new_mock ctrl

  -- EXPECT
  unfoldable pub expect : ℕ → Run G ℕ
  expect m = recorder_of m

  unfoldable pub finalize_device_config :
      ℕ → Interface V context_type → At V device_config_type → Run G (Interface V error_type)
  finalize_device_config m ctx dev_config = do
    ret ←
        call_method m "finalizeDeviceConfig"
          (any context_type ctx ∷ value device_config_type dev_config ∷ [])
    error_result ret

  unfoldable pub handle_custom_scheduler :
      ℕ → Interface V context_type → At V device_config_type → Run G (Interface V error_type)
  handle_custom_scheduler m ctx dev_config = do
    ret ←
        call_method m "handleCustomScheduler"
          (any context_type ctx ∷ value device_config_type dev_config ∷ [])
    error_result ret

  unfoldable pub handle_kmm_module :
      ℕ → Interface V context_type → At V device_config_type → Run G (Interface V error_type)
  handle_kmm_module m ctx dev_config = do
    ret ←
        call_method m "handleKMMModule"
          (any context_type ctx ∷ value device_config_type dev_config ∷ [])
    error_result ret

  unfoldable pub handle_node_metrics :
      ℕ → Interface V context_type → At V device_config_type → Run G (Interface V error_type)
  handle_node_metrics m ctx dev_config = do
    ret ←
        call_method m "handleNodeMetrics"
          (any context_type ctx ∷ value device_config_type dev_config ∷ [])
    error_result ret

  unfoldable pub set_finalizer :
      ℕ → Interface V context_type → At V device_config_type → Run G (Interface V error_type)
  set_finalizer m ctx dev_config = do
    ret ←
        call_method m "setFinalizer"
          (any context_type ctx ∷ value device_config_type dev_config ∷ [])
    error_result ret
