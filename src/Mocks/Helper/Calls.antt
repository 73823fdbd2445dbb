-- ===== src/Mocks/Helper/Calls.antt =====
-- internal/controllers/mock_device_config_reconciler.go: MockdeviceConfigReconcilerHelperAPI, its calls as data.
use operator_for_ai_chips_on.Mocks.Helper
use operator_for_ai_chips_on.Mocks.Helper.Recorder.{
  expect_finalize_device_config, expect_handle_custom_scheduler, expect_handle_kmm_module,
  expect_handle_node_metrics, expect_set_finalizer, finalize_device_config_method,
  handle_custom_scheduler_method, handle_kmm_module_method, handle_node_metrics_method,
  set_finalizer_method,
}
use operator_for_ai_chips_on.Mocks.Calls.{Description, return_error}
use operator_for_ai_chips_on.Common.{ℕ, List, [], ◌∷◌}
use operator_for_ai_chips_on.Mocks.Gomock.{
  context_type, device_config_type, Values, At, Any, value, any, Interface, Gomock,
}
use operator_for_ai_chips_on.Mocks.Doubles.{Run, ◌>>=◌}

module _ (V : Values) where
  pub data HelperCall : Type 0 where
    finalize_device_config : Interface V context_type → At V device_config_type → HelperCall
    handle_custom_scheduler : Interface V context_type → At V device_config_type → HelperCall
    handle_kmm_module : Interface V context_type → At V device_config_type → HelperCall
    handle_node_metrics : Interface V context_type → At V device_config_type → HelperCall
    set_finalizer : Interface V context_type → At V device_config_type → HelperCall

module _ {V : Values} where
  -- The name, the type and the arguments of a call.
  unfoldable pub describe : HelperCall V → Description V
  describe (finalize_device_config ctx dev_config) = record {
    method = "finalizeDeviceConfig";
    signature = finalize_device_config_method;
    arguments = any context_type ctx ∷ value device_config_type dev_config ∷ [];
  }
  describe (handle_custom_scheduler ctx dev_config) = record {
    method = "handleCustomScheduler";
    signature = handle_custom_scheduler_method;
    arguments = any context_type ctx ∷ value device_config_type dev_config ∷ [];
  }
  describe (handle_kmm_module ctx dev_config) = record {
    method = "handleKMMModule";
    signature = handle_kmm_module_method;
    arguments = any context_type ctx ∷ value device_config_type dev_config ∷ [];
  }
  describe (handle_node_metrics ctx dev_config) = record {
    method = "handleNodeMetrics";
    signature = handle_node_metrics_method;
    arguments = any context_type ctx ∷ value device_config_type dev_config ∷ [];
  }
  describe (set_finalizer ctx dev_config) = record {
    method = "setFinalizer";
    signature = set_finalizer_method;
    arguments = any context_type ctx ∷ value device_config_type dev_config ∷ [];
  }

module _ {V : Values} (G : Gomock V) where
  -- The call, made of a mock, with its results as values.
  unfoldable pub invoke : HelperCall V → ℕ → Run G (List (Any V))
  invoke (finalize_device_config ctx dev_config) m =
      return_error (Helper.finalize_device_config G m ctx dev_config)
  invoke (handle_custom_scheduler ctx dev_config) m =
      return_error (Helper.handle_custom_scheduler G m ctx dev_config)
  invoke (handle_kmm_module ctx dev_config) m =
      return_error (Helper.handle_kmm_module G m ctx dev_config)
  invoke (handle_node_metrics ctx dev_config) m =
      return_error (Helper.handle_node_metrics G m ctx dev_config)
  invoke (set_finalizer ctx dev_config) m = return_error (Helper.set_finalizer G m ctx dev_config)

  -- The call, announced by EXPECT of a mock.
  unfoldable pub announce : HelperCall V → ℕ → Run G G.Call
  announce (finalize_device_config ctx dev_config) m = do
    mr ← Helper.expect G m
    expect_finalize_device_config G mr (any context_type ctx) (value device_config_type dev_config)
  announce (handle_custom_scheduler ctx dev_config) m = do
    mr ← Helper.expect G m
    expect_handle_custom_scheduler G mr (any context_type ctx) (value device_config_type dev_config)
  announce (handle_kmm_module ctx dev_config) m = do
    mr ← Helper.expect G m
    expect_handle_kmm_module G mr (any context_type ctx) (value device_config_type dev_config)
  announce (handle_node_metrics ctx dev_config) m = do
    mr ← Helper.expect G m
    expect_handle_node_metrics G mr (any context_type ctx) (value device_config_type dev_config)
  announce (set_finalizer ctx dev_config) m = do
    mr ← Helper.expect G m
    expect_set_finalizer G mr (any context_type ctx) (value device_config_type dev_config)
