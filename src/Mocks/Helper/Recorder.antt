-- ===== src/Mocks/Helper/Recorder.antt =====
-- internal/controllers/mock_device_config_reconciler.go: MockdeviceConfigReconcilerHelperAPIMockRecorder.
use operator_for_ai_chips_on.Common.{ℕ, false, [], ◌∷◌}
use operator_for_ai_chips_on.Mocks.Gomock.{
  error_type, context_type, device_config_type, Values, Any, MethodType, Gomock,
}
use operator_for_ai_chips_on.Mocks.Doubles.{Run, record_method}

-- reflect.TypeOf((*MockdeviceConfigReconcilerHelperAPI)(nil).finalizeDeviceConfig)
abbrev pub finalize_device_config_method : MethodType
finalize_device_config_method = record {
  inputs = context_type ∷ device_config_type ∷ [];
  is_variadic = false;
  outputs = error_type ∷ [];
}

-- reflect.TypeOf((*MockdeviceConfigReconcilerHelperAPI)(nil).handleCustomScheduler)
abbrev pub handle_custom_scheduler_method : MethodType
handle_custom_scheduler_method = record {
  inputs = context_type ∷ device_config_type ∷ [];
  is_variadic = false;
  outputs = error_type ∷ [];
}

-- reflect.TypeOf((*MockdeviceConfigReconcilerHelperAPI)(nil).handleKMMModule)
abbrev pub handle_kmm_module_method : MethodType
handle_kmm_module_method = record {
  inputs = context_type ∷ device_config_type ∷ [];
  is_variadic = false;
  outputs = error_type ∷ [];
}

-- reflect.TypeOf((*MockdeviceConfigReconcilerHelperAPI)(nil).handleNodeMetrics)
abbrev pub handle_node_metrics_method : MethodType
handle_node_metrics_method = record {
  inputs = context_type ∷ device_config_type ∷ [];
  is_variadic = false;
  outputs = error_type ∷ [];
}

-- reflect.TypeOf((*MockdeviceConfigReconcilerHelperAPI)(nil).setFinalizer)
abbrev pub set_finalizer_method : MethodType
set_finalizer_method = record {
  inputs = context_type ∷ device_config_type ∷ [];
  is_variadic = false;
  outputs = error_type ∷ [];
}

module _ {V : Values} (G : Gomock V) where
  unfoldable pub expect_finalize_device_config : ℕ → Any V → Any V → Run G G.Call
  expect_finalize_device_config mr ctx dev_config =
      record_method mr "finalizeDeviceConfig" finalize_device_config_method (ctx ∷ dev_config ∷ [])

  unfoldable pub expect_handle_custom_scheduler : ℕ → Any V → Any V → Run G G.Call
  expect_handle_custom_scheduler mr ctx dev_config =
      record_method mr "handleCustomScheduler" handle_custom_scheduler_method
        (ctx ∷ dev_config ∷ [])

  unfoldable pub expect_handle_kmm_module : ℕ → Any V → Any V → Run G G.Call
  expect_handle_kmm_module mr ctx dev_config =
      record_method mr "handleKMMModule" handle_kmm_module_method (ctx ∷ dev_config ∷ [])

  unfoldable pub expect_handle_node_metrics : ℕ → Any V → Any V → Run G G.Call
  expect_handle_node_metrics mr ctx dev_config =
      record_method mr "handleNodeMetrics" handle_node_metrics_method (ctx ∷ dev_config ∷ [])

  unfoldable pub expect_set_finalizer : ℕ → Any V → Any V → Run G G.Call
  expect_set_finalizer mr ctx dev_config =
      record_method mr "setFinalizer" set_finalizer_method (ctx ∷ dev_config ∷ [])
