-- ===== src/Mocks/Helper/Answers.antt =====
-- internal/controllers/mock_device_config_reconciler.go: MockdeviceConfigReconcilerHelperAPI, how a call is answered.
use operator_for_ai_chips_on.Mocks.Helper
use operator_for_ai_chips_on.Mocks.Helper.Recorder.{
  expect_finalize_device_config, expect_handle_custom_scheduler, expect_handle_kmm_module,
  expect_handle_node_metrics, expect_set_finalizer,
}
use operator_for_ai_chips_on.Mocks.Helper.Calls.{
  HelperCall, describe, invoke, announce, finalize_device_config, handle_custom_scheduler,
  handle_kmm_module, handle_node_metrics, set_finalizer,
}
use operator_for_ai_chips_on.Mocks.Calls.{error_results}
use operator_for_ai_chips_on.Mocks.Kept.{error_results-kept}
use operator_for_ai_chips_on.Common.{ap, ◌∙◌, ℕ, List, map, ◌≡◌, refl}
use operator_for_ai_chips_on.Mocks.Gomock.{
  error_type, zero_value, Values, Any, Gomock, HasTypes, absent, finished,
}
use operator_for_ai_chips_on.Mocks.Doubles.{Testing, ◌>>=◌, recorder_of, call_method, record_method}

module _ {V : Values} (G : Gomock V) (m : ℕ) (t : Testing G) where
  -- What Call returns is what the method returns.
  pub invoke-answers :
      (c : HelperCall V) (vs : List (Any V)) (t' : Testing G)
      → call_method {G = G} m (describe c).method (describe c).arguments t ≡ finished vs t'
      → HasTypes (describe c).signature.outputs vs
      → invoke G c m t ≡ finished vs t'
  unfolding invoke describe Helper.finalize_device_config Helper.handle_custom_scheduler
      Helper.handle_kmm_module Helper.handle_node_metrics Helper.set_finalizer
  invoke-answers (finalize_device_config ctx dev_config) vs t' e h =
      ap (error_results G t) e ∙ error_results-kept G t vs t' h
  invoke-answers (handle_custom_scheduler ctx dev_config) vs t' e h =
      ap (error_results G t) e ∙ error_results-kept G t vs t' h
  invoke-answers (handle_kmm_module ctx dev_config) vs t' e h =
      ap (error_results G t) e ∙ error_results-kept G t vs t' h
  invoke-answers (handle_node_metrics ctx dev_config) vs t' e h =
      ap (error_results G t) e ∙ error_results-kept G t vs t' h
  invoke-answers (set_finalizer ctx dev_config) vs t' e h =
      ap (error_results G t) e ∙ error_results-kept G t vs t' h

  -- What EXPECT announces is recorded under the name and the type of the method.
  pub announce-records :
      (c : HelperCall V)
      → announce G c m t
        ≡ (recorder_of {G = G} m >>= λ r.
              record_method r (describe c).method (describe c).signature (describe c).arguments)
            t
  unfolding announce describe Helper.expect expect_finalize_device_config
      expect_handle_custom_scheduler expect_handle_kmm_module expect_handle_node_metrics
      expect_set_finalizer
  announce-records (finalize_device_config ctx dev_config) = refl
  announce-records (handle_custom_scheduler ctx dev_config) = refl
  announce-records (handle_kmm_module ctx dev_config) = refl
  announce-records (handle_node_metrics ctx dev_config) = refl
  announce-records (set_finalizer ctx dev_config) = refl

module _ {V : Values} where
  -- The zero values have the types of the results.
  pub outputs-zero :
      (c : HelperCall V)
      → HasTypes {V = V}
          (describe c).signature.outputs
          (map zero_value (describe c).signature.outputs)
  unfolding describe
  outputs-zero (finalize_device_config ctx dev_config) = (absent error_type refl, tt)
  outputs-zero (handle_custom_scheduler ctx dev_config) = (absent error_type refl, tt)
  outputs-zero (handle_kmm_module ctx dev_config) = (absent error_type refl, tt)
  outputs-zero (handle_node_metrics ctx dev_config) = (absent error_type refl, tt)
  outputs-zero (set_finalizer ctx dev_config) = (absent error_type refl, tt)
