-- ===== src/Mocks/Module/Answers.antt =====
-- internal/kmmmodule/mock_kmmmodule.go: MockKMMModuleAPI, how a call is answered.
use operator_for_ai_chips_on.Mocks.Module
use operator_for_ai_chips_on.Mocks.Module.Recorder.{expect_set_kmm_module_as_desired}
use operator_for_ai_chips_on.Mocks.Module.Calls.{
  ModuleCall, describe, invoke, announce, set_kmm_module_as_desired,
}
use operator_for_ai_chips_on.Mocks.Calls.{error_results}
use operator_for_ai_chips_on.Mocks.Kept.{error_results-kept}
use operator_for_ai_chips_on.Common.{ap, ◌∙◌, ℕ, List, map, ◌≡◌, refl}
use operator_for_ai_chips_on.Mocks.Gomock.{
  error_type, zero_value, Values, Any, Gomock, HasTypes, absent, finished,
}
use operator_for_ai_chips_on.Mocks.Doubles.{Testing, ◌>>=◌, recorder_of, call_method, record_method}

module _ {V : Values} (G : Gomock V) (m : ℕ) (t : Testing G) where
  -- What Call returns is what the method returns.
  pub invoke-answers :
      (c : ModuleCall V) (vs : List (Any V)) (t' : Testing G)
      → call_method {G = G} m (describe c).method (describe c).arguments t ≡ finished vs t'
      → HasTypes (describe c).signature.outputs vs
      → invoke G c m t ≡ finished vs t'
  unfolding invoke describe Module.set_kmm_module_as_desired
  invoke-answers (set_kmm_module_as_desired kmm_module dev_config) vs t' e h =
      ap (error_results G t) e ∙ error_results-kept G t vs t' h

  -- What EXPECT announces is recorded under the name and the type of the method.
  pub announce-records :
      (c : ModuleCall V)
      → announce G c m t
        ≡ (recorder_of {G = G} m >>= λ r.
              record_method r (describe c).method (describe c).signature (describe c).arguments)
            t
  unfolding announce describe Module.expect expect_set_kmm_module_as_desired
  announce-records (set_kmm_module_as_desired kmm_module dev_config) = refl

module _ {V : Values} where
  -- The zero values have the types of the results.
  pub outputs-zero :
      (c : ModuleCall V)
      → HasTypes {V = V}
          (describe c).signature.outputs
          (map zero_value (describe c).signature.outputs)
  unfolding describe
  outputs-zero (set_kmm_module_as_desired kmm_module dev_config) = (absent error_type refl, tt)
