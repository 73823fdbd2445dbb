-- ===== src/Mocks/Reconciling.antt =====
-- Reconcile of internal/controllers/device_config_reconciler.go over the mock of its helper,
-- internal/controllers/mock_device_config_reconciler.go, as its tests run it.
pub mod Steps
pub mod Runs
pub mod Flow
use operator_for_ai_chips_on.Common.{
  ℕ, String, Bool, true, false, Option, none, some, List, [], ◌∷◌, Error, errorf, err,
}
use operator_for_ai_chips_on.Api.{DeviceConfig}
use operator_for_ai_chips_on.Kube.{Util, Client, GoError, wrapf}
use operator_for_ai_chips_on.Controllers.Reconcile.{State, Step, HelperApi}
use operator_for_ai_chips_on.Mocks.Gomock.{
  GoType, error_type, device_config_type, context_type, group_version_kind_type, scheme_type,
  Values, any, Interface, Gomock, Outcome, finished, failed, panicked,
}
use operator_for_ai_chips_on.Mocks.Doubles.{Run, Testing}
use operator_for_ai_chips_on.Mocks.Helper
use operator_for_ai_chips_on.Mocks.Helper.Calls.{
  HelperCall, finalize_device_config, set_finalizer, handle_kmm_module, handle_custom_scheduler,
  handle_node_metrics,
}
use operator_for_ai_chips_on.Mocks.Script.{Entry, helper}

-- The helpers of the libraries, and the values of the types that Reconcile does not know.
pub record Setting : Type 1 where
  pub util : Util
  pub Other : GoType → Type 0
  pub empty_kind : Other group_version_kind_type
  pub nil_scheme : Other scheme_type

-- Errors and DeviceConfigs are those of Reconcile.
abbrev pub ValueOf : Setting → GoType → Type 0
ValueOf X error_type = Error X.util.Failure
ValueOf X device_config_type = DeviceConfig
ValueOf X k = X.Other k

abbrev pub values : Setting → Values
values X = record { Value = ValueOf X; empty_kind = X.empty_kind; nil_scheme = X.nil_scheme }

module _ (X : Setting) (G : Gomock (values X)) where
  -- A client whose world is the test that runs, or nothing once the test was stopped. Reconcile
  -- itself makes no call of a client.
  abbrev pub test_client : Client X.util
  test_client = record {
    World = Option (Testing G);
    get = λ _ _ w. (err (errorf "no cluster"), w);
    delete = λ _ _ w. (some (errorf "no cluster"), w);
    patch = λ d _ w. (some (errorf "no cluster"), d, w);
    create_or_patch = λ _ o _ w. (err (errorf "no cluster"), o, w);
  }

  -- A call of the mock. Where it stops the test, or panics, nothing more happens in the test.
  abbrev pub ended :
      DeviceConfig → Outcome (Testing G) (GoError X.util) → GoError X.util × State test_client
  ended d (finished e t) = (e, record { world = some t; dev_config = d })
  ended d failed = (none, record { world = none; dev_config = d })
  ended d panicked = (none, record { world = none; dev_config = d })

  abbrev pub made_of :
      (DeviceConfig → Run G (GoError X.util))
      → DeviceConfig
      → Option (Testing G)
      → GoError X.util × State test_client
  made_of call d none = (none, record { world = none; dev_config = d })
  made_of call d (some t) = ended d (call d t)

  abbrev pub made : (DeviceConfig → Run G (GoError X.util)) → Step test_client
  made call st = made_of call st.dev_config st.world

module _ (X : Setting) (G : Gomock (values X)) (m : ℕ)
    (ctx : Interface (values X) context_type) where
  -- The mock as the helper of the reconciler.
  abbrev pub mock_helper : HelperApi (test_client X G)
  mock_helper = record {
    finalize_device_config = made X G (Helper.finalize_device_config G m ctx);
    set_finalizer = made X G (Helper.set_finalizer G m ctx);
    handle_kmm_module = made X G (Helper.handle_kmm_module G m ctx);
    handle_custom_scheduler = made X G (Helper.handle_custom_scheduler G m ctx);
    handle_node_metrics = made X G (Helper.handle_node_metrics G m ctx);
  }

-- The methods of the helper.
pub data HelperMethod : Type 0 where
  finalizing setting_finalizer handling_module handling_scheduler handling_metrics : HelperMethod

module _ (X : Setting) (ctx : Interface (values X) context_type) where
  abbrev pub call_of : HelperMethod → DeviceConfig → HelperCall (values X)
  call_of finalizing = finalize_device_config ctx
  call_of setting_finalizer = set_finalizer ctx
  call_of handling_module = handle_kmm_module ctx
  call_of handling_scheduler = handle_custom_scheduler ctx
  call_of handling_metrics = handle_node_metrics ctx

  -- mock.EXPECT().Method(ctx, devConfig).Return(e)
  abbrev pub entry : ℕ → HelperMethod → DeviceConfig → GoError X.util → Entry (values X)
  entry m h d e = record {
    mock = m;
    call = helper (call_of h d);
    answer = some (any error_type e ∷ []);
  }

-- The methods that a Reconcile calls if none fails.
abbrev pub first_of_methods : Bool → HelperMethod
first_of_methods true = finalizing
first_of_methods false = setting_finalizer

abbrev pub rest_of_methods : Bool → List HelperMethod
rest_of_methods true = []
rest_of_methods false = handling_module ∷ handling_scheduler ∷ handling_metrics ∷ []

abbrev pub methods_of : (deleting : Bool) → List HelperMethod
methods_of deleting = first_of_methods deleting ∷ rest_of_methods deleting

abbrev pub text_of : HelperMethod → String
text_of finalizing = "failed to finalize DeviceConfig: "
text_of setting_finalizer = "failed to set finalizer for DeviceConfig: "
text_of handling_module = "failed to handle KMM module for DeviceConfig: "
text_of handling_scheduler = "failed to handle customScheduler for DeviceConfig: "
text_of handling_metrics = "failed to handle node metrics for DeviceConfig: "

-- The methods up to the first that is to fail.
abbrev pub cut : {E : Type 0} → Option E → List HelperMethod → List HelperMethod
cut none hs = hs
cut (some _) hs = []

abbrev pub until_error :
    {E : Type 0} → (HelperMethod → Option E) → List HelperMethod → List HelperMethod
until_error errors [] = []
until_error errors (h ∷ hs) = h ∷ cut (errors h) (until_error errors hs)

module _ (U : Util) where
  -- The first error, under the text of its method.
  abbrev pub or_else : String → GoError U → GoError U → GoError U
  or_else prefix none rest = rest
  or_else prefix (some e) rest = some (wrapf U prefix e)

  abbrev pub first_error : (HelperMethod → GoError U) → List HelperMethod → GoError U
  first_error errors [] = none
  first_error errors (h ∷ hs) = or_else (text_of h) (errors h) (first_error errors hs)
