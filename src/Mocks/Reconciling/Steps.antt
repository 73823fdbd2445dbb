-- ===== src/Mocks/Reconciling/Steps.antt =====
-- Reconcile of internal/controllers/device_config_reconciler.go over the mock of its helper, as a run
-- of the methods.
use operator_for_ai_chips_on.Common.{
  ℕ, Bool, true, false, none, some, List, [], ◌∷◌, ◌≡◌, refl, sym, ap, ◌∙◌, is_some,
}
use operator_for_ai_chips_on.Api.{DeviceConfig}
use operator_for_ai_chips_on.Kube.{GoError}
use operator_for_ai_chips_on.Controllers.Reconcile.{
  State, Step, no_result, reconcile, reconcile_live, handle_all, ◌>>◌, or_fail,
}
use operator_for_ai_chips_on.Controllers.Steps.{reconcile-live, reconcile-deleted}
use operator_for_ai_chips_on.Mocks.Gomock.{
  error_type, context_type, Values, Any, any, Interface, Gomock, Outcome, finished, failed,
  panicked,
}
use operator_for_ai_chips_on.Mocks.Doubles.{Testing, as_error}
use operator_for_ai_chips_on.Mocks.Calls.{return_error}
use operator_for_ai_chips_on.Mocks.Helper.Calls.{invoke}
use operator_for_ai_chips_on.Mocks.Script.{helper, invoke_call}
use operator_for_ai_chips_on.Mocks.Reconciling.{
  Setting, values, test_client, ended, mock_helper, HelperMethod, finalizing, setting_finalizer,
  handling_module, handling_scheduler, handling_metrics, call_of, first_of_methods, rest_of_methods,
  text_of,
}

module _ (V : Values) where
  as_error-any : (e : Interface V error_type) → as_error (any {V = V} error_type e) ≡ e
  as_error-any none = refl
  as_error-any (some e) = refl

module _ {V : Values} where
  -- The error that a list of results starts with.
  abbrev first_of : {S : Type 0} → Outcome S (List (Any V)) → Interface V error_type
  first_of (finished (v ∷ vs) s) = as_error v
  first_of _ = none

abbrev state_or : {S A : Type 0} → S → Outcome S A → S
state_or s (finished a s') = s'
state_or s _ = s

module _ (X : Setting) {G : Gomock (values X)} where
  -- The results that a method returns say what its error was.
  error_of_return :
      (o : Outcome (Testing G) (GoError X.util)) (e : GoError X.util) (u t : Testing G)
      → return_error {V = values X} {G = G} (λ _. o) u
        ≡ finished (any {V = values X} error_type e ∷ []) t
      → o ≡ finished e t
  error_of_return (finished e' t') e u t h =
      ap (λ x. finished x t')
        (sym (as_error-any (values X) e') ∙ ap first_of h ∙ as_error-any (values X) e)
      ∙ ap (λ x. finished e x) (ap (state_or t) h)
  error_of_return failed e u t h = cc
  error_of_return panicked e u t h = cc

module _ (X : Setting) {G : Gomock (values X)} (m : ℕ)
    (ctx : Interface (values X) context_type) where
  -- A method of the helper that Reconcile calls.
  abbrev pub step_of : HelperMethod → Step (test_client X G)
  step_of finalizing = (mock_helper X G m ctx).finalize_device_config
  step_of setting_finalizer = (mock_helper X G m ctx).set_finalizer
  step_of handling_module = (mock_helper X G m ctx).handle_kmm_module
  step_of handling_scheduler = (mock_helper X G m ctx).handle_custom_scheduler
  step_of handling_metrics = (mock_helper X G m ctx).handle_node_metrics

  abbrev pub at : DeviceConfig → Testing G → State (test_client X G)
  at d t = record { world = some t; dev_config = d }

  pub step_of-invoke :
      (h : HelperMethod) (d : DeviceConfig) (e : GoError X.util) (t t' : Testing G)
      → invoke_call G (helper (call_of X ctx h d)) m t
        ≡ finished (any {V = values X} error_type e ∷ []) t'
      → step_of h (at d t) ≡ (e, at d t')
  unfolding invoke_call invoke
  step_of-invoke finalizing d e t t' p = ap (ended X G d) (error_of_return X _ e t t' p)
  step_of-invoke setting_finalizer d e t t' p = ap (ended X G d) (error_of_return X _ e t t' p)
  step_of-invoke handling_module d e t t' p = ap (ended X G d) (error_of_return X _ e t t' p)
  step_of-invoke handling_scheduler d e t t' p = ap (ended X G d) (error_of_return X _ e t t' p)
  step_of-invoke handling_metrics d e t t' p = ap (ended X G d) (error_of_return X _ e t t' p)

  -- The methods, one after the other, each error under its text.
  abbrev pub run_all : HelperMethod → List HelperMethod → Step (test_client X G)
  run_all h [] = or_fail (text_of h) (step_of h)
  run_all h (k ∷ ks) = or_fail (text_of h) (step_of h) >> run_all k ks

  pub reconcile-run_all :
      (st : State (test_client X G)) (b : Bool)
      → is_some st.dev_config.meta.deletion_timestamp ≡ b
      → reconcile (mock_helper X G m ctx) st ≡ (
          let (e, st') = run_all (first_of_methods b) (rest_of_methods b) st in (no_result, e, st'))
  unfolding reconcile_live handle_all
  reconcile-run_all st true h = reconcile-deleted (mock_helper X G m ctx) st h
  reconcile-run_all st false h = reconcile-live (mock_helper X G m ctx) st h
