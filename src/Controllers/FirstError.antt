-- ===== src/Controllers/FirstError.antt =====
-- internal/controllers/device_config_reconciler.go: Reconcile over any implementation of the
-- interface of its helper, as with a mock.
use mathlib.Core.Path.{subst}
use operator_for_ai_chips_on.Common.{
  String, ◌≡◌, refl, sym, ap, ◌∙◌, true, false, inl, inr, none, some, List, [], ◌∷◌, Error, is_some,
  Bool-cases, Bool,
}
use operator_for_ai_chips_on.Kube.{Util, Client, GoError, wrapf}
use operator_for_ai_chips_on.Controllers.Reconcile.{
  State, Step, HelperApi, CtrlResult, no_result, handle_all, reconcile, reconcile_live, ◌>>◌,
  or_fail,
}
use operator_for_ai_chips_on.Controllers.Steps.{
  >>-of_error, >>-of_nil, or_fail-of_error, or_fail-of_nil, error_cases, reconcile-live,
  reconcile-deleted,
}

module _ {U : Util} {C : Client U} where
  -- The methods with the texts that stand before their errors, run in order from a state, with the
  -- error and the state at the end: the first error, under its text, ends the run.
  pub data Ends : List (String × Step C) → State C → GoError U × State C → Type 0 where
    done : (s : State C) → Ends [] s (none, s)
    failed :
        {prefix : String} {m : Step C} {ms : List (String × Step C)} {s t : State C}
        (e : Error U.Failure)
        → m s ≡ (some e, t)
        → Ends ((prefix, m) ∷ ms) s (some (wrapf U prefix e), t)
    passed :
        {prefix : String} {m : Step C} {ms : List (String × Step C)} {s t : State C}
        {r : GoError U × State C}
        → m s ≡ (none, t)
        → Ends ms t r
        → Ends ((prefix, m) ∷ ms) s r

  module _ (prefix : String) (m : Step C) (s : State C) where
    >>-Ends :
        (n : Step C) (ms : List (String × Step C))
        → Ends ms (m s).1 (n (m s).1)
        → Ends ((prefix, m) ∷ ms) s ((or_fail prefix m >> n) s)
    >>-Ends n ms k = elim (error_cases m s) [
      | inl (e, h) ↦
          subst (Ends ((prefix, m) ∷ ms) s)
            (sym (
              >>-of_error (or_fail prefix m) s n (wrapf U prefix e)
                (ap (λ (r : GoError U × State C). r.0) (or_fail-of_error m s prefix e h))
              ∙ ap (λ (r : GoError U × State C). (some (wrapf U prefix e), r.1))
                  (or_fail-of_error m s prefix e h)))
            (failed e (ap (λ (x : GoError U). (x, (m s).1)) h))
      | inr h ↦
          subst (Ends ((prefix, m) ∷ ms) s)
            (sym (
              >>-of_nil (or_fail prefix m) s n
                (ap (λ (r : GoError U × State C). r.0) (or_fail-of_nil m s prefix h))
              ∙ ap (λ (r : GoError U × State C). n r.1) (or_fail-of_nil m s prefix h)))
            (passed (ap (λ (x : GoError U). (x, (m s).1)) h) k)
    ]

    or_fail-Ends : Ends ((prefix, m) ∷ []) s (or_fail prefix m s)
    or_fail-Ends = elim (error_cases m s) [
      | inl (e, h) ↦
          subst (Ends ((prefix, m) ∷ []) s) (sym (or_fail-of_error m s prefix e h))
            (failed e (ap (λ (x : GoError U). (x, (m s).1)) h))
      | inr h ↦
          subst (Ends ((prefix, m) ∷ []) s) (sym (or_fail-of_nil m s prefix h))
            (passed (ap (λ (x : GoError U). (x, (m s).1)) h) (done (m s).1))
    ]

  -- The methods of the helper that Reconcile is to call.
  abbrev pub methods : HelperApi C → (deleting : Bool) → List (String × Step C)
  methods api true = ("failed to finalize DeviceConfig: ", api.finalize_device_config) ∷ []
  methods api false =
      ("failed to set finalizer for DeviceConfig: ", api.set_finalizer)
      ∷ ("failed to handle KMM module for DeviceConfig: ", api.handle_kmm_module)
      ∷ ("failed to handle customScheduler for DeviceConfig: ", api.handle_custom_scheduler)
      ∷ ("failed to handle node metrics for DeviceConfig: ", api.handle_node_metrics)
      ∷ []

  reconcile_live-Ends :
      (api : HelperApi C) (s : State C) → Ends (methods api false) s (reconcile_live api s)
  unfolding reconcile_live handle_all
  reconcile_live-Ends api s =
      >>-Ends _ _ _ _ _ (>>-Ends _ _ _ _ _ (>>-Ends _ _ _ _ _ (or_fail-Ends _ _ _)))

  abbrev pub IsFirstError : HelperApi C → State C → CtrlResult × GoError U × State C → Type 0
  IsFirstError api s r =
      (r.0 ≡ no_result)
      × Ends (methods api (is_some s.dev_config.meta.deletion_timestamp)) s (r.1, r.2)

  -- Whatever implements the helper, Reconcile returns the empty result, and its error and the state
  -- that it leaves are those of a run of the methods in order, which the first error ends and
  -- in which that error is returned under the text of its method: of finalizeDeviceConfig alone if the
  -- DeviceConfig is being deleted, and of setFinalizer and the three handlers if not.
  pub reconcile-IsFirstError :
      (api : HelperApi C) (s : State C) → IsFirstError api s (reconcile api s)
  reconcile-IsFirstError api s = elim (Bool-cases (is_some s.dev_config.meta.deletion_timestamp)) [
    | inl deleting ↦ subst (IsFirstError api s) (sym (reconcile-deleted api s deleting)) (
      refl,
      subst
          (λ b.
            Ends (methods api b) s
              (or_fail "failed to finalize DeviceConfig: " api.finalize_device_config s))
          (sym deleting) (or_fail-Ends _ _ s),
    )
    | inr live ↦ subst (IsFirstError api s) (sym (reconcile-live api s live)) (
      refl,
      subst (λ b. Ends (methods api b) s (reconcile_live api s)) (sym live)
          (reconcile_live-Ends api s),
    )
  ]
