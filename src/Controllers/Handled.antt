-- ===== src/Controllers/Handled.antt =====
-- internal/controllers/device_config_reconciler.go: Reconcile, when it returns nil or an error of
-- handleNodeMetrics.
use Prim.Native.String.{count}
use mathlib.Core.Path.{subst}
use text.Mathlib.TextLemmas.{append_assoc, append_inj}
use operator_for_ai_chips_on.Common.{
  String, ◌<>◌, ◌≡◌, ◌≢◌, refl, sym, ap, ◌∙◌, false, ◌⊎◌, inl, inr, none, some, is_some, Error,
  eq_iff, arith,
}
use operator_for_ai_chips_on.Kube.{daemon_set_kind, Util, Client, GoError, wrapf, error_text}
use operator_for_ai_chips_on.Kube.Lawful.{IsQuiet}
use operator_for_ai_chips_on.Controllers.Objects.{Helper, metrics_name, mutate_metrics}
use operator_for_ai_chips_on.Controllers.Reconcile.{
  State, Step, CtrlResult, handle_all, or_fail, ◌>>◌, reconcile, reconcile_live,
}
use operator_for_ai_chips_on.Controllers.Helper.{
  new_device_config_reconciler_helper, set_finalizer, handle_kmm_module, handle_custom_scheduler,
  handle_node_metrics,
}
use operator_for_ai_chips_on.Controllers.Steps.{
  or_fail->>-later, or_fail-of_error, or_fail-of_nil, error_cases, reconcile-live,
}
use operator_for_ai_chips_on.Controllers.Config.{handle_all-KeepsConfig}
use operator_for_ai_chips_on.Controllers.Applied.{
  Holds, MostHold, handle_rest-MostHold, handle_rest-metrics, after_module, after_scheduler,
}

-- Texts that begin with different texts of one length differ.
begins_apart : (s t u v x y : String) → count s ≡ count t → s ≢ t → (s <> u) <> x ≢ (t <> v) <> y
begins_apart s t u v x y same differ p =
    differ (append_inj (sym (append_assoc s u x) ∙ (p ∙ append_assoc t v y)) same).0

-- The text before an error of handleNodeMetrics.
abbrev pub metrics_text : String
metrics_text = "failed to handle node metrics for DeviceConfig: "

module _ (U : Util) where
  abbrev pub IsOfMetrics : GoError U → Type 0
  IsOfMetrics r = (e : Error U.Failure) × (r ≡ some (wrapf U metrics_text e))

  wrapf_apart :
      (s t u v : String) (e f : Error U.Failure)
      → count s ≡ count t
      → s ≢ t
      → wrapf U (s <> u) e ≢ wrapf U (t <> v) f
  unfolding wrapf error_text
  wrapf_apart s t u v e f same differ p =
      begins_apart s t u v (error_text U e) (error_text U f) same differ (cc (p))

  -- An error of handleNodeMetrics has the text of no other method.
  IsOfMetrics-apart :
      (s v : String) (r : GoError U) (e : Error U.Failure)
      → count s ≡ 18
      → s ≢ "failed to handle n"
      → (r ≡ none) ⊎ IsOfMetrics r
      → r ≢ some (wrapf U (s <> v) e)
  IsOfMetrics-apart s v r e same differ (inl p) q = ground (arith, p, q)
  IsOfMetrics-apart s v r e same differ (inr (f, p)) q =
      wrapf_apart s "failed to handle n" v "ode metrics for DeviceConfig: " e f same differ
        (cc (p, q))

module _ {U : Util} {C : Client U} (Q : IsQuiet C) (h : Helper U) where
  -- The error of the last handler, and the DaemonSet that is stored unless there is one.
  abbrev pub MetricsHold : State C → GoError U × State C → Type 0
  MetricsHold s r =
      ((r.0 ≡ none)
        × Holds Q daemon_set_kind (metrics_name s.dev_config) (mutate_metrics h s.dev_config)
            r.1.world)
      ⊎ IsOfMetrics U r.0

  -- What the handlers leave when the first two return nil.
  abbrev pub MostHandled : State C → GoError U × State C → Type 0
  MostHandled s r = MostHold Q h s.dev_config r.1.world × MetricsHold s r

  last-MostHandled :
      (s : State C)
      → (handle_kmm_module C h s).0 ≡ none
      → (handle_custom_scheduler C h (after_module Q h s)).0 ≡ none
      → MostHandled s (or_fail metrics_text (handle_node_metrics C h) (after_scheduler Q h s))
  last-MostHandled s p q =
      let nm : Step C = handle_node_metrics C h in
      let t : State C = after_scheduler Q h s in
      let most = handle_rest-MostHold Q h s p q in
      elim (error_cases nm t) [
        | inl (e, failed) ↦
            subst (MostHandled s) (sym (or_fail-of_error nm t metrics_text e failed))
              (most, inr (e, refl))
        | inr nil ↦
            subst (MostHandled s) (sym (or_fail-of_nil nm t metrics_text nil))
              (most, inl (refl, handle_rest-metrics Q h s nil))
      ]

  handle_all-MostHandled :
      (s : State C)
      → let r = handle_all (new_device_config_reconciler_helper C h) s in
        (r.0 ≡ none) ⊎ IsOfMetrics U r.0 → MostHandled s r
  unfolding handle_all new_device_config_reconciler_helper
  handle_all-MostHandled s p =
      let Passed : GoError U × State C → Type 0 = λ r. (r.0 ≡ none) ⊎ IsOfMetrics U r.0 in
      let kmm : Step C = handle_kmm_module C h in
      let cs : Step C = handle_custom_scheduler C h in
      let nm : Step C = or_fail metrics_text (handle_node_metrics C h) in
      let k = or_fail->>-later "failed to handle KMM module for DeviceConfig: " kmm _ s (λ e.
        IsOfMetrics-apart U "failed to handle K" "MM module for DeviceConfig: " _ e refl
          (ground (arith, eq_iff "failed to handle K" "failed to handle n")) p) in
      let q : Passed
          ((or_fail "failed to handle customScheduler for DeviceConfig: " cs >> nm) (kmm s).1) =
        subst Passed k.1 p in
      let l =
        or_fail->>-later "failed to handle customScheduler for DeviceConfig: " cs nm (kmm s).1 (λ e.
          IsOfMetrics-apart U "failed to handle c" "ustomScheduler for DeviceConfig: " _ e refl
            (ground (arith, eq_iff "failed to handle c" "failed to handle n")) q) in
      subst (MostHandled s) (sym (k.1 ∙ l.1)) (last-MostHandled s k.0 l.0)

  -- So for Reconcile, in the state that setFinalizer leaves.
  pub reconcile-MostHandled :
      (s : State C)
      → is_some s.dev_config.meta.deletion_timestamp ≡ false
      → let r = reconcile (new_device_config_reconciler_helper C h) s in
        (r.1 ≡ none) ⊎ IsOfMetrics U r.1
        → let t = (set_finalizer C h s).1 in
          ((set_finalizer C h s).0 ≡ none)
          × MostHandled t (r.1, r.2)
          × (r.2.dev_config ≡ t.dev_config)
  unfolding reconcile_live new_device_config_reconciler_helper
  reconcile-MostHandled s live p =
      let Passed : GoError U × State C → Type 0 = λ r. (r.0 ≡ none) ⊎ IsOfMetrics U r.0 in
      let second : CtrlResult × GoError U × State C → GoError U × State C = λ r. (r.1, r.2) in
      let m : Step C = set_finalizer C h in
      let rest : Step C = handle_all (new_device_config_reconciler_helper C h) in
      let same = ap second (reconcile-live (new_device_config_reconciler_helper C h) s live) in
      let q = subst Passed same p in
      let k = or_fail->>-later "failed to set finalizer for DeviceConfig: " m rest s (λ e.
        IsOfMetrics-apart U "failed to set fina" "lizer for DeviceConfig: " _ e refl
          (ground (arith, eq_iff "failed to set fina" "failed to handle n")) q) in
      let whole = same ∙ k.1 in
      (
        k.0,
        subst (MostHandled (m s).1) (sym whole)
            (handle_all-MostHandled (m s).1 (subst Passed k.1 q)),
        ap (λ (r : GoError U × State C). r.1.dev_config) whole ∙ handle_all-KeepsConfig C h (m s).1,
      )
