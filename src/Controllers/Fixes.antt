-- ===== src/Controllers/Fixes.antt =====
-- internal/controllers/device_config_reconciler.go: the handlers in a chain, when the API server
-- already holds what they would write.
use mathlib.Core.Path.{subst}
use operator_for_ai_chips_on.Common.{String, ◌≡◌, sym, ap, ◌∙◌, none}
use operator_for_ai_chips_on.Kube.{Util, Client, GoError}
use operator_for_ai_chips_on.Kube.Lawful.{HandlesOwners, IsQuiet, IsSteady}
use operator_for_ai_chips_on.Controllers.Objects.{Helper}
use operator_for_ai_chips_on.Controllers.Reconcile.{State, Step, handle_all, ◌>>◌, or_fail}
use operator_for_ai_chips_on.Controllers.Helper.{
  new_device_config_reconciler_helper, handle_kmm_module, handle_custom_scheduler,
  handle_node_metrics, apply_scheduler, apply_extension,
}
use operator_for_ai_chips_on.Controllers.Config.{
  KeepsConfig, apply_scheduler-KeepsConfig, handle_kmm_module-KeepsConfig,
  handle_custom_scheduler-KeepsConfig,
}
use operator_for_ai_chips_on.Controllers.Steps.{or_fail-nil, or_fail-state, or_fail->>-nil}
use operator_for_ai_chips_on.Controllers.Applied.{AllHold}
use operator_for_ai_chips_on.Controllers.Desired.{real_helper}
use operator_for_ai_chips_on.Controllers.Fixed.{
  SameObjects, SameObjects-trans, AllHold-same, handle_kmm_module-fixed, apply_scheduler-fixed,
  apply_extension-fixed, handle_node_metrics-fixed,
}

module _ {U : Util} {C : Client U} (Q : IsQuiet C) (scheme : U.Scheme) where
  -- Where the API server holds what the handlers make, the method leaves it, if it returns nil.
  abbrev pub Fixes : Step C → Type 0
  Fixes m =
      (s : State C)
      → AllHold Q (real_helper U scheme) s.dev_config s.world
      → (m s).0 ≡ none
      → SameObjects Q s.dev_config s.world (m s).1.world

  module _ (prefix : String) (m : Step C) (fm : Fixes m) where
    or_fail-Fixes : Fixes (or_fail prefix m)
    or_fail-Fixes s a nil = rw (or_fail-state prefix m s) (fm s a (or_fail-nil prefix m s nil))

    >>-Fixes : (n : Step C) → KeepsConfig m → Fixes n → Fixes (or_fail prefix m >> n)
    >>-Fixes n keeps fn s a nil =
        let k = or_fail->>-nil prefix m n s nil in
        let t : State C = (m s).1 in
        let left = fm s a k.0 in
        let held = AllHold-same Q (real_helper U scheme) s.dev_config s.world t.world left a in
        let right =
          fn t (subst (λ d. AllHold Q (real_helper U scheme) d t.world) (sym (keeps s)) held)
            (ap (λ (r : GoError U × State C). r.0) (sym k.1) ∙ nil) in
        subst (λ (r : GoError U × State C). SameObjects Q s.dev_config s.world r.1.world) (sym k.1)
          (SameObjects-trans Q s.dev_config left
            (subst (λ d. SameObjects Q d t.world (n t).1.world) (keeps s) right))

  module _ (O : HandlesOwners U) (S : IsSteady Q) where
    handle_custom_scheduler-Fixes : Fixes (handle_custom_scheduler C (real_helper U scheme))
    unfolding handle_custom_scheduler
    handle_custom_scheduler-Fixes =
        let h : Helper U = real_helper U scheme in
        >>-Fixes _ (apply_scheduler C h) (λ s a. apply_scheduler-fixed Q O S scheme s a)
          (apply_extension C h) (apply_scheduler-KeepsConfig C h)
          (λ s a. apply_extension-fixed Q O S scheme s a)

    pub handle_all-Fixes :
        Fixes (handle_all (new_device_config_reconciler_helper C (real_helper U scheme)))
    unfolding handle_all new_device_config_reconciler_helper
    handle_all-Fixes =
        let h : Helper U = real_helper U scheme in
        >>-Fixes _ (handle_kmm_module C h) (λ s a. handle_kmm_module-fixed Q O S scheme s a) _
          (handle_kmm_module-KeepsConfig C h)
          (>>-Fixes _ (handle_custom_scheduler C h) handle_custom_scheduler-Fixes _
            (handle_custom_scheduler-KeepsConfig C h)
            (or_fail-Fixes _ (handle_node_metrics C h)
              (λ s a. handle_node_metrics-fixed Q O S scheme s a)))
