-- ===== src/Controllers/ReconcileOrder.antt =====
-- internal/controllers/device_config_reconciler.go: the requests of Reconcile, of a DeviceConfig that is not being
-- deleted.
use mathlib.Core.Path.{subst}
use operator_for_ai_chips_on.Common.{
  String, ◌≡◌, refl, ap, sym, ◌∙◌, true, false, inl, inr, none, some, List, [], ◌∷◌, ◌++◌, Error,
  if◌then◌else◌, Bool-cases, is_some,
}
use operator_for_ai_chips_on.Api.{DeviceConfig}
use operator_for_ai_chips_on.Kube.{
  Kind, Obj, module_kind, daemon_set_kind, deployment_kind, Util, Client, GoError, wrapf,
}
use operator_for_ai_chips_on.Kube.Traced.{patched, traced}
use operator_for_ai_chips_on.Controllers.Objects.{
  device_config_finalizer, new_module, new_scheduler, new_extension, new_daemon_set, Helper,
  mutate_module, mutate_scheduler, mutate_extension, mutate_metrics,
}
use operator_for_ai_chips_on.Controllers.Reconcile.{
  State, Step, reconcile, reconcile_live, handle_all, or_fail, CtrlResult, ◌>>◌,
}
use operator_for_ai_chips_on.Controllers.Helper.{
  error_of, new_device_config_reconciler_helper, set_finalizer, handle_kmm_module,
  handle_custom_scheduler, handle_node_metrics, apply_scheduler, apply_extension,
}
use operator_for_ai_chips_on.Controllers.FinalizeOrder.{start}
use operator_for_ai_chips_on.Controllers.Steps.{
  reconcile-live, >>-of_error, or_fail->>-passes, or_fail-of_error,
}
use operator_for_ai_chips_on.Controllers.Config.{
  or_fail-KeepsConfig, apply_scheduler-KeepsConfig, handle_kmm_module-KeepsConfig,
  handle_custom_scheduler-KeepsConfig,
}
use operator_for_ai_chips_on.Controllers.Requests.{
  Request, Reply, run, applying, reply_of, Sends-one, Performs, or_fail-Performs, >>-Performs,
}

module _ {U : Util} (C : Client U) (h : Helper U) where
  abbrev scheduler_text : Error U.Failure → Error U.Failure
  scheduler_text e = wrapf U "failed to handle customScheduler for DeviceConfig: " e

  -- The objects that are applied for a DeviceConfig, each with the texts before its error.
  abbrev pub handler_requests : DeviceConfig → List (Request C)
  handler_requests d =
      applying C module_kind (new_module d) (mutate_module h d)
        (wrapf U "failed to handle KMM module for DeviceConfig: ")
      ∷ applying C deployment_kind (new_scheduler d) (mutate_scheduler h d)
          (λ e. scheduler_text (wrapf U "failed to create/patch custom scheduler deployment: " e))
      ∷ applying C deployment_kind (new_extension d) (mutate_extension h d) scheduler_text
      ∷ applying C daemon_set_kind (new_daemon_set d) (mutate_metrics h d)
          (wrapf U "failed to handle node metrics for DeviceConfig: ")
      ∷ []

  applying-Performs :
      (k : Kind) (o : DeviceConfig → Obj k) (f : DeviceConfig → Obj k → Obj k × GoError U)
      (m : Step (traced C))
      → ((s : State (traced C))
          → m s ≡ (
              let (r, _, w) =
                (traced C).create_or_patch k (o s.dev_config) (f s.dev_config) s.world in
              (error_of r, record { world = w; dev_config = s.dev_config })))
      → Performs C m (λ d. applying C k (o d) (f d) (λ e. e) ∷ [])
  applying-Performs k o f m p s = Sends-one C m s _ _ (ap (reply_of C) (p s))

  handle_custom_scheduler-Performs : Performs C (handle_custom_scheduler (traced C) h) (λ d.
      applying C deployment_kind
        (new_scheduler d)
        (mutate_scheduler h d)
        (wrapf U "failed to create/patch custom scheduler deployment: ")
      ∷ applying C deployment_kind (new_extension d) (mutate_extension h d) (λ e. e)
      ∷ [])
  unfolding handle_custom_scheduler apply_scheduler apply_extension
  handle_custom_scheduler-Performs =
      >>-Performs C _ _ _ _ (or_fail-KeepsConfig _ _ (apply_scheduler-KeepsConfig (traced C) h))
        (or_fail-Performs C _ _ _
          (applying-Performs deployment_kind new_scheduler (mutate_scheduler h) _ (λ s. refl)))
        (applying-Performs deployment_kind new_extension (mutate_extension h) _ (λ s. refl))

  handle_all-Performs :
      Performs C (handle_all (new_device_config_reconciler_helper (traced C) h)) handler_requests
  unfolding handle_all new_device_config_reconciler_helper handle_kmm_module handle_node_metrics
  handle_all-Performs =
      >>-Performs C _ _ _ _ (or_fail-KeepsConfig _ _ (handle_kmm_module-KeepsConfig (traced C) h))
        (or_fail-Performs C _ _ _
          (applying-Performs module_kind new_module (mutate_module h) _ (λ s. refl)))
        (>>-Performs C _ _ _ _
          (or_fail-KeepsConfig _ _ (handle_custom_scheduler-KeepsConfig (traced C) h))
          (or_fail-Performs C _ _ _ handle_custom_scheduler-Performs)
          (or_fail-Performs C _ _ _
            (applying-Performs daemon_set_kind new_daemon_set (mutate_metrics h) _ (λ s. refl))))

module _ {U : Util} (C : Client U) (h : Helper U) (w : C.World) (d : DeviceConfig) where
  -- The DeviceConfig that setFinalizer sends.
  abbrev with_finalizer : DeviceConfig
  with_finalizer = record d { meta = U.add_finalizer d.meta device_config_finalizer }

  -- After the patch of the finalizer, with its error, the DeviceConfig of its answer and the world.
  abbrev after_patch : GoError U → DeviceConfig → C.World → Reply C
  after_patch (some e) d' w' = (
    some (wrapf U "failed to set finalizer for DeviceConfig: " e),
    patched with_finalizer d ∷ [],
    w',
  )
  after_patch none d' w' =
      let rest = run C (handler_requests C h d') w' in
      (rest.0, patched with_finalizer d ∷ rest.1, rest.2)

  -- The requests that Reconcile is to make, one after the other until one fails.
  abbrev pub expected : Reply C
  expected =
      if U.contains_finalizer d.meta device_config_finalizer
      then run C (handler_requests C h d) w
      else (let (e, d', w') = C.patch with_finalizer d w in after_patch e d' w')

  abbrev at : State (traced C)
  at = start C w d

  abbrev rest : Step (traced C)
  rest = handle_all (new_device_config_reconciler_helper (traced C) h)

  abbrev text : String
  text = "failed to set finalizer for DeviceConfig: "

  -- setFinalizer without and with its patch.
  set_finalizer-there :
      U.contains_finalizer d.meta device_config_finalizer ≡ true
      → set_finalizer (traced C) h at ≡ (none, at)
  unfolding set_finalizer
  set_finalizer-there c = rw c refl

  abbrev after_answer : State (traced C)
  after_answer =
      let (e, d', w') = C.patch with_finalizer d w in
      record { world = (w', patched with_finalizer d ∷ []); dev_config = d' }

  set_finalizer-patched :
      U.contains_finalizer d.meta device_config_finalizer ≡ false
      → set_finalizer (traced C) h at ≡ ((C.patch with_finalizer d w).0, after_answer)
  unfolding set_finalizer
  set_finalizer-patched c = rw c refl

  -- The handlers after setFinalizer returned nil in the state `t`.
  chain-of_nil :
      (t : State (traced C))
      → set_finalizer (traced C) h at ≡ (none, t)
      → reply_of C ((or_fail text (set_finalizer (traced C) h) >> rest) at) ≡ (
          let x = run C (handler_requests C h t.dev_config) t.world.0 in
          (x.0, t.world.1 ++ x.1, x.2))
  chain-of_nil t p =
      let Res : Type 0 = GoError U × State (traced C) in
      ap (reply_of C) (
        or_fail->>-passes text (set_finalizer (traced C) h) rest at (ap (λ (r : Res). r.0) p)
        ∙ ap (λ (r : Res). rest r.1) p)
      ∙ handle_all-Performs C h t

  chain-of_error :
      (e : Error U.Failure) (t : State (traced C))
      → set_finalizer (traced C) h at ≡ (some e, t)
      → (or_fail text (set_finalizer (traced C) h) >> rest) at ≡ (some (wrapf U text e), t)
  chain-of_error e t p =
      let Res : Type 0 = GoError U × State (traced C) in
      let failed =
        or_fail-of_error (set_finalizer (traced C) h) at text e (ap (λ (r : Res). r.0) p) in
      >>-of_error (or_fail text (set_finalizer (traced C) h)) at rest (wrapf U text e)
        (ap (λ (r : Res). r.0) failed)
      ∙ ap (λ (t : State (traced C)). (some (wrapf U text e), t))
          (ap (λ (r : Res). r.1) (failed) ∙ ap (λ (r : Res). r.1) p)

  reconcile_live-expected :
      reply_of C (reconcile_live (new_device_config_reconciler_helper (traced C) h) at) ≡ expected
  unfolding reconcile_live new_device_config_reconciler_helper
  reconcile_live-expected =
      elim (Bool-cases (U.contains_finalizer d.meta device_config_finalizer)) [
        | inl c ↦ chain-of_nil at (set_finalizer-there c) ∙ rw c refl
        | inr c ↦ split c (C.patch with_finalizer d w).0 refl
      ]
    where
      split :
          U.contains_finalizer d.meta device_config_finalizer ≡ false
          → (e : GoError U) → (C.patch with_finalizer d w).0 ≡ e
          → reply_of C ((or_fail text (set_finalizer (traced C) h) >> rest) at) ≡ expected
      split c none p =
          chain-of_nil after_answer
            (set_finalizer-patched c ∙ ap (λ (e : GoError U). (e, after_answer)) p)
          ∙ rw (c, p) refl
      split c (some e) p =
          ap (reply_of C) (
            chain-of_error e after_answer
              (set_finalizer-patched c ∙ ap (λ (e : GoError U). (e, after_answer)) p))
          ∙ rw (c, p) refl

  -- What Reconcile returns and leaves, over the methods of the real helper.
  abbrev pub Outcome : Type 0
  Outcome = CtrlResult × GoError U × State (traced C)

  abbrev pub outcome : Outcome
  outcome = reconcile (new_device_config_reconciler_helper (traced C) h) at

  abbrev pub IsExpected : Outcome → Type 0
  IsExpected o = (o.1 ≡ expected.0) × (o.2.world.1 ≡ expected.1) × (o.2.world.0 ≡ expected.2)

  -- Of a DeviceConfig that is not being deleted, Reconcile sends these requests, one after the other
  -- until one of them fails: the finalizer is added by a patch, if it is not there yet, and then the
  -- Module, the two Deployments and the DaemonSet are applied, made for the DeviceConfig that the
  -- patch answered. It returns nil if none fails, and the error of the one that failed, under its
  -- texts, and makes no call after that one; the world is the one that these requests leave.
  pub reconcile-live_calls : is_some d.meta.deletion_timestamp ≡ false → IsExpected outcome
  reconcile-live_calls live =
      let same = reconcile-live (new_device_config_reconciler_helper (traced C) h) at live in
      let k = reconcile_live-expected in
      subst IsExpected (sym same)
        (ap (λ (x : Reply C). x.0) k, ap (λ (x : Reply C). x.1) k, ap (λ (x : Reply C). x.2) k)
