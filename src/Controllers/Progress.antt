-- ===== src/Controllers/Progress.antt =====
-- internal/controllers/device_config_reconciler.go: Reconcile of a DeviceConfig that is being deleted, again and
-- again, when every call succeeds.

use operator_for_ai_chips_on.Common.{
  ℕ, zero, suc, ◌≤◌, ◌≡◌, refl, ap, ◌∙◌, true, ◌⊎◌, inl, inr, Option, none, some, is_some, arith,
}
use operator_for_ai_chips_on.K8s.{Module, DaemonSet}
use operator_for_ai_chips_on.Api.{DeviceConfig}
use operator_for_ai_chips_on.Kube.{module_kind, daemon_set_kind, Util, Client}
use operator_for_ai_chips_on.Kube.Lawful.{HandlesFinalizers, IsQuiet, IsPrompt, IsReleasing}
use operator_for_ai_chips_on.Controllers.Objects.{
  Helper, device_config_finalizer, module_name, metrics_name,
}
use operator_for_ai_chips_on.Controllers.Helper.{finalize_device_config, finalize_module}
use operator_for_ai_chips_on.Controllers.FinalizeSteps.{at, without_finalizer, module_name-same}
use operator_for_ai_chips_on.Controllers.Branches.{
  finalize_module-ok, finalize_module-absent, finalize_device_config-ok,
  finalize_device_config-absent,
}
use operator_for_ai_chips_on.Controllers.Retries.{
  retries, deliver_to, count, deliver_to-deleted, retries-Reached, retries-IsOver, IsOver,
}

module _ {U : Util} {C : Client U} (Q : IsQuiet C) (F : HandlesFinalizers U) (R : IsReleasing Q)
    (P : IsPrompt Q) (h : Helper U) where
  module _ (d : DeviceConfig) (w : C.World) (fresh : Q.stored (module_name d) w ≡ some d) where
    patch-nil : (C.patch (without_finalizer Q F h d) d w).0 ≡ none
    patch-nil =
        let same = F.remove-SameObject d.meta device_config_finalizer in
        let key : module_name (without_finalizer Q F h d) ≡ module_name d =
          cc (same.namespace, same.name) in
        P.patch_ok (without_finalizer Q F h d) d d w (ap (λ n. Q.stored n w) key ∙ fresh)

    finalize_module-nil : (finalize_module C h (at Q d w)).0 ≡ none
    finalize_module-nil = split (Q.find module_kind (module_name d) w) refl
      where
        split :
            (o : Option Module)
            → Q.find module_kind (module_name d) w ≡ o
            → (finalize_module C h (at Q d w)).0 ≡ none
        split (some m) p =
            let found = P.get_found module_kind (module_name d) w m p in
            let key = (Q.get_present module_kind (module_name d) w m found).1 in
            ap (λ (r : _). r.0) (finalize_module-ok Q F h d w m found)
            ∙ P.delete_ok module_kind m w (ap (λ n. Q.find module_kind n w) key ∙ p)
        split none p =
            let (e, missing, not_found) = P.get_not_found module_kind (module_name d) w p in
            ap (λ (r : _). r.0) (finalize_module-absent Q F h d w e missing not_found) ∙ patch-nil

    finalize_device_config-nil : (finalize_device_config C h (at Q d w)).0 ≡ none
    finalize_device_config-nil = split (Q.find daemon_set_kind (metrics_name d) w) refl
      where
        split :
            (o : Option DaemonSet)
            → Q.find daemon_set_kind (metrics_name d) w ≡ o
            → (finalize_device_config C h (at Q d w)).0 ≡ none
        split (some ds) p =
            let found = P.get_found daemon_set_kind (metrics_name d) w ds p in
            let key = (Q.get_present daemon_set_kind (metrics_name d) w ds found).1 in
            ap (λ (r : _). r.0) (finalize_device_config-ok Q F h d w ds found)
            ∙ P.delete_ok daemon_set_kind ds w (ap (λ n. Q.find daemon_set_kind n w) key ∙ p)
        split none p =
            let (e, missing, not_found) = P.get_not_found daemon_set_kind (metrics_name d) w p in
            ap (λ (r : _). r.0) (finalize_device_config-absent Q F h d w e missing not_found)
            ∙ finalize_module-nil

  module _ (d : DeviceConfig) (deleting : is_some d.meta.deletion_timestamp ≡ true) (w : C.World)
      (fresh : Q.stored (module_name d) w ≡ some d) where
    -- Every call is counted, as long as there is a DeviceConfig.
    retries-count :
        (k : ℕ)
        → ((retries Q R h k (module_name d) w).1 ≡ k)
          ⊎ (Q.stored (module_name d) (retries Q R h k (module_name d) w).0 ≡ none)
    unfolding retries
    retries-count zero = inl refl
    retries-count (suc k) =
        let s = retries Q R h k (module_name d) w in
        elim (retries-Reached Q F R h d deleting k w fresh).config [
          | inr (gone, _, _) ↦
              inr (ap (λ o. Q.stored (module_name d) (deliver_to Q R h o s).0) gone ∙ gone)
          | inl (e, p, same) ↦ elim (retries-count k) [
            | inr gone ↦ ground (arith, gone, p)
            | inl counted ↦
                let del = ap is_some same.deletion_timestamp ∙ deleting in
                let nil =
                  finalize_device_config-nil e s.0
                    (ap (λ n. Q.stored n s.0) (module_name-same e d same) ∙ p) in
                inl (
                  ap (λ o. (deliver_to Q R h o s).1) p
                  ∙ (ap (λ (t : C.World × ℕ). t.1) (deliver_to-deleted Q F R h e s del)
                      ∙ (ap (λ x. count Q R h x s.1) nil ∙ ap suc counted)))
          ]
        ]

  -- If every call succeeds, and nobody else writes to these objects, but for the controllers that
  -- take their finalizers off a deleted object before the next call of Reconcile, so that it is
  -- removed, then after three calls of Reconcile with the stored DeviceConfig, which was being
  -- deleted, or after more of them, its DaemonSet and its Module are gone, and the stored
  -- DeviceConfig, if there still is one, does not have the finalizer.
  pub retries-IsFinished :
      (d : DeviceConfig) (w : C.World) (k : ℕ)
      → is_some d.meta.deletion_timestamp ≡ true
      → Q.stored (module_name d) w ≡ some d
      → 3 ≤ k
      → IsOver Q F R h d (retries Q R h k (module_name d) w)
  retries-IsFinished d w k deleting fresh enough =
      retries-IsOver Q F R h d w k deleting fresh (elim (retries-count d deleting w fresh k) [
        | inl p ↦ inl (ground (arith, p, enough))
        | inr gone ↦ inr gone
      ])
