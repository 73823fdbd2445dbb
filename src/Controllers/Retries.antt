-- ===== src/Controllers/Retries.antt =====
-- internal/controllers/device_config_reconciler.go: Reconcile of a DeviceConfig that is being deleted, again and
-- again, when any call may fail.
use mathlib.Core.Path.{subst}
use operator_for_ai_chips_on.Common.{
  String, ℕ, zero, suc, ◌≤◌, ◌≡◌, refl, sym, ap, ◌∙◌, true, false, ◌⊎◌, inl, inr, Option, none,
  some, arith, is_some,
}
use operator_for_ai_chips_on.K8s.{NamespacedName, ObjectMeta}
use operator_for_ai_chips_on.Api.{DeviceConfig}
use operator_for_ai_chips_on.Kube.{module_kind, daemon_set_kind, Util, Client, GoError}
use operator_for_ai_chips_on.Kube.Lawful.{HandlesFinalizers, IsQuiet, IsReleasing, SameObject}
use operator_for_ai_chips_on.Controllers.Objects.{Helper, module_name, metrics_name}
use operator_for_ai_chips_on.Controllers.Reconcile.{State, Step, CtrlResult, reconcile, or_fail}
use operator_for_ai_chips_on.Controllers.Helper.{
  new_device_config_reconciler_helper, finalize_device_config,
}
use operator_for_ai_chips_on.Controllers.Steps.{or_fail-state, reconcile-deleted}
use operator_for_ai_chips_on.Controllers.Guard.{has_finalizer}
use operator_for_ai_chips_on.Controllers.FinalizeSteps.{
  at, SameObject-trans, module_name-same, metrics_name-same,
}
use operator_for_ai_chips_on.Controllers.Moves.{Moves, finalize_device_config-Moves}

module _ {U : Util} {C : Client U} (Q : IsQuiet C) (R : IsReleasing Q) (h : Helper U) where
  -- The manager hands the stored DeviceConfig to Reconcile, if there is one, and then the other
  -- controllers release what was deleted. The number is that of the calls of Reconcile that returned
  -- nil.
  abbrev pub count : GoError U → ℕ → ℕ
  count none n = suc n
  count (some e) n = n

  abbrev pub deliver_to : Option DeviceConfig → C.World × ℕ → C.World × ℕ
  deliver_to none s = s
  deliver_to (some d) s =
      let r = reconcile (new_device_config_reconciler_helper C h) (at Q d s.0) in
      (R.release r.2.world, count r.1 s.1)

  -- The same so many times.
  unfoldable pub retries : ℕ → NamespacedName → C.World → C.World × ℕ
  retries zero n w = (w, 0)
  retries (suc k) n w = let before = retries k n w in deliver_to (Q.stored n before.0) before

module _ {U : Util} {C : Client U} (Q : IsQuiet C) (F : HandlesFinalizers U) (R : IsReleasing Q)
    (h : Helper U) where
  count-or_fail :
      (prefix : String) (m : Step C) (s : State C) (n : ℕ)
      → count Q R h (or_fail prefix m s).0 n ≡ count Q R h (m s).0 n
  unfolding or_fail
  count-or_fail prefix m s n = ground arith

  pub deliver_to-deleted :
      (e : DeviceConfig) (s : C.World × ℕ)
      → is_some e.meta.deletion_timestamp ≡ true
      → let r = finalize_device_config C h (at Q e s.0) in
        deliver_to Q R h (some e) s ≡ (R.release r.1.world, count Q R h r.0 s.1)
  unfolding new_device_config_reconciler_helper
  deliver_to-deleted e s deleting =
      ap (λ (r : CtrlResult × GoError U × State C). (R.release r.2.world, count Q R h r.1 s.1))
        (reconcile-deleted (new_device_config_reconciler_helper C h) (at Q e s.0) deleting)
      ∙ cc (
        or_fail-state "failed to finalize DeviceConfig: " (finalize_device_config C h) (at Q e s.0),
        count-or_fail "failed to finalize DeviceConfig: " (finalize_device_config C h) (at Q e s.0)
            s.1,
      )

  module _ (d : DeviceConfig) where
    -- How far the deletion is after so many calls without an error.
    pub record Reached (s : C.World × ℕ) : Type 0 where
      pub daemon_set : 1 ≤ s.1 → Q.find daemon_set_kind (metrics_name d) s.0 ≡ none
      pub kmm_module : 2 ≤ s.1 → Q.find module_kind (module_name d) s.0 ≡ none
      pub finalizer : 3 ≤ s.1 → has_finalizer Q (Q.stored (module_name d) s.0) ≡ false
      pub config :
          ((e : DeviceConfig) × (Q.stored (module_name d) s.0 ≡ some e) × SameObject e.meta d.meta)
          ⊎ ((Q.stored (module_name d) s.0 ≡ none)
              × (Q.find daemon_set_kind (metrics_name d) s.0 ≡ none)
              × (Q.find module_kind (module_name d) s.0 ≡ none))

    Moves-Reached :
        (s : C.World × ℕ) (r : GoError U × State C)
        → Moves Q F R h d s.0 r
        → Reached s
        → Reached (R.release r.1.world, count Q R h r.0 s.1)
    Moves-Reached s (none, t) m k = record {
      daemon_set = λ _. m.daemon_set refl;
      kmm_module = λ l. m.kmm_module refl (k.daemon_set (omega (arith, l)));
      finalizer =
          λ l. m.finalizer refl (k.daemon_set (omega (arith, l))) (k.kmm_module (omega (arith, l)));
      config = m.config;
    }
    Moves-Reached s (some e, t) m k = record {
      daemon_set = λ l. m.keeps_daemon_set (k.daemon_set l);
      kmm_module = λ l. m.keeps_module (k.kmm_module l);
      finalizer = λ l. m.keeps_finalizer (k.finalizer l);
      config = m.config;
    }

  Reached-same :
      (d e : DeviceConfig)
      → SameObject d.meta e.meta
      → (s : C.World × ℕ) → Reached d s
      → Reached e s
  Reached-same d e p s k =
      let n = module_name-same d e p in
      let ds = λ (a : Q.find daemon_set_kind (metrics_name d) s.0 ≡ none).
        ap (λ m. Q.find daemon_set_kind m s.0) (sym (metrics_name-same d e p)) ∙ a in
      let md = λ (a : Q.find module_kind (module_name d) s.0 ≡ none).
        ap (λ m. Q.find module_kind m s.0) (sym n) ∙ a in
      record {
        daemon_set = λ l. ds (k.daemon_set l);
        kmm_module = λ l. md (k.kmm_module l);
        finalizer = λ l. ap (λ m. has_finalizer Q (Q.stored m s.0)) (sym n) ∙ k.finalizer l;
        config = elim k.config [
          | inl (c, q, r) ↦ inl (c, ap (λ m. Q.stored m s.0) (sym n) ∙ q, SameObject-trans r p)
          | inr (q, a, b) ↦ inr (ap (λ m. Q.stored m s.0) (sym n) ∙ q, ds a, md b)
        ];
      }

  SameObject-sym : (a b : ObjectMeta) → SameObject a b → SameObject b a
  SameObject-sym a b p = record {
    namespace = sym p.namespace;
    name = sym p.name;
    deletion_timestamp = sym p.deletion_timestamp;
  }

  module _ (d : DeviceConfig) (deleting : is_some d.meta.deletion_timestamp ≡ true) where
    -- One more delivery, of the DeviceConfig `e` that is stored.
    deliver_to-Reached :
        (e : DeviceConfig) (s : C.World × ℕ)
        → Q.stored (module_name d) s.0 ≡ some e
        → SameObject e.meta d.meta
        → Reached d s
        → Reached d (deliver_to Q R h (some e) s)
    deliver_to-Reached e s p same k =
        subst (Reached d)
          (sym (deliver_to-deleted e s (ap is_some same.deletion_timestamp ∙ deleting)))
          (Reached-same e d same _ (
            Moves-Reached e s (finalize_device_config C h (at Q e s.0))
              (finalize_device_config-Moves Q F R h e s.0
                (ap (λ n. Q.stored n s.0) (module_name-same e d same) ∙ p))
              (Reached-same d e (SameObject-sym e.meta d.meta same) s k)))

    deliver-Reached :
        (s : C.World × ℕ)
        → Reached d s
        → Reached d (deliver_to Q R h (Q.stored (module_name d) s.0) s)
    deliver-Reached s k = elim k.config [
      | inl (e, p, same) ↦
          subst (λ o. Reached d (deliver_to Q R h o s)) (sym p) (deliver_to-Reached e s p same k)
      | inr (p, _, _) ↦ subst (λ o. Reached d (deliver_to Q R h o s)) (sym p) k
    ]

    pub retries-Reached :
        (k : ℕ) (w : C.World)
        → Q.stored (module_name d) w ≡ some d
        → Reached d (retries Q R h k (module_name d) w)
    unfolding retries
    retries-Reached zero w p = record {
      daemon_set = λ l. ground (arith, l);
      kmm_module = λ l. ground (arith, l);
      finalizer = λ l. ground (arith, l);
      config = inl (d, p, record { namespace = refl; name = refl; deletion_timestamp = refl });
    }
    retries-Reached (suc k) w p =
        deliver-Reached (retries Q R h k (module_name d) w) (retries-Reached k w p)

  -- What is gone, once the deletion is over or the DeviceConfig is gone.
  abbrev pub IsOver : DeviceConfig → C.World × ℕ → Type 0
  IsOver d s =
      (Q.find daemon_set_kind (metrics_name d) s.0 ≡ none)
      × (Q.find module_kind (module_name d) s.0 ≡ none)
      × (has_finalizer Q (Q.stored (module_name d) s.0) ≡ false)

  -- If nobody else writes to these objects, but for the controllers that take their finalizers off
  -- a deleted object before the next call of Reconcile, so that it is removed, then once three of a
  -- number of calls of Reconcile with the stored DeviceConfig, which was being deleted, returned nil,
  -- whichever calls of the API server failed in them and in the others, or once the DeviceConfig is
  -- not stored any more, its DaemonSet and its Module are gone, and the stored DeviceConfig, if
  -- there still is one, does not have the finalizer.
  pub retries-IsOver :
      (d : DeviceConfig) (w : C.World) (k : ℕ)
      → is_some d.meta.deletion_timestamp ≡ true
      → Q.stored (module_name d) w ≡ some d
      → (3 ≤ (retries Q R h k (module_name d) w).1)
        ⊎ (Q.stored (module_name d) (retries Q R h k (module_name d) w).0 ≡ none)
      → IsOver d (retries Q R h k (module_name d) w)
  retries-IsOver d w k deleting p enough =
      let r = retries-Reached d deleting k w p in
      elim enough [
        | inl l ↦ (r.daemon_set (omega (arith, l)), r.kmm_module (omega (arith, l)), r.finalizer l)
        | inr gone ↦ elim r.config [
          | inl (e, q, _) ↦ ground (arith, gone, q)
          | inr (q, a, b) ↦ (a, b, ap (has_finalizer Q) q)
        ]
      ]
