-- ===== src/Controllers/Moves.antt =====
-- internal/controllers/device_config_reconciler.go: finalizeDeviceConfig, when any call may fail.
use mathlib.Core.Path.{subst}
use operator_for_ai_chips_on.Common.{
  ◌≡◌, refl, sym, ap, ◌∙◌, false, ◌⊎◌, inl, inr, none, some, Error, Result, ok, err, arith,
  Bool-cases,
}
use operator_for_ai_chips_on.K8s.{Module, DaemonSet}
use operator_for_ai_chips_on.Api.{DeviceConfig}
use operator_for_ai_chips_on.Kube.{module_kind, daemon_set_kind, Util, Client, GoError}
use operator_for_ai_chips_on.Kube.Lawful.{
  HandlesFinalizers, IsQuiet, IsReleasing, IsPatched, SameObject,
}
use operator_for_ai_chips_on.Controllers.Objects.{
  device_config_finalizer, Helper, module_name, metrics_name,
}
use operator_for_ai_chips_on.Controllers.Reconcile.{State}
use operator_for_ai_chips_on.Controllers.Helper.{finalize_device_config, finalize_module}
use operator_for_ai_chips_on.Controllers.Guard.{has_finalizer}
use operator_for_ai_chips_on.Controllers.Branches.{
  finalize_module-ok, finalize_module-absent, finalize_module-err, finalize_device_config-ok,
  finalize_device_config-absent, finalize_device_config-err,
}
use operator_for_ai_chips_on.Controllers.FinalizeSteps.{at, without_finalizer, patched-config}

module _ {U : Util} {C : Client U} (Q : IsQuiet C) (F : HandlesFinalizers U) (R : IsReleasing Q)
    (h : Helper U) (d : DeviceConfig) (w : C.World) where
  abbrev pub NoDaemonSet : C.World → Type 0
  NoDaemonSet v = Q.find daemon_set_kind (metrics_name d) v ≡ none

  abbrev pub NoModule : C.World → Type 0
  NoModule v = Q.find module_kind (module_name d) v ≡ none

  abbrev pub NoFinalizer : C.World → Type 0
  NoFinalizer v = has_finalizer Q (Q.stored (module_name d) v) ≡ false

  -- Once the other controllers have released what was deleted, what is gone stays away, the
  -- DeviceConfig that is stored stays the same object, unless all is gone, and without an error
  -- one more of the DaemonSet, the Module and the finalizer is gone.
  pub record MovesTo (e : GoError U) (v : C.World) : Type 0 where
    pub keeps_daemon_set : NoDaemonSet w → NoDaemonSet v
    pub keeps_module : NoModule w → NoModule v
    pub keeps_finalizer : NoFinalizer w → NoFinalizer v
    pub config :
        ((c : DeviceConfig) × (Q.stored (module_name d) v ≡ some c) × SameObject c.meta d.meta)
        ⊎ ((Q.stored (module_name d) v ≡ none) × NoDaemonSet v × NoModule v)
    pub daemon_set : e ≡ none → NoDaemonSet v
    pub kmm_module : e ≡ none → NoDaemonSet w → NoModule v
    pub finalizer : e ≡ none → NoDaemonSet w → NoModule w → NoFinalizer v

  abbrev pub Moves : GoError U × State C → Type 0
  Moves r = MovesTo r.0 (R.release r.1.world)

  no_daemon_set : (v : C.World) → NoDaemonSet v → NoDaemonSet (R.release v)
  no_daemon_set v a = R.release_find daemon_set_kind (metrics_name d) v a

  no_module : (v : C.World) → NoModule v → NoModule (R.release v)
  no_module v a = R.release_find module_kind (module_name d) v a

  no_finalizer : (v : C.World) → NoFinalizer v → NoFinalizer (R.release v)
  no_finalizer v a = ap (has_finalizer Q) (R.release_stored (module_name d) v) ∙ a

  module _ (fresh : Q.stored (module_name d) w ≡ some d) where
    -- The DeviceConfig that is stored is the one that was given.
    still :
        (v : C.World)
        → Q.stored (module_name d) v ≡ Q.stored (module_name d) w
        → (c : DeviceConfig) × (Q.stored (module_name d) (R.release v) ≡ some c)
          × SameObject c.meta d.meta
    still v same = (
      d,
      R.release_stored (module_name d) v ∙ (same ∙ fresh),
      record { namespace = refl; name = refl; deletion_timestamp = refl },
    )

    failed-Moves : (e : Error U.Failure) → Moves (some e, at Q d w)
    failed-Moves e = record {
      keeps_daemon_set = no_daemon_set w;
      keeps_module = no_module w;
      keeps_finalizer = no_finalizer w;
      config = inl (still w refl);
      daemon_set = λ nil. ground (arith, nil);
      kmm_module = λ nil a. ground (arith, nil);
      finalizer = λ nil a b. ground (arith, nil);
    }

    daemon_set-Moves :
        (o : DaemonSet)
        → (C.get daemon_set_kind (metrics_name d) w).0 ≡ ok o
        → Moves ((C.delete daemon_set_kind o w).0, at Q d (C.delete daemon_set_kind o w).1)
    daemon_set-Moves o found =
        let there = Q.get_present daemon_set_kind (metrics_name d) w o found in
        let v : C.World = (C.delete daemon_set_kind o w).1 in
        let same = Q.delete_stored daemon_set_kind o w (module_name d) in
        record {
          keeps_daemon_set = λ a.
              no_daemon_set v
                (Q.delete_find daemon_set_kind o w daemon_set_kind (metrics_name d) a);
          keeps_module =
              λ a. no_module v (Q.delete_find daemon_set_kind o w module_kind (module_name d) a);
          keeps_finalizer = λ a. no_finalizer v (ap (has_finalizer Q) same ∙ a);
          config = inl (still v same);
          daemon_set = λ nil.
              ap (λ n. Q.find daemon_set_kind n (R.release v)) (sym there.1)
              ∙ R.delete_released daemon_set_kind o w nil;
          kmm_module = λ nil a. cc (a, there.0);
          finalizer = λ nil a b. cc (a, there.0);
        }

    module-Moves :
        (o : Module)
        → NoDaemonSet w
        → (C.get module_kind (module_name d) w).0 ≡ ok o
        → Moves ((C.delete module_kind o w).0, at Q d (C.delete module_kind o w).1)
    module-Moves o no_ds found =
        let there = Q.get_present module_kind (module_name d) w o found in
        let v : C.World = (C.delete module_kind o w).1 in
        let same = Q.delete_stored module_kind o w (module_name d) in
        let ds =
          no_daemon_set v (Q.delete_find module_kind o w daemon_set_kind (metrics_name d) no_ds) in
        record {
          keeps_daemon_set = λ _. ds;
          keeps_module =
              λ a. no_module v (Q.delete_find module_kind o w module_kind (module_name d) a);
          keeps_finalizer = λ a. no_finalizer v (ap (has_finalizer Q) same ∙ a);
          config = inl (still v same);
          daemon_set = λ _. ds;
          kmm_module = λ nil a.
              ap (λ n. Q.find module_kind n (R.release v)) (sym there.1)
              ∙ R.delete_released module_kind o w nil;
          finalizer = λ nil a b. cc (b, there.0);
        }

    patch-Moves :
        NoDaemonSet w
        → NoModule w
        → let (e, answer, v) = C.patch (without_finalizer Q F h d) d w in Moves (e, at Q answer v)
    patch-Moves a b = split (C.patch d' d w).0 refl
      where
        d' : DeviceConfig
        d' = without_finalizer Q F h d

        v : C.World
        v = (C.patch d' d w).2

        ds : NoDaemonSet (R.release v)
        ds = no_daemon_set v (Q.patch_find d' d w daemon_set_kind (metrics_name d) ∙ a)

        m : NoModule (R.release v)
        m = no_module v (Q.patch_find d' d w module_kind (module_name d) ∙ b)

        key : module_name d' ≡ module_name d
        key =
            let same = F.remove-SameObject d.meta device_config_finalizer in
            cc (same.namespace, same.name)

        -- The patch took effect, whatever it returned.
        done :
            (e : GoError U) (answer : DeviceConfig)
            → IsPatched d' d (Q.stored (module_name d) w) (Q.stored (module_name d) v) answer
            → MovesTo e (R.release v)
        done e answer p =
            let (left, gone) = patched-config Q F h d answer _ _ fresh p in
            let same = R.release_stored (module_name d) v in
            record {
              keeps_daemon_set = λ _. ds;
              keeps_module = λ _. m;
              keeps_finalizer = λ _. no_finalizer v gone;
              config = elim left [
                | inl q ↦ inr (same ∙ q, ds, m)
                | inr (c, q, r) ↦ inl (c, same ∙ q, r)
              ];
              daemon_set = λ _. ds;
              kmm_module = λ _ _. m;
              finalizer = λ _ _ _. no_finalizer v gone;
            }

        split : (e : GoError U) → (C.patch d' d w).0 ≡ e → Moves (e, at Q (C.patch d' d w).1 v)
        split none good = done none (C.patch d' d w).1 (
            subst (λ n. IsPatched d' d (Q.stored n w) (Q.stored n v) (C.patch d' d w).1) key
              (Q.patch_succeeded d' d w good))
        split (some e) failed =
            elim (Q.patch_failed d' d w (module_name d) (λ nil. ground (arith, nil, failed))) [
              | inr (answer, p) ↦ done (some e) answer p
              | inl same ↦ record {
                keeps_daemon_set = λ _. ds;
                keeps_module = λ _. m;
                keeps_finalizer = λ k. no_finalizer v (ap (has_finalizer Q) same ∙ k);
                config = inl (still v same);
                daemon_set = λ _. ds;
                kmm_module = λ _ _. m;
                finalizer = λ nil _ _. ground (arith, nil);
              }
            ]

    finalize_module-Moves : NoDaemonSet w → Moves (finalize_module C h (at Q d w))
    finalize_module-Moves a = split (C.get module_kind (module_name d) w).0 refl
      where
        split :
            (r : Result U.Failure Module)
            → (C.get module_kind (module_name d) w).0 ≡ r
            → Moves (finalize_module C h (at Q d w))
        split (ok o) found =
            subst Moves (sym (finalize_module-ok Q F h d w o found)) (module-Moves o a found)
        split (err e) found = elim (Bool-cases (U.is_not_found e)) [
          | inl absent ↦
              subst Moves (sym (finalize_module-absent Q F h d w e found absent))
                (patch-Moves a (Q.get_absent module_kind (module_name d) w e found absent))
          | inr other ↦
              subst Moves (sym (finalize_module-err Q F h d w e found other)) (failed-Moves _)
        ]

    -- finalizeDeviceConfig of the stored DeviceConfig, whichever call fails.
    pub finalize_device_config-Moves : Moves (finalize_device_config C h (at Q d w))
    finalize_device_config-Moves = split (C.get daemon_set_kind (metrics_name d) w).0 refl
      where
        split :
            (r : Result U.Failure DaemonSet)
            → (C.get daemon_set_kind (metrics_name d) w).0 ≡ r
            → Moves (finalize_device_config C h (at Q d w))
        split (ok o) found =
            subst Moves (sym (finalize_device_config-ok Q F h d w o found))
              (daemon_set-Moves o found)
        split (err e) found = elim (Bool-cases (U.is_not_found e)) [
          | inl absent ↦
              subst Moves (sym (finalize_device_config-absent Q F h d w e found absent)) (
                finalize_module-Moves
                  (Q.get_absent daemon_set_kind (metrics_name d) w e found absent))
          | inr other ↦
              subst Moves (sym (finalize_device_config-err Q F h d w e found other))
                (failed-Moves _)
        ]
