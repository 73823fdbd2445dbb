-- ===== src/Controllers/Interleaved.antt =====
-- internal/controllers/device_config_reconciler.go: runs in which others write between the calls of one
-- Reconcile.
use operator_for_ai_chips_on.Common.{
  ◌≡◌, sym, ap, ◌∙◌, true, ◌⊎◌, inl, inr, none, some, List, [], ◌∷◌, arith, is_some,
}
use operator_for_ai_chips_on.Api.{DeviceConfig}
use operator_for_ai_chips_on.Kube.{module_kind, daemon_set_kind, Util, Client}
use operator_for_ai_chips_on.Kube.Lawful.{HandlesFinalizers, IsQuiet}
use operator_for_ai_chips_on.Kube.Interleaved.{moved, interleaved}
use operator_for_ai_chips_on.Controllers.Objects.{
  device_config_finalizer, Helper, module_name, metrics_name,
}
use operator_for_ai_chips_on.Controllers.Reconcile.{reconcile}
use operator_for_ai_chips_on.Controllers.Helper.{new_device_config_reconciler_helper}
use operator_for_ai_chips_on.Controllers.Guard.{
  has_finalizer, IsProtected, IsGuarded, patch-IsProtected, patch_failed-IsProtected,
}
use operator_for_ai_chips_on.Controllers.Reach.{
  IsForeign, has_finalizer-some, metrics_name-of_module_name, foreign-IsGuarded,
}
use operator_for_ai_chips_on.Controllers.Shared.{Guards, with_finalizer}
use operator_for_ai_chips_on.Controllers.Shared.Keeps.{reconcile-IsKept}

module _ {U : Util} {C : Client U} (Q : IsQuiet C) (h : Helper U) (d : DeviceConfig) where
  -- A move that is foreign from whatever world.
  abbrev pub ForeignMove : Type 0
  ForeignMove = (move : C.World → C.World) × ((w : C.World) → IsForeign Q h d w (move w))

  abbrev pub act : ForeignMove → C.World → C.World
  act m = m.0

  abbrev pub shared : Client U
  shared = interleaved C act

  -- What one Reconcile of the DeviceConfig `e` leaves, with the moves of others among its calls.
  abbrev pub after_shared : DeviceConfig → C.World → List ForeignMove → C.World
  after_shared e w moves =
      (reconcile (new_device_config_reconciler_helper shared h)
        (record { world = (w, moves); dev_config = e })).2.world.0

  -- Reconciles of what is stored under the name when they begin, with moves of others between them
  -- and among their calls.
  pub data Runs (w : C.World) : C.World → Type 0 where
    here : Runs w w
    then_foreign : {v v' : C.World} → Runs w v → IsForeign Q h d v v' → Runs w v'
    then_reconciled :
        {v : C.World}
        → Runs w v
        → (e : DeviceConfig) → module_name e ≡ module_name d
        → Q.stored (module_name d) v ≡ some e
        → (moves : List ForeignMove) → Runs w (after_shared e v moves)

  abbrev NoDaemonSet : C.World → Type 0
  NoDaemonSet w = Q.find daemon_set_kind (metrics_name d) w ≡ none

  abbrev NoModule : C.World → Type 0
  NoModule w = Q.find module_kind (module_name d) w ≡ none

  module _ (F : HandlesFinalizers U) where
    -- The next move keeps what is protected or absent.
    moved-Protected :
        (s : C.World × List ForeignMove)
        → IsProtected Q (module_name d) s.0
        → IsProtected Q (module_name d) (moved C act s).0
    moved-Protected (w, []) p = p
    moved-Protected (w, m ∷ ms) p = ground (arith, p, (m.1 w).finalizer)

    moved-NoDaemonSet :
        (s : C.World × List ForeignMove) → NoDaemonSet s.0 → NoDaemonSet (moved C act s).0
    moved-NoDaemonSet (w, []) p = p
    moved-NoDaemonSet (w, m ∷ ms) p = ground (arith, p, (m.1 w).daemon_set)

    moved-NoModule : (s : C.World × List ForeignMove) → NoModule s.0 → NoModule (moved C act s).0
    moved-NoModule (w, []) p = p
    moved-NoModule (w, m ∷ ms) p = ground (arith, p, (m.1 w).kmm_module)

    still :
        {w w' : C.World}
        → Q.stored (module_name d) w' ≡ Q.stored (module_name d) w
        → IsProtected Q (module_name d) w
        → IsProtected Q (module_name d) w'
    still same p = ap (has_finalizer Q) same ∙ p

    kept :
        {w w' : C.World}
        → w' ≡ w
        → IsProtected Q (module_name d) w
        → IsProtected Q (module_name d) w'
    kept same p = still (ap (Q.stored (module_name d)) same) p

    no_daemon_set : {w w' : C.World} → w' ≡ w → NoDaemonSet w → NoDaemonSet w'
    no_daemon_set same p = ap (Q.find daemon_set_kind (metrics_name d)) same ∙ p

    no_module : {w w' : C.World} → w' ≡ w → NoModule w → NoModule w'
    no_module same p = ap (Q.find module_kind (module_name d)) same ∙ p

    shared-Guards : (e : DeviceConfig) → module_name e ≡ module_name d → Guards shared e
    shared-Guards e same =
        let same' = metrics_name-of_module_name Q F h d e same in
        record {
          Protected = λ s. IsProtected Q (module_name d) s.0;
          NoDaemonSet = λ s. NoDaemonSet s.0;
          NoModule = λ s. NoModule s.0;
          get_protected = λ k n s p. kept (Q.get_world k n (moved C act s).0) (moved-Protected s p);
          get_no_daemon_set =
              λ k n s p. no_daemon_set (Q.get_world k n (moved C act s).0) (moved-NoDaemonSet s p);
          get_no_module =
              λ k n s p. no_module (Q.get_world k n (moved C act s).0) (moved-NoModule s p);
          daemon_set_absent = λ s x failed nf. no_daemon_set (Q.get_world _ _ (moved C act s).0) (
              ap (λ n. Q.find daemon_set_kind n (moved C act s).0) (sym same')
              ∙ Q.get_absent daemon_set_kind (metrics_name e) (moved C act s).0 x failed nf);
          module_absent = λ s x failed nf. no_module (Q.get_world _ _ (moved C act s).0) (
              ap (λ n. Q.find module_kind n (moved C act s).0) (sym same)
              ∙ Q.get_absent module_kind (module_name e) (moved C act s).0 x failed nf);
          delete_protected = λ k o s p.
              still (Q.delete_stored k o (moved C act s).0 (module_name d)) (moved-Protected s p);
          delete_no_daemon_set = λ k o s p.
              Q.delete_find k o (moved C act s).0 daemon_set_kind (metrics_name d)
                (moved-NoDaemonSet s p);
          delete_no_module = λ k o s p.
              Q.delete_find k o (moved C act s).0 module_kind (module_name d) (moved-NoModule s p);
          patch_protects = λ s missing nil.
              ap
                (λ n. has_finalizer Q (Q.stored n (shared.patch (with_finalizer shared e) e s).2.0))
                (sym same)
              ∙ patch-IsProtected Q F h e (moved C act s).0 missing nil;
          patch_failed = λ s missing failed p.
              elim (patch_failed-IsProtected Q F h e (moved C act s).0 (module_name d) missing
                failed) [ inl unchanged ↦ still unchanged (moved-Protected s p) | inr q ↦ q ];
          patch_no_daemon_set = λ x s p.
              Q.patch_find x e (moved C act s).0 daemon_set_kind (metrics_name d)
              ∙ moved-NoDaemonSet s p;
          patch_no_module = λ x s p.
              Q.patch_find x e (moved C act s).0 module_kind (module_name d) ∙ moved-NoModule s p;
          apply_protected = λ k o f s p.
              still (Q.apply_stored k o f (moved C act s).0 (module_name d)) (moved-Protected s p);
        }

    -- One Reconcile among the moves of others keeps the guard.
    after_shared-IsGuarded :
        (e : DeviceConfig) (w : C.World) (moves : List ForeignMove)
        → module_name e ≡ module_name d
        → Q.stored (module_name d) w ≡ some e
        → IsGuarded Q d w
        → IsGuarded Q d (after_shared e w moves)
    unfolding shared-Guards
    after_shared-IsGuarded e w moves same fresh g =
        reconcile-IsKept (shared-Guards e same) h (w, moves) (λ c. ap (has_finalizer Q) fresh ∙ c) g

    Runs-IsGuarded : {w w' : C.World} → Runs w w' → IsGuarded Q d w → IsGuarded Q d w'
    Runs-IsGuarded here g = g
    Runs-IsGuarded (then_foreign r f) g = foreign-IsGuarded Q F h d _ _ f (Runs-IsGuarded r g)
    Runs-IsGuarded (then_reconciled r e same fresh moves) g =
        after_shared-IsGuarded e _ moves same fresh (Runs-IsGuarded r g)

    -- No orphans among writers: from a world in which neither the DaemonSet nor the Module of a
    -- DeviceConfig exists, after any run of Reconciles of what is stored under its name when they
    -- begin, in which any call may fail, and of foreign moves, both between the Reconciles and between the
    -- calls of one of them, if the DaemonSet or the Module exists, then the API server holds a
    -- DeviceConfig of that name, with the operator's finalizer.
    pub Runs-no_orphans :
        (w w' : C.World)
        → Q.find daemon_set_kind (metrics_name d) w ≡ none
        → Q.find module_kind (module_name d) w ≡ none
        → Runs w w'
        → (is_some (Q.find daemon_set_kind (metrics_name d) w') ≡ true)
          ⊎ (is_some (Q.find module_kind (module_name d) w') ≡ true)
        → (e : DeviceConfig) × (Q.stored (module_name d) w' ≡ some e)
          × (U.contains_finalizer e.meta device_config_finalizer ≡ true)
    Runs-no_orphans w w' a b r x = elim (Runs-IsGuarded r (inr (a, b))) [
      | inl p ↦ has_finalizer-some Q F h d (Q.stored (module_name d) w') p
      | inr (k, l) ↦ ground (arith, k, l, x)
    ]
