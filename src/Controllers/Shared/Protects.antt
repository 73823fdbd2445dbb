-- ===== src/Controllers/Shared/Protects.antt =====
-- internal/controllers/device_config_reconciler.go: setFinalizer and the handlers, over a client that others
-- share.

use operator_for_ai_chips_on.Common.{
  String, ◌≡◌, refl, true, ◌⊎◌, inl, inr, none, some, false, arith, Bool-cases,
}
use operator_for_ai_chips_on.Api.{DeviceConfig}
use operator_for_ai_chips_on.Kube.{Util, Client, GoError}
use operator_for_ai_chips_on.Controllers.Objects.{device_config_finalizer, Helper}
use operator_for_ai_chips_on.Controllers.Reconcile.{State, Step, handle_all, or_fail, ◌>>◌}
use operator_for_ai_chips_on.Controllers.Helper.{
  set_finalizer, new_device_config_reconciler_helper, handle_kmm_module, handle_custom_scheduler,
  handle_node_metrics, apply_scheduler, apply_extension,
}
use operator_for_ai_chips_on.Controllers.Steps.{or_fail-state, >>-post}
use operator_for_ai_chips_on.Controllers.Shared.{Guards, with_finalizer}

module _ {U : Util} {C : Client U} {d : DeviceConfig} (G : Guards C d) (h : Helper U) where
  abbrev pub IsKept : C.World → Type 0
  IsKept w = G.Protected w ⊎ (G.NoDaemonSet w × G.NoModule w)

  -- A method after which a protected world is protected.
  abbrev Protects : Step C → Type 0
  Protects m = (s : State C) → G.Protected s.world → G.Protected (m s).1.world

  or_fail-Protects : (prefix : String) (m : Step C) → Protects m → Protects (or_fail prefix m)
  or_fail-Protects prefix m k s p = rw (or_fail-state prefix m s) (k s p)

  >>-Protects : (m n : Step C) → Protects m → Protects n → Protects (m >> n)
  >>-Protects m n k l s p =
      >>-post (λ (t : State C). G.Protected t.world) m n s (k s p) (l (m s).1 (k s p))

  handle_custom_scheduler-Protects : Protects (handle_custom_scheduler C h)
  unfolding handle_custom_scheduler apply_scheduler apply_extension
  handle_custom_scheduler-Protects =
      >>-Protects _ _ (or_fail-Protects _ _ (λ s p. G.apply_protected _ _ _ _ p))
        (λ s p. G.apply_protected _ _ _ _ p)

  pub handle_all-Protects : Protects (handle_all (new_device_config_reconciler_helper C h))
  unfolding handle_all new_device_config_reconciler_helper handle_kmm_module handle_node_metrics
  handle_all-Protects =
      >>-Protects _ _ (or_fail-Protects _ _ (λ s p. G.apply_protected _ _ _ _ p)) (
        >>-Protects _ _ (or_fail-Protects _ _ handle_custom_scheduler-Protects)
          (or_fail-Protects _ _ (λ s p. G.apply_protected _ _ _ _ p)))

  module _ (w : C.World) where
    abbrev pub at : State C
    at = record { world = w; dev_config = d }

    module _
        (there : U.contains_finalizer d.meta device_config_finalizer ≡ true → G.Protected w) where
      pub set_finalizer-Protected :
          (set_finalizer C h at).0 ≡ none → G.Protected (set_finalizer C h at).1.world
      unfolding set_finalizer
      set_finalizer-Protected nil =
          elim (Bool-cases (U.contains_finalizer d.meta device_config_finalizer)) [
            | inl c ↦ rw c (there c)
            | inr c ↦ rw c (G.patch_protects w c (rw c at nil))
          ]

      pub set_finalizer-IsKept : IsKept w → IsKept (set_finalizer C h at).1.world
      unfolding set_finalizer
      set_finalizer-IsKept k =
          elim (Bool-cases (U.contains_finalizer d.meta device_config_finalizer)) [
            | inl c ↦ rw c (inl (there c))
            | inr c ↦ rw c (patched c (C.patch (with_finalizer C d) d w).0 refl)
          ]
        where
          patched :
              U.contains_finalizer d.meta device_config_finalizer ≡ false
              → (r : GoError U) → (C.patch (with_finalizer C d) d w).0 ≡ r
              → IsKept (C.patch (with_finalizer C d) d w).2
          patched c none p = inl (G.patch_protects w c p)
          patched c (some e) p = elim k [
            | inl q ↦ inl (G.patch_failed w c (λ nil. ground (arith, nil, p)) q)
            | inr (a, b) ↦ inr (G.patch_no_daemon_set _ w a, G.patch_no_module _ w b)
          ]
