-- ===== src/Controllers/Reach.antt =====
-- internal/controllers/device_config_reconciler.go: Reconcile among the other actors of the cluster, as sequences
-- of moves.

use operator_for_ai_chips_on.Common.{
  ◌≡◌, refl, sym, ap, ◌∙◌, true, false, ◌⊎◌, inl, inr, Option, none, some, arith, is_some,
}
use operator_for_ai_chips_on.K8s.{NamespacedName}
use operator_for_ai_chips_on.Api.{DeviceConfig}
use operator_for_ai_chips_on.Kube.{module_kind, daemon_set_kind, Util, Client}
use operator_for_ai_chips_on.Kube.Lawful.{HandlesFinalizers, IsQuiet}
use operator_for_ai_chips_on.Controllers.Objects.{
  device_config_finalizer, Helper, module_name, metrics_name,
}
use operator_for_ai_chips_on.Controllers.Reconcile.{reconcile}
use operator_for_ai_chips_on.Controllers.Helper.{new_device_config_reconciler_helper}
use operator_for_ai_chips_on.Controllers.Guard.{has_finalizer, IsGuarded, reconcile-IsGuarded}

module _ {U : Util} {C : Client U} (Q : IsQuiet C) (h : Helper U) (d : DeviceConfig) where
  -- What the other actors may do: users make, edit and delete DeviceConfigs, and controllers
  -- delete objects, at any time, but they make neither a DaemonSet nor a Module under the names of
  -- this DeviceConfig, and they leave the operator's finalizer alone.
  pub record IsForeign (w w' : C.World) : Type 0 where
    pub daemon_set :
        (Q.find daemon_set_kind (metrics_name d) w' ≡ none)
        ⊎ (is_some (Q.find daemon_set_kind (metrics_name d) w) ≡ true)
    pub kmm_module :
        (Q.find module_kind (module_name d) w' ≡ none)
        ⊎ (is_some (Q.find module_kind (module_name d) w) ≡ true)
    pub finalizer :
        (has_finalizer Q (Q.stored (module_name d) w) ≡ false)
        ⊎ (has_finalizer Q (Q.stored (module_name d) w') ≡ true)

  -- One Reconcile of what is stored under the name, whichever call fails, or a foreign move.
  pub data Move : C.World → C.World → Type 0 where
    reconciled :
        {w : C.World} (e : DeviceConfig)
        → module_name e ≡ module_name d
        → Q.stored (module_name d) w ≡ some e
        → Move w
            (reconcile
              (new_device_config_reconciler_helper C h)
              (record { world = w; dev_config = e })).2.world
    foreign : {w w' : C.World} → IsForeign w w' → Move w w'

  pub data Reaches (w : C.World) : C.World → Type 0 where
    here : Reaches w w
    then_move : {v v' : C.World} → Reaches w v → Move v v' → Reaches w v'

module _ {U : Util} {C : Client U} (Q : IsQuiet C) (F : HandlesFinalizers U) (h : Helper U)
    (d : DeviceConfig) where
  pub has_finalizer-some :
      (o : Option DeviceConfig)
      → has_finalizer Q o ≡ true
      → (e : DeviceConfig) × (o ≡ some e)
        × (U.contains_finalizer e.meta device_config_finalizer ≡ true)
  has_finalizer-some none p = cc (p)
  has_finalizer-some (some e) p = (e, refl, p)

  pub metrics_name-of_module_name :
      (e : DeviceConfig) → module_name e ≡ module_name d → metrics_name e ≡ metrics_name d
  metrics_name-of_module_name e p =
      cc (ap (λ (n : NamespacedName). n.namespace) p, ap (λ (n : NamespacedName). n.name) p)

  IsGuarded-names :
      (e : DeviceConfig) (w : C.World)
      → module_name e ≡ module_name d
      → metrics_name e ≡ metrics_name d
      → (IsGuarded Q e w → IsGuarded Q d w) × (IsGuarded Q d w → IsGuarded Q e w)
  IsGuarded-names e w p q = (λ g. rw (sym p, sym q) g, λ g. rw (p, q) g)

  pub foreign-IsGuarded :
      (w w' : C.World) → IsForeign Q h d w w' → IsGuarded Q d w → IsGuarded Q d w'
  foreign-IsGuarded w w' f g = ground (arith, f.daemon_set, f.kmm_module, f.finalizer)

  Move-IsGuarded : {w w' : C.World} → Move Q h d w w' → IsGuarded Q d w → IsGuarded Q d w'
  Move-IsGuarded {w} (reconciled e p s) g =
      let q = metrics_name-of_module_name e p in
      (IsGuarded-names e _ p q).0 (
        reconcile-IsGuarded Q F h e w (ap (λ n. Q.stored n w) p ∙ s)
          ((IsGuarded-names e w p q).1 g))
  Move-IsGuarded (foreign f) g = foreign-IsGuarded _ _ f g

  Reaches-IsGuarded : {w w' : C.World} → Reaches Q h d w w' → IsGuarded Q d w → IsGuarded Q d w'
  Reaches-IsGuarded here g = g
  Reaches-IsGuarded (then_move r m) g = Move-IsGuarded m (Reaches-IsGuarded r g)

  -- No orphans: from a world in which neither the DaemonSet nor the Module of a DeviceConfig exists,
  -- after any sequence of Reconciles of what is then stored under its name, in which any call may
  -- fail, and of foreign moves, if the DaemonSet or the Module exists, then the API server holds a
  -- DeviceConfig of that name, with the operator's finalizer.
  pub Reaches-no_orphans :
      (w w' : C.World)
      → Q.find daemon_set_kind (metrics_name d) w ≡ none
      → Q.find module_kind (module_name d) w ≡ none
      → Reaches Q h d w w'
      → (is_some (Q.find daemon_set_kind (metrics_name d) w') ≡ true)
        ⊎ (is_some (Q.find module_kind (module_name d) w') ≡ true)
      → (e : DeviceConfig) × (Q.stored (module_name d) w' ≡ some e)
        × (U.contains_finalizer e.meta device_config_finalizer ≡ true)
  Reaches-no_orphans w w' a b r x = elim (Reaches-IsGuarded r (inr (a, b))) [
    | inl p ↦ has_finalizer-some (Q.stored (module_name d) w') p
    | inr (k, l) ↦ ground (arith, k, l, x)
  ]
