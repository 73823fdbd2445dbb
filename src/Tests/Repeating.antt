-- ===== src/Tests/Repeating.antt =====
-- Reconcile again and again, and among the moves of others, over the server in memory.
use operator_for_ai_chips_on.Common.{
  Bool, Option, arith, none, some, inr, ◌≡◌, refl, inl, ◌⊎◌, true, false, [], ◌∷◌, is_some,
}
use operator_for_ai_chips_on.Api.{DeviceConfig}
use operator_for_ai_chips_on.Kube.{module_kind}
use operator_for_ai_chips_on.Kube.Memory.{World, memory_util, memory_client}
use operator_for_ai_chips_on.Kube.Memory.Laws.{
  memory_client-IsQuiet, memory_util-HandlesFinalizers, memory_util-HandlesOwners,
  server-IsReleasing, server-IsSteady,
}
use operator_for_ai_chips_on.KmmModule.{new_kmm_module}
use operator_for_ai_chips_on.NodeMetrics.{new_node_metrics}
use operator_for_ai_chips_on.CustomScheduler.{new_custom_scheduler}
use operator_for_ai_chips_on.Controllers.Objects.{device_config_finalizer, module_name}
use operator_for_ai_chips_on.Controllers.Reconcile.{
  State, reconcile, reconcile_live, ◌>>◌, or_fail, handle_all,
}
use operator_for_ai_chips_on.Controllers.Helper.{
  finalize_module, finalize_device_config, new_device_config_reconciler_helper, set_finalizer,
  handle_kmm_module, handle_custom_scheduler, handle_node_metrics,
}
use operator_for_ai_chips_on.Controllers.Guard.{has_finalizer}
use operator_for_ai_chips_on.Controllers.Retries.{IsOver, retries, retries-IsOver}
use operator_for_ai_chips_on.Controllers.Interleaved.{
  ForeignMove, after_shared, Runs, Runs-no_orphans,
}
use operator_for_ai_chips_on.Controllers.Interleaved
use operator_for_ai_chips_on.Controllers.Overwrites.{reconcile-overwrites}
use operator_for_ai_chips_on.Controllers.Steady
use operator_for_ai_chips_on.Controllers.Steady.{first, IsSame, Repeats-IsSteady}
use operator_for_ai_chips_on.Tests.Samples.{
  helper, neuron, deleting, holding, with_module, with_daemon_set,
}

-- Two more Reconciles after the first.
abbrev settled : State memory_client
settled =
    first memory_client-IsQuiet memory_util-HandlesFinalizers memory_util-HandlesOwners
      (server-IsSteady false) tt neuron (holding neuron)

abbrev reconciled_again : World → World
reconciled_again w =
    (reconcile (new_device_config_reconciler_helper memory_client helper)
      (record { world = w; dev_config = settled.dev_config })).2.world

Repeats-IsSteady_example :
    IsSame memory_client-IsQuiet memory_util-HandlesFinalizers memory_util-HandlesOwners
      (server-IsSteady false)
      tt
      settled.dev_config
      settled.world
      (reconciled_again (reconciled_again settled.world))
unfolding reconcile reconcile_live new_device_config_reconciler_helper ◌>>◌ or_fail set_finalizer
    handle_all handle_kmm_module handle_custom_scheduler handle_node_metrics new_kmm_module
    new_custom_scheduler new_node_metrics
Repeats-IsSteady_example =
    Repeats-IsSteady memory_client-IsQuiet memory_util-HandlesFinalizers memory_util-HandlesOwners
      (server-IsSteady false) tt neuron (holding neuron) refl refl refl
      (reconciled_again (reconciled_again settled.world))
      (Steady.again (Steady.again Steady.here settled.dev_config refl refl) settled.dev_config refl
        refl)

-- Four calls over a server that holds both objects, the Module with the finalizer of KMM.
retries-IsOver_example :
    IsOver memory_client-IsQuiet memory_util-HandlesFinalizers
      (server-IsReleasing false)
      helper
      deleting
      (retries memory_client-IsQuiet
        (server-IsReleasing false)
        helper
        4
        (module_name deleting)
        (with_module (with_daemon_set (holding deleting))))
unfolding retries reconcile new_device_config_reconciler_helper or_fail finalize_device_config
    finalize_module
retries-IsOver_example =
    retries-IsOver memory_client-IsQuiet memory_util-HandlesFinalizers (server-IsReleasing false)
      helper deleting (with_module (with_daemon_set (holding deleting))) 4 refl refl
      (inl (omega arith))

-- While `neuron` waited to be reconciled, another controller added its finalizer.
abbrev shared : DeviceConfig
shared = record neuron { meta = record (neuron.meta) { finalizers = "other" ∷ [] } }

reconcile-overwrites_example :
    memory_util.contains_finalizer
      (record (neuron.meta) { finalizers = device_config_finalizer ∷ [] })
      "other"
    ≡ memory_util.contains_finalizer
        (memory_util.add_finalizer (neuron.meta) device_config_finalizer)
        "other"
unfolding reconcile reconcile_live new_device_config_reconciler_helper ◌>>◌ or_fail set_finalizer
    handle_all handle_kmm_module handle_custom_scheduler handle_node_metrics new_kmm_module
    new_custom_scheduler new_node_metrics
reconcile-overwrites_example =
    reconcile-overwrites memory_client-IsQuiet memory_util-HandlesFinalizers helper neuron
      (holding shared) refl refl (λ x q. cc (q))
      (record neuron { meta = record (neuron.meta) { finalizers = device_config_finalizer ∷ [] } })
      refl "other"

-- Another controller deletes every DaemonSet.
none_or_some : {A : Type 0} (o : Option A) → (o ≡ none) ⊎ (is_some o ≡ true)
none_or_some none = inl refl
none_or_some (some a) = inr refl

false_or_true : (b : Bool) → (b ≡ false) ⊎ (b ≡ true)
false_or_true true = inr refl
false_or_true false = inl refl

abbrev daemon_sets_deleted : ForeignMove memory_client-IsQuiet helper neuron
daemon_sets_deleted = (
  λ w. record w { daemon_sets = λ n. none },
  λ w. record {
    daemon_set = inl refl;
    kmm_module = none_or_some (memory_client-IsQuiet.find module_kind (module_name neuron) w);
    finalizer =
        false_or_true (
          has_finalizer memory_client-IsQuiet
            (memory_client-IsQuiet.stored (module_name neuron) w));
  },
)

-- The DaemonSets are deleted between the calls of the first Reconcile, after which the Module is there.
Runs-no_orphans_example :
    (e : DeviceConfig) × ((after_shared memory_client-IsQuiet helper neuron neuron
          (holding neuron)
          (daemon_sets_deleted ∷ daemon_sets_deleted ∷ [])).configs
        (module_name neuron)
      ≡ some e)
    × (memory_util.contains_finalizer e.meta device_config_finalizer ≡ true)
unfolding reconcile reconcile_live new_device_config_reconciler_helper ◌>>◌ or_fail set_finalizer
    handle_all handle_kmm_module handle_custom_scheduler handle_node_metrics new_kmm_module
    new_custom_scheduler new_node_metrics
Runs-no_orphans_example =
    Runs-no_orphans memory_client-IsQuiet helper neuron memory_util-HandlesFinalizers
      (holding neuron)
      (after_shared memory_client-IsQuiet helper neuron neuron (holding neuron)
        (daemon_sets_deleted ∷ daemon_sets_deleted ∷ []))
      refl refl
      (Interleaved.then_reconciled Interleaved.here neuron refl refl
        (daemon_sets_deleted ∷ daemon_sets_deleted ∷ []))
      (inr refl)
