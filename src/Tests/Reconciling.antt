-- ===== src/Tests/Reconciling.antt =====
-- Reconcile and its methods over the server in memory.
use operator_for_ai_chips_on.Common.{
  arith, none, some, inr, ◌≤◌, ◌≡◌, refl, inl, ◌⊎◌, ◌↔◌, ◌≢◌, true, false, List, [], ◌∷◌, is_some,
}
use operator_for_ai_chips_on.K8s.{NamespacedName}
use operator_for_ai_chips_on.Api.{DeviceConfig}
use operator_for_ai_chips_on.Kube.{module_kind, daemon_set_kind, deployment_kind}
use operator_for_ai_chips_on.Kube.Traced.{
  Call, got, deleted, patched, applied, traced, present, absent, is_apply, any, writes,
}
use operator_for_ai_chips_on.Kube.Memory.{World, memory_util, memory_client, strict_client}
use operator_for_ai_chips_on.Kube.Memory.Laws.{
  memory_client-IsQuiet, memory_util-HandlesFinalizers, memory_util-HandlesOwners, server-IsPrompt,
  server-IsReleasing, strict_client-IsQuiet, strict_client-IsValidating,
}
use operator_for_ai_chips_on.KmmModule.{new_kmm_module}
use operator_for_ai_chips_on.NodeMetrics.{new_node_metrics}
use operator_for_ai_chips_on.CustomScheduler.{new_custom_scheduler}
use operator_for_ai_chips_on.Controllers.Objects.{
  device_config_finalizer, module_name, metrics_name, scheduler_name, extension_name,
}
use operator_for_ai_chips_on.Controllers.Reconcile.{
  State, reconcile, reconcile_live, ◌>>◌, or_fail, handle_all,
}
use operator_for_ai_chips_on.Controllers.Helper.{
  finalize_device_config, new_device_config_reconciler_helper, set_finalizer, handle_kmm_module,
  handle_custom_scheduler, handle_node_metrics,
}
use operator_for_ai_chips_on.Controllers.FinalizeOrder.{
  start, finalize-patch, finalize-writes, finalize-delete_module,
}
use operator_for_ai_chips_on.Controllers.ReconcileOrder.{outcome, IsExpected, reconcile-live_calls}
use operator_for_ai_chips_on.Controllers.Guard.{IsProtected, IsGuarded, reconcile-IsGuarded}
use operator_for_ai_chips_on.Controllers.Names.{names_apart}
use operator_for_ai_chips_on.Controllers.Converge.{IsConverged, reconcile-IsConverged}
use operator_for_ai_chips_on.Controllers.Progress.{retries-IsFinished}
use operator_for_ai_chips_on.Controllers.Retries.{IsOver, retries}
use operator_for_ai_chips_on.Controllers.Desired.{IsDesired, IsMeasured, reconcile-IsDesired}
use operator_for_ai_chips_on.Controllers.Reach.{here, then_move, reconciled, Reaches-no_orphans}
use operator_for_ai_chips_on.Kube.Lawful.{SameObject}
use operator_for_ai_chips_on.Controllers.FirstError.{IsFirstError, reconcile-IsFirstError}
use operator_for_ai_chips_on.Controllers.First.{reconcile-first}
use operator_for_ai_chips_on.Controllers.Handled.{IsOfMetrics}
use operator_for_ai_chips_on.Tests.Samples.{
  helper, neuron, in_use, deleting, holding, with_module, with_daemon_set,
}

-- The calls of one Reconcile, and of one finalizeDeviceConfig.
calls : DeviceConfig → World → List Call
unfolding reconcile new_device_config_reconciler_helper
calls d w = (outcome memory_client helper w d).2.world.1

first_calls :
    calls neuron (holding neuron)
    ≡ patched
        (record neuron {
          meta = record (neuron.meta) { finalizers = device_config_finalizer ∷ [] };
        })
        neuron
      ∷ applied module_kind (record { namespace = "ai"; name = "neuron" })
      ∷ applied deployment_kind (record { namespace = "ai"; name = "neuron-custom-scheduler" })
      ∷ applied deployment_kind
          (record { namespace = "ai"; name = "neuron-custom-scheduler-extension" })
      ∷ applied daemon_set_kind (record { namespace = "ai"; name = "neuron-node-metrics" })
      ∷ []
unfolding calls reconcile_live ◌>>◌ or_fail set_finalizer handle_all handle_kmm_module
    new_kmm_module handle_custom_scheduler new_custom_scheduler handle_node_metrics new_node_metrics
first_calls = refl

abbrev in_both : World
in_both = with_daemon_set (with_module (holding deleting))

finalize-patch_example :
    (finalize_device_config
      (traced memory_client)
      helper
      (start memory_client (holding deleting) deleting)).1.world.1
    ≡ got daemon_set_kind (metrics_name deleting) absent
      ∷ got module_kind (module_name deleting) absent
      ∷ patched
          (record deleting { meta = record (deleting.meta) { finalizers = "other" ∷ [] } })
          deleting
      ∷ []
unfolding finalize_device_config
finalize-patch_example = finalize-patch memory_client helper (holding deleting) deleting refl

finalize-writes_example :
    let (e, s) =
      finalize_device_config (traced memory_client) helper (start memory_client in_both deleting) in
    (writes s.world.1 ≤ 1)
    × (any is_apply s.world.1 ≡ false)
    × ((writes s.world.1 ≡ 1) ⊎ (is_some e ≡ true))
finalize-writes_example = finalize-writes memory_client helper in_both deleting

finalize-delete_module_example :
    (n : NamespacedName) × ((finalize_device_config
        (traced memory_client)
        helper
        (start memory_client (with_module (holding deleting)) deleting)).1.world.1
      ≡ got daemon_set_kind (metrics_name deleting) absent
        ∷ got module_kind (module_name deleting) present
        ∷ deleted module_kind n
        ∷ [])
unfolding finalize_device_config
finalize-delete_module_example =
    finalize-delete_module memory_client helper (with_module (holding deleting)) deleting refl

reconcile-live_calls_example :
    IsExpected memory_client helper
      (holding neuron)
      neuron
      (outcome memory_client helper (holding neuron) neuron)
reconcile-live_calls_example =
    reconcile-live_calls memory_client helper (holding neuron) neuron refl

-- The DeviceConfig is being deleted, and its DaemonSet and its Module are there.
reconcile-IsGuarded_example :
    IsGuarded memory_client-IsQuiet deleting
      (reconcile
        (new_device_config_reconciler_helper memory_client helper)
        (record { world = in_both; dev_config = deleting })).2.world
reconcile-IsGuarded_example =
    reconcile-IsGuarded memory_client-IsQuiet memory_util-HandlesFinalizers helper deleting in_both
      refl (inl refl)

names_apart_example :
    ((scheduler_name neuron ≡ scheduler_name in_use) ↔ (module_name neuron ≡ module_name in_use))
    × ((extension_name neuron ≡ extension_name in_use) ↔ (module_name neuron ≡ module_name in_use))
    × ((metrics_name neuron ≡ metrics_name in_use) ↔ (module_name neuron ≡ module_name in_use))
    × (scheduler_name neuron ≢ extension_name in_use)
names_apart_example = names_apart neuron in_use

reconcile-IsConverged_example :
    IsConverged memory_client-IsQuiet memory_util-HandlesFinalizers helper neuron
      (holding neuron)
      (reconcile
        (new_device_config_reconciler_helper memory_client helper)
        (record { world = holding neuron; dev_config = neuron })).2
unfolding reconcile reconcile_live new_device_config_reconciler_helper ◌>>◌ or_fail set_finalizer
    handle_all handle_kmm_module handle_custom_scheduler handle_node_metrics new_kmm_module
    new_custom_scheduler new_node_metrics
reconcile-IsConverged_example =
    reconcile-IsConverged memory_client-IsQuiet memory_util-HandlesFinalizers helper neuron
      (holding neuron) refl refl refl

retries-IsFinished_example :
    IsOver memory_client-IsQuiet memory_util-HandlesFinalizers
      (server-IsReleasing false)
      helper
      deleting
      (retries memory_client-IsQuiet
        (server-IsReleasing false)
        helper
        3
        (module_name deleting)
        in_both)
retries-IsFinished_example =
    retries-IsFinished memory_client-IsQuiet memory_util-HandlesFinalizers
      (server-IsReleasing false) (server-IsPrompt false) helper deleting in_both 3 refl refl
      (omega arith)

-- A server that does not look into containers, and the helper of main, which is the same.
reconcile-IsDesired_example :
    let r =
      reconcile
        (new_device_config_reconciler_helper memory_client helper)
        (record { world = holding neuron; dev_config = neuron }) in
    IsDesired memory_client-IsQuiet r.2.dev_config r.2.world
    × (((r.1 ≡ none) × IsMeasured memory_client-IsQuiet r.2.dev_config r.2.world)
        ⊎ IsOfMetrics memory_util r.1)
    × SameObject r.2.dev_config.meta neuron.meta
    × (r.2.dev_config.spec ≡ neuron.spec)
unfolding reconcile reconcile_live new_device_config_reconciler_helper ◌>>◌ or_fail set_finalizer
    handle_all handle_kmm_module handle_custom_scheduler handle_node_metrics new_kmm_module
    new_custom_scheduler new_node_metrics
reconcile-IsDesired_example =
    reconcile-IsDesired memory_client-IsQuiet memory_util-HandlesFinalizers tt neuron
      (holding neuron) refl refl (inl refl)

-- A first Reconcile, after which the Module is there.
Reaches-no_orphans_example :
    (e : DeviceConfig) × ((reconcile
          (new_device_config_reconciler_helper memory_client helper)
          (record { world = holding neuron; dev_config = neuron })).2.world.configs
        (module_name neuron)
      ≡ some e)
    × (memory_util.contains_finalizer e.meta device_config_finalizer ≡ true)
unfolding reconcile reconcile_live new_device_config_reconciler_helper ◌>>◌ or_fail set_finalizer
    handle_all handle_kmm_module handle_custom_scheduler handle_node_metrics new_kmm_module
    new_custom_scheduler new_node_metrics
Reaches-no_orphans_example =
    Reaches-no_orphans memory_client-IsQuiet memory_util-HandlesFinalizers helper neuron
      (holding neuron)
      (reconcile (new_device_config_reconciler_helper memory_client helper)
        (record { world = holding neuron; dev_config = neuron })).2.world
      refl refl (then_move here (reconciled neuron refl refl)) (inr refl)

reconcile-IsFirstError_example :
    let s : State memory_client = record { world = in_both; dev_config = deleting } in
    IsFirstError
      (new_device_config_reconciler_helper memory_client helper)
      s
      (reconcile (new_device_config_reconciler_helper memory_client helper) s)
reconcile-IsFirstError_example =
    reconcile-IsFirstError (new_device_config_reconciler_helper memory_client helper)
      (record { world = in_both; dev_config = deleting })

-- Both images are given, and the server looks into containers.
abbrev complete : DeviceConfig
complete = record neuron { spec = record (neuron.spec) { scheduler_extension_image = "extension" } }

reconcile-first_example :
    let r =
      reconcile
        (new_device_config_reconciler_helper strict_client helper)
        (record { world = holding complete; dev_config = complete }) in
    IsOfMetrics memory_util r.1
    × IsProtected strict_client-IsQuiet (module_name complete) r.2.world
    × IsDesired strict_client-IsQuiet r.2.dev_config r.2.world
    × (strict_client-IsQuiet.find daemon_set_kind (metrics_name complete) r.2.world ≡ none)
reconcile-first_example =
    reconcile-first strict_client-IsQuiet memory_util-HandlesFinalizers (server-IsPrompt true)
      strict_client-IsValidating memory_util-HandlesOwners tt complete (holding complete) refl refl
      (record { kmm_module = refl; scheduler = refl; extension = refl; metrics = refl })
      (refl, refl)
