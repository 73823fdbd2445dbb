-- ===== src/Tests/Doubles.antt =====
-- The generated mocks over a gomock in memory.
use operator_for_ai_chips_on.Common.{
  ℕ, none, some, List, [], ◌∷◌, map, ◌≡◌, refl, external, is_some,
}
use operator_for_ai_chips_on.Kube.{GoError}
use operator_for_ai_chips_on.Kube.Memory.{memory_util, not_found}
use operator_for_ai_chips_on.Controllers.Reconcile.{no_result, reconcile}
use operator_for_ai_chips_on.Mocks.Gomock.{
  error_type, group_version_kind_type, context_type, object_type, patch_option_type, pick, nil,
  value, Gomock, finished, exact, absent, IsGomock,
}
use operator_for_ai_chips_on.Mocks.Doubles.{Store, Testing, ◌>>◌, get_elem?}
use operator_for_ai_chips_on.Mocks.Memory.{in_memory, in_memory-IsGomock}
use operator_for_ai_chips_on.Mocks.Links.{node_metrics, construct, IsLinked, construct-IsLinked}
use operator_for_ai_chips_on.Mocks.Client.Calls as ClientCalls
use operator_for_ai_chips_on.Mocks.Helper.Calls as HelperCalls
use operator_for_ai_chips_on.Mocks.Scheduler.Calls as SchedulerCalls
use operator_for_ai_chips_on.Mocks.Script.{
  MockCall, Entry, describe_call, client, helper, custom_scheduler, announce_all, invoke_all,
  invoke_call, answer_of,
}
use operator_for_ai_chips_on.Mocks.Script.Replay.{replay-answers}
use operator_for_ai_chips_on.Mocks.Script.Typed.{invoke_call-IsTyped}
use operator_for_ai_chips_on.Mocks.Reconciling.{
  Setting, values, HelperMethod, handling_module, mock_helper, methods_of, until_error, first_error,
}
use operator_for_ai_chips_on.Mocks.Reconciling.Runs.{entries_of}
use operator_for_ai_chips_on.Mocks.Reconciling.Flow.{reconcile-mocked}
use operator_for_ai_chips_on.Tests.Samples.{neuron}

abbrev setting : Setting
setting = record { util = memory_util; Other = λ _. ℕ; empty_kind = 0; nil_scheme = 0 }

-- Two mocks of one controller, and what it expects.
abbrev store : Store (in_memory (values setting))
store = record {
  mocks = record { ctrl = tt; recorder = some 0 } ∷ record { ctrl = tt; recorder = some 1 } ∷ [];
  recorders = record { mock = 0 } ∷ record { mock = 1 } ∷ [];
}

abbrev fresh : Testing (in_memory (values setting))
fresh = record { library = []; store = store }

-- The handler of the module fails.
abbrev module_fails : HelperMethod → GoError memory_util
module_fails handling_module = some (external not_found)
module_fails _ = none

abbrev memory : Gomock (values setting)
memory = in_memory (values setting)

abbrev laws : IsGomock (in_memory (values setting))
laws = in_memory-IsGomock (values setting)

-- A call of each of three kinds: with results that are given, with none given, and with no results.
abbrev script : List (Entry (values setting))
script =
    record {
      mock = 0;
      call = client (ClientCalls.group_version_kind_for (some 4));
      answer = some (value group_version_kind_type 7 ∷ nil ∷ []);
    }
    ∷ record { mock = 1; call = helper (HelperCalls.set_finalizer (some 2) neuron); answer = none }
    ∷ record {
      mock = 0;
      call = custom_scheduler (SchedulerCalls.set_custom_scheduler_as_desired 5 neuron);
      answer = some [];
    }
    ∷ []

-- A Patch with two options, of which one is nil.
abbrev patch_call : MockCall (values setting)
patch_call = client (ClientCalls.patch (some 2) (some 3) none (some 6 ∷ none ∷ []))

reconcile-mocked_example :
    (s s' : memory.State) × (announce_all memory
        (entries_of setting laws tt 0
          (some 1)
          neuron
          module_fails
          (until_error module_fails (methods_of (is_some neuron.meta.deletion_timestamp))))
        fresh
      ≡ finished tt (record fresh { library = s }))
    × (reconcile
          (mock_helper setting memory 0 (some 1))
          (record { world = some (record fresh { library = s }); dev_config = neuron })
        ≡ (
          no_result,
          first_error memory_util module_fails
              (methods_of (is_some neuron.meta.deletion_timestamp)),
          record { world = some (record fresh { library = s' }); dev_config = neuron },
        ))
    × (laws.expected tt s' ≡ [])
reconcile-mocked_example =
    reconcile-mocked setting laws tt 0 (some 1) neuron module_fails fresh (0, refl, refl) refl refl
      refl

replay-answers_example :
    (s : memory.State) × ((announce_all memory script >> invoke_all memory script) fresh
      ≡ finished (map answer_of script) (record fresh { library = s }))
    × (laws.expected tt s ≡ [])
unfolding ClientCalls.describe HelperCalls.describe SchedulerCalls.describe describe_call
replay-answers_example =
    replay-answers laws tt script fresh
      (
        ((0, refl, refl), (exact group_version_kind_type 7, (absent error_type refl, tt)), refl),
        (((1, refl, refl), tt, refl), (((0, refl, refl), tt, refl), tt)),
      )
      refl

-- A test that expects the call.
abbrev expecting : Testing memory
expecting = record fresh {
  library =
      record {
        receiver = 0;
        method = "Patch";
        arguments =
            value context_type 2 ∷ value object_type 3 ∷ nil ∷ value patch_option_type 6 ∷ nil ∷ [];
        results = value error_type (external not_found) ∷ [];
      }
      ∷ [];
}

invoke_call-IsTyped_example :
    invoke_call memory patch_call 0 expecting
    ≡ finished (value error_type (external not_found) ∷ []) fresh
unfolding ClientCalls.describe describe_call pick
invoke_call-IsTyped_example =
    invoke_call-IsTyped memory tt 0 patch_call expecting
      (value error_type (external not_found) ∷ []) [] (0, refl, refl) refl
      (exact error_type (external not_found), tt)

-- Another call of the mock that is expected to be patched.

construct-IsLinked_example :
    (m : ℕ) × (s : Store memory) × (construct memory node_metrics tt fresh
      ≡ finished m (record fresh { store = s }))
    × (get_elem? store.mocks m ≡ none)
    × IsLinked {G = memory} s tt m
    × IsLinked {G = memory} s tt 1
construct-IsLinked_example = construct-IsLinked node_metrics tt tt 1 fresh (1, refl, refl)
