-- ===== src/Mocks/Script.antt =====
-- Scripts of a test: calls of any of the generated mocks, announced and then made.
pub mod Answers
pub mod Replay
pub mod Typed
use operator_for_ai_chips_on.Common.{ℕ, Option, none, some, List, [], ◌∷◌, map}
use operator_for_ai_chips_on.Mocks.Gomock.{GoType, Values, Any, zero_value, Gomock, finished}
use operator_for_ai_chips_on.Mocks.Doubles.{Run, pure, ◌>>=◌, lift}
use operator_for_ai_chips_on.Mocks.Calls.{Description}
use operator_for_ai_chips_on.Mocks.Client.Calls as ClientCalls
use operator_for_ai_chips_on.Mocks.Client.Calls.{ClientCall}
use operator_for_ai_chips_on.Mocks.StatusWriter.Calls as StatusWriterCalls
use operator_for_ai_chips_on.Mocks.StatusWriter.Calls.{StatusWriterCall}
use operator_for_ai_chips_on.Mocks.Helper.Calls as HelperCalls
use operator_for_ai_chips_on.Mocks.Helper.Calls.{HelperCall}
use operator_for_ai_chips_on.Mocks.Scheduler.Calls as SchedulerCalls
use operator_for_ai_chips_on.Mocks.Scheduler.Calls.{SchedulerCall}
use operator_for_ai_chips_on.Mocks.Module.Calls as ModuleCalls
use operator_for_ai_chips_on.Mocks.Module.Calls.{ModuleCall}
use operator_for_ai_chips_on.Mocks.Metrics.Calls as MetricsCalls
use operator_for_ai_chips_on.Mocks.Metrics.Calls.{MetricsCall}

module _ (V : Values) where
  -- A call of a method of one of the six mocks.
  pub data MockCall : Type 0 where
    client : ClientCall V → MockCall
    status_writer : StatusWriterCall V → MockCall
    helper : HelperCall V → MockCall
    custom_scheduler : SchedulerCall V → MockCall
    kmm_module : ModuleCall V → MockCall
    node_metrics : MetricsCall V → MockCall

  -- A call of the mock at an address, and what it is to return.
  pub record Entry : Type 0 where
    pub mock : ℕ
    pub call : MockCall
    -- none where Return is not called
    pub answer : Option (List (Any V))

module _ {V : Values} where
  unfoldable pub describe_call : MockCall V → Description V
  describe_call (client c) = ClientCalls.describe c
  describe_call (status_writer c) = StatusWriterCalls.describe c
  describe_call (helper c) = HelperCalls.describe c
  describe_call (custom_scheduler c) = SchedulerCalls.describe c
  describe_call (kmm_module c) = ModuleCalls.describe c
  describe_call (node_metrics c) = MetricsCalls.describe c

  -- What the call of an entry returns: the zero values of its results where none are given.
  abbrev pub answer_or_zero : List GoType → Option (List (Any V)) → List (Any V)
  answer_or_zero ks none = map zero_value ks
  answer_or_zero ks (some vs) = vs

  abbrev pub answer_of : Entry V → List (Any V)
  answer_of e = answer_or_zero (describe_call e.call).signature.outputs e.answer

module _ {V : Values} (G : Gomock V) where
  unfoldable pub invoke_call : MockCall V → ℕ → Run G (List (Any V))
  invoke_call (client c) m = ClientCalls.invoke G c m
  invoke_call (status_writer c) m = StatusWriterCalls.invoke G c m
  invoke_call (helper c) m = HelperCalls.invoke G c m
  invoke_call (custom_scheduler c) m = SchedulerCalls.invoke G c m
  invoke_call (kmm_module c) m = ModuleCalls.invoke G c m
  invoke_call (node_metrics c) m = MetricsCalls.invoke G c m

  unfoldable pub announce_call : MockCall V → ℕ → Run G G.Call
  announce_call (client c) m = ClientCalls.announce G c m
  announce_call (status_writer c) m = StatusWriterCalls.announce G c m
  announce_call (helper c) m = HelperCalls.announce G c m
  announce_call (custom_scheduler c) m = SchedulerCalls.announce G c m
  announce_call (kmm_module c) m = ModuleCalls.announce G c m
  announce_call (node_metrics c) m = MetricsCalls.announce G c m

  -- mock.EXPECT().Method(args...), and .Return(answer...)
  unfoldable pub give : Option (List (Any V)) → G.Call → Run G (Unit {0})
  give none call t = finished tt t
  give (some vs) call t = lift (G.return_values call vs t.library) t

  unfoldable pub announce_entry : Entry V → Run G (Unit {0})
  announce_entry e = do call ← announce_call e.call e.mock; give e.answer call

  unfoldable pub announce_all : List (Entry V) → Run G (Unit {0})
  announce_all [] = pure tt
  announce_all (e ∷ es) = do _ ← announce_entry e; announce_all es

  -- The calls, in the order of the script, and what they return.
  unfoldable pub invoke_all : List (Entry V) → Run G (List (List (Any V)))
  invoke_all [] = pure []
  invoke_all (e ∷ es) = do vs ← invoke_call e.call e.mock; rest ← invoke_all es; pure (vs ∷ rest)
