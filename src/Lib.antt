-- ===== src/Lib.antt =====
-- The operator for AI chips on AWS: a Kubernetes controller that turns a DeviceConfig into a
-- Module of the kernel module management operator (KMM), two Deployments for the Neuron scheduler
-- and a DaemonSet that reads metrics, and that takes the DaemonSet and the Module down again
-- before a DeviceConfig goes away.
--
-- The parts, and the code that they model:
--
-- - Api: the types of api/v1alpha1/deviceconfig_types.go as records; a pointer that may be nil is
--   an Option.
-- - Api/Heap and Api/DeepCopy: the generated copies of api/v1alpha1/zz_generated.deepcopy.go,
--   over a store with addresses for secrets, label maps, DeviceConfigs and arrays; a command
--   returns none where Go would fault. DeepCopyInto is copy_spec, copy_config and copy_items,
--   DeepCopy is deep_copy. The copy of an ObjectMeta and the order of a range over a map are a
--   parameter, the record Runtime, whose documented behaviour is IsFair.
-- - Api/Copies: the DeepCopy of every type of that file, the copy of a DeviceConfigList and
--   DeepCopyObject, over the same store with the other structs beside it. The copy of a ListMeta
--   is a parameter.
-- - Api/Json: the documents of a DeviceConfigSpec and a DeviceConfigStatus, as encoding/json
--   reads the tags of api/v1alpha1/deviceconfig_types.go: a document is a tree, an encoder is a
--   function to it, and a decoder takes the struct that it writes over and returns none on an
--   error. The codec of a reference to a secret and the order of a map are a parameter, the
--   record Codec, whose documented behaviour is IsCodec.
-- - Api/Registration and Main/Scheme: api/v1alpha1/groupversion_info.go with the init of
--   api/v1alpha1/deviceconfig_types.go, and the init of cmd/main.go. A scheme is a value that
--   init passes on; it ends ready or in a panic. What the libraries add to a scheme is the record
--   Documented in Main/Scheme/Recognized.
-- - KmmModule, NodeMetrics and CustomScheduler: internal/kmmmodule/kmmmodule.go,
--   internal/nodemetrics/nodemetrics.go and internal/customscheduler/customscheduler.go. A Go
--   function that writes through a pointer returns the new object. The interfaces of these
--   packages are records of one function or two.
-- - Controllers/Objects, Controllers/Helper and Controllers/Reconcile:
--   internal/controllers/device_config_reconciler.go. A method takes the state (the world and the
--   DeviceConfig behind its pointer) and returns an error, nil being none, and the new state.
--   Reconcile is a function of the interface of the helper, as in Go, where the tests put a mock
--   behind it; the real helper is new_device_config_reconciler_helper.
-- - Controllers/Setup: NewDeviceConfigReconciler and what SetupWithManager tells the controller
--   builder, in the same file.
-- - Config, Cmd and Main: internal/config/config.go, internal/cmd/cmdutils.go and cmd/main.go. A
--   process is a function of what it did so far that runs on with a value or has ended with a
--   status. The file system, the YAML decoder and the manager are parameters.
-- - Kube: the libraries that the operator calls. Kube/Defs has their interface, a record Client
--   for the client and CreateOrPatch, and a record Util for the functions of controllerutil,
--   k8serrors and KMM's labels. Kube/Lawful states their documented behaviour as records of
--   hypotheses, Kube/Traced records the calls that are made of a client, as a mock does, and
--   Kube/Memory is an API server in memory that satisfies the hypotheses, with and without the
--   check of images.
-- - Mocks: the mocks that mockgen made, internal/client/mock_client.go and
--   mock_device_config_reconciler.go, mock_kmmmodule.go, mock_nodemetrics.go and
--   mock_customscheduler.go of the packages under internal. Mocks/Gomock has
--   go.uber.org/mock/gomock as a parameter, the record Gomock, with its documented behaviour in
--   IsGomock, and Go's any as tagged values. Mocks/Doubles has the store of the mocks and the
--   lines that all methods share; Mocks/Client and its neighbours have the methods of a mock, and
--   Recorder below each has those of its recorder. A method ends, is stopped by T.Fatalf, or
--   panics. Mocks/Script is about calls of all six, Mocks/Reconciling runs Reconcile over the
--   mock of its helper, and Mocks/Memory is a gomock in memory.
-- - K8s: the types of the Kubernetes and KMM libraries, with the fields that the operator sets,
--   of a ModuleSpec also the others as texts, and the tests that the API server makes of a
--   workload.
--
-- Reconcile calls setFinalizer, then the three handlers, and each handler gives CreateOrPatch a
-- closure around one of the three builders; for a DeviceConfig that is being deleted it calls
-- finalizeDeviceConfig instead. Controllers/FinalizeOrder and Controllers/ReconcileOrder take any
-- client, also one that fails at any call; Controllers/Requests has the requests of a chain of
-- methods, up to the first that fails. Controllers/Guard, Controllers/Converge and what builds on
-- them, Controllers/Steady too, take a client that reads what the API server holds and that
-- nobody else disturbs during one Reconcile: its patches are merge patches, which send a list as
-- a whole if it differs from that of the base, and a patch that fails may have taken effect.
-- Controllers/First and Controllers/Progress also take that every call succeeds, but for the
-- creation of a workload that has a container without an image, and Controllers/First that the
-- API server refuses that one; Controllers/Moves, Controllers/Retries and Controllers/Progress,
-- that between two calls of Reconcile the other controllers take their finalizers off an object
-- that was deleted, as KMM does with a Module, so that it is removed; and Controllers/Fixed,
-- Controllers/Fixes, Controllers/Twice and Controllers/Steady that the defaults of the API server
-- leave metadata alone, and the fields of a Module that the operator does not name. The DaemonSet
-- that reads metrics has no image, and an API server that validates pod templates refuses it:
-- Controllers/Handled and Controllers/Desired cover the error of handleNodeMetrics too, and
-- Controllers/First says what the first Reconcile leaves; what Controllers/Converge and
-- Controllers/Steady say of a Reconcile that returns nil is about API servers that accept it.
-- Controllers/Reach puts Reconciles and the moves of other actors into one relation, and says
-- which moves of others it allows. Controllers/Interleaved allows the same moves also between the
-- calls of one Reconcile, which Kube/Interleaved makes part of the client; Controllers/Shared
-- says what is asked of the calls of such a client. Controllers/Overwrites takes a DeviceConfig
-- that need not be the stored one.
--
-- A copy that setFinalizer and finalizeDeviceConfig make by DeepCopy, as the base of a patch, is
-- the DeviceConfig itself here, since values are not shared; the module Api/DeepCopy is about why
-- that is right. There is no loop but over a list, so there is no fuel. The numbers of a status
-- are signed, and decode_int32 keeps their bounds; other numbers are natural numbers, and the
-- code computes with none. A resource quantity is the text that it is parsed from.
--
-- Not modelled: the informational log; the flags in cmd/main.go, which only call libraries; the
-- document of a whole DeviceConfig, whose metadata is a library's; the queue of the manager, of
-- which Controllers/Retries takes that it hands the stored DeviceConfig to Reconcile; tests, but
-- for the flow of Reconcile over a mock; manifests and build files.
pub mod Common
pub mod K8s
pub mod Api
pub mod Kube
pub mod KmmModule
pub mod NodeMetrics
pub mod CustomScheduler
pub mod Controllers
pub mod Config
pub mod Cmd
pub mod Main
pub mod Mocks
pub mod Tests
