-- ===== src/Main.antt =====
-- cmd/main.go: the start of the operator.
pub mod Laws
pub mod Scheme
use operator_for_ai_chips_on.Common.{
  String, List, [], ◌∷◌, ◌++◌, Option, none, some, Error, Result, ok, err,
}
use operator_for_ai_chips_on.Kube.{Util, Client, GoError}
use operator_for_ai_chips_on.KmmModule.{new_kmm_module}
use operator_for_ai_chips_on.CustomScheduler.{new_custom_scheduler}
use operator_for_ai_chips_on.NodeMetrics.{new_node_metrics}
use operator_for_ai_chips_on.Controllers.Setup.{
  Registration, DeviceConfigReconciler, new_device_config_reconciler, setup_with_manager,
}
use operator_for_ai_chips_on.Config.{Config, Options, Files, parse_file, manager_options}
use operator_for_ai_chips_on.Cmd.{Event, started, running, Process, pure, ◌>>=◌, fatal_error}

-- The manager, the file system and the scheme: what the libraries give.
pub record Platform (U : Util) : Type 1 where
  pub files : Files U
  pub scheme : U.Scheme
  pub Manager : Type 0
  -- ctrl.NewManager, with the configuration of the cluster that ctrl.GetConfigOrDie found
  pub new_manager : Options U → Result U.Failure Manager
  pub get_client : Manager → Client U
  pub complete : (m : Manager) → Registration → DeviceConfigReconciler (get_client m) → GoError U
  -- AddHealthzCheck and AddReadyzCheck of healthz.Ping
  pub add_healthz_check : Manager → String → GoError U
  pub add_readyz_check : Manager → String → GoError U
  -- Start, which blocks while the manager runs
  pub start : Manager → GoError U

module _ {U : Util} (platform : Platform U) where
  -- `if err != nil { cmd.FatalError(setupLogger, err, msg) }`
  unfoldable pub check : GoError U → String → Process U.Failure (Unit {0})
  unfolding fatal_error
  check none msg = pure tt
  check (some e) msg = fatal_error e msg

  -- The same where there is a value too.
  unfoldable pub check_result : {A : Type 0} → Result U.Failure A → String → Process U.Failure A
  unfolding fatal_error
  check_result (ok a) msg = pure a
  check_result (err e) msg = fatal_error e msg

  -- The reconciler that is registered with the manager.
  unfoldable pub reconciler_of :
      (m : platform.Manager) → DeviceConfigReconciler (platform.get_client m)
  reconciler_of m =
      new_device_config_reconciler (platform.get_client m) (new_kmm_module U platform.scheme)
        new_custom_scheduler (new_node_metrics U platform.scheme) platform.scheme

  -- options := cfg.ManagerOptions(); options.Scheme = scheme
  unfoldable pub options_of : Config → Options U
  options_of cfg = record (manager_options U cfg) { scheme = some platform.scheme }

  -- mgr.Start
  unfoldable pub start_manager : platform.Manager → Process U.Failure (Unit {0})
  unfolding check
  start_manager m log = check (platform.start m) "problem running manager" (log ++ (started ∷ []))

  -- What is done with the manager.
  unfoldable pub set_up : platform.Manager → Process U.Failure (Unit {0})
  unfolding check
  set_up m = do
    _ ←
        check (setup_with_manager (platform.get_client m) (reconciler_of m) (platform.complete m))
          "unable to create controller"
    _ ← check (platform.add_healthz_check m "healthz") "unable to set up health check"
    check (platform.add_readyz_check m "readyz") "unable to set up ready check"

  -- main, after the flags are parsed
  unfoldable pub main : (config_file : String) → Process U.Failure (Unit {0})
  unfolding check_result
  main config_file = do
    cfg ←
        check_result (parse_file U platform.files config_file)
          "could not parse the configuration file"
    mgr ← check_result (platform.new_manager (options_of cfg)) "unable to create manager"
    _ ← set_up mgr
    start_manager mgr
