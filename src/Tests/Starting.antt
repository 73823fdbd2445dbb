-- ===== src/Tests/Starting.antt =====
-- The start of the process, over a file system and a manager in memory.
use operator_for_ai_chips_on.Common.{
  String, ◌==◌, ◌≡◌, ◌↔◌, refl, true, Option, none, some, [], ◌∷◌, external, errorf, ok, err,
  if◌then◌else◌,
}
use operator_for_ai_chips_on.Kube.Memory.{memory_util, memory_client, not_found, renamed}
use operator_for_ai_chips_on.Config.{
  Config, Files, Options, zero_config, parse_file, parse_document,
}
use operator_for_ai_chips_on.Config.Laws.{parse_file-ok}
use operator_for_ai_chips_on.Cmd.{logged, started, running, exited, fatal_error}
use operator_for_ai_chips_on.Main.{Platform, main, check, check_result, set_up, start_manager}
use operator_for_ai_chips_on.Main.Laws.{Ends, main-Ends}
use operator_for_ai_chips_on.Controllers.Setup.{setup_with_manager}

abbrev elected : Config
elected = record {
  health_probe_bind_address = ":8081";
  metrics_bind_address = "127.0.0.1:8080";
  leader_election = record { enabled = true; resource_id = "awslabs.k8s.aws" };
}

-- A file system with one file that decodes and one that does not.
abbrev files : Files memory_util
files = record {
  File = String;
  open_file = λ path.
      if path == "good.yaml"
      then ok path
      else if path == "bad.yaml"
      then ok path
      else err (external not_found);
  decode = λ fd cfg. if fd == "good.yaml" then ok elected else err (external renamed);
}

-- A manager that starts, and fails in the end if an argument is given.
abbrev platform : Option (Unit {0}) → Platform memory_util
platform fails = record {
  files = files;
  scheme = tt;
  Manager = Options memory_util;
  new_manager = λ o. ok o;
  get_client = λ m. memory_client;
  complete = λ m r c. none;
  add_healthz_check = λ m n. none;
  add_readyz_check = λ m n. none;
  start = λ m. elim fails [ none ↦ none | some _ ↦ some (external renamed) ];
}

good_run : main (platform none) "good.yaml" [] ≡ running tt (started ∷ [])
unfolding main parse_file parse_document set_up start_manager check check_result setup_with_manager
good_run = refl

broken_run :
    main (platform (some tt)) "good.yaml" []
    ≡ exited 1 (started ∷ logged (external renamed) "problem running manager" ∷ [])
unfolding main parse_file parse_document set_up start_manager check check_result setup_with_manager
    fatal_error
broken_run = refl

bad_file :
    main (platform none) "bad.yaml" []
    ≡ exited 1 (
        logged
          (errorf "could not decode configuration file: renamed")
          "could not parse the configuration file"
        ∷ [])
unfolding main parse_file parse_document check_result fatal_error
bad_file = refl

main-Ends_example : Ends (platform none) "good.yaml" (main (platform none) "good.yaml" [])
main-Ends_example = main-Ends (platform none) "good.yaml"

parse_file-ok_example : (parse_file memory_util files "good.yaml" ≡ ok elected) ↔ (
    (fd : String) × (files.open_file "good.yaml" ≡ ok fd)
    × (files.decode fd zero_config ≡ ok elected))
parse_file-ok_example = parse_file-ok memory_util files "good.yaml" elected

abbrev home : String
home = "/root"

abbrev getenv : String → String
getenv name = if name == "HOME" then home else ""
