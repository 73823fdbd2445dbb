-- ===== src/Config.antt =====
-- internal/config/config.go: the configuration file, and the manager's options.
pub mod Laws
use operator_for_ai_chips_on.Common.{String, Bool, false, Option, none, Error, Result, ok, err}
use operator_for_ai_chips_on.Kube.{Util, wrapf}

pub record LeaderElection : Type 0 where
  pub enabled : Bool
  pub resource_id : String

pub record Config : Type 0 where
  pub health_probe_bind_address : String
  pub metrics_bind_address : String
  pub leader_election : LeaderElection

-- manager.Options, with the fields that the operator sets; a nil scheme is `none`.
pub record Options (U : Util) : Type 0 where
  pub health_probe_bind_address : String
  pub leader_election : Bool
  pub leader_election_id : String
  pub metrics_bind_address : String
  pub scheme : Option U.Scheme

-- `Config{}`, from which the decoder starts.
abbrev pub zero_config : Config
zero_config = record {
  health_probe_bind_address = "";
  metrics_bind_address = "";
  leader_election = record { enabled = false; resource_id = "" };
}

module _ (U : Util) where
  -- os.Open, and Decode of a YAML decoder, which overwrites the fields that the document names.
  pub record Files : Type 1 where
    pub File : Type 0
    pub open_file : String → Result U.Failure File
    pub decode : File → Config → Result U.Failure Config

  -- The document behind an open file. Its handle is closed in either case, and an error of that is
  -- ignored.
  unfoldable pub parse_document : (fs : Files) → fs.File → Result U.Failure Config
  unfolding wrapf
  parse_document fs fd = elim (fs.decode fd zero_config) [
    | err e ↦ err (wrapf U "could not decode configuration file: " e)
    | ok cfg ↦ ok cfg
  ]

  unfoldable pub parse_file : Files → String → Result U.Failure Config
  unfolding parse_document wrapf
  parse_file fs path = elim (fs.open_file path) [
    | err e ↦ err (wrapf U "could not open the configuration file: " e)
    | ok fd ↦ parse_document fs fd
  ]

  unfoldable pub manager_options : Config → Options U
  manager_options c = record {
    health_probe_bind_address = c.health_probe_bind_address;
    leader_election = c.leader_election.enabled;
    leader_election_id = c.leader_election.resource_id;
    metrics_bind_address = c.metrics_bind_address;
    scheme = none;
  }
