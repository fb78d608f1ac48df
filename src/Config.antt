-- ===== src/Config.antt =====
-- src/config.rs: the configuration that clap fills in. Parsing the command line is clap's.
use docker_socket_proxy.Common.{ℕ, Str, codes, Option, Bool, false}

pub data LogFormat : Type 0 where
  json pretty : LogFormat

pub data SecurityProfile : Type 0 where
  default read_only container_runtime none : SecurityProfile

-- `std::net::IpAddr`: the address as a number.
pub data IpAddr : Type 0 where
  v4 v6 : ℕ → IpAddr

pub record Config : Type 0 where
  pub port : ℕ
  pub bind : IpAddr
  pub socket : Str
  pub allowlist : Option Str
  pub profile : SecurityProfile
  pub max_body_bytes : ℕ
  pub timeout_secs : ℕ
  pub health_check : Bool
  pub log_level : Str
  pub log_format : LogFormat

-- What clap fills in without arguments and variables.
abbrev pub defaults : Config
defaults = record {
  port = 2375;
  bind = v4 0x7F000001;
  socket = codes "/var/run/docker.sock";
  allowlist = Option.none;
  profile = default;
  max_body_bytes = 16777216;
  timeout_secs = 0;
  health_check = false;
  log_level = codes "info";
  log_format = json;
}
