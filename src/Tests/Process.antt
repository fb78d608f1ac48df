-- ===== src/Tests/Process.antt =====
-- The process, its signals and the fuzz targets at concrete inputs.
use docker_socket_proxy.Common.{ℕ, [], ◌∷◌, Option, none, some, codes, ◌≡◌, ◌⊎◌, ◌↔◌, true, false}
use docker_socket_proxy.Config.{Config, v4, default, pretty}
use docker_socket_proxy.Observability.{response}
use docker_socket_proxy.Policy.Loader.{value}
use docker_socket_proxy.Proxy.Serve.{Network}
use docker_socket_proxy.Proxy.Shutdown.{
  sigint, heard, not_installed, shutdown_signal, Waited, shutdown_signal-Waited,
}
use docker_socket_proxy.Main.{System, main, IsHealthy, RanToTheEnd, main_iff}
use docker_socket_proxy.Tests.Fixtures.{host, timer}

abbrev config : Config
config = record {
  port = 2375;
  bind = v4 0;
  socket = codes "/var/run/docker.sock";
  allowlist = none;
  profile = default;
  max_body_bytes = 1024;
  timeout_secs = 0;
  health_check = false;
  log_level = codes "info";
  log_format = pretty;
}

abbrev system : System
system = record {
  runtime_error = none;
  exchange = λ address port request. response (codes "HTTP/1.1 200 OK");
  from_utf8_lossy = λ s. s;
}

abbrev network : Network (Option ℕ)
network = record {
  bind = λ address port. value tt;
  run = λ setup. value (some 3 ∷ none ∷ []);
  addr_text = λ address port. codes "0.0.0.0:2375";
}

main_iff_example : (main system host timer network config [] ≡ 0) ↔ (
    (system.runtime_error ≡ none)
    × (((config.health_check ≡ true) × IsHealthy system config)
        ⊎ ((config.health_check ≡ false) × RanToTheEnd system host timer network config [])))
main_iff_example = main_iff system host timer network config []

shutdown_signal-Waited_example :
    Waited
      (not_installed (codes "EINVAL"))
      (heard (some 4))
      (shutdown_signal sigint (not_installed (codes "EINVAL")) (heard (some 4)))
shutdown_signal-Waited_example =
    shutdown_signal-Waited sigint (not_installed (codes "EINVAL")) (heard (some 4))
