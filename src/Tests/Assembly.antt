-- ===== src/Tests/Assembly.antt =====
-- What the router that `serve` builds keeps from the socket, for a concrete file.
use docker_socket_proxy.Common.{false, [], ◌∷◌, All, Member, codes, ◌≡◌, refl, true}
use docker_socket_proxy.Config.{Config, defaults, default, v4, read_only, pretty}
use docker_socket_proxy.Error.{ok}
use docker_socket_proxy.Observability.{zeroed}
use docker_socket_proxy.Security.Profile.{for_profile}
use docker_socket_proxy.Security.Profile.Grants.{all_writes, Grants}
use docker_socket_proxy.Policy.Merge.{merged}
use docker_socket_proxy.Proxy.Router.{serve_all}
use docker_socket_proxy.Proxy.Assembly.{fresh, router_of}
use docker_socket_proxy.Proxy.Assembly.Enforced.{
  NotExcluded, router_of-excludes, router_of_read_only,
}
use docker_socket_proxy.Proxy.Handler.Made.{Made}
use docker_socket_proxy.Proxy.Serve.{Setup, prepare, request_timeout}
use docker_socket_proxy.Proxy.Assembly.Granted.{load_bare, router_of-Grants}
use docker_socket_proxy.Tests.Fixtures.{json, http, bodies, host}
use docker_socket_proxy.Tests.Loading.{document, file, reads, loads_read_only}
use docker_socket_proxy.Tests.Router.{axum, answers, get_path}

abbrev config : Config
config = record {
  port = 2375;
  bind = v4 0;
  socket = codes "/var/run/docker.sock";
  allowlist = file;
  profile = read_only;
  max_body_bytes = 1024;
  timeout_secs = 30;
  health_check = false;
  log_level = codes "info";
  log_format = pretty;
}

abbrev setup : Setup
setup = record {
  filter = merged (for_profile read_only) document [];
  max_body_bytes = 1024;
  metrics = zeroed;
  docker_socket = codes "/var/run/docker.sock";
  timeout = request_timeout 30;
  bind = v4 0;
  port = 2375;
}

prepared : prepare host config [] ≡ ok setup
unfolding prepare
prepared = rw loads_read_only refl

router_of-excludes_example :
    All
      (Made http
        (NotExcluded document [])
        (get_path (codes "/info") ∷ get_path (codes "/version") ∷ []))
      (serve_all json http bodies axum
        (router_of json http bodies axum answers true setup)
        (get_path (codes "/info") ∷ get_path (codes "/version") ∷ [])
        (fresh setup)).sent
router_of-excludes_example =
    router_of-excludes json http bodies axum answers true host config [] setup prepared document
      (get_path (codes "/info") ∷ get_path (codes "/version") ∷ []) reads

router_of_read_only_example :
    All
      (λ u. ¬ Member u.method all_writes)
      (serve_all json http bodies axum
        (router_of json http bodies axum answers true setup)
        (get_path (codes "/info") ∷ get_path (codes "/version") ∷ [])
        (fresh setup)).sent
router_of_read_only_example =
    router_of_read_only json http bodies axum answers true host config [] setup prepared
      (get_path (codes "/info") ∷ get_path (codes "/version") ∷ []) refl

-- the set-up of the default configuration without variables
abbrev default_setup : Setup
default_setup = record {
  filter = for_profile default;
  max_body_bytes = 16777216;
  metrics = zeroed;
  docker_socket = codes "/var/run/docker.sock";
  timeout = request_timeout 0;
  bind = v4 0x7F000001;
  port = 2375;
}

prepared_default : prepare host defaults [] ≡ ok default_setup
unfolding prepare
prepared_default = rw (load_bare host default) refl

router_of-Grants_example :
    All
      (Made http (Grants default) (get_path (codes "/info") ∷ get_path (codes "/secrets") ∷ []))
      (serve_all json http bodies axum
        (router_of json http bodies axum answers true default_setup)
        (get_path (codes "/info") ∷ get_path (codes "/secrets") ∷ [])
        (fresh default_setup)).sent
router_of-Grants_example =
    router_of-Grants json http bodies axum answers true host defaults default_setup
      (get_path (codes "/info") ∷ get_path (codes "/secrets") ∷ []) refl prepared_default
