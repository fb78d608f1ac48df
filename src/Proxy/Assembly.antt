-- ===== src/Proxy/Assembly.antt =====
-- src/proxy.rs: the router that `serve` and `test_router` build.
pub mod Enforced
pub mod Granted
use docker_socket_proxy.Common.{Bool, ◌*◌, [], none}
use docker_socket_proxy.Http.{HeaderMaps}
use docker_socket_proxy.Observability.{zeroed}
use docker_socket_proxy.Security.Profile.{SecurityFilter}
use docker_socket_proxy.Security.Body.{Json}
use docker_socket_proxy.Middleware.{Bodies}
use docker_socket_proxy.Proxy.Handler.{Upstream, Sent}
use docker_socket_proxy.Proxy.Router.{World, Axum, SecurityLayer, build_router}
use docker_socket_proxy.Proxy.Serve.{Setup}

-- `SecurityLayer::new` on what `serve` prepared
unfoldable pub layer_of : Setup → SecurityLayer
layer_of setup = record { filter = setup.filter; max_body_bytes = setup.max_body_bytes }

-- what the requests share when serving begins
unfoldable pub fresh : {B : Type 0} → Setup → World B
fresh setup = record {
  trail = record { metrics = setup.metrics; log = [] };
  sent = [];
  warnings = [];
}

module _ (json : Json) (http : HeaderMaps) (bodies : Bodies) where
  open http use {HeaderMap}
  open bodies use {Body}

  module _ (axum : Axum HeaderMap Body) where
    open axum use {Router}

    -- the router of `serve`
    unfoldable pub router_of :
        (Upstream Body → Sent HeaderMap Body) → (connected : Bool) → Setup → Router
    router_of send connected setup =
        build_router json http bodies axum send connected (layer_of setup) setup.timeout

    unfoldable pub test_router :
        (Upstream Body → Sent HeaderMap Body) → (connected : Bool) → SecurityFilter → Router
    test_router send connected filter =
        build_router json http bodies axum send connected
          (record { filter = filter; max_body_bytes = 1024 * 1024 }) none
