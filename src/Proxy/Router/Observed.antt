-- ===== src/Proxy/Router/Observed.antt =====
-- The endpoints that the router answers by itself.
use docker_socket_proxy.Common.{Bool}
use docker_socket_proxy.Http.{HeaderMaps}
use docker_socket_proxy.Security.Body.{Json}
use docker_socket_proxy.Middleware.{Bodies}
use docker_socket_proxy.Proxy.Handler.{Upstream, Sent}
use docker_socket_proxy.Proxy.Router.{Axum, SecurityLayer}
use docker_socket_proxy.Proxy.Router.Dispatch.{whole_router}

module _ (json : Json) (http : HeaderMaps) (bodies : Bodies) where
  open http use {HeaderMap}
  open bodies use {Body}

  module _ (axum : Axum HeaderMap Body) (send : Upstream Body → Sent HeaderMap Body)
      (connected : Bool) (security : SecurityLayer) where
    open axum use {
      Router, new, route, get, fallback, layer, merge, timeout_layer, dispatch, dispatch_fallback,
      dispatch_timeout, dispatch_route, dispatch_new, get_get, get_world, timeout_sent,
    }

    abbrev whole : Router
    whole = whole_router json http bodies axum send connected security
