-- ===== src/Proxy/Router/Dispatch.antt =====
-- What the router of `build_router` does without its timeout.
use docker_socket_proxy.Common.{Bool, codes, str_eq, ◌≡◌, ap, ◌∙◌, if◌then◌else◌}
use docker_socket_proxy.Http.{HeaderMaps, Request}
use docker_socket_proxy.Security.Body.{Json}
use docker_socket_proxy.Middleware.{Bodies}
use docker_socket_proxy.Proxy.Handler.{Upstream, Sent}
use docker_socket_proxy.Proxy.Router.{
  World, Handler, Axum, SecurityLayer, metrics_handler, health_handler, proxied, guard,
}

module _ (json : Json) (http : HeaderMaps) (bodies : Bodies) where
  open http use {HeaderMap}
  open bodies use {Body}

  module _ (axum : Axum HeaderMap Body) (send : Upstream Body → Sent HeaderMap Body)
      (connected : Bool) (security : SecurityLayer) where
    open axum use {
      Router, new, route, get, fallback, layer, merge, timeout_layer, dispatch, dispatch_fallback,
      dispatch_timeout, dispatch_route, dispatch_new, get_get, get_world, timeout_sent,
    }

    abbrev pub guarded : Handler HeaderMap Body
    guarded = guard json http bodies security (proxied json http bodies send)

    abbrev pub inner_router : Router
    inner_router =
        layer (fallback new (proxied json http bodies send)) (guard json http bodies security)

    abbrev pub observed_router : Router
    observed_router =
        route (route new (codes "/metrics") (get metrics_handler)) (codes "/healthz")
          (get (health_handler connected))

    abbrev pub whole_router : Router
    whole_router = merge observed_router inner_router

    -- What the router without the timeout does: one of the two endpoints, or the guarded handler.
    pub dispatch_lem :
        (request : Request HeaderMap Body) (world : World Body)
        → dispatch whole_router request world ≡ (
            if str_eq request.path (codes "/healthz")
            then get (health_handler connected) request world
            else if str_eq request.path (codes "/metrics")
            then get metrics_handler request world
            else guarded request world)
    dispatch_lem request world =
        dispatch_route (route new (codes "/metrics") (get metrics_handler)) inner_router
          (codes "/healthz") (get (health_handler connected)) request world
        ∙ ap
            (λ x.
              if str_eq request.path (codes "/healthz")
              then get (health_handler connected) request world
              else x)
            (dispatch_route new inner_router (codes "/metrics") (get metrics_handler) request world
              ∙ ap
                  (λ x.
                    if str_eq request.path (codes "/metrics")
                    then get metrics_handler request world
                    else x)
                  (dispatch_new inner_router request world
                    ∙ dispatch_fallback (proxied json http bodies send)
                        (guard json http bodies security) request world))
