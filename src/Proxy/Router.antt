-- ===== src/Proxy/Router.antt =====
-- src/proxy.rs, `build_router`, with the layer of src/middleware.rs around the handler. axum's routers
-- and tower-http's timeout are the interface `Axum`.
pub mod Dispatch
pub mod Guarded
pub mod Observed
use docker_socket_proxy.Common.{
  ℕ, Bool, List, [], ◌∷◌, ◌++◌, Option, none, some, if◌then◌else◌, Str, codes, str_eq, ◌≡◌, ◌⊎◌,
}
use docker_socket_proxy.Error.{Result, ok, err, ErrorResponse, into_response}
use docker_socket_proxy.Http.{HeaderMaps, Request}
use docker_socket_proxy.Observability.{Report, metrics, health, health_warnings}
use docker_socket_proxy.Security.Profile.{SecurityFilter}
use docker_socket_proxy.Security.Body.{Json}
use docker_socket_proxy.Middleware.{Bodies, Trail, Reply, refused, served, SecurityService, call}
use docker_socket_proxy.Proxy.Handler.{
  Upstream, Sent, Relayed, upstream_request, build_request, proxy_handler,
}

-- What the requests share: the counters and the audit log, what went to the Docker socket, last first,
-- and the warnings of the health check.
pub record World (B : Type 0) : Type 0 where
  pub trail : Trail
  pub sent : List (Upstream B)
  pub warnings : List Str

-- An answer to the client: of this program's endpoints, an error, the daemon's, or a status that axum
-- or the timeout answers with by itself.
pub data Answer (B : Type 0) : Type 0 where
  reported : Report → Answer B
  failed : ErrorResponse → Answer B
  forwarded : Relayed B → Answer B
  framework : ℕ → Answer B

abbrev pub Handler : Type 0 → Type 0 → Type 0
Handler H B = Request H B → World B → Answer B × World B

-- Whether a handler, on a request, sent nothing or one request to the socket.
abbrev pub SendsOne : {H B : Type 0} → Handler H B → Request H B → World B → Type 0
SendsOne {B = B} handler request world =
    ((handler request world).1.sent ≡ world.sent)
    ⊎ ((u : Upstream B) × ((handler request world).1.sent ≡ u ∷ world.sent))

-- A route takes the requests on exactly its path. `get(…)` runs its handler on GET; on another method
-- it runs the handler for its effects or does nothing. A router with a fallback only gives it each
-- request, and its layer wraps it. A timeout that fires has dropped the handler before or after the
-- request to the socket was sent.
pub record Axum (H B : Type 0) : Type 1 where
  pub Router : Type 0
  pub new : Router
  pub route : Router → Str → Handler H B → Router
  pub get : Handler H B → Handler H B
  pub fallback : Router → Handler H B → Router
  pub layer : Router → (Handler H B → Handler H B) → Router
  pub merge : Router → Router → Router
  pub timeout_layer : (status : ℕ) → (seconds : ℕ) → Handler H B → Handler H B
  pub dispatch : Router → Handler H B
  pub dispatch_fallback :
      (h : Handler H B) (f : Handler H B → Handler H B) (q : Request H B) (w : World B)
      → dispatch (layer (fallback new h) f) q w ≡ f h q w
  pub dispatch_timeout :
      (r : Router) (status seconds : ℕ) (q : Request H B) (w : World B)
      → dispatch (layer r (timeout_layer status seconds)) q w
        ≡ timeout_layer status seconds (dispatch r) q w
  pub dispatch_route :
      (r other : Router) (path : Str) (h : Handler H B) (q : Request H B) (w : World B)
      → dispatch (merge (route r path h) other) q w
        ≡ (if str_eq q.path path then h q w else dispatch (merge r other) q w)
  pub dispatch_new :
      (other : Router) (q : Request H B) (w : World B)
      → dispatch (merge new other) q w ≡ dispatch other q w
  pub get_get :
      (h : Handler H B) (q : Request H B) (w : World B) → q.method ≡ codes "GET" → get h q w ≡ h q w
  pub get_world :
      (h : Handler H B) (q : Request H B) (w : World B)
      → ((get h q w).1 ≡ (h q w).1) ⊎ ((get h q w).1 ≡ w)
  pub timeout_sent :
      (status seconds : ℕ) (h : Handler H B) (q : Request H B) (w : World B)
      → SendsOne h q w
      → ((timeout_layer status seconds h q w).1.sent ≡ w.sent)
        ⊎ ((timeout_layer status seconds h q w).1.sent ≡ (h q w).1.sent)

-- `SecurityLayer`; its counters are the world's.
pub record SecurityLayer : Type 0 where
  pub filter : SecurityFilter
  pub max_body_bytes : ℕ

-- `impl Layer for SecurityLayer`
unfoldable pub layer_service :
    {H B R : Type 0} → SecurityLayer → (Request H B → R) → SecurityService H B R
layer_service security inner = record {
  inner = inner;
  filter = security.filter;
  max_body_bytes = security.max_body_bytes;
}

-- `/metrics` and `/healthz`
unfoldable pub metrics_handler : {H B : Type 0} → Handler H B
metrics_handler request world = (reported (metrics world.trail.metrics), world)

unfoldable pub health_handler : {H B : Type 0} → (connected : Bool) → Handler H B
health_handler connected request world = (
  reported (health connected),
  record world { warnings = world.warnings ++ health_warnings connected },
)

-- the answer of a handler that returns `Result<Response, ProxyError>`
unfoldable pub answer_of : {B : Type 0} → Result (Relayed B) → Answer B
answer_of (ok response) = forwarded response
answer_of (err e) = failed (into_response e)

-- the request, where it could be built
unfoldable pub if_built : {B : Type 0} → Result (Unit {0}) → Upstream B → List (Upstream B)
if_built (ok built) u = u ∷ []
if_built (err e) u = []

module _ (json : Json) (http : HeaderMaps) (bodies : Bodies) where
  open http use {HeaderMap}
  open bodies use {Body}

  -- What `proxy_handler` sends: its request, if that can be built.
  unfoldable pub sent_by : Request HeaderMap Body → List (Upstream Body)
  sent_by request =
      if_built (build_request http (upstream_request http request)) (upstream_request http request)

  -- `proxy_handler`, and what it sends
  unfoldable pub proxied : (Upstream Body → Sent HeaderMap Body) → Handler HeaderMap Body
  proxied send request world = (
    answer_of (proxy_handler http send request),
    record world { sent = sent_by request ++ world.sent },
  )

  -- The inner service of the layer runs on the world that the layer leaves.
  unfoldable pub settle :
      World Body → Reply (World Body → Answer Body × World Body) × Trail → Answer Body × World Body
  settle world (refused response, trail) = (failed response, record world { trail = trail })
  settle world (served inner, trail) = inner (record world { trail = trail })

  unfoldable pub guard : SecurityLayer → Handler HeaderMap Body → Handler HeaderMap Body
  guard security handler request world =
      settle world (call json http bodies (layer_service security handler) request world.trail)

  module _ (axum : Axum HeaderMap Body) where
    open axum use {Router, new, route, get, fallback, layer, merge, timeout_layer, dispatch}

    unfoldable pub timed : Option ℕ → Router → Router
    timed none router = router
    timed (some seconds) router = layer router (timeout_layer 504 seconds)

    unfoldable pub build_router :
        (Upstream Body → Sent HeaderMap Body)
        → (connected : Bool) → SecurityLayer
        → Option ℕ
        → Router
    build_router send connected security timeout =
        let observed =
          route (route new (codes "/metrics") (get metrics_handler)) (codes "/healthz")
            (get (health_handler connected)) in
        timed timeout (merge observed (layer (fallback new (proxied send)) (guard security)))

    -- the requests that a router serves, one after the other
    unfoldable pub serve_all : Router → List (Request HeaderMap Body) → World Body → World Body
    serve_all router [] world = world
    serve_all router (request ∷ rest) world =
        serve_all router rest (dispatch router request world).1
