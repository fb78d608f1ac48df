-- ===== src/Tests/Router.antt =====
-- The router at concrete requests, with a small stand-in for axum.
use docker_socket_proxy.Common.{
  true, false, [], ◌∷◌, none, some, All, Str, codes, str_eq, str_eq_iff, if◌then◌else◌, ◌≡◌, ◌⊎◌,
  inl, inr, refl, Bool-cases,
}
use docker_socket_proxy.Config.{default}
use docker_socket_proxy.Http.{Headers, Request}
use docker_socket_proxy.Observability.{zeroed}
use docker_socket_proxy.Security.Profile.{for_profile}
use docker_socket_proxy.Middleware.{Collected, collected}
use docker_socket_proxy.Proxy.Handler.{Upstream, Sent, received}
use docker_socket_proxy.Proxy.Router.{
  World, framework, Handler, Axum, SecurityLayer, build_router, serve_all,
}
use docker_socket_proxy.Proxy.Router.Guarded.{serve_all-permitted}
use docker_socket_proxy.Proxy.Handler.Made.{Made}
use docker_socket_proxy.Security.Filter.Decision.{Permits}
use docker_socket_proxy.Tests.Fixtures.{json, http, bodies}

abbrev Handling : Type 0
Handling = Handler Headers Collected

-- A router as what it does around the handler that takes what it does not match.
abbrev routed : (Handling → Handling) → Str → Handling → Handling → Handling
routed r path h other request world =
    if str_eq request.path path then h request world else r other request world

abbrev on_get : Handling → Handling
on_get h request world =
    if str_eq request.method (codes "GET") then h request world else (framework 405, world)

abbrev not_found : Handling
not_found request world = (framework 404, world)

pub on_get-get :
    (h : Handling) (q : Request Headers Collected) (w : World Collected)
    → q.method ≡ codes "GET"
    → on_get h q w ≡ h q w
on_get-get h q w is = rw ((str_eq_iff q.method (codes "GET")).1 is) refl

pub on_get-world :
    (h : Handling) (q : Request Headers Collected) (w : World Collected)
    → ((on_get h q w).1 ≡ (h q w).1) ⊎ ((on_get h q w).1 ≡ w)
on_get-world h q w = elim (Bool-cases (str_eq q.method (codes "GET"))) [
  | inl is ↦ inl (rw is refl)
  | inr other ↦ inr (rw other refl)
]

abbrev pub axum : Axum Headers Collected
axum = record {
  Router = Handling → Handling;
  new = λ other. other;
  route = routed;
  get = on_get;
  fallback = λ r h other. r h;
  layer = λ r f other. f (r other);
  merge = λ a b other. a (b other);
  timeout_layer = λ status seconds h. h;
  dispatch = λ r. r not_found;
  dispatch_fallback = λ h f q w. refl;
  dispatch_timeout = λ r status seconds q w. refl;
  dispatch_route = λ r other path h q w. refl;
  dispatch_new = λ other q w. refl;
  get_get = on_get-get;
  get_world = on_get-world;
  timeout_sent = λ status seconds h q w one. inr refl;
}

abbrev pub answers : Upstream Collected → Sent Headers Collected
answers upstream = received record { status = 200; headers = []; body = collected (codes "x") }

abbrev security : SecurityLayer
security = record { filter = for_profile default; max_body_bytes = 4 }

abbrev world : World Collected
world = record { trail = record { metrics = zeroed; log = [] }; sent = []; warnings = [] }

abbrev pub get_path : Str → Request Headers Collected
get_path path = record {
  method = codes "GET";
  path = path;
  query = none;
  headers = [];
  on_upgrade = false;
  body = collected [];
}

serve_all-permitted_example :
    All
      (Made http
        (Permits (for_profile default))
        (get_path (codes "/info") ∷ get_path (codes "/secrets") ∷ []))
      (serve_all json http bodies axum
        (build_router json http bodies axum answers true security (some 30))
        (get_path (codes "/info") ∷ get_path (codes "/secrets") ∷ [])
        world).sent
serve_all-permitted_example =
    serve_all-permitted json http bodies axum answers true security (some 30)
      (get_path (codes "/info") ∷ get_path (codes "/secrets") ∷ []) world refl
