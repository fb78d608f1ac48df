-- ===== src/Proxy/Router/Guarded.antt =====
-- What reaches the Docker socket through the router.
use mathlib.Core.Path.{subst}
use docker_socket_proxy.Common.{
  ℕ, Bool, List, [], ◌∷◌, Option, none, some, All, Member, ◌++◌, codes, str_eq, ◌≡◌, ◌⊎◌, inl, inr,
  refl, sym, ap, ◌∙◌, Bool-cases,
}
use docker_socket_proxy.Error.{Result, ok, err}
use docker_socket_proxy.Http.{HeaderMaps, Request}
use docker_socket_proxy.Security.Profile.{SecurityFilter}
use docker_socket_proxy.Security.Filter.Decision.{Permits}
use docker_socket_proxy.Security.Body.{Json}
use docker_socket_proxy.Middleware.{Bodies, Trail, Reply, refused, served, SecurityService, call}
use docker_socket_proxy.Middleware.Admission.{Admitted}
use docker_socket_proxy.Middleware.Enforcement.{call-served}
use docker_socket_proxy.Proxy.Handler.{Upstream, Sent, build_request, upstream_request}
use docker_socket_proxy.Proxy.Handler.Made.{Made, Made-map}
use docker_socket_proxy.Proxy.Router.{
  World, Answer, Handler, SendsOne, Axum, SecurityLayer, layer_service, metrics_handler,
  health_handler, if_built, sent_by, proxied, settle, guard, timed, build_router, serve_all,
}
use docker_socket_proxy.Proxy.Router.Dispatch.{whole_router, dispatch_lem}

-- What one request adds to what was sent: nothing, or one request that was made of it and is permitted.
abbrev pub Adds :
    (http : HeaderMaps) {B : Type 0}
    → SecurityFilter
    → Request http.HeaderMap B
    → World B
    → World B
    → Type 0
Adds http {B} filter request before after =
    (after.sent ≡ before.sent)
    ⊎ ((u : Upstream B) × (after.sent ≡ u ∷ before.sent)
        × Made http (Permits filter) (request ∷ []) u)

if_built_cases :
    {B : Type 0} (built : Result (Unit {0})) (u : Upstream B)
    → (if_built built u ≡ []) ⊎ (if_built built u ≡ u ∷ [])
unfolding if_built
if_built_cases (ok b) u = inr refl
if_built_cases (err e) u = inl refl

module _ (json : Json) (http : HeaderMaps) (bodies : Bodies) where
  open http use {HeaderMap}
  open bodies use {Body}

  -- The request that the handler makes of an admitted one.
  pub Admitted-Made :
      {R : Type 0} (service : SecurityService HeaderMap Body R) (request : Request HeaderMap Body)
      (body : Body) (requests : List (Request HeaderMap Body))
      → Admitted json http bodies service request body
      → Member request requests
      → Made http
          (Permits service.filter)
          requests
          (upstream_request http (record request { body = body }))
  Admitted-Made service request body requests admitted listed = record {
    request = request;
    listed = listed;
    body = body;
    made = refl;
    normalized = admitted.normalized;
    is_normalized = admitted.is_normalized;
    fits = admitted.permitted;
  }

  -- It is sent, if it can be built.
  pub sent_by_cases :
      (request : Request HeaderMap Body)
      → (sent_by json http bodies request ≡ [])
        ⊎ (sent_by json http bodies request ≡ upstream_request http request ∷ [])
  unfolding sent_by
  sent_by_cases request = if_built_cases (build_request http (upstream_request http request)) _

  guard-Adds :
      (security : SecurityLayer) (send : Upstream Body → Sent HeaderMap Body)
      (request : Request HeaderMap Body) (world : World Body)
      → Adds http security.filter request world
          (guard json http bodies security (proxied json http bodies send) request world).1
  unfolding guard settle layer_service proxied
  guard-Adds security send request world =
      go
        (call json http bodies (layer_service security (proxied json http bodies send)) request
          world.trail)
        refl
    where
      go :
          (outcome : Reply (World Body → Answer Body × World Body) × Trail)
          → call json http bodies
              (layer_service security (proxied json http bodies send))
              request
              world.trail
            ≡ outcome
          → Adds http security.filter request world (settle json http bodies world outcome).1
      go (refused response, trail) is = inl refl
      go (served inner, trail) is =
          let (body, admitted, (same, _)) =
            call-served json http bodies (layer_service security (proxied json http bodies send))
              request world.trail trail inner is in
          let sends =
            ap
              (λ (k : World Body → Answer Body × World Body).
                (k (record world { trail = trail })).1.sent)
              same in
          elim (sent_by_cases (record request { body = body })) [
            | inl nothing ↦ inl (sends ∙ ap (λ us. us ++ world.sent) nothing)
            | inr one ↦ inr (
              upstream_request http (record request { body = body }),
              sends ∙ ap (λ us. us ++ world.sent) one,
              Admitted-Made (layer_service security (proxied json http bodies send)) request body
                  (request ∷ []) admitted (inl refl),
            )
          ]

  module _ (axum : Axum HeaderMap Body) (send : Upstream Body → Sent HeaderMap Body)
      (connected : Bool) (security : SecurityLayer) where
    open axum use {
      Router, new, route, get, fallback, layer, merge, timeout_layer, dispatch, dispatch_fallback,
      dispatch_timeout, dispatch_route, dispatch_new, get_get, get_world, timeout_sent,
    }

    abbrev whole : Router
    whole = whole_router json http bodies axum send connected security

    get-Adds :
        (h : Handler HeaderMap Body) (request : Request HeaderMap Body) (world : World Body)
        → (h request world).1.sent ≡ world.sent
        → Adds http security.filter request world (get h request world).1
    get-Adds h request world quiet = elim (get_world h request world) [
      | inl same ↦ inl (ap (λ (w : World Body). w.sent) same ∙ quiet)
      | inr same ↦ inl (ap (λ (w : World Body). w.sent) same)
    ]

    dispatch-Adds :
        (request : Request HeaderMap Body) (world : World Body)
        → Adds http security.filter request world (dispatch whole request world).1
    dispatch-Adds request world =
        rw (dispatch_lem json http bodies axum send connected security request world)
          (elim (Bool-cases (str_eq request.path (codes "/healthz"))) [
            | inl hit ↦
                rw hit (
                  get-Adds (health_handler connected) request world (unfold health_handler in refl))
            | inr miss ↦ rw miss (elim (Bool-cases (str_eq request.path (codes "/metrics"))) [
              | inl hit ↦
                  rw hit (get-Adds metrics_handler request world (unfold metrics_handler in refl))
              | inr other ↦ rw other (guard-Adds security send request world)
            ])
          ])

    Adds-SendsOne :
        (h : Handler HeaderMap Body) (request : Request HeaderMap Body) (world : World Body)
        → Adds http security.filter request world (h request world).1
        → SendsOne h request world
    Adds-SendsOne h request world (inl same) = inl same
    Adds-SendsOne h request world (inr (u, same, _)) = inr (u, same)

    timed-Adds :
        (seconds : ℕ) (request : Request HeaderMap Body) (world : World Body)
        → Adds http security.filter request world
            (dispatch (layer (whole) (timeout_layer 504 seconds)) request world).1
    timed-Adds seconds request world =
        let serves = dispatch whole in
        let adds = dispatch-Adds request world in
        rw (dispatch_timeout (whole) 504 seconds request world)
          (elim (timeout_sent 504 seconds serves request world
            (Adds-SendsOne serves request world adds)) [
              | inl dropped ↦ inl dropped
              | inr ran ↦ elim adds [
                | inl same ↦ inl (ran ∙ same)
                | inr (u, same, permitted) ↦ inr (u, ran ∙ same, permitted)
              ]
            ])

    build_router-Adds :
        (timeout : Option ℕ) (request : Request HeaderMap Body) (world : World Body)
        → Adds http security.filter request world
            (dispatch
              (build_router json http bodies axum send connected security timeout)
              request
              world).1
    unfolding build_router timed
    build_router-Adds none request world = dispatch-Adds request world
    build_router-Adds (some seconds) request world = timed-Adds seconds request world

    -- One request more: it may be what the next request to the socket is made of.
    serve_all-Made :
        (timeout : Option ℕ) (requests every : List (Request HeaderMap Body)) (world : World Body)
        → ((request : Request HeaderMap Body) → Member request requests → Member request every)
        → All (Made http (Permits security.filter) every) world.sent
        → All
            (Made http (Permits security.filter) every)
            (serve_all json http bodies axum
              (build_router json http bodies axum send connected security timeout)
              requests
              world).sent
    unfolding serve_all
    serve_all-Made timeout [] every world among h = h
    serve_all-Made timeout (request ∷ rest) every world among h =
        serve_all-Made timeout rest every
          (dispatch (build_router json http bodies axum send connected security timeout) request
            world).1
          (λ r m. among r (inr m))
          (elim (build_router-Adds timeout request world) [
            | inl same ↦ subst (All (Made http (Permits security.filter) every)) (sym same) h
            | inr (u, same, made) ↦
                subst (All (Made http (Permits security.filter) every)) (sym same) (
                  Made-map http _ _ (request ∷ []) every u (λ m p fits. fits)
                      (λ r m. elim m [ inl e ↦ among r (inl e) | inr no_more ↦ absurd no_more ])
                      made,
                  h,
                )
          ])

    -- Whatever requests the router serves, one after the other, and whatever the timeout, each request
    -- that reaches the Docker socket was made of one of them, whose own path normalises to a path that
    -- the policy permits with its method.
    pub serve_all-permitted :
        (timeout : Option ℕ) (requests : List (Request HeaderMap Body)) (world : World Body)
        → world.sent ≡ []
        → All
            (Made http (Permits security.filter) requests)
            (serve_all json http bodies axum
              (build_router json http bodies axum send connected security timeout)
              requests
              world).sent
    serve_all-permitted timeout requests world nothing =
        serve_all-Made timeout requests requests world (λ r m. m)
          (subst (All (Made http (Permits security.filter) requests)) (sym nothing) tt)
