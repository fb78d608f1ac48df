-- ===== src/Proxy/Assembly/Granted.antt =====
-- What the built-in profiles let through to the Docker socket.
use docker_socket_proxy.Common.{All-map, Bool, List, [], none, All, ◌≡◌, refl, sym, ◌∙◌}
use docker_socket_proxy.Config.{Config, SecurityProfile, default, read_only, container_runtime}
use docker_socket_proxy.Error.{ok}
use docker_socket_proxy.Http.{HeaderMaps, Request}
use docker_socket_proxy.Security.Body.{Json}
use docker_socket_proxy.Security.Filter.{check}
use docker_socket_proxy.Security.Filter.Decision.{check_iff}
use docker_socket_proxy.Security.Profile.{for_profile}
use docker_socket_proxy.Security.Profile.Grants.{Grants, for_profile_iff}
use docker_socket_proxy.Middleware.{Bodies}
use docker_socket_proxy.Policy.Environment.{
  get, list_of, env_methods, env_endpoints, apply_environment,
}
use docker_socket_proxy.Policy.Compat.{is_set, compat_names, compatibility_filter}
use docker_socket_proxy.Policy.Loader.{Host, load_document, base_filter, load}
use docker_socket_proxy.Proxy.Handler.{Upstream, Sent}
use docker_socket_proxy.Proxy.Handler.Made.{Made, Made-map}
use docker_socket_proxy.Proxy.Router.{Axum, serve_all}
use docker_socket_proxy.Proxy.Router.Guarded.{serve_all-permitted}
use mathlib.Core.Path.{subst}
use docker_socket_proxy.Security.Rule
use docker_socket_proxy.Security.Rules
use docker_socket_proxy.Policy.Document.{
  push_allow, push_deny, push_exclude, apply_set, apply_document,
}
use docker_socket_proxy.Proxy.Assembly.Enforced.{ok_inj, prepare-load}
use docker_socket_proxy.Proxy.Assembly.{layer_of, fresh, router_of}
use docker_socket_proxy.Proxy.Serve.{Setup, prepare}

-- Without a file and variables, the filter is the profile's.
pub load_bare :
    (host : Host) (profile : SecurityProfile) → load host none profile [] ≡ ok (for_profile profile)
unfolding load load_document base_filter compatibility_filter compat_names apply_environment
    apply_document env_methods env_endpoints list_of get push_allow push_deny push_exclude apply_set
    Rules.push Rule.extend Rule.is_inert Rules.push_rule Rule.insert_all is_set
load_bare host default = refl
load_bare host read_only = refl
load_bare host container_runtime = refl
load_bare host SecurityProfile.none = refl

module _ (json : Json) (http : HeaderMaps) (bodies : Bodies) where
  open http use {HeaderMap}
  open bodies use {Body}

  -- Without an allowlist file and without variables, each request that reaches the Docker socket was
  -- made of one that the server got, whose own path normalises to a path that the built-in profile
  -- grants with its method.
  pub router_of-Grants :
      (axum : Axum HeaderMap Body) (send : Upstream Body → Sent HeaderMap Body) (connected : Bool)
      (host : Host) (config : Config) (setup : Setup) (requests : List (Request HeaderMap Body))
      → config.allowlist ≡ none
      → prepare host config [] ≡ ok setup
      → All
          (Made http (Grants config.profile) requests)
          (serve_all json http bodies axum
            (router_of json http bodies axum send connected setup)
            requests
            (fresh setup)).sent
  unfolding router_of fresh
  router_of-Grants axum send connected host config setup requests bare prepared =
      All-map _ _ _
        (λ u.
          Made-map http _ _ requests requests u
            (λ method path permits. (for_profile_iff method path config.profile).0 (
              subst (λ f. check f method path ≡ ok tt) loaded
                ((check_iff (layer_of setup).filter method path).1 permits)))
            (λ r m. m))
        (serve_all-permitted json http bodies axum send connected (layer_of setup) setup.timeout
          requests (fresh setup) refl)
    where
      loaded : (layer_of setup).filter ≡ for_profile config.profile
      loaded = ok_inj (
          sym (rw bare at (prepare-load host config [] setup prepared))
          ∙ load_bare host config.profile)
