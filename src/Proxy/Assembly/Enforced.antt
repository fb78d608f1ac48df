-- ===== src/Proxy/Assembly/Enforced.antt =====
-- What the file, the variables and the profile keep from the Docker socket.
use docker_socket_proxy.Common.{
  All-map, Bool, List, inl, inr, All, Member, Str, codes, ◌≡◌, refl, ap, ◌∙◌,
}
use docker_socket_proxy.Config.{Config, read_only}
use docker_socket_proxy.Error.{ProxyError, Result, ok, err, >>=-eq-ok}
use docker_socket_proxy.Http.{HeaderMaps, Request}
use docker_socket_proxy.Security.Body.{Json}
use docker_socket_proxy.Security.Filter.Decision.{Permits, check_iff}
use docker_socket_proxy.Security.Profile.Grants.{all_writes}
use docker_socket_proxy.Middleware.{Bodies}
use docker_socket_proxy.Policy.Document.{PolicyDocument}
use docker_socket_proxy.Policy.Environment.{Env}
use docker_socket_proxy.Policy.Loader.{Host, load_document, load}
use docker_socket_proxy.Policy.Loader.Laws.{load-exclude, load_read_only}
use docker_socket_proxy.Policy.Merge.{SetApplies, EnvApplies}
use docker_socket_proxy.Proxy.Handler.{Upstream, Sent}
use docker_socket_proxy.Proxy.Router.{Axum, serve_all}
use docker_socket_proxy.Proxy.Router.Guarded.{serve_all-permitted}
use docker_socket_proxy.Proxy.Handler.Made.{Made, Made-map, Made-method}
use mathlib.Core.Path.{subst}
use docker_socket_proxy.Proxy.Assembly.{layer_of, fresh, router_of}
use docker_socket_proxy.Proxy.Serve.{Setup, prepare}

pub ok_inj : {A : Type 0} {a b : A} → ◌≡◌ {A = Result A} (ok a) (ok b) → a ≡ b
ok_inj h = cc

-- The filter that is enforced is the one that was loaded.
pub prepare-load :
    (host : Host) (config : Config) (env : Env) (setup : Setup)
    → prepare host config env ≡ ok setup
    → load host config.allowlist config.profile env ≡ ok (layer_of setup).filter
unfolding prepare layer_of
prepare-load host config env setup h =
    let (filter, loaded, rest) = >>=-eq-ok (load host config.allowlist config.profile env) _ h in
    loaded ∙ ap (λ (s : Setup). ok s.filter) (ok_inj rest)

-- Neither the file nor the variables exclude the method on the path.
abbrev pub NotExcluded : PolicyDocument → Env → Str → Str → Type 0
NotExcluded document env method path =
    ¬ SetApplies document.exclude method path × ¬ EnvApplies env (codes "EXCLUDE") method path

clash : {m : Result (Unit {0})} {e : ProxyError} → m ≡ ok tt → m ≡ err e → ⊥
clash h k = cc

module _ (json : Json) (http : HeaderMaps) (bodies : Bodies) where
  open http use {HeaderMap}
  open bodies use {Body}

  module _ (axum : Axum HeaderMap Body) (send : Upstream Body → Sent HeaderMap Body)
      (connected : Bool) (host : Host) (config : Config) (env : Env) (setup : Setup)
      (prepared : prepare host config env ≡ ok setup) where
    -- the requests that have gone to the socket once these were served
    abbrev reached : List (Request HeaderMap Body) → List (Upstream Body)
    reached requests =
        (serve_all json http bodies axum (router_of json http bodies axum send connected setup)
          requests (fresh setup)).sent

    reached-Made :
        (requests : List (Request HeaderMap Body))
        → All (Made http (Permits (layer_of setup).filter) requests) (reached requests)
    unfolding router_of fresh
    reached-Made requests =
        serve_all-permitted json http bodies axum send connected (layer_of setup) setup.timeout
          requests (fresh setup) refl

    -- Whatever requests the server gets one after the other, each that reaches the Docker socket was
    -- made of one of them whose own path normalises to a path that, with its method, neither the
    -- file's exclude section nor the exclude variables cover.
    pub router_of-excludes :
        (document : PolicyDocument) (requests : List (Request HeaderMap Body))
        → load_document host config.allowlist ≡ ok document
        → All
            (Made http (NotExcluded document env) requests)
            (serve_all json http bodies axum
              (router_of json http bodies axum send connected setup)
              requests
              (fresh setup)).sent
    router_of-excludes document requests read =
        All-map _ _ (reached requests)
          (λ u.
            Made-map http _ _ requests requests u
              (λ method path permits.
                let allowed = (check_iff (layer_of setup).filter method path).1 permits in
                let excluded =
                  load-exclude host config.allowlist config.profile env (layer_of setup).filter
                    document method path (prepare-load host config env setup prepared) read in
                (
                  (λ covers. clash allowed (excluded (inl covers))),
                  (λ covers. clash allowed (excluded (inr covers))),
                ))
              (λ r m. m))
          (reached-Made requests)

    -- Under the read-only profile no POST, PUT, DELETE or PATCH reaches the Docker socket, whatever the
    -- file and the variables say and whatever requests the server gets one after the other.
    pub router_of_read_only :
        (requests : List (Request HeaderMap Body))
        → config.profile ≡ read_only
        → All
            (λ u. ¬ Member u.method all_writes)
            (serve_all json http bodies axum
              (router_of json http bodies axum send connected setup)
              requests
              (fresh setup)).sent
    router_of_read_only requests is =
        All-map _ _ (reached requests)
          (λ u made write.
            load_read_only host config.allowlist env (layer_of setup).filter made.request.method
              made.normalized (rw is at (prepare-load host config env setup prepared))
              (subst (λ m. Member m all_writes) (Made-method http _ requests u made) write)
              ((check_iff (layer_of setup).filter made.request.method made.normalized).1 made.fits))
          (reached-Made requests)
