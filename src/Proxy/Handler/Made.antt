-- ===== src/Proxy/Handler/Made.antt =====
-- Which request of a client a request to the Docker socket was made of.
use docker_socket_proxy.Common.{List, Member, Str, ◌≡◌, ap}
use docker_socket_proxy.Error.{ok}
use docker_socket_proxy.Http.{HeaderMaps, Request}
use docker_socket_proxy.Security.Normalize.{normalize_path}
use docker_socket_proxy.Proxy.Handler.{Upstream, upstream_request}

-- A request to the socket that was made of one of these requests, of its method, path, query and
-- headers, where `P` holds of that request's method and the normalised form of its path.
pub record Made (http : HeaderMaps) {B : Type 0} (P : Str → Str → Type 0)
    (requests : List (Request http.HeaderMap B)) (u : Upstream B) : Type 0 where
  pub request : Request http.HeaderMap B
  pub listed : Member request requests
  pub body : B
  pub made : u ≡ upstream_request http (record request { body = body })
  pub normalized : Str
  pub is_normalized : normalize_path request.path ≡ ok normalized
  pub fits : P request.method normalized

module _ (http : HeaderMaps) {B : Type 0} where
  open http use {HeaderMap}

  -- More requests, and less to ask of them.
  pub Made-map :
      (P Q : Str → Str → Type 0) (requests requests' : List (Request HeaderMap B)) (u : Upstream B)
      → ((method path : Str) → P method path → Q method path)
      → ((request : Request HeaderMap B) → Member request requests → Member request requests')
      → Made http P requests u
      → Made http Q requests' u
  Made-map P Q requests requests' u weaken more m = record {
    request = m.request;
    listed = more m.request m.listed;
    body = m.body;
    made = m.made;
    normalized = m.normalized;
    is_normalized = m.is_normalized;
    fits = weaken m.request.method m.normalized m.fits;
  }

  -- The socket sees the method of the request that was checked.
  pub Made-method :
      (P : Str → Str → Type 0) (requests : List (Request HeaderMap B)) (u : Upstream B)
      (m : Made http P requests u)
      → u.method ≡ m.request.method
  unfolding upstream_request
  Made-method P requests u m = ap (λ (x : Upstream B). x.method) m.made
