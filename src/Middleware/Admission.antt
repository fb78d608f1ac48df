-- ===== src/Middleware/Admission.antt =====
-- Why the enforcement layer admits a request, and with which body.
use docker_socket_proxy.Common.{ℕ, Bool, true, false, ◌≡◌, ◌↔◌, refl, sym, Str}
use docker_socket_proxy.Error.{ok}
use docker_socket_proxy.Http.{HeaderMaps, Request}
use docker_socket_proxy.Security.Normalize.{BodyRule, container_create, check_head, normalize_path}
use docker_socket_proxy.Security.Filter.Decision.{Permits}
use docker_socket_proxy.Security.Body.{Json, check_body}
use docker_socket_proxy.Security.Body.Permitted.{check_create_body_iff}
use docker_socket_proxy.Security.Request.{IsCreate, PermitsBody, check_head_iff, body_rule_iff}
use docker_socket_proxy.Middleware.{collected, Bodies, SecurityService}

module _ (json : Json) (bodies : Bodies) where
  open bodies use {Body, limited, collect, from_bytes}

  -- The body handed inward: the request's own under the limit, or for a create request the bytes that
  -- were inspected.
  pub data BodyFor (max : ℕ) (given : Body) : Bool → Body → Type 0 where
    streamed : {b : Body} → b ≡ limited max given → BodyFor max given false b
    inspected :
        {b : Body} (bytes : Str)
        → collect (limited max given) ≡ collected bytes
        → PermitsBody json bytes
        → b ≡ from_bytes bytes
        → BodyFor max given true b

module _ (json : Json) (http : HeaderMaps) (bodies : Bodies) {R : Type 0} where
  open http use {HeaderMap}
  open bodies use {Body, limited, collect, from_bytes}

  -- Why a request reached the inner service, and with which body.
  pub record Admitted (service : SecurityService HeaderMap Body R)
      (request : Request HeaderMap Body) (body : Body) : Type 0 where
    pub normalized : Str
    pub is_normalized : normalize_path request.path ≡ ok normalized
    pub permitted : Permits service.filter request.method normalized
    pub create : Bool
    pub create_iff : (create ≡ true) ↔ IsCreate request.method normalized
    pub body_for : BodyFor json bodies service.max_body_bytes request.body create body

  module _ (service : SecurityService HeaderMap Body R) (request : Request HeaderMap Body) where
    -- A head without a body rule admits the request with its own body under the limit.
    pub head-Admitted :
        check_head service.filter request.method request.path ≡ ok BodyRule.none
        → Admitted service request (limited service.max_body_bytes request.body)
    head-Admitted head =
        let (normalized, found, permits, is) =
          (check_head_iff service.filter request.method request.path BodyRule.none).0 head in
        record {
          normalized = normalized;
          is_normalized = found;
          permitted = permits;
          create = false;
          create_iff =
              ((λ e. cc), (λ create. cc (is, (body_rule_iff request.method normalized).1 create)));
          body_for = streamed refl;
        }

    -- A create request whose body was collected and passed inspection is admitted with those bytes.
    pub body-Admitted :
        (bytes : Str)
        → check_head service.filter request.method request.path ≡ ok container_create
        → collect (limited service.max_body_bytes request.body) ≡ collected bytes
        → check_body json container_create bytes ≡ ok tt
        → Admitted service request (from_bytes bytes)
    unfolding check_body
    body-Admitted bytes head read passed =
        let (normalized, found, permits, is) =
          (check_head_iff service.filter request.method request.path container_create).0 head in
        record {
          normalized = normalized;
          is_normalized = found;
          permitted = permits;
          create = true;
          create_iff = ((λ _. (body_rule_iff request.method normalized).0 (sym is)), (λ _. refl));
          body_for = inspected bytes read ((check_create_body_iff json bytes).0 passed) refl;
        }
