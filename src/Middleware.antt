-- ===== src/Middleware.antt =====
-- src/middleware.rs: the policy enforcement point. Bodies, and the limit on them, are http-body-util's:
-- the interface `Bodies`. The inner service is a parameter.
pub mod Admission
pub mod Enforcement
pub mod Accounting
pub mod Completeness
pub mod Declared
pub mod Interleaving
use docker_socket_proxy.Common.{
  ℕ, ◌+◌, ◌-◌, ◌*◌, ◌≤◌, ◌^◌, true, false, ◌||◌, List, [], ◌∷◌, ◌++◌, Option, none, some, ltb, ◌==◌,
  between, if◌then◌else◌, length, Str, codes, ◌≡◌,
}
use docker_socket_proxy.Config.{SecurityProfile}
use docker_socket_proxy.Error.{
  ProxyError, too_large, internal, Result, ok, err, ErrorResponse, into_response, display,
}
use docker_socket_proxy.Http.{HeaderMaps, Request}
use docker_socket_proxy.Observability.{Metrics, record_allowed, record_denied, decimal}
use docker_socket_proxy.Security.Profile.{SecurityFilter}
use docker_socket_proxy.Security.Normalize.{BodyRule, container_create, check_head}
use docker_socket_proxy.Security.Body.{Json, check_body}

-- How reading a body to its end went.
pub data Collected : Type 0 where
  collected : Str → Collected
  length_limit : Collected
  read_error : Str → Collected

-- What the program uses of a body: `Limited::new`, `collect` and `Body::from`. A limited body is
-- never collected past its limit, and a body made of bytes is collected to those.
pub record Bodies : Type 1 where
  pub Body : Type 0
  pub limited : ℕ → Body → Body
  pub collect : Body → Collected
  pub from_bytes : Str → Body
  pub collect-limited :
      (max : ℕ) (b : Body) (bytes : Str)
      → collect (limited max b) ≡ collected bytes
      → length bytes ≤ max
  pub collect-from_bytes : (bytes : Str) → collect (from_bytes bytes) ≡ collected bytes

-- `str::parse::<u64>`
unfoldable pub parse_digits : ℕ → Str → Option ℕ
parse_digits n [] = some n
parse_digits n (c ∷ s) =
    let next = n * 10 + (c - b'0') in
    elim (between b'0' b'9' c) [
      | false ↦ none
      | true ↦ elim (ltb next (2 ^ 64)) [ true ↦ parse_digits next s | false ↦ none ]
    ]

unfoldable pub parse_u64 : Str → Option ℕ
parse_u64 [] = none
parse_u64 (c ∷ []) = if c == b'+' || c == b'-' then none else parse_digits 0 (c ∷ [])
parse_u64 (c ∷ d ∷ s) = if c == b'+' then parse_digits 0 (d ∷ s) else parse_digits 0 (c ∷ d ∷ s)

abbrev pub and_then : {A B : Type 0} → Option A → (A → Option B) → Option B
and_then none f = none
and_then (some a) f = f a

unfoldable pub exceeds : ℕ → ProxyError
exceeds max = too_large (codes "request body exceeds " ++ (decimal max ++ codes " bytes"))

unfoldable pub too_long : ℕ → Option ℕ → Option ProxyError
too_long max none = none
too_long max (some declared) = if ltb max declared then some (exceeds max) else none

-- `body_error`, on the two ways in which collecting fails
unfoldable pub body_error : ℕ → Option Str → ProxyError
body_error max none = exceeds max
body_error max (some e) = internal (codes "failed to read request body: " ++ e)

-- One line of the audit log.
pub record Event : Type 0 where
  pub method : Str
  pub path : Str
  pub profile : SecurityProfile
  pub reason : Str
  pub message : Str

-- What the layer keeps: the counters shared with `/metrics`, and the log.
pub record Trail : Type 0 where
  pub metrics : Metrics
  pub log : List Event

-- The answer to the client: the layer's own, or the inner service's.
pub data Reply (R : Type 0) : Type 0 where
  refused : ErrorResponse → Reply R
  served : R → Reply R

pub record SecurityService (H B R : Type 0) : Type 0 where
  pub inner : Request H B → R
  pub filter : SecurityFilter
  pub max_body_bytes : ℕ

-- the messages of the two log lines
abbrev pub denied_by_policy : Str
denied_by_policy = codes "request denied by security policy"

abbrev pub rejected_by_layer : Str
rejected_by_layer = codes "request rejected by the enforcement layer"

module _ (http : HeaderMaps) where
  open http use {HeaderMap, get, to_str}

  unfoldable pub declared_length : HeaderMap → Option ℕ
  declared_length headers =
      and_then (and_then (get headers (codes "content-length")) to_str) parse_u64

  unfoldable pub oversized_declaration : HeaderMap → ℕ → Option ProxyError
  oversized_declaration headers max = too_long max (declared_length headers)

module _ (json : Json) (http : HeaderMaps) (bodies : Bodies) {R : Type 0} where
  open http use {HeaderMap}
  open bodies use {Body, limited, collect, from_bytes}

  -- `audit` and `reject`, which differ in the message
  unfoldable pub refuse :
      Str
      → SecurityService HeaderMap Body R
      → Request HeaderMap Body
      → Trail
      → ProxyError
      → Reply R × Trail
  refuse message service request trail e = (
    refused (into_response e),
    record {
      metrics = record_denied trail.metrics;
      log =
          trail.log
          ++ record {
            method = request.method;
            path = request.path;
            profile = service.filter.profile;
            reason = display e;
            message = message;
          }
            ∷ [];
    },
  )

  -- count the request as allowed and call the inner service
  unfoldable pub forward :
      SecurityService HeaderMap Body R → Request HeaderMap Body → Trail → Body → Reply R × Trail
  forward service request trail body = (
    served (service.inner (record request { body = body })),
    record trail { metrics = record_allowed trail.metrics },
  )

  -- a body that nothing rests on streams through, under the limit
  unfoldable pub stream :
      SecurityService HeaderMap Body R
      → Request HeaderMap Body
      → Trail
      → Option ProxyError
      → Reply R × Trail
  stream service request trail (some e) = refuse rejected_by_layer service request trail e
  stream service request trail none =
      forward service request trail (limited service.max_body_bytes request.body)

  unfoldable pub after_inspection :
      SecurityService HeaderMap Body R
      → Request HeaderMap Body
      → Trail
      → Str
      → Result (Unit {0})
      → Reply R × Trail
  after_inspection service request trail bytes (err denial) =
      refuse denied_by_policy service request trail denial
  after_inspection service request trail bytes (ok u) =
      forward service request trail (from_bytes bytes)

  -- a body that is inspected is collected first
  unfoldable pub inspect :
      SecurityService HeaderMap Body R
      → Request HeaderMap Body
      → Trail
      → BodyRule
      → Collected
      → Reply R × Trail
  inspect service request trail rule (collected bytes) =
      after_inspection service request trail bytes (check_body json rule bytes)
  inspect service request trail rule length_limit =
      refuse rejected_by_layer service request trail (body_error service.max_body_bytes none)
  inspect service request trail rule (read_error e) =
      refuse rejected_by_layer service request trail (body_error service.max_body_bytes (some e))

  unfoldable pub after_head :
      SecurityService HeaderMap Body R
      → Request HeaderMap Body
      → Trail
      → Result BodyRule
      → Reply R × Trail
  after_head service request trail (err denial) =
      refuse denied_by_policy service request trail denial
  after_head service request trail (ok BodyRule.none) =
      stream service request trail
        (oversized_declaration http request.headers service.max_body_bytes)
  after_head service request trail (ok container_create) =
      inspect service request trail container_create
        (collect (limited service.max_body_bytes request.body))

  -- `SecurityService::call`
  unfoldable pub call :
      SecurityService HeaderMap Body R → Request HeaderMap Body → Trail → Reply R × Trail
  call service request trail =
      after_head service request trail (check_head service.filter request.method request.path)
