-- ===== src/Proxy/Handler.antt =====
-- src/proxy.rs, `proxy_handler` and `switch_protocols`. The client of the Unix socket and the spliced
-- connections are parameters. What the builders of the http crate refuse is an error of the handler.
pub mod Outcome
pub mod Made
pub mod Answered
use docker_socket_proxy.Common.{
  ℕ, Bool, true, false, ◌∷◌, ◌++◌, Option, none, some, ◌==◌, between, is_empty, if◌then◌else◌, Str,
  codes,
}
use docker_socket_proxy.Error.{
  ProxyError, docker, internal, too_large, Result, ok, err, ◌>>=◌, ◌>>◌,
}
use docker_socket_proxy.Http.{Headers, HeaderMaps, Request}
use docker_socket_proxy.Proxy.Headers.{
  connection_specific_headers, requested_upgrade, request_headers, response_headers,
  upgrade_headers,
}

-- The cause chain of a failed send: at each step, whether that error is a `LengthLimitError`.
pub data Chain : Type 0 where
  last : Bool → Chain
  because : Bool → Chain → Chain

unfoldable pub is_length_limit_error : Chain → Bool
is_length_limit_error (last found) = found
is_length_limit_error (because found source) =
    let rest = is_length_limit_error source in if found then true else rest

-- What the socket answered.
pub record Response (H B : Type 0) : Type 0 where
  pub status : ℕ
  pub headers : H
  pub body : B

pub data Sent (H B : Type 0) : Type 0 where
  received : Response H B → Sent H B
  failed : Chain → Str → Sent H B

-- What goes back to the client: a relayed body, or the start of a spliced connection.
pub data Relayed (B : Type 0) : Type 0 where
  relayed : Response Headers B → Relayed B
  spliced : (status : ℕ) → (headers : Headers) → Relayed B

unfoldable pub path_and_query : Str → Option Str → Str
path_and_query path none = path
path_and_query path (some query) = if is_empty query then path else path ++ b'?' ∷ query

-- the request built for the socket; its URI is `target` under the socket's path
pub record Upstream (B : Type 0) : Type 0 where
  pub method : Str
  pub target : Str
  pub headers : Headers
  pub body : B

unfoldable pub send_error : Chain → Str → ProxyError
send_error chain e =
    if is_length_limit_error chain
    then too_large (codes "request body exceeded the configured limit")
    else docker (codes "forward failed: " ++ e)

module _ (http : HeaderMaps) where
  open http use {HeaderMap, iter, get, from_u16, request_error, response_error}

  unfoldable pub upstream_request : {B : Type 0} → Request HeaderMap B → Upstream B
  upstream_request request =
      let listed = connection_specific_headers http request.headers in
      record {
        method = request.method;
        target = path_and_query request.path request.query;
        headers =
            request_headers listed (iter request.headers)
            ++ upgrade_headers (requested_upgrade http request.headers listed);
        body = request.body;
      }

  -- `req_builder.body(body)?`, on the request that it makes
  unfoldable pub build_request : {B : Type 0} → Upstream B → Result (Unit {0})
  build_request u = elim (request_error u.method u.target u.headers) [
    | none ↦ ok tt
    | some e ↦ err (internal (codes "failed to build request: " ++ e))
  ]

  abbrev pub status_of : {B : Type 0} → Relayed B → ℕ
  status_of (relayed response) = response.status
  status_of (spliced status headers) = status

  abbrev pub headers_of : {B : Type 0} → Relayed B → Headers
  headers_of (relayed response) = response.headers
  headers_of (spliced status headers) = headers

  -- `response_builder.body(…)`, on the answer that it makes
  unfoldable pub build_response : {B : Type 0} → Relayed B → Result (Relayed B)
  build_response out = elim (response_error (status_of out) (headers_of out)) [
    | none ↦ ok out
    | some e ↦ err (internal (codes "failed to build response: " ++ e))
  ]

  -- `StatusCode::from_u16(…).unwrap_or(INTERNAL_SERVER_ERROR)`
  unfoldable pub relay_status : ℕ → ℕ
  relay_status status = elim (from_u16 status) [ none ↦ 500 | some code ↦ code ]

module _ (http : HeaderMaps) {B : Type 0} where
  open http use {HeaderMap, iter, get}

  -- `can_upgrade`: whether the client's connection can be upgraded. The answer is built by
  -- `build_response`, here and in `relay_response`.
  unfoldable pub switch_protocols :
      (can_upgrade : Bool) → ℕ → Headers → Response HeaderMap B → Result (Relayed B)
  switch_protocols false status kept resp =
      err (docker (codes "upstream switched protocols without a client offer"))
  switch_protocols true status kept resp =
      ok (spliced status (kept ++ upgrade_headers (get resp.headers (codes "upgrade"))))

  unfoldable pub relay_response : (can_upgrade : Bool) → Response HeaderMap B → Result (Relayed B)
  relay_response can_upgrade resp =
      let status = relay_status http resp.status in
      let kept =
        response_headers (connection_specific_headers http resp.headers) (iter resp.headers) in
      if status == 101
      then switch_protocols can_upgrade status kept resp
      else ok (relayed (record { status = status; headers = kept; body = resp.body }))

  unfoldable pub after_send : (can_upgrade : Bool) → Sent HeaderMap B → Result (Relayed B)
  after_send can_upgrade (failed chain e) = err (send_error chain e)
  after_send can_upgrade (received resp) = relay_response can_upgrade resp

  unfoldable pub proxy_handler :
      (Upstream B → Sent HeaderMap B) → Request HeaderMap B → Result (Relayed B)
  proxy_handler send request = do
    build_request http (upstream_request http request)
    out ← after_send request.on_upgrade (send (upstream_request http request))
    build_response http out
