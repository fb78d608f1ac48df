-- ===== src/Tests/Unit/Responses.antt =====
-- src/middleware.rs, its unit tests: the layer around a handler that answers with the length of the body
-- that reaches it.
use docker_socket_proxy.Security.Version.{is_digit, is_version}
use docker_socket_proxy.Error.{into_response}
use docker_socket_proxy.Common.{
  ℕ, zero, suc, Option, none, some, [], ◌∷◌, Bool, true, false, String, Str, codes, str_eq, length,
  ◌==◌, ◌≡◌, refl,
}
use docker_socket_proxy.Config.{container_runtime}
use docker_socket_proxy.Http.{Headers, Request}
use docker_socket_proxy.Observability.{
  decimal_digits, record_allowed, record_denied, zeroed, render, decimal,
}
use docker_socket_proxy.Security.Profile.{retain_writes, SecurityFilter, for_profile, new}
use docker_socket_proxy.Middleware.{
  body_error, exceeds, inspect, parse_digits, parse_u64, refuse, Collected, collected, length_limit,
  read_error, SecurityService, Trail, Reply, refused, served, call,
}
use docker_socket_proxy.Tests.Unit.{asserts, has_text}
use docker_socket_proxy.Tests.Unit.Bodies.{json}
use docker_socket_proxy.Tests.Layer.{layer_code}
use docker_socket_proxy.Tests.Fixtures.{http, bodies}

-- The handler's `Bytes` are there only where the body can be read.
abbrev length_read : Collected → Option Str
length_read (collected s) = some (decimal (length s))
length_read length_limit = none
length_read (read_error e) = none

-- `"x".repeat(n)`
abbrev repeat : ℕ → Str
repeat zero = []
repeat (suc n) = b'x' ∷ repeat n

abbrev router_with : SecurityFilter → ℕ → SecurityService Headers Collected (Option Str)
router_with filter max_body_bytes = record {
  inner = λ request. length_read (request.body);
  filter = filter;
  max_body_bytes = max_body_bytes;
}

abbrev router : ℕ → SecurityService Headers Collected (Option Str)
router max_body_bytes = router_with new max_body_bytes

abbrev request_of : String → String → Headers → Str → Request Headers Collected
request_of method path headers body = record {
  method = codes method;
  path = codes path;
  query = none;
  headers = headers;
  on_upgrade = false;
  body = collected body;
}

abbrev new_trail : Trail
new_trail = record { metrics = zeroed; log = [] }

abbrev respond :
    SecurityService Headers Collected (Option Str)
    → String
    → String
    → Headers
    → Str
    → Reply (Option Str)
respond service method path headers body =
    (call json http bodies service (request_of method path headers body) new_trail).0

abbrev has_status : ℕ → Reply (Option Str) → Bool
has_status expected (refused e) = e.status == expected
has_status expected (served none) = false
has_status expected (served (some body)) = expected == 200

abbrev has_body : String → Reply (Option Str) → Bool
has_body expected (refused e) = false
has_body expected (served none) = false
has_body expected (served (some body)) = str_eq body (codes expected)

abbrev allows_permitted_requests_through : Bool
allows_permitted_requests_through = has_status 200 (respond (router 1024) "GET" "/version" [] [])

abbrev denies_before_reaching_the_inner_service : Bool
denies_before_reaching_the_inner_service =
    has_status 403 (respond (router 1024) "POST" "/containers/create" [] (codes "{}"))

abbrev rejects_an_oversized_inspected_body : Bool
rejects_an_oversized_inspected_body = has_status 413 (
    respond (router_with (for_profile container_runtime) 16) "POST" "/containers/create" []
      (repeat 64))

abbrev refuses_a_declared_oversize_before_reading_it : Bool
refuses_a_declared_oversize_before_reading_it =
    has_status 413
      (respond (router 16) "GET" "/version" ((codes "content-length", codes "64") ∷ []) (repeat 64))

abbrev passes_uninspected_bodies_through_intact : Bool
passes_uninspected_bodies_through_intact =
    let response = respond (router 1024) "GET" "/version" [] (repeat 64) in
    asserts (has_status 200 response ∷ has_body "64" response ∷ [])

abbrev counts_each_outcome_once : Bool
counts_each_outcome_once =
    let (first, after_first) =
      call json http bodies (router 1024) (request_of "GET" "/version" [] []) new_trail in
    let (second, after_second) =
      call json http bodies (router 1024) (request_of "POST" "/containers/create" [] (codes "{}"))
        after_first in
    asserts (
      has_status 200 first
      ∷ has_status 403 second
      ∷ has_text (render after_second.metrics) (codes "{outcome=\"allowed\"} 1")
      ∷ has_text (render after_second.metrics) (codes "{outcome=\"denied\"} 1")
      ∷ [])

abbrev normalizes_paths_before_deciding : Bool
normalizes_paths_before_deciding = asserts (
    has_status 200 (respond (router 1024) "GET" "/containers/../version" [] [])
    ∷ has_status 200 (respond (router 1024) "GET" "/v1.55/version" [] [])
    ∷ [])

code : Unit {0}
unfolding layer_code decimal into_response body_error exceeds inspect parse_digits parse_u64 refuse
    decimal_digits record_allowed record_denied retain_writes is_digit is_version new render
code = tt

responses_pass :
    asserts (
      allows_permitted_requests_through ∷ denies_before_reaching_the_inner_service
      ∷ rejects_an_oversized_inspected_body ∷ refuses_a_declared_oversize_before_reading_it
      ∷ passes_uninspected_bodies_through_intact ∷ counts_each_outcome_once
      ∷ normalizes_paths_before_deciding ∷ [])
    ≡ true
unfolding code
responses_pass = refl
