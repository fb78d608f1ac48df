-- ===== src/Tests/Unit/Errors.antt =====
-- src/error.rs, its unit tests. A response is its status and its message,
-- so the assertions on other members of the JSON body have no counterpart.
use docker_socket_proxy.Common.{ℕ, [], ◌∷◌, Bool, true, Str, codes, str_eq, ◌==◌, ◌≡◌, refl}
use docker_socket_proxy.Error.{
  ProxyError, into_response, forbidden, config, docker, internal, bad_request,
}
use docker_socket_proxy.Tests.Unit.{asserts}
use docker_socket_proxy.Tests.Layer.{layer_code}

abbrev status_of : ProxyError → ℕ
status_of e = (into_response e).status

abbrev message_of : ProxyError → Str
message_of e = (into_response e).message

abbrev renders_docker_shaped_error_body : Bool
renders_docker_shaped_error_body = asserts (
    (status_of (forbidden (codes "blocked endpoint")) == 403)
    ∷ str_eq (message_of (forbidden (codes "blocked endpoint"))) (codes "blocked endpoint")
    ∷ [])

abbrev maps_variants_to_expected_status_codes : Bool
maps_variants_to_expected_status_codes = asserts (
    (status_of (config (codes "bad")) == 400)
    ∷ (status_of (docker (codes "down")) == 502)
    ∷ (status_of (internal (codes "boom")) == 500)
    ∷ [])

abbrev bad_request_maps_to_400 : Bool
bad_request_maps_to_400 = status_of (bad_request (codes "garbage")) == 400

abbrev internal_error_body_carries_only_the_message : Bool
internal_error_body_carries_only_the_message =
    str_eq (message_of (internal (codes "boom"))) (codes "boom")

code : Unit {0}
unfolding layer_code into_response
code = tt

errors_pass :
    asserts (
      renders_docker_shaped_error_body ∷ maps_variants_to_expected_status_codes
      ∷ bad_request_maps_to_400 ∷ internal_error_body_carries_only_the_message ∷ [])
    ≡ true
unfolding code
errors_pass = refl
