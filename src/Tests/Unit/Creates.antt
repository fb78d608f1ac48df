-- ===== src/Tests/Unit/Creates.antt =====
-- src/security.rs, its unit tests: the inspection of create bodies, and versioned paths.
use docker_socket_proxy.Security.Rules.{push}
use docker_socket_proxy.Security.Percent.{
  radix_digits, hex_value, from_str_radix, escape, accept_byte,
}
use docker_socket_proxy.Security.Pattern.{segments_match}
use docker_socket_proxy.Security.Version.{is_digit, is_version}
use docker_socket_proxy.Common.{not, [], ◌∷◌, Bool, true, String, Str, codes, some, ◌≡◌, refl}
use docker_socket_proxy.Config.{container_runtime}
use docker_socket_proxy.Security.Profile.{retain_writes, SecurityFilter, for_profile, deny_all}
use docker_socket_proxy.Security.Body.{
  set_shape, parse_object, meaningfully_set, levels, is_dagster, has_host_network, check_object,
  check_levels, check_level, check_labels, check_keys, check_image, check_given_labels,
  check_create_body, check_body, check_request,
}
use docker_socket_proxy.Policy.Document.{push_allow}
use docker_socket_proxy.Tests.Unit.{asserts, is_ok}
use docker_socket_proxy.Tests.Layer.{layer_code}
use docker_socket_proxy.Tests.Unit.Bodies.{
  json, granted_privileged, labelled, empty_image, empty_object, image_only, privileged, pid_host,
  cap_add, gpu, network_host, privileged_false, cap_add_empty, mounted, empty_command,
}

abbrev runtime : SecurityFilter
runtime = for_profile container_runtime

-- `f.check_request(method, path, body).is_ok()`
abbrev permits_request : SecurityFilter → String → String → Str → Bool
permits_request f method path body = is_ok (check_request json f (codes method) (codes path) body)

abbrev permits_create : SecurityFilter → Str → Bool
permits_create f body = permits_request f "POST" "/containers/create" body

abbrev body_inspection_follows_the_effective_policy_not_the_profile_enum : Bool
body_inspection_follows_the_effective_policy_not_the_profile_enum =
    let f =
      push_allow deny_all (some (codes "POST" ∷ [])) (some (codes "/containers/create" ∷ [])) in
    not (permits_create f granted_privileged)

abbrev container_runtime_profile_requires_safe_create_metadata : Bool
container_runtime_profile_requires_safe_create_metadata = asserts (
    permits_create runtime labelled
    ∷ not (permits_create runtime empty_image)
    ∷ not (permits_create runtime empty_object)
    ∷ permits_create runtime image_only
    ∷ not (permits_create runtime privileged)
    ∷ not (permits_create runtime pid_host)
    ∷ not (permits_create runtime cap_add)
    ∷ not (permits_create runtime gpu)
    ∷ not (permits_create runtime network_host)
    ∷ permits_create runtime privileged_false
    ∷ permits_create runtime cap_add_empty
    ∷ permits_create runtime mounted
    ∷ [])

abbrev accepts_versioned_docker_api_paths : Bool
accepts_versioned_docker_api_paths = asserts (
    permits_request runtime "POST" "/v1.55/containers/create" empty_command
    ∷ permits_request runtime "GET" "/v1.55/version" []
    ∷ [])

abbrev dot_segments_cannot_escape_into_a_denied_endpoint : Bool
dot_segments_cannot_escape_into_a_denied_endpoint =
    not (permits_request runtime "POST" "/containers/abc/../create" empty_object)

code : Unit {0}
unfolding layer_code check_request push_allow deny_all push retain_writes check_body
    check_create_body parse_object check_object check_image check_levels levels check_level
    check_keys has_host_network meaningfully_set set_shape check_given_labels check_labels
    is_dagster segments_match accept_byte escape from_str_radix hex_value radix_digits is_digit
    is_version
code = tt

creates_pass :
    asserts (
      body_inspection_follows_the_effective_policy_not_the_profile_enum
      ∷ container_runtime_profile_requires_safe_create_metadata ∷ accepts_versioned_docker_api_paths
      ∷ dot_segments_cannot_escape_into_a_denied_endpoint ∷ [])
    ≡ true
unfolding code
creates_pass = refl
