-- ===== src/Tests/Unit/Surface.antt =====
-- tests/api_surface.rs: the shipped patterns, and the tests on the known API surface.
use docker_socket_proxy.Common.{not, all, leb, length, [], ◌∷◌, Bool, true, codes, ◌≡◌, refl}
use docker_socket_proxy.Config.{SecurityProfile, default, read_only, container_runtime}
use docker_socket_proxy.Security.Profile.{retain_writes, for_profile}
use docker_socket_proxy.Security.Filter.{endpoints_of, endpoint_patterns}
use docker_socket_proxy.DockerApi.{
  meets_path, segments_meet, paths, matches_known_path, is_known_method,
}
use docker_socket_proxy.Tests.Unit.{asserts}
use docker_socket_proxy.Tests.Layer.{layer_code}

abbrev every_shipped_pattern_matches_a_real_endpoint : Bool
every_shipped_pattern_matches_a_real_endpoint = asserts (
    leb 51 (length paths)
    ∷ all (λ profile. all matches_known_path (endpoint_patterns (for_profile profile)))
        (default ∷ read_only ∷ container_runtime ∷ SecurityProfile.none ∷ [])
    ∷ [])

abbrev the_matcher_distinguishes_real_endpoints_from_invented_ones : Bool
the_matcher_distinguishes_real_endpoints_from_invented_ones = asserts (
    matches_known_path (codes "/containers/*/json")
    ∷ matches_known_path (codes "/containers/abc/json")
    ∷ matches_known_path (codes "/containers/")
    ∷ matches_known_path (codes "/_ping")
    ∷ not (matches_known_path (codes "/containers/*/delete"))
    ∷ not (matches_known_path (codes "/containres/json"))
    ∷ not (matches_known_path (codes "/containers/*/teleport"))
    ∷ [])

abbrev methods_are_recognised_case_sensitively : Bool
methods_are_recognised_case_sensitively = asserts (
    is_known_method (codes "GET")
    ∷ is_known_method (codes "DELETE")
    ∷ not (is_known_method (codes "get"))
    ∷ not (is_known_method (codes "GTE"))
    ∷ [])

code : Unit {0}
unfolding layer_code meets_path segments_meet endpoints_of retain_writes endpoint_patterns
    is_known_method matches_known_path
code = tt

surface_pass : every_shipped_pattern_matches_a_real_endpoint ≡ true
unfolding code
surface_pass = refl

matcher_pass :
    asserts (
      the_matcher_distinguishes_real_endpoints_from_invented_ones
      ∷ methods_are_recognised_case_sensitively ∷ [])
    ≡ true
unfolding code
matcher_pass = refl
