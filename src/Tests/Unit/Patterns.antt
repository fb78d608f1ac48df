-- ===== src/Tests/Unit/Patterns.antt =====
-- src/security.rs, its unit tests: patterns against paths.
use docker_socket_proxy.Common.{not, [], ◌∷◌, Bool, true, String, codes, ◌≡◌, refl}
use docker_socket_proxy.Security.Pattern.{matches_pattern, segments_match}
use docker_socket_proxy.Tests.Unit.{asserts}
use docker_socket_proxy.Tests.Layer.{layer_code}

-- `matches_pattern`, on literals
abbrev meets : String → String → Bool
meets pattern path = matches_pattern (codes pattern) (codes path)

abbrev pattern_exact_match : Bool
pattern_exact_match = asserts (
    meets "/containers/json" "/containers/json"
    ∷ not (meets "/containers/json" "/containers/other")
    ∷ [])

abbrev pattern_prefix_match : Bool
pattern_prefix_match = asserts (
    meets "/exec/" "/exec/abc123/start"
    ∷ meets "/exec/" "/exec/anything"
    ∷ not (meets "/exec/" "/containers/exec")
    ∷ [])

abbrev pattern_wildcard_segment : Bool
pattern_wildcard_segment = asserts (
    meets "/containers/*/json" "/containers/abc123/json"
    ∷ not (meets "/containers/*/json" "/containers/a/b/json")
    ∷ [])

abbrev pattern_wildcard_fails_on_wrong_suffix : Bool
pattern_wildcard_fails_on_wrong_suffix = asserts (
    not (meets "/containers/*/json" "/containers/abc123/exec")
    ∷ not (meets "/containers/*/json" "/containers/abc123/logs")
    ∷ [])

code : Unit {0}
unfolding layer_code segments_match
code = tt

patterns_pass :
    asserts (
      pattern_exact_match ∷ pattern_prefix_match ∷ pattern_wildcard_segment
      ∷ pattern_wildcard_fails_on_wrong_suffix ∷ [])
    ≡ true
unfolding code
patterns_pass = refl
