-- ===== src/Tests/Unit/Paths.antt =====
-- src/security.rs, its unit tests: the normalisation of paths.
use docker_socket_proxy.Security.Percent.{
  accept_byte, escape, from_str_radix, hex_value, radix_digits,
}
use docker_socket_proxy.Common.{[], ◌∷◌, Bool, true, false, String, codes, str_eq, ◌≡◌, refl}
use docker_socket_proxy.Error.{ProxyError, ok, err, forbidden, bad_request}
use docker_socket_proxy.Security.Version.{is_digit, is_version, strip_api_version}
use docker_socket_proxy.Security.Profile.{new}
use docker_socket_proxy.Security.Normalize.{normalize_path}
use docker_socket_proxy.Security.Body.{check_body, check_request}
use docker_socket_proxy.Tests.Unit.{asserts, is_ok}
use docker_socket_proxy.Tests.Unit.Bodies.{json}
use docker_socket_proxy.Tests.Layer.{layer_code}

-- `assert_eq!(strip_api_version(path), stripped)`
abbrev strips : String → String → Bool
strips path stripped = str_eq (strip_api_version (codes path)) (codes stripped)

-- `assert_eq!(normalize_path(path).unwrap(), normalized)`
abbrev normalizes : String → String → Bool
normalizes path normalized = elim (normalize_path (codes path)) [
  | ok found ↦ str_eq found (codes normalized)
  | err e ↦ false
]

abbrev is_forbidden : ProxyError → Bool
is_forbidden (forbidden msg) = true
is_forbidden _ = false

abbrev is_bad_request : ProxyError → Bool
is_bad_request (bad_request msg) = true
is_bad_request _ = false

-- `matches!(normalize_path(path), Err(…))`
abbrev rejects : (ProxyError → Bool) → String → Bool
rejects kind path = elim (normalize_path (codes path)) [ ok found ↦ false | err e ↦ kind e ]

abbrev leaves_non_version_prefixes_alone : Bool
leaves_non_version_prefixes_alone = asserts (
    strips "/volumes/my-vol" "/volumes/my-vol"
    ∷ strips "/v1.55/version" "/version"
    ∷ strips "/volumes" "/volumes"
    ∷ strips "/v/version" "/v/version"
    ∷ [])

abbrev resolves_dot_segments_before_matching : Bool
resolves_dot_segments_before_matching = asserts (
    normalizes "/containers/../info" "/info"
    ∷ normalizes "//info" "/info"
    ∷ normalizes "/./info" "/info"
    ∷ is_ok (check_request json new (codes "GET") (codes "/containers/../info") [])
    ∷ [])

abbrev decodes_percent_encoded_paths : Bool
decodes_percent_encoded_paths =
    asserts (normalizes "/%69nfo" "/info" ∷ normalizes "/containers/%2e%2e/info" "/info" ∷ [])

abbrev rejects_encoded_path_separators : Bool
rejects_encoded_path_separators = asserts (
    rejects is_forbidden "/containers%2f..%2finfo" ∷ rejects is_forbidden "/containers%5cinfo" ∷ [])

abbrev rejects_malformed_percent_encoding : Bool
rejects_malformed_percent_encoding = asserts (
    rejects is_bad_request "/info%"
    ∷ rejects is_bad_request "/info%zz"
    ∷ rejects is_bad_request "/%ff"
    ∷ [])

abbrev normalizes_root : Bool
normalizes_root = asserts (normalizes "/" "/" ∷ normalizes "/.." "/" ∷ [])

code : Unit {0}
unfolding layer_code check_request check_body accept_byte escape from_str_radix hex_value
    radix_digits is_digit is_version new
code = tt

paths_pass :
    asserts (
      leaves_non_version_prefixes_alone ∷ resolves_dot_segments_before_matching
      ∷ decodes_percent_encoded_paths ∷ rejects_encoded_path_separators
      ∷ rejects_malformed_percent_encoding ∷ normalizes_root ∷ [])
    ≡ true
unfolding code
paths_pass = refl
