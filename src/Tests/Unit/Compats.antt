-- ===== src/Tests/Unit/Compats.antt =====
-- src/policy.rs, its unit tests: the compatibility variables, and an environment file.
use docker_socket_proxy.Security.Pattern.{segments_match}
use docker_socket_proxy.Security.Rules.{push, push_rule}
use docker_socket_proxy.Security.Rule.{extend, insert, insert_all, is_inert}
use docker_socket_proxy.Policy.Document.{push_allow}
use docker_socket_proxy.Common.{
  ascii_lower, contains, is_space, is_space2, is_space3, join, to_ascii_lowercase, trim_end,
  trim_front, trim_start, all, [], ◌∷◌, List, Option, none, map, Bool, true, false, String, codes,
  some, str_eq, trim, ◌≡◌, refl,
}
use docker_socket_proxy.Config.{default, read_only, container_runtime}
use docker_socket_proxy.Error.{display, Result, ok, err}
use docker_socket_proxy.Security.Profile.{deny_all, SecurityFilter}
use docker_socket_proxy.Policy.Environment.{Env, get}
use docker_socket_proxy.Policy.Compat.{
  compat_endpoints, compat_methods, compat_names, conflict, granted, is_default, is_enabled, is_set,
  operation_endpoints, profile_name, section_endpoints, compatibility_filter,
}
use docker_socket_proxy.Tests.Unit.{asserts, permits, refuses, fails_with}
use docker_socket_proxy.Tests.Layer.{layer_code}

abbrev env_of : List (String × String) → Env
env_of vars = map (λ entry. (codes (entry.0), codes (entry.1))) vars

abbrev holds_of : Result (Option SecurityFilter) → (SecurityFilter → Bool) → Bool
holds_of (err e) test = false
holds_of (ok none) test = false
holds_of (ok (some filter)) test = test filter

-- what holds of the filter that the variables give, which is expected
abbrev compat : List (String × String) → (SecurityFilter → Bool) → Bool
compat vars test = holds_of (compatibility_filter (env_of vars) default) test

abbrev compatibility_variables_grant_only_their_own_sections : Bool
compatibility_variables_grant_only_their_own_sections = compat (("CONTAINERS", "1") ∷ []) (λ filter.
    asserts (
      permits filter "GET" "/containers/json"
      ∷ permits filter "GET" "/containers/abc/logs"
      ∷ refuses filter "GET" "/info"
      ∷ []))

abbrev post_gates_writes_but_not_head : Bool
post_gates_writes_but_not_head = asserts (
    compat (("CONTAINERS", "1") ∷ []) (λ closed. asserts (
      refuses closed "POST" "/containers/create"
      ∷ refuses closed "DELETE" "/containers/abc"
      ∷ permits closed "HEAD" "/containers/json"
      ∷ []))
    ∷ compat (("CONTAINERS", "1") ∷ ("POST", "1") ∷ []) (λ open_filter. asserts (
        permits open_filter "POST" "/containers/create"
        ∷ permits open_filter "DELETE" "/containers/abc"
        ∷ []))
    ∷ [])

abbrev events_ping_and_version_are_granted_unless_turned_off : Bool
events_ping_and_version_are_granted_unless_turned_off = asserts (
    compat (("CONTAINERS", "1") ∷ [])
      (λ filter. all (λ path. permits filter "GET" path) ("/events" ∷ "/_ping" ∷ "/version" ∷ []))
    ∷ compat (("PING", "0") ∷ []) (λ filter. refuses filter "GET" "/_ping")
    ∷ [])

abbrev grants_nothing : String → Bool
grants_nothing setting =
    compat (("SECRETS", setting) ∷ ("PING", "1") ∷ [])
      (λ filter. asserts (refuses filter "GET" "/secrets" ∷ permits filter "GET" "/_ping" ∷ []))

abbrev zero_grants_nothing_and_typos_fail_closed : Bool
zero_grants_nothing_and_typos_fail_closed =
    all grants_nothing ("0" ∷ "false" ∷ "" ∷ "enabled" ∷ "sure" ∷ [])

abbrev individual_operations_grant_without_opening_containers : Bool
individual_operations_grant_without_opening_containers =
    compat (("ALLOW_START", "1") ∷ ("POST", "1") ∷ []) (λ filter. asserts (
      permits filter "POST" "/containers/abc/start"
      ∷ refuses filter "POST" "/containers/abc/stop"
      ∷ refuses filter "GET" "/containers/json"
      ∷ []))

abbrev compatibility_variables_conflict_with_an_explicit_profile : Bool
compatibility_variables_conflict_with_an_explicit_profile =
    fails_with (compatibility_filter (env_of (("CONTAINERS", "1") ∷ [])) read_only)
      "cannot be combined"

abbrev is_ok_none : Result (Option SecurityFilter) → Bool
is_ok_none (err e) = false
is_ok_none (ok none) = true
is_ok_none (ok (some filter)) = false

abbrev absent_compatibility_variables_leave_the_profile_alone : Bool
absent_compatibility_variables_leave_the_profile_alone =
    is_ok_none (compatibility_filter (env_of (("PATH", "/usr/bin") ∷ [])) container_runtime)

code : Unit {0}
unfolding layer_code compatibility_filter ascii_lower contains is_space is_space2 is_space3 join
    to_ascii_lowercase trim_end trim_front trim_start compat_endpoints compat_methods compat_names
    conflict granted is_default is_enabled is_set operation_endpoints profile_name section_endpoints
    push_allow deny_all extend insert insert_all is_inert push push_rule get str_eq trim display
    segments_match
code = tt

compats_pass :
    asserts (
      compatibility_variables_grant_only_their_own_sections ∷ post_gates_writes_but_not_head
      ∷ events_ping_and_version_are_granted_unless_turned_off
      ∷ individual_operations_grant_without_opening_containers
      ∷ compatibility_variables_conflict_with_an_explicit_profile
      ∷ absent_compatibility_variables_leave_the_profile_alone ∷ [])
    ≡ true
unfolding code
compats_pass = refl

settings_pass : zero_grants_nothing_and_typos_fail_closed ≡ true
unfolding code
settings_pass = refl
