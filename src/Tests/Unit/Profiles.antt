-- ===== src/Tests/Unit/Profiles.antt =====
-- src/security.rs, its unit tests: the profiles, and rules added to them.
use docker_socket_proxy.Security.Rules.{push}
use docker_socket_proxy.Common.{[], ◌∷◌, List, Bool, true, String, codes, some, map, ◌≡◌, refl}
use docker_socket_proxy.Config.{read_only, container_runtime, SecurityProfile}
use docker_socket_proxy.Security.Profile.{retain_writes, SecurityFilter, for_profile, new}
use docker_socket_proxy.Security.Pattern.{segments_match}
use docker_socket_proxy.Policy.Document.{push_allow, push_exclude}
use docker_socket_proxy.Tests.Unit.{asserts, permits, refuses}
use docker_socket_proxy.Tests.Layer.{layer_code}

-- the calls of a table of methods and paths, each refused
abbrev refuses_each : SecurityFilter → List (String × String) → Bool
refuses_each f calls = asserts (map (λ call. refuses f (call.0) (call.1)) calls)

abbrev filter : SecurityFilter
filter = new

abbrev allows_read_only_endpoints : Bool
allows_read_only_endpoints = asserts (
    permits filter "GET" "/containers/json"
    ∷ permits filter "GET" "/images/json"
    ∷ permits filter "GET" "/info"
    ∷ permits filter "GET" "/version"
    ∷ permits filter "GET" "/_ping"
    ∷ [])

abbrev allows_inspect_endpoints_with_wildcard : Bool
allows_inspect_endpoints_with_wildcard = asserts (
    permits filter "GET" "/containers/abc123def456/json"
    ∷ permits filter "GET" "/containers/abc123def456/logs"
    ∷ permits filter "GET" "/images/sha256:abc123/json"
    ∷ [])

abbrev blocks_mutation_endpoints : Bool
blocks_mutation_endpoints = asserts (
    refuses filter "POST" "/containers/create"
    ∷ refuses filter "POST" "/containers/abc123/exec"
    ∷ refuses filter "POST" "/build"
    ∷ refuses filter "POST" "/commit"
    ∷ [])

abbrev blocks_exec_prefix : Bool
blocks_exec_prefix =
    asserts (
      refuses filter "POST" "/exec/abc123/start" ∷ refuses filter "POST" "/exec/abc123/resize" ∷ [])

abbrev blocks_restart_stop_start : Bool
blocks_restart_stop_start = asserts (
    refuses filter "POST" "/containers/abc123/start"
    ∷ refuses filter "POST" "/containers/abc123/stop"
    ∷ refuses filter "POST" "/containers/abc123/restart"
    ∷ refuses filter "POST" "/containers/abc123/kill"
    ∷ [])

abbrev allows_get_to_allowed_endpoints : Bool
allows_get_to_allowed_endpoints = asserts (
    permits filter "GET" "/networks"
    ∷ permits filter "HEAD" "/networks/my-net"
    ∷ permits filter "GET" "/volumes"
    ∷ permits filter "GET" "/volumes/my-vol"
    ∷ [])

abbrev blocks_post_to_allowed_prefix : Bool
blocks_post_to_allowed_prefix = refuses filter "POST" "/networks/create"

abbrev blocks_unknown_endpoints : Bool
blocks_unknown_endpoints =
    asserts (refuses filter "GET" "/secrets" ∷ refuses filter "GET" "/swarm" ∷ [])

abbrev runtime : SecurityFilter
runtime = for_profile container_runtime

abbrev container_runtime_profile_allows_launcher_workflow : Bool
container_runtime_profile_allows_launcher_workflow = asserts (
    permits runtime "POST" "/containers/create"
    ∷ permits runtime "POST" "/containers/abc/start"
    ∷ permits runtime "POST" "/images/create"
    ∷ permits runtime "POST" "/networks/net/connect"
    ∷ permits runtime "POST" "/containers/abc/exec"
    ∷ permits runtime "POST" "/exec/exec-id/start"
    ∷ permits runtime "POST" "/build"
    ∷ permits runtime "POST" "/images/load"
    ∷ permits runtime "POST" "/containers/abc/wait"
    ∷ permits runtime "DELETE" "/containers/abc"
    ∷ permits runtime "POST" "/containers/abc/stop"
    ∷ permits runtime "POST" "/containers/abc/restart"
    ∷ [])

abbrev container_runtime_profile_keeps_destructive_ops_denied : Bool
container_runtime_profile_keeps_destructive_ops_denied = asserts (
    refuses_each runtime (
      ("POST", "/containers/abc/kill")
      ∷ ("POST", "/containers/abc/pause")
      ∷ ("POST", "/containers/abc/unpause")
      ∷ ("POST", "/containers/abc/rename")
      ∷ ("POST", "/containers/abc/update")
      ∷ ("POST", "/containers/abc/resize")
      ∷ ("POST", "/containers/abc/attach")
      ∷ ("POST", "/commit")
      ∷ [])
    ∷ permits runtime "POST" "/containers/abc/stop"
    ∷ permits runtime "POST" "/containers/abc/restart"
    ∷ [])

abbrev container_runtime_profile_completes_an_exec : Bool
container_runtime_profile_completes_an_exec = asserts (
    permits runtime "GET" "/exec/exec-id/json"
    ∷ permits runtime "POST" "/exec/exec-id/resize"
    ∷ refuses runtime "POST" "/containers/abc/attach"
    ∷ [])

abbrev container_runtime_profile_does_not_grant_writes_on_readable_prefixes : Bool
container_runtime_profile_does_not_grant_writes_on_readable_prefixes = refuses_each runtime (
    ("DELETE", "/volumes/abc")
    ∷ ("DELETE", "/networks/net")
    ∷ ("POST", "/volumes/create")
    ∷ ("POST", "/networks/create")
    ∷ [])

abbrev default_profile_refuses_the_exec_lifecycle : Bool
default_profile_refuses_the_exec_lifecycle = refuses_each filter (
    ("POST", "/containers/abc/exec")
    ∷ ("POST", "/exec/exec-id/start")
    ∷ ("GET", "/exec/exec-id/json")
    ∷ ("POST", "/exec/exec-id/resize")
    ∷ [])

abbrev container_removal_stays_denied_when_delete_is_allowed : Bool
container_removal_stays_denied_when_delete_is_allowed =
    let f = push_allow filter (some (codes "DELETE" ∷ [])) (some []) in
    asserts (refuses f "DELETE" "/containers/abc" ∷ refuses f "POST" "/containers/prune" ∷ [])

abbrev none_profile_grants_nothing_until_told_to : Bool
none_profile_grants_nothing_until_told_to =
    let f = for_profile SecurityProfile.none in
    let told = push_allow f (some (codes "GET" ∷ [])) (some (codes "/version" ∷ [])) in
    asserts (
      refuses f "GET" "/version"
      ∷ refuses f "GET" "/_ping"
      ∷ permits told "GET" "/version"
      ∷ refuses told "GET" "/info"
      ∷ [])

abbrev read_only_profile_blocks_mutating_methods : Bool
read_only_profile_blocks_mutating_methods =
    let f = for_profile read_only in
    asserts (permits f "GET" "/info" ∷ refuses f "POST" "/containers/json" ∷ [])

abbrev rule_with_only_methods_matches_every_path : Bool
rule_with_only_methods_matches_every_path =
    let f = push_exclude filter (some (codes "GET" ∷ [])) (some []) in
    asserts (refuses f "GET" "/info" ∷ permits f "HEAD" "/info" ∷ [])

abbrev rule_with_only_endpoints_matches_every_method : Bool
rule_with_only_endpoints_matches_every_method =
    let f = push_exclude filter (some []) (some (codes "/info" ∷ [])) in
    asserts (refuses f "GET" "/info" ∷ permits f "GET" "/version" ∷ [])

abbrev separate_rules_do_not_intersect_each_other : Bool
separate_rules_do_not_intersect_each_other =
    let f = push_exclude filter (some (codes "GET" ∷ [])) (some []) in
    let both = push_exclude f (some []) (some (codes "/version" ∷ [])) in
    asserts (
      refuses both "GET" "/info"
      ∷ refuses both "HEAD" "/version"
      ∷ permits both "HEAD" "/_ping"
      ∷ [])

abbrev empty_rule_is_inert : Bool
empty_rule_is_inert = permits filter "GET" "/info"

code : Unit {0}
unfolding layer_code segments_match retain_writes push new push_allow push_exclude
code = tt

profiles_pass :
    asserts (
      allows_read_only_endpoints ∷ allows_inspect_endpoints_with_wildcard
      ∷ blocks_mutation_endpoints ∷ blocks_exec_prefix ∷ blocks_restart_stop_start
      ∷ allows_get_to_allowed_endpoints ∷ blocks_post_to_allowed_prefix ∷ blocks_unknown_endpoints
      ∷ container_runtime_profile_allows_launcher_workflow
      ∷ container_runtime_profile_keeps_destructive_ops_denied
      ∷ container_runtime_profile_completes_an_exec
      ∷ container_runtime_profile_does_not_grant_writes_on_readable_prefixes
      ∷ default_profile_refuses_the_exec_lifecycle
      ∷ container_removal_stays_denied_when_delete_is_allowed
      ∷ none_profile_grants_nothing_until_told_to ∷ read_only_profile_blocks_mutating_methods
      ∷ rule_with_only_methods_matches_every_path ∷ rule_with_only_endpoints_matches_every_method
      ∷ separate_rules_do_not_intersect_each_other ∷ empty_rule_is_inert ∷ [])
    ≡ true
unfolding code
profiles_pass = refl
