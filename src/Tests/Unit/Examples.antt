-- ===== src/Tests/Unit/Examples.antt =====
-- src/policy.rs, its unit tests: the example environment file, and what it comes to.
use docker_socket_proxy.Security.Pattern.{segments_match}
use docker_socket_proxy.Security.Rules.{push}
use docker_socket_proxy.Policy.Document.{push_allow, push_deny, push_exclude}
use docker_socket_proxy.Common.{
  is_space, is_space2, is_space3, trim_end, trim_front, trim_start, not, [], ◌∷◌, ◌++◌, List,
  Option, none, map, keep, Bool, true, false, String, Str, codes, some, str_eq, starts_with,
  is_empty, if◌then◌else◌, trim, ◌==◌, ◌≡◌, refl, ◌&&◌,
}
use docker_socket_proxy.Config.{read_only}
use docker_socket_proxy.Security.Profile.{for_profile}
use docker_socket_proxy.Policy.Environment.{
  env_endpoints, env_methods, list_of, split_list, Env, get, apply_environment,
}
use docker_socket_proxy.Tests.Unit.{asserts, permits, refuses}
use docker_socket_proxy.Tests.Layer.{layer_code}

-- the UTF-8 bytes of U+2014
abbrev em_dash : Str
em_dash = 226 ∷ 128 ∷ 148 ∷ []

-- examples/env-modifiers.env, line by line
abbrev env_modifiers : List Str
env_modifiers =
    codes "# Policy set entirely through the environment, for platforms that pass"
    ∷ (codes "# variables but not files "
        ++ em_dash
        ++ codes " systemd units, Kubernetes, CI runners.")
    ∷ codes "#"
    ∷ codes "# Load with `docker run --env-file`, `set -a; . env-modifiers.env; set +a`, or"
    ∷ codes "# a compose `env_file:` key."
    ∷ codes "#"
    ∷ codes "# Lists are comma-separated. Environment rules merge after the profile and any"
    ∷ codes "# allowlist file; exclusions are applied last and always win."
    ∷ codes ""
    ∷ codes "DOCKER_PROXY_PROFILE=read-only"
    ∷ codes "DOCKER_PROXY_BIND=127.0.0.1"
    ∷ codes "DOCKER_PROXY_PORT=2375"
    ∷ codes ""
    ∷ codes "# Image inspection on top of the read-only profile's endpoints."
    ∷ codes "DOCKER_PROXY_INCLUDE_ENDPOINTS=/images/*/json,/images/*/history"
    ∷ codes "DOCKER_PROXY_INCLUDE_METHODS=GET"
    ∷ codes ""
    ∷ codes "# Logs can carry credentials an application printed at startup, and the process"
    ∷ codes "# list carries whatever was passed on a command line."
    ∷ codes "DOCKER_PROXY_EXCLUDE_ENDPOINTS=/containers/*/logs,/containers/*/top"
    ∷ codes ""
    ∷ codes "# A build context is the largest thing a client would legitimately send, and"
    ∷ codes "# this policy permits no writes at all."
    ∷ codes "DOCKER_PROXY_MAX_BODY_BYTES=65536"
    ∷ []

-- `split_once('=')`
abbrev key_and_setting : Str → Option (Str × Str)
key_and_setting [] = none
key_and_setting (c ∷ s) =
    let later = key_and_setting s in
    if c == b'='
    then some ([], s)
    else elim later [ none ↦ none | some (key, setting) ↦ some (c ∷ key, setting) ]

-- `filter_map(split_once)`, with the sides trimmed; no key stands twice
abbrev entries : List Str → Env
entries [] = []
entries (line ∷ rest) =
    let later = entries rest in
    elim (key_and_setting line) [
      | none ↦ later
      | some (key, setting) ↦ (trim key, trim setting) ∷ later
    ]

-- on the lines of the file that is read
abbrev env_file : List Str → Env
env_file contents =
    entries
      (keep (λ line. not (is_empty line) && not (starts_with line (codes "#"))) (map trim contents))

abbrev is_set_to : Option Str → String → Bool
is_set_to none expected = false
is_set_to (some found) expected = str_eq found (codes expected)

abbrev env_example_produces_the_policy_it_describes : Bool
env_example_produces_the_policy_it_describes =
    let env = env_file env_modifiers in
    let filter = apply_environment (for_profile read_only) env in
    asserts (
      is_set_to (get env (codes "DOCKER_PROXY_PROFILE")) "read-only"
      ∷ permits filter "GET" "/images/abc/json"
      ∷ permits filter "GET" "/images/abc/history"
      ∷ permits filter "GET" "/version"
      ∷ refuses filter "GET" "/containers/abc/logs"
      ∷ refuses filter "GET" "/containers/abc/top"
      ∷ refuses filter "POST" "/containers/create"
      ∷ [])

code : Unit {0}
unfolding layer_code apply_environment is_space is_space2 is_space3 trim_end trim_front trim_start
    push_deny push_exclude env_endpoints env_methods list_of split_list push get trim push_allow
    segments_match
code = tt

examples_pass : env_example_produces_the_policy_it_describes ≡ true
unfolding code
examples_pass = refl
