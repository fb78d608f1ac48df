-- ===== src/Policy/Environment.antt =====
-- src/policy.rs: `split_list` and `apply_environment`. The environment's hash map is a list of its
-- entries, looked up by key.
use docker_socket_proxy.Common.{
  not, List, [], ◌∷◌, ◌++◌, Option, none, some, map, keep, is_empty, if◌then◌else◌, Str, codes,
  str_eq, split, trim,
}
use docker_socket_proxy.Security.Profile.{SecurityFilter}
use docker_socket_proxy.Policy.Report.{Warning, report_unknown}
use docker_socket_proxy.Policy.Document.{push_allow, push_deny, push_exclude}

abbrev pub Env : Type 0
Env = List (Str × Str)

unfoldable pub get : Env → Str → Option Str
get [] name = none
get ((k, v) ∷ env) name = if str_eq k name then some v else get env name

unfoldable pub split_list : Str → List Str
split_list raw = keep (λ value. not (is_empty value)) (map trim (split b',' raw))

-- `env.get(name).map(|raw| split_list(raw))`
unfoldable pub list_of : Option Str → Option (List Str)
list_of none = none
list_of (some raw) = some (split_list raw)

unfoldable pub env_methods : Env → Str → Option (List Str)
env_methods env prefix = list_of (get env (codes "DOCKER_PROXY_" ++ (prefix ++ codes "_METHODS")))

unfoldable pub env_endpoints : Env → Str → Option (List Str)
env_endpoints env prefix =
    list_of (get env (codes "DOCKER_PROXY_" ++ (prefix ++ codes "_ENDPOINTS")))

unfoldable pub apply_environment : SecurityFilter → Env → SecurityFilter
apply_environment f env =
    let rule =
      λ (prefix : Str)
          (push : SecurityFilter → Option (List Str) → Option (List Str) → SecurityFilter)
          (g : SecurityFilter).
        push g (env_methods env prefix) (env_endpoints env prefix) in
    rule (codes "EXCLUDE") push_exclude (
      rule (codes "DENY") push_deny
        (rule (codes "INCLUDE") push_allow (rule (codes "ALLOW") push_allow f)))

unfoldable pub prefix_warnings : Env → Str → List Warning
prefix_warnings env prefix =
    report_unknown (codes "DOCKER_PROXY_" ++ (prefix ++ codes "_*")) (env_methods env prefix)
      (env_endpoints env prefix)

-- what `apply_environment` logs, in its order
unfoldable pub environment_warnings : Env → List Warning
environment_warnings env =
    prefix_warnings env (codes "ALLOW")
    ++ (prefix_warnings env (codes "INCLUDE")
        ++ (prefix_warnings env (codes "DENY") ++ prefix_warnings env (codes "EXCLUDE")))
