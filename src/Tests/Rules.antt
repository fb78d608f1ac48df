-- ===== src/Tests/Rules.antt =====
-- Patterns, rules and profiles at concrete requests.
use docker_socket_proxy.Common.{
  cons_first, [], ◌∷◌, some, Member, Str, codes, ◌≡◌, ◌⊎◌, ◌↔◌, true, false, str_eq, ends_with,
  starts_with, has_byte, split,
}
use docker_socket_proxy.Error.{ok, err, forbidden}
use docker_socket_proxy.Config.{default, container_runtime}
use docker_socket_proxy.Security.Pattern.{matches_pattern, segments}
use docker_socket_proxy.Security.Pattern.Matches.{Matches, matches_pattern_iff}
use docker_socket_proxy.Security.Rule.{RuleSet, flatten}
use docker_socket_proxy.Security.Profile.{for_profile}
use docker_socket_proxy.Security.Profile.Grants.{Grants, for_profile_iff}
use docker_socket_proxy.Security.Filter.{check, reason}
use docker_socket_proxy.Security.Filter.Decision.{Permits, Refused, check_iff, check_err_iff}
use docker_socket_proxy.Policy.Report.{unknown_endpoint, unknown_method, report_unknown}
use docker_socket_proxy.Policy.Report.Laws.{HintFor, report_unknown_iff}
use docker_socket_proxy.DockerApi.{methods, meets_path, segments_meet, matches_known_path}

one_rule : RuleSet
one_rule = record { methods = codes "GET" ∷ []; endpoints = codes "/containers/*/json" ∷ [] }

matches_pattern_iff_example :
    (matches_pattern (codes "/containers/*/json") (codes "/containers/abc/json") ≡ true)
    ↔ Matches (codes "/containers/*/json") (codes "/containers/abc/json")
matches_pattern_iff_example =
    matches_pattern_iff (codes "/containers/*/json") (codes "/containers/abc/json")

check_iff_example :
    (check (for_profile default) (codes "GET") (codes "/info") ≡ ok tt)
    ↔ Permits (for_profile default) (codes "GET") (codes "/info")
check_iff_example = check_iff (for_profile default) (codes "GET") (codes "/info")

check_err_iff_example :
    (check (for_profile default) (codes "PUT") (codes "/info")
      ≡ err (forbidden (reason (codes "not allowed: ") (codes "PUT") (codes "/info"))))
    ↔ Refused
        (for_profile default)
        (codes "PUT")
        (codes "/info")
        (forbidden (reason (codes "not allowed: ") (codes "PUT") (codes "/info")))
check_err_iff_example =
    check_err_iff (for_profile default) (codes "PUT") (codes "/info")
      (forbidden (reason (codes "not allowed: ") (codes "PUT") (codes "/info")))

for_profile_iff_example :
    (check (for_profile container_runtime) (codes "POST") (codes "/containers/prune") ≡ ok tt)
    ↔ Grants container_runtime (codes "POST") (codes "/containers/prune")
for_profile_iff_example =
    for_profile_iff (codes "POST") (codes "/containers/prune") container_runtime

code : Unit {0}
unfolding str_eq ends_with starts_with has_byte split segments matches_known_path cons_first
    meets_path segments_meet
code = tt

report_unknown_iff_example :
    Member
      (unknown_endpoint (codes "ALLOW") (codes "/foo"))
      (report_unknown (codes "ALLOW") (some (codes "get" ∷ [])) (some (codes "/foo" ∷ [])))
    ↔ (((m : Str) × (hint : Str) × Member m (flatten (some (codes "get" ∷ [])))
          × (¬ Member m methods)
          × HintFor m hint
          × (unknown_endpoint (codes "ALLOW") (codes "/foo")
              ≡ unknown_method (codes "ALLOW") m hint))
        ⊎ ((e : Str) × Member e (flatten (some (codes "/foo" ∷ [])))
            × (matches_known_path e ≡ false)
            × (unknown_endpoint (codes "ALLOW") (codes "/foo")
                ≡ unknown_endpoint (codes "ALLOW") e)))
report_unknown_iff_example =
    report_unknown_iff (codes "ALLOW") (some (codes "get" ∷ [])) (some (codes "/foo" ∷ []))
      (unknown_endpoint (codes "ALLOW") (codes "/foo"))
