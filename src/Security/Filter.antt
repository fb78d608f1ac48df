-- ===== src/Security/Filter.antt =====
-- src/security.rs, `SecurityFilter::check` and the accessors of the policy loader.
pub mod Decision
use docker_socket_proxy.Common.{List, [], ◌∷◌, ◌++◌, if◌then◌else◌, Str, codes}
use docker_socket_proxy.Error.{forbidden, Result, ok, err}
use docker_socket_proxy.Security.Rules
use docker_socket_proxy.Security.Rules.{RuleList}
use docker_socket_proxy.Security.Profile.{SecurityFilter}

-- `format!("…: {method} {path}")`
abbrev pub reason : Str → Str → Str → Str
reason rule method path = rule ++ method ++ b' ' ∷ path

unfoldable pub check : SecurityFilter → Str → Str → Result (Unit {0})
check f method path =
    if Rules.matches f.exclude method path
    then err (forbidden (reason (codes "excluded by policy: ") method path))
    else if Rules.matches f.deny method path
    then err (forbidden (reason (codes "blocked endpoint: ") method path))
    else if Rules.matches f.allow method path
    then ok tt
    else err (forbidden (reason (codes "not allowed: ") method path))

unfoldable pub endpoints_of : RuleList → List Str
endpoints_of [] = []
endpoints_of (rule ∷ rules) = rule.endpoints ++ endpoints_of rules

-- Every pattern in any position, allow before deny before exclude.
unfoldable pub endpoint_patterns : SecurityFilter → List Str
endpoint_patterns f = endpoints_of f.allow ++ endpoints_of f.deny ++ endpoints_of f.exclude
