-- ===== src/Policy/Report.antt =====
-- src/policy.rs, `report_unknown`: the warnings that it logs, as a list.
pub mod Laws
use docker_socket_proxy.Common.{
  List, [], ◌∷◌, ◌++◌, Option, if◌then◌else◌, Str, codes, to_ascii_uppercase,
}
use docker_socket_proxy.Security.Rule.{flatten}
use docker_socket_proxy.DockerApi.{is_known_method, matches_known_path}

pub data Warning : Type 0 where
  unknown_method : (source method hint : Str) → Warning
  unknown_endpoint : (source endpoint : Str) → Warning

unfoldable pub method_hint : Str → Str
method_hint method =
    if is_known_method (to_ascii_uppercase method)
    then codes "HTTP methods are case-sensitive, so this matches no request"
    else codes "not a method the Docker API uses"

unfoldable pub report_methods : Str → List Str → List Warning
report_methods source [] = []
report_methods source (m ∷ ms) =
    let rest = report_methods source ms in
    if is_known_method m then rest else unknown_method source m (method_hint m) ∷ rest

unfoldable pub report_endpoints : Str → List Str → List Warning
report_endpoints source [] = []
report_endpoints source (e ∷ es) =
    let rest = report_endpoints source es in
    if matches_known_path e then rest else unknown_endpoint source e ∷ rest

-- `unwrap_or_default` on both sides
unfoldable pub report_unknown : Str → Option (List Str) → Option (List Str) → List Warning
report_unknown source methods endpoints =
    report_methods source (flatten methods) ++ report_endpoints source (flatten endpoints)
