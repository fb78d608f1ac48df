-- ===== src/Security/Normalize.antt =====
-- src/security.rs, `normalize_path` and `SecurityFilter::check_head`.
pub mod Canonical
use docker_socket_proxy.Common.{◌&&◌, if◌then◌else◌, Str, codes, str_eq}
use docker_socket_proxy.Error.{Result, ok, ◌>>=◌, ◌>>◌}
use docker_socket_proxy.Security.Profile.{SecurityFilter}
use docker_socket_proxy.Security.Filter.{check}
use docker_socket_proxy.Security.Percent.{percent_decode}
use docker_socket_proxy.Security.Segments.{remove_dot_segments}
use docker_socket_proxy.Security.Version.{strip_api_version}

unfoldable pub normalize_path : Str → Result Str
normalize_path path = do
  decoded ← percent_decode path
  ok (strip_api_version (remove_dot_segments decoded))

-- What a request body owes the decision beyond its head.
pub data BodyRule : Type 0 where
  none container_create : BodyRule

abbrev pub create_path : Str
create_path = codes "/containers/create"

-- the rule for a request that the policy allows, on its normalised path
unfoldable pub body_rule : Str → Str → BodyRule
body_rule method path =
    if str_eq method (codes "POST") && str_eq path create_path then container_create else none

unfoldable pub check_head : SecurityFilter → Str → Str → Result BodyRule
check_head f method path = do
  normalized ← normalize_path path
  check f method normalized
  ok (body_rule method normalized)
