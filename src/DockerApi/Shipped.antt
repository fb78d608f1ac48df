-- ===== src/DockerApi/Shipped.antt =====
-- tests/api_surface.rs: the built-in profiles name endpoints of the Docker API only.
use docker_socket_proxy.Common.{
  true, Member, Str, all, all-of-Member, ◌≡◌, refl, str_eq, contains, starts_with, ends_with, split,
  cons_first,
}
use docker_socket_proxy.Config.{SecurityProfile, default, read_only, container_runtime}
use docker_socket_proxy.Security.Pattern.{segments}
use docker_socket_proxy.Security.Rule
use docker_socket_proxy.Security.Rules
use docker_socket_proxy.Security.Profile.{for_profile, retain_writes}
use docker_socket_proxy.Security.Filter.{endpoints_of, endpoint_patterns}
use docker_socket_proxy.DockerApi.{segments_meet, meets_path, matches_known_path}

all_known :
    (profile : SecurityProfile)
    → all matches_known_path (endpoint_patterns (for_profile profile)) ≡ true
unfolding str_eq contains starts_with ends_with split cons_first segments Rule.is_inert Rule.insert
    Rule.insert_all Rule.extend Rule.add Rule.new Rules.push_rule Rules.add for_profile
    retain_writes endpoints_of endpoint_patterns segments_meet meets_path matches_known_path
all_known default = refl
all_known read_only = refl
all_known container_runtime = refl
all_known SecurityProfile.none = refl

-- Every endpoint pattern of every built-in profile names an endpoint of the Docker API.
shipped_known :
    (profile : SecurityProfile) (pattern : Str)
    → Member pattern (endpoint_patterns (for_profile profile))
    → matches_known_path pattern ≡ true
shipped_known profile pattern m =
    all-of-Member matches_known_path (endpoint_patterns (for_profile profile)) pattern
      (all_known profile) m
