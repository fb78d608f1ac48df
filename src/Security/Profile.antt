-- ===== src/Security/Profile.antt =====
-- src/security.rs: the built-in endpoint tables and `SecurityFilter::for_profile`.
pub mod Apart
pub mod Runtime
pub mod Grants
use docker_socket_proxy.Common.{not, List, [], ◌∷◌, ◌++◌, keep, Str, codes, contains}
use docker_socket_proxy.Config.{SecurityProfile, default, read_only, container_runtime}
use docker_socket_proxy.Security.Rule
use docker_socket_proxy.Security.Rule.{RuleSet}
use docker_socket_proxy.Security.Rules
use docker_socket_proxy.Security.Rules.{RuleList}

abbrev pub read_methods : List Str
read_methods = codes "GET" ∷ codes "HEAD" ∷ []

abbrev pub write_methods : List Str
write_methods = codes "POST" ∷ codes "PUT" ∷ codes "DELETE" ∷ []

abbrev pub readable_endpoints : List Str
readable_endpoints =
    codes "/containers/json"
    ∷ codes "/containers/*/json"
    ∷ codes "/containers/*/logs"
    ∷ codes "/images/json"
    ∷ codes "/images/*/json"
    ∷ codes "/info"
    ∷ codes "/version"
    ∷ codes "/networks"
    ∷ codes "/networks/"
    ∷ codes "/volumes"
    ∷ codes "/volumes/"
    ∷ codes "/_ping"
    ∷ []

abbrev pub mutating_endpoints : List Str
mutating_endpoints =
    codes "/containers/create"
    ∷ codes "/containers/*/exec"
    ∷ codes "/containers/*/start"
    ∷ codes "/containers/*/stop"
    ∷ codes "/containers/*/restart"
    ∷ codes "/containers/*/kill"
    ∷ codes "/containers/*/pause"
    ∷ codes "/containers/*/unpause"
    ∷ codes "/containers/*/rename"
    ∷ codes "/containers/*/update"
    ∷ codes "/containers/*"
    ∷ codes "/containers/*/resize"
    ∷ codes "/containers/*/attach"
    ∷ codes "/containers/*/wait"
    ∷ codes "/exec/"
    ∷ codes "/build"
    ∷ codes "/commit"
    ∷ []

abbrev pub runtime_endpoints : List Str
runtime_endpoints =
    codes "/containers/create"
    ∷ codes "/containers/*/start"
    ∷ codes "/containers/*/stop"
    ∷ codes "/containers/*/restart"
    ∷ codes "/containers/*/exec"
    ∷ codes "/containers/*/wait"
    ∷ codes "/containers/*/archive"
    ∷ codes "/containers/*"
    ∷ codes "/images/create"
    ∷ codes "/images/load"
    ∷ codes "/build"
    ∷ codes "/networks/*/connect"
    ∷ codes "/exec/*/start"
    ∷ codes "/exec/*/json"
    ∷ codes "/exec/*/resize"
    ∷ []

-- the endpoints that leave the write denial of the container-runtime profile
abbrev pub runtime_exempt : List Str
runtime_exempt =
    codes "/containers/create"
    ∷ codes "/containers/*/start"
    ∷ codes "/containers/*/stop"
    ∷ codes "/containers/*/restart"
    ∷ codes "/containers/*/exec"
    ∷ codes "/containers/*/wait"
    ∷ codes "/containers/*"
    ∷ codes "/exec/"
    ∷ codes "/build"
    ∷ []

pub record SecurityFilter : Type 0 where
  pub allow : RuleList
  pub deny : RuleList
  pub exclude : RuleList
  pub profile : SecurityProfile

unfoldable pub deny_all : SecurityFilter
deny_all = record { allow = []; deny = []; exclude = []; profile = SecurityProfile.none }

-- `writes.endpoints.retain(…)`
unfoldable pub retain_writes : RuleSet → RuleSet
retain_writes rule = record rule {
  endpoints = keep (λ e. not (contains runtime_exempt e)) rule.endpoints;
}

unfoldable pub for_profile : SecurityProfile → SecurityFilter
for_profile SecurityProfile.none = record {
  allow = [];
  deny = [];
  exclude = [];
  profile = SecurityProfile.none;
}
for_profile default = record {
  allow = Rules.add [] read_methods readable_endpoints;
  deny = Rules.push_rule [] (Rule.new write_methods mutating_endpoints);
  exclude = [];
  profile = default;
}
for_profile read_only = record {
  allow = Rules.add [] read_methods readable_endpoints;
  deny = Rules.push_rule [] (Rule.new (write_methods ++ codes "PATCH" ∷ []) []);
  exclude = [];
  profile = read_only;
}
for_profile container_runtime = record {
  allow =
      Rules.add
        (Rules.add (Rules.add [] read_methods readable_endpoints) write_methods runtime_endpoints)
        (codes "GET" ∷ []) (codes "/exec/*/json" ∷ []);
  deny = Rules.push_rule [] (retain_writes (Rule.new write_methods mutating_endpoints));
  exclude = [];
  profile = container_runtime;
}

-- `SecurityFilter::new`, which `Default` calls too
unfoldable pub new : SecurityFilter
new = for_profile default
