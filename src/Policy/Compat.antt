-- ===== src/Policy/Compat.antt =====
-- src/policy.rs: the section variables of other socket proxies, `compatibility_filter`.
pub mod Endpoints
pub mod Laws
use docker_socket_proxy.Common.{
  Bool, true, false, not, List, [], ◌∷◌, ◌++◌, Option, none, some, map, keep, is_empty,
  if◌then◌else◌, Str, codes, slash, contains, join, trim, to_ascii_lowercase,
}
use docker_socket_proxy.Config.{SecurityProfile, default, read_only, container_runtime}
use docker_socket_proxy.Error.{config, Result, ok, err}
use docker_socket_proxy.Security.Profile.{SecurityFilter, deny_all}
use docker_socket_proxy.Policy.Document.{push_allow}
use docker_socket_proxy.Policy.Environment.{Env, get}

abbrev pub sections : List (Str × Str)
sections =
    (codes "AUTH", codes "/auth")
    ∷ (codes "BUILD", codes "/build")
    ∷ (codes "COMMIT", codes "/commit")
    ∷ (codes "CONFIGS", codes "/configs")
    ∷ (codes "CONTAINERS", codes "/containers")
    ∷ (codes "DISTRIBUTION", codes "/distribution")
    ∷ (codes "EVENTS", codes "/events")
    ∷ (codes "EXEC", codes "/exec")
    ∷ (codes "GRPC", codes "/grpc")
    ∷ (codes "IMAGES", codes "/images")
    ∷ (codes "INFO", codes "/info")
    ∷ (codes "NETWORKS", codes "/networks")
    ∷ (codes "NODES", codes "/nodes")
    ∷ (codes "PING", codes "/_ping")
    ∷ (codes "PLUGINS", codes "/plugins")
    ∷ (codes "SECRETS", codes "/secrets")
    ∷ (codes "SERVICES", codes "/services")
    ∷ (codes "SESSION", codes "/session")
    ∷ (codes "SWARM", codes "/swarm")
    ∷ (codes "SYSTEM", codes "/system")
    ∷ (codes "TASKS", codes "/tasks")
    ∷ (codes "VERSION", codes "/version")
    ∷ (codes "VOLUMES", codes "/volumes")
    ∷ []

abbrev pub operations : List (Str × List Str)
operations =
    (
      codes "ALLOW_RESTARTS",
      codes "/containers/*/stop" ∷ codes "/containers/*/restart" ∷ codes "/containers/*/kill" ∷ [],
    )
    ∷ (codes "ALLOW_START", codes "/containers/*/start" ∷ [])
    ∷ (codes "ALLOW_STOP", codes "/containers/*/stop" ∷ [])
    ∷ (codes "ALLOW_PAUSE", codes "/containers/*/pause" ∷ [])
    ∷ (codes "ALLOW_UNPAUSE", codes "/containers/*/unpause" ∷ [])
    ∷ []

abbrev pub default_on : List Str
default_on = codes "EVENTS" ∷ codes "PING" ∷ codes "VERSION" ∷ []

abbrev pub enabling : List Str
enabling = codes "1" ∷ codes "true" ∷ codes "yes" ∷ codes "on" ∷ []

unfoldable pub is_enabled : Str → Bool
is_enabled value = contains enabling (to_ascii_lowercase (trim value))

abbrev pub name_of {ℓ} : {A : Type ℓ} → Str × A → Str
name_of entry = entry.0

-- `env.contains_key(name)`
unfoldable pub is_set : Env → Str → Bool
is_set env name = elim (get env name) [ none ↦ false | some v ↦ true ]

unfoldable pub compat_names : List Str
compat_names = map name_of sections ++ (map name_of operations ++ codes "POST" ∷ [])

unfoldable pub granted : Env → Str → Bool
granted env name = elim (get env name) [
  | none ↦ contains default_on name
  | some value ↦ is_enabled value
]

unfoldable pub section_endpoints : Env → List (Str × Str) → List Str
section_endpoints env [] = []
section_endpoints env ((name, section) ∷ rest) =
    let later = section_endpoints env rest in
    if granted env name then section ∷ (section ++ slash ∷ []) ∷ later else later

unfoldable pub operation_endpoints : Env → List (Str × List Str) → List Str
operation_endpoints env [] = []
operation_endpoints env ((name, paths) ∷ rest) =
    let later = operation_endpoints env rest in if granted env name then paths ++ later else later

unfoldable pub compat_endpoints : Env → List Str
compat_endpoints env = section_endpoints env sections ++ operation_endpoints env operations

unfoldable pub compat_methods : Env → List Str
compat_methods env = if granted env (codes "POST") then [] else codes "GET" ∷ codes "HEAD" ∷ []

-- the derived `Debug`
unfoldable pub profile_name : SecurityProfile → Str
profile_name default = codes "Default"
profile_name read_only = codes "ReadOnly"
profile_name container_runtime = codes "ContainerRuntime"
profile_name SecurityProfile.none = codes "None"

unfoldable pub is_default : SecurityProfile → Bool
is_default default = true
is_default _ = false

unfoldable pub conflict : List Str → SecurityProfile → Str
conflict names profile =
    codes "compatibility variables ("
    ++ (join (codes ", ") names
        ++ (codes ") define a complete policy and cannot be combined with the "
            ++ (profile_name profile ++ codes " profile: pick one")))

-- `None` where no variable is set.
unfoldable pub compatibility_filter : Env → SecurityProfile → Result (Option SecurityFilter)
compatibility_filter env profile =
    let names = keep (is_set env) compat_names in
    if is_empty names
    then ok none
    else if not (is_default profile)
    then err (config (conflict names profile))
    else ok (some (push_allow deny_all (some (compat_methods env)) (some (compat_endpoints env))))
