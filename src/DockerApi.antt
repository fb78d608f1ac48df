-- ===== src/DockerApi.antt =====
-- src/docker_api.rs: the known API surface, for recognising rules that match nothing.
pub mod Known
pub mod Reached
pub mod Shipped
use docker_socket_proxy.Common.{
  Bool, true, ◌&&◌, ◌||◌, List, [], ◌∷◌, ◌++◌, any, length, ◌==◌, if◌then◌else◌, Str, codes, slash,
  str_eq, contains, starts_with, ends_with,
}
use docker_socket_proxy.Security.Pattern.{segments}

abbrev pub version : Str
version = codes "1.55"

abbrev pub paths : List Str
paths =
    codes "/_ping"
    ∷ codes "/auth"
    ∷ codes "/build"
    ∷ codes "/build/prune"
    ∷ codes "/commit"
    ∷ codes "/configs"
    ∷ codes "/configs/*"
    ∷ codes "/configs/*/update"
    ∷ codes "/configs/create"
    ∷ codes "/containers/*"
    ∷ codes "/containers/*/archive"
    ∷ codes "/containers/*/attach"
    ∷ codes "/containers/*/attach/ws"
    ∷ codes "/containers/*/changes"
    ∷ codes "/containers/*/exec"
    ∷ codes "/containers/*/export"
    ∷ codes "/containers/*/json"
    ∷ codes "/containers/*/kill"
    ∷ codes "/containers/*/logs"
    ∷ codes "/containers/*/pause"
    ∷ codes "/containers/*/rename"
    ∷ codes "/containers/*/resize"
    ∷ codes "/containers/*/restart"
    ∷ codes "/containers/*/start"
    ∷ codes "/containers/*/stats"
    ∷ codes "/containers/*/stop"
    ∷ codes "/containers/*/top"
    ∷ codes "/containers/*/unpause"
    ∷ codes "/containers/*/update"
    ∷ codes "/containers/*/wait"
    ∷ codes "/containers/create"
    ∷ codes "/containers/json"
    ∷ codes "/containers/prune"
    ∷ codes "/distribution/*/json"
    ∷ codes "/events"
    ∷ codes "/exec/*/json"
    ∷ codes "/exec/*/resize"
    ∷ codes "/exec/*/start"
    ∷ codes "/images/*"
    ∷ codes "/images/*/attestations"
    ∷ codes "/images/*/get"
    ∷ codes "/images/*/history"
    ∷ codes "/images/*/json"
    ∷ codes "/images/*/push"
    ∷ codes "/images/*/tag"
    ∷ codes "/images/create"
    ∷ codes "/images/get"
    ∷ codes "/images/json"
    ∷ codes "/images/load"
    ∷ codes "/images/prune"
    ∷ codes "/images/search"
    ∷ codes "/info"
    ∷ codes "/networks"
    ∷ codes "/networks/*"
    ∷ codes "/networks/*/connect"
    ∷ codes "/networks/*/disconnect"
    ∷ codes "/networks/create"
    ∷ codes "/networks/prune"
    ∷ codes "/nodes"
    ∷ codes "/nodes/*"
    ∷ codes "/nodes/*/update"
    ∷ codes "/plugins"
    ∷ codes "/plugins/*"
    ∷ codes "/plugins/*/disable"
    ∷ codes "/plugins/*/enable"
    ∷ codes "/plugins/*/json"
    ∷ codes "/plugins/*/push"
    ∷ codes "/plugins/*/set"
    ∷ codes "/plugins/*/upgrade"
    ∷ codes "/plugins/create"
    ∷ codes "/plugins/privileges"
    ∷ codes "/plugins/pull"
    ∷ codes "/secrets"
    ∷ codes "/secrets/*"
    ∷ codes "/secrets/*/update"
    ∷ codes "/secrets/create"
    ∷ codes "/services"
    ∷ codes "/services/*"
    ∷ codes "/services/*/logs"
    ∷ codes "/services/*/update"
    ∷ codes "/services/create"
    ∷ codes "/session"
    ∷ codes "/swarm"
    ∷ codes "/swarm/init"
    ∷ codes "/swarm/join"
    ∷ codes "/swarm/leave"
    ∷ codes "/swarm/unlock"
    ∷ codes "/swarm/unlockkey"
    ∷ codes "/swarm/update"
    ∷ codes "/system/df"
    ∷ codes "/tasks"
    ∷ codes "/tasks/*"
    ∷ codes "/tasks/*/logs"
    ∷ codes "/version"
    ∷ codes "/volumes"
    ∷ codes "/volumes/*"
    ∷ codes "/volumes/create"
    ∷ codes "/volumes/prune"
    ∷ codes "/grpc"
    ∷ []

abbrev pub methods : List Str
methods = codes "GET" ∷ codes "HEAD" ∷ codes "POST" ∷ codes "PUT" ∷ codes "DELETE" ∷ []

-- `zip(…).all(|(a, b)| a == "*" || b == &a || *b == "*")`
unfoldable pub segments_meet : List Str → List Str → Bool
segments_meet [] bs = true
segments_meet (a ∷ ss) [] = true
segments_meet (a ∷ ss) (b ∷ bs) =
    (str_eq a (codes "*") || str_eq b a || str_eq b (codes "*")) && segments_meet ss bs

-- the closure over one known path
unfoldable pub meets_path : Str → Str → Bool
meets_path pattern path =
    if ends_with pattern slash
    then starts_with path pattern || str_eq (path ++ slash ∷ []) pattern
    else length (segments pattern) == length (segments path)
      && segments_meet (segments pattern) (segments path)

unfoldable pub matches_known_path : Str → Bool
matches_known_path pattern = any (meets_path pattern) paths

unfoldable pub is_known_method : Str → Bool
is_known_method method = contains methods method
