-- ===== src/Proxy/Headers.antt =====
-- src/proxy.rs: which headers cross a hop.
pub mod Kept
pub mod Listed
pub mod Upgrade
use docker_socket_proxy.Common.{
  Bool, not, ◌||◌, List, [], ◌∷◌, ◌++◌, Option, none, some, map, keep, is_empty, if◌then◌else◌, Str,
  codes, str_eq, contains, split, trim, to_ascii_lowercase,
}
use docker_socket_proxy.Http.{Headers, HeaderMaps}

abbrev pub hop_by_hop_headers : List Str
hop_by_hop_headers =
    codes "connection"
    ∷ codes "keep-alive"
    ∷ codes "proxy-authenticate"
    ∷ codes "proxy-authorization"
    ∷ codes "te"
    ∷ codes "trailer"
    ∷ codes "transfer-encoding"
    ∷ codes "upgrade"
    ∷ []

-- `split(',')`, `trim`, `to_ascii_lowercase`, and the empty tokens dropped
unfoldable pub tokens : Str → List Str
tokens value =
    keep (λ token. not (is_empty token))
      (map (λ token. to_ascii_lowercase (trim token)) (split b',' value))

unfoldable pub is_hop_by_hop : Str → List Str → Bool
is_hop_by_hop name listed =
    contains hop_by_hop_headers (to_ascii_lowercase name)
    || contains listed (to_ascii_lowercase name)

-- the loop over the client's headers; `Host` is the transport's
unfoldable pub request_headers : List Str → Headers → Headers
request_headers listed [] = []
request_headers listed ((key, value) ∷ rest) =
    let later = request_headers listed rest in
    let lower = to_ascii_lowercase key in
    if str_eq lower (codes "host") || is_hop_by_hop lower listed
    then later
    else (key, value) ∷ later

-- the loop over the daemon's headers
unfoldable pub response_headers : List Str → Headers → Headers
response_headers listed [] = []
response_headers listed ((key, value) ∷ rest) =
    let later = response_headers listed rest in
    if is_hop_by_hop key listed then later else (key, value) ∷ later

-- the two headers of an upgrade offered or accepted on a hop
unfoldable pub upgrade_headers : Option Str → Headers
upgrade_headers none = []
upgrade_headers (some protocol) =
    (codes "connection", codes "upgrade") ∷ (codes "upgrade", protocol) ∷ []

module _ (http : HeaderMaps) where
  open http use {HeaderMap, get, get_all, to_str}

  unfoldable pub listed_in : List Str → List Str
  listed_in [] = []
  listed_in (value ∷ rest) =
      let later = listed_in rest in
      elim (to_str value) [ none ↦ later | some text ↦ tokens text ++ later ]

  -- The names that the `Connection` fields list; the hash set is a list.
  unfoldable pub connection_specific_headers : HeaderMap → List Str
  connection_specific_headers headers = listed_in (get_all headers (codes "connection"))

  unfoldable pub requested_upgrade : HeaderMap → List Str → Option Str
  requested_upgrade headers listed =
      if contains listed (codes "upgrade") then get headers (codes "upgrade") else none
