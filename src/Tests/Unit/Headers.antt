-- ===== src/Tests/Unit/Headers.antt =====
-- src/proxy.rs, its unit tests: the headers that end at a hop. The hash set of names is a list.
use docker_socket_proxy.Common.{
  ascii_lower, is_space, is_space2, is_space3, to_ascii_lowercase, trim, trim_end, trim_front,
  trim_start, not, all, map, length, contains, List, Option, none, some, [], ◌∷◌, Bool, true, false,
  String, Str, codes, str_eq, ◌==◌, ◌≡◌, refl,
}
use docker_socket_proxy.Http
use docker_socket_proxy.Proxy.Headers.{
  listed_in, tokens, hop_by_hop_headers, connection_specific_headers, is_hop_by_hop,
  requested_upgrade,
}
use docker_socket_proxy.Tests.Unit.{asserts}
use docker_socket_proxy.Tests.Layer.{layer_code}
use docker_socket_proxy.Tests.Fixtures.{http}

abbrev headers : List (String × String) → Http.Headers
headers pairs = map (λ pair. (codes (pair.0), codes (pair.1))) pairs

abbrev listed_by : List (String × String) → List Str
listed_by pairs = connection_specific_headers http (headers pairs)

abbrev strips_well_known_hop_by_hop_headers : Bool
strips_well_known_hop_by_hop_headers =
    let listed = listed_by [] in
    asserts (
      all (λ name. is_hop_by_hop name listed) hop_by_hop_headers
      ∷ not (is_hop_by_hop (codes "content-type") listed)
      ∷ [])

abbrev strips_headers_named_by_connection : Bool
strips_headers_named_by_connection =
    let listed = listed_by (("connection", "keep-alive, X-Secret") ∷ []) in
    asserts (
      is_hop_by_hop (codes "x-secret") listed
      ∷ is_hop_by_hop (codes "X-Secret") listed
      ∷ not (is_hop_by_hop (codes "x-public") listed)
      ∷ [])

abbrev collects_tokens_across_repeated_connection_headers : Bool
collects_tokens_across_repeated_connection_headers =
    let listed = listed_by (("connection", "X-One") ∷ ("connection", "X-Two , X-Three") ∷ []) in
    all (λ name. is_hop_by_hop name listed) (codes "x-one" ∷ codes "x-two" ∷ codes "x-three" ∷ [])

-- `requested_upgrade`, by the names that the same headers list
abbrev upgrade_of : List (String × String) → Option Str
upgrade_of pairs = requested_upgrade http (headers pairs) (listed_by pairs)

abbrev is_some_of : Option Str → String → Bool
is_some_of none expected = false
is_some_of (some found) expected = str_eq found (codes expected)

abbrev is_absent : Option Str → Bool
is_absent none = true
is_absent (some found) = false

abbrev reads_an_upgrade_offer_only_when_connection_names_it : Bool
reads_an_upgrade_offer_only_when_connection_names_it = asserts (
    is_some_of (upgrade_of (("connection", "upgrade") ∷ ("upgrade", "tcp") ∷ [])) "tcp"
    ∷ is_absent (upgrade_of (("upgrade", "tcp") ∷ []))
    ∷ [])

abbrev ignores_empty_connection_tokens : Bool
ignores_empty_connection_tokens =
    let listed = listed_by (("connection", "close,,  ,") ∷ []) in
    asserts (contains listed (codes "close") ∷ (length listed == 1) ∷ [])

code : Unit {0}
unfolding layer_code connection_specific_headers ascii_lower is_space is_space2 is_space3
    to_ascii_lowercase trim trim_end trim_front trim_start listed_in tokens is_hop_by_hop
    requested_upgrade
code = tt

headers_pass :
    asserts (
      strips_well_known_hop_by_hop_headers ∷ strips_headers_named_by_connection
      ∷ collects_tokens_across_repeated_connection_headers
      ∷ reads_an_upgrade_offer_only_when_connection_names_it ∷ ignores_empty_connection_tokens ∷ [])
    ≡ true
unfolding code
headers_pass = refl
