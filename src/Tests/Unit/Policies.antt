-- ===== src/Tests/Unit/Policies.antt =====
-- src/policy.rs, its unit tests: documents and environment lists. The text of each document is given as
-- the document that it parses to.
use docker_socket_proxy.Security.Rules.{push, push_rule}
use docker_socket_proxy.Security.Rule.{extend, insert, insert_all, is_inert}
use docker_socket_proxy.Security.Pattern.{segments_match}
use docker_socket_proxy.Common.{
  cons_first, contains, is_space, is_space2, is_space3, split, trim, trim_end, trim_front,
  trim_start, not, all, any, ◌&&◌, ◌||◌, ◌++◌, slash, [], ◌∷◌, List, Option, none, Bool, true,
  false, Str, codes, some, str_eq, starts_with, is_empty, ◌≡◌, refl,
}
use docker_socket_proxy.Config.{default, SecurityProfile}
use docker_socket_proxy.DockerApi.{
  meets_path, segments_meet, paths, is_known_method, matches_known_path,
}
use docker_socket_proxy.Security.Profile.{SecurityFilter, for_profile}
use docker_socket_proxy.Policy.Document.{
  apply_set, push_allow, push_deny, push_exclude, EndpointSet, PolicyDocument, empty,
  apply_document,
}
use docker_socket_proxy.Policy.Environment.{
  env_endpoints, env_methods, list_of, apply_environment, split_list,
}
use docker_socket_proxy.Policy.Compat.{sections, operations}
use docker_socket_proxy.Tests.Unit.{asserts, permits, refuses}
use docker_socket_proxy.Tests.Layer.{layer_code}

-- `assert_eq!` of two lists
abbrev lists_eq : List Str → List Str → Bool
lists_eq [] [] = true
lists_eq [] (s ∷ ss) = false
lists_eq (s ∷ ss) [] = false
lists_eq (s ∷ ss) (t ∷ ts) = str_eq s t && lists_eq ss ts

abbrev from_toml : PolicyDocument → SecurityProfile → SecurityFilter
from_toml document profile = apply_document (for_profile profile) document

abbrev set : List Str → List Str → Option EndpointSet
set endpoints methods = some (record { endpoints = some endpoints; methods = some methods })

abbrev merges_allow_rules_with_profile_defaults : Bool
merges_allow_rules_with_profile_defaults =
    let document = record empty {
      allow = set (codes "/_ping" ∷ []) (codes "GET" ∷ []);
      deny = set [] [];
    } in
    let filter = from_toml document default in
    asserts (
      permits filter "GET" "/_ping"
      ∷ permits filter "GET" "/containers/json"
      ∷ permits filter "GET" "/info"
      ∷ [])

abbrev a_file_allow_stays_independent_of_the_profile_allow : Bool
a_file_allow_stays_independent_of_the_profile_allow =
    let document = record empty { allow = set (codes "/images/create" ∷ []) (codes "POST" ∷ []) } in
    let filter = from_toml document default in
    asserts (permits filter "POST" "/images/create" ∷ refuses filter "POST" "/info" ∷ [])

abbrev pub include_images : PolicyDocument
include_images = record empty { include = set (codes "/images/*/json" ∷ []) (codes "GET" ∷ []) }

abbrev include_adds_and_exclude_removes : Bool
include_adds_and_exclude_removes =
    let document = record include_images {
      exclude =
          some (record { endpoints = some (codes "/containers/*/logs" ∷ []); methods = none });
    } in
    let filter = from_toml document default in
    asserts
      (permits filter "GET" "/images/abc/json" ∷ refuses filter "GET" "/containers/abc/logs" ∷ [])

abbrev environment_lists_merge_with_profile : Bool
environment_lists_merge_with_profile =
    let env =
      (codes "DOCKER_PROXY_ALLOW_ENDPOINTS", codes "/images/search")
      ∷ (codes "DOCKER_PROXY_ALLOW_METHODS", codes "POST")
      ∷ (codes "DOCKER_PROXY_EXCLUDE_ENDPOINTS", codes "/info")
      ∷ [] in
    let filter = apply_environment (for_profile default) env in
    asserts (
      permits filter "POST" "/images/search"
      ∷ refuses filter "GET" "/info"
      ∷ permits filter "GET" "/version"
      ∷ [])

abbrev typos_are_recognised_as_matching_nothing : Bool
typos_are_recognised_as_matching_nothing = asserts (
    not (matches_known_path (codes "/containres/*/logs"))
    ∷ not (is_known_method (codes "GTE"))
    ∷ not (is_known_method (codes "get"))
    ∷ matches_known_path (codes "/containers/*/logs")
    ∷ matches_known_path (codes "/exec/")
    ∷ is_known_method (codes "GET")
    ∷ [])

-- a path is the section, or lies under it
abbrev reaches : Str → Bool
reaches section =
    any (λ path. starts_with path (section ++ slash ∷ []) || str_eq path section) paths

abbrev every_section_variable_reaches_a_real_endpoint : Bool
every_section_variable_reaches_a_real_endpoint =
    all (λ entry. reaches (entry.1)) sections
    && all (λ entry. all matches_known_path (entry.1)) operations

abbrev splits_and_trims_environment_lists : Bool
splits_and_trims_environment_lists = asserts (
    lists_eq (split_list (codes " /a , /b ,, ")) (codes "/a" ∷ codes "/b" ∷ [])
    ∷ is_empty (split_list [])
    ∷ [])

code : Unit {0}
unfolding layer_code meets_path segments_meet matches_known_path apply_document apply_environment
    cons_first contains is_space is_space2 is_space3 split trim trim_end trim_front trim_start
    apply_set push_allow push_deny push_exclude env_endpoints env_methods
    docker_socket_proxy.Policy.Environment.get list_of segments_match extend insert insert_all
    is_inert push push_rule split_list str_eq is_known_method
code = tt

policies_pass :
    asserts (
      merges_allow_rules_with_profile_defaults ∷ a_file_allow_stays_independent_of_the_profile_allow
      ∷ include_adds_and_exclude_removes ∷ environment_lists_merge_with_profile
      ∷ typos_are_recognised_as_matching_nothing ∷ splits_and_trims_environment_lists ∷ [])
    ≡ true
unfolding code
policies_pass = refl

sections_pass : every_section_variable_reaches_a_real_endpoint ≡ true
unfolding code
sections_pass = refl
