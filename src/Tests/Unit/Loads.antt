-- ===== src/Tests/Unit/Loads.antt =====
-- src/policy.rs, its unit tests: parsing and loading documents, by a host that parses the tests' documents.
use docker_socket_proxy.Security.Pattern.{segments_match}
use docker_socket_proxy.Security.Rules.{push, push_rule}
use docker_socket_proxy.Security.Rule.{add, extend, insert, insert_all, is_inert, new}
use docker_socket_proxy.Security.Percent.{is_utf8, lead, utf8_from}
use docker_socket_proxy.Policy.Environment.{
  apply_environment, env_endpoints, env_methods, get, list_of, split_list,
}
use docker_socket_proxy.Policy.Compat.{
  compat_endpoints, compat_methods, compat_names, compatibility_filter, conflict, granted,
  is_default, is_enabled, is_set, operation_endpoints, profile_name, section_endpoints,
}
use docker_socket_proxy.Common.{
  ascii_lower, cons_first, contains, is_space, is_space2, is_space3, join, split,
  to_ascii_lowercase, trim, trim_end, trim_front, trim_start, not, ◌++◌, [], ◌∷◌, none, Bool, true,
  false, String, Str, codes, some, str_eq, if◌then◌else◌, ◌≡◌, refl,
}
use docker_socket_proxy.Config.{default}
use docker_socket_proxy.Error.{display, Result, ok, err}
use docker_socket_proxy.Security.Profile.{deny_all, retain_writes, for_profile}
use docker_socket_proxy.Policy.Document.{
  apply_set, push_allow, push_deny, push_exclude, PolicyDocument, empty, apply_document,
}
use docker_socket_proxy.Policy.Loader.{
  base_filter, extension, extension_of_name, file_name, invalid_document, load_document,
  lower_extension, parse_as, parse_yaml, read_contents, Host, value, failed, parse_document, load,
}
use docker_socket_proxy.Tests.Unit.{asserts, is_ok, permits, fails_with}
use docker_socket_proxy.Tests.Unit.Policies.{include_images}
use docker_socket_proxy.Tests.Layer.{layer_code}

abbrev yaml_include : Str
yaml_include = codes "\ninclude:\n  endpoints:\n    - \"/images/*/json\"\n  methods:\n    - GET\n"

abbrev toml_include : Str
toml_include = codes "\n[include]\nendpoints = [\"/images/*/json\"]\nmethods = [\"GET\"]\n"

abbrev yml_exclude : Str
yml_exclude = codes "exclude:\n  endpoints:\n    - /info\n"

-- Has no files, and parses the documents of the tests only; whether it reads YAML is given.
abbrev host_with : Bool → Host
host_with yaml = record {
  read_to_string = λ path. failed (codes "No such file or directory");
  toml_from_str = λ contents.
      if str_eq contents toml_include then value include_images else failed (codes "invalid TOML");
  yaml_from_str = λ contents.
      if str_eq contents yaml_include
      then value include_images
      else if str_eq contents yml_exclude
      then value (record empty {
        exclude = some (record { endpoints = some (codes "/info" ∷ []); methods = none });
      })
      else failed (codes "invalid YAML");
  has_yaml = yaml;
  debug_str = λ s. b'"' ∷ (s ++ b'"' ∷ []);
}

abbrev missing_allowlist_file_is_fatal : Bool
missing_allowlist_file_is_fatal =
    not (is_ok (load (host_with true) (some (codes "/nonexistent/allowlist.toml")) default []))

abbrev parse : Bool → String → Str → Result PolicyDocument
parse yaml path contents = parse_document (host_with yaml) (codes path) contents

abbrev without_the_feature_yaml_is_refused_by_name : Bool
without_the_feature_yaml_is_refused_by_name =
    fails_with (parse false "p.yaml" (codes "include:\n")) "no YAML support"

abbrev includes_images : Result PolicyDocument → Bool
includes_images (err e) = false
includes_images (ok document) =
    permits (apply_document (for_profile default) document) "GET" "/images/abc/json"

abbrev parses_the_same_policy_from_toml_and_yaml : Bool
parses_the_same_policy_from_toml_and_yaml = asserts (
    includes_images (parse true "p.toml" toml_include)
    ∷ includes_images (parse true "p.yaml" yaml_include)
    ∷ [])

abbrev accepts_the_yml_spelling : Bool
accepts_the_yml_spelling = is_ok (parse true "p.yml" yml_exclude)

abbrev refuses_an_unrecognised_extension_rather_than_guessing : Bool
refuses_an_unrecognised_extension_rather_than_guessing =
    fails_with (parse true "policy.json" (codes "{}")) "unsupported allowlist format"

abbrev malformed_yaml_is_an_error_not_an_empty_policy : Bool
malformed_yaml_is_an_error_not_an_empty_policy =
    not (is_ok (parse true "p.yaml" (codes "include: [unclosed")))

code : Unit {0}
unfolding layer_code apply_document ascii_lower cons_first contains is_space is_space2 is_space3
    join split to_ascii_lowercase trim trim_end trim_front trim_start display compat_endpoints
    compat_methods compat_names compatibility_filter conflict granted is_default is_enabled is_set
    operation_endpoints profile_name section_endpoints apply_set push_allow push_deny push_exclude
    apply_environment env_endpoints env_methods get list_of split_list base_filter extension
    extension_of_name file_name invalid_document load_document lower_extension parse_as parse_yaml
    read_contents is_utf8 lead utf8_from deny_all retain_writes add extend insert insert_all
    is_inert new docker_socket_proxy.Security.Rules.add push push_rule for_profile load
    parse_document str_eq segments_match
code = tt

loads_pass :
    asserts (
      missing_allowlist_file_is_fatal ∷ without_the_feature_yaml_is_refused_by_name
      ∷ parses_the_same_policy_from_toml_and_yaml ∷ accepts_the_yml_spelling
      ∷ refuses_an_unrecognised_extension_rather_than_guessing
      ∷ malformed_yaml_is_an_error_not_an_empty_policy ∷ [])
    ≡ true
unfolding code
loads_pass = refl
