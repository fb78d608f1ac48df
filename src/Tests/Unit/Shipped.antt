-- ===== src/Tests/Unit/Shipped.antt =====
-- tests/examples.rs: the shipped policy files. A file is read as its path, and parsed to the document
-- that it spells.
use docker_socket_proxy.Security.Pattern.{segments_match}
use docker_socket_proxy.Security.Rules.{push, push_rule}
use docker_socket_proxy.Security.Rule.{add, extend, insert, insert_all, is_inert, new}
use docker_socket_proxy.Security.Percent.{is_utf8, lead, utf8_from}
use docker_socket_proxy.Policy.Environment.{
  apply_environment, env_endpoints, env_methods, get, list_of, split_list,
}
use docker_socket_proxy.Policy.Compat.{
  compat_endpoints, compat_methods, compat_names, compatibility_filter, conflict, granted,
  is_default, is_enabled, is_set, operation_endpoints, profile_name, section_endpoints,
}
use docker_socket_proxy.Common.{
  ascii_lower, cons_first, contains, is_space, is_space2, is_space3, join, split,
  to_ascii_lowercase, trim, trim_end, trim_front, trim_start, not, all, keep, leb, length, ◌&&◌,
  ◌||◌, ◌++◌, [], ◌∷◌, List, Option, none, some, Bool, true, false, String, Str, codes, str_eq,
  if◌then◌else◌, ◌≡◌, refl,
}
use docker_socket_proxy.Config.{SecurityProfile, default, container_runtime}
use docker_socket_proxy.Error.{Result, ok, err}
use docker_socket_proxy.Security.Profile.{deny_all, for_profile, retain_writes, SecurityFilter}
use docker_socket_proxy.Security.Body.{
  check_body, check_create_body, check_given_labels, check_image, check_keys, check_level,
  check_levels, check_object, has_host_network, levels, meaningfully_set, parse_object, set_shape,
  check_request,
}
use docker_socket_proxy.Policy.Document.{
  apply_document, apply_set, push_allow, push_deny, push_exclude, PolicyDocument,
}
use docker_socket_proxy.Policy.Loader
use docker_socket_proxy.Policy.Loader.{Host, Answer, value, failed, extension}
use docker_socket_proxy.Tests.Unit.{asserts, is_ok, permits, refuses}
use docker_socket_proxy.Tests.Layer.{layer_code}
use docker_socket_proxy.Tests.Unit.Files.{
  container_runtime_toml, create_inspection_toml, sections_read_only_yaml,
  tecnativa_equivalent_toml,
}
use docker_socket_proxy.Tests.Unit.Bodies.{
  json, run_command, default_command, granted_privileged, x_cap_add, x_pid_host, x_gpu,
  x_network_host, empty_object,
}

abbrev examples_dir : String → Str
examples_dir name = codes "examples/" ++ codes name

abbrev spelled : List (String × PolicyDocument) → Str → Answer PolicyDocument
spelled [] contents = failed (codes "syntax error")
spelled ((name, document) ∷ rest) contents =
    if str_eq contents (examples_dir name) then value document else spelled rest contents

abbrev host : Host
host = record {
  read_to_string = value;
  toml_from_str = spelled (
      ("container-runtime.toml", container_runtime_toml)
      ∷ ("create-inspection.toml", create_inspection_toml)
      ∷ ("tecnativa-equivalent.toml", tecnativa_equivalent_toml)
      ∷ []);
  yaml_from_str = spelled (("sections-read-only.yaml", sections_read_only_yaml) ∷ []);
  has_yaml = true;
  debug_str = λ s. s;
}

-- the loader without an environment
abbrev load_example : String → SecurityProfile → Result SecurityFilter
load_example name profile = Loader.load host (some (examples_dir name)) profile []

-- what holds of the filter that is loaded
abbrev loaded : String → SecurityProfile → (SecurityFilter → Bool) → Bool
loaded name profile test = elim (load_example name profile) [
  | err e ↦ false
  | ok filter ↦ test filter
]

abbrev is_extension : Option Str → String → Bool
is_extension none expected = false
is_extension (some found) expected = str_eq found (codes expected)

-- with the YAML feature built in
abbrev parseable : String → Bool
parseable name =
    let found = extension (examples_dir name) in
    is_extension found "toml" || is_extension found "yaml" || is_extension found "yml"

-- the files of the directory
abbrev example_files : List String
example_files =
    "container-runtime.toml" ∷ "create-inspection.toml" ∷ "env-modifiers.env"
    ∷ "sections-read-only.yaml" ∷ "tecnativa-equivalent.toml" ∷ []

abbrev every_example_parses : Bool
every_example_parses =
    let files = keep parseable example_files in
    all (λ name. is_ok (load_example name default)) files && leb 2 (length files)

abbrev container_runtime_example_permits_the_launcher_workflow : Bool
container_runtime_example_permits_the_launcher_workflow =
    loaded "container-runtime.toml" container_runtime (λ filter. asserts (
      permits filter "POST" "/containers/create"
      ∷ permits filter "POST" "/containers/abc/start"
      ∷ permits filter "GET" "/containers/abc/logs"
      ∷ []))

abbrev section_example_grants_reads_without_opening_writes : Bool
section_example_grants_reads_without_opening_writes =
    loaded "sections-read-only.yaml" SecurityProfile.none (λ filter. asserts (
      all (λ path. permits filter "GET" path)
        ("/containers/json" ∷ "/images/json" ∷ "/networks" ∷ "/volumes" ∷ [])
      ∷ refuses filter "POST" "/containers/create"
      ∷ refuses filter "GET" "/secrets"
      ∷ refuses filter "GET" "/info"
      ∷ refuses filter "GET" "/containers/abc/top"
      ∷ []))

abbrev tecnativa_equivalent_example_matches_the_variables_it_replaces : Bool
tecnativa_equivalent_example_matches_the_variables_it_replaces =
    loaded "tecnativa-equivalent.toml" SecurityProfile.none (λ filter. asserts (
      permits filter "GET" "/containers/json"
      ∷ permits filter "POST" "/containers/create"
      ∷ permits filter "DELETE" "/containers/abc"
      ∷ permits filter "GET" "/images/json"
      ∷ permits filter "POST" "/images/create"
      ∷ permits filter "GET" "/_ping"
      ∷ permits filter "GET" "/version"
      ∷ permits filter "GET" "/events"
      ∷ refuses filter "GET" "/secrets"
      ∷ refuses filter "GET" "/info"
      ∷ refuses filter "GET" "/volumes"
      ∷ refuses filter "POST" "/build"
      ∷ refuses filter "GET" "/swarm"
      ∷ []))

abbrev permits_create : SecurityFilter → Str → Bool
permits_create filter body =
    is_ok (check_request json filter (codes "POST") (codes "/containers/create") body)

abbrev create_inspection_example_rejects_the_bodies_it_documents : Bool
create_inspection_example_rejects_the_bodies_it_documents =
    loaded "create-inspection.toml" container_runtime (λ filter. asserts (
      permits_create filter run_command
      ∷ permits_create filter default_command
      ∷ all (λ body. not (permits_create filter body))
          (granted_privileged ∷ x_cap_add ∷ x_pid_host ∷ x_gpu ∷ x_network_host ∷ empty_object ∷ [])
      ∷ all (λ path. refuses filter "POST" path)
          ("/build" ∷ "/commit" ∷ "/containers/abc/archive" ∷ [])
      ∷ []))

code : Unit {0}
unfolding layer_code Loader.base_filter Loader.extension_of_name Loader.file_name
    Loader.invalid_document Loader.load Loader.load_document Loader.lower_extension Loader.parse_as
    Loader.parse_document Loader.parse_yaml Loader.read_contents check_request ascii_lower
    cons_first contains is_space is_space2 is_space3 join split to_ascii_lowercase trim trim_end
    trim_front trim_start compat_endpoints compat_methods compat_names compatibility_filter conflict
    granted is_default is_enabled is_set operation_endpoints profile_name section_endpoints
    apply_document apply_set push_allow push_deny push_exclude apply_environment env_endpoints
    env_methods get list_of split_list is_utf8 lead utf8_from deny_all for_profile retain_writes add
    extend insert insert_all is_inert new docker_socket_proxy.Security.Rules.add push push_rule
    extension str_eq check_body check_create_body check_given_labels check_image check_keys
    check_level check_levels check_object has_host_network levels meaningfully_set parse_object
    set_shape segments_match
code = tt

shipped_pass :
    asserts (
      every_example_parses ∷ container_runtime_example_permits_the_launcher_workflow
      ∷ section_example_grants_reads_without_opening_writes
      ∷ tecnativa_equivalent_example_matches_the_variables_it_replaces ∷ [])
    ≡ true
unfolding code
shipped_pass = refl

inspection_pass : create_inspection_example_rejects_the_bodies_it_documents ≡ true
unfolding code
inspection_pass = refl
