-- ===== src/Policy/Loader.antt =====
-- src/policy.rs: `parse_document` and `PolicyLoader::load`. Reading the file, the two parsers and the
-- quoting of text by `Debug` are a parameter.
pub mod Laws
use docker_socket_proxy.Common.{
  Bool, not, ◌||◌, List, [], ◌∷◌, ◌++◌, Option, none, some, keep, is_empty, if◌then◌else◌, Str,
  codes, slash, str_eq, split, to_ascii_lowercase,
}
use docker_socket_proxy.Config.{SecurityProfile}
use docker_socket_proxy.Error.{config, Result, ok, err, ◌>>=◌}
use docker_socket_proxy.Security.Percent.{is_utf8}
use docker_socket_proxy.Security.Profile.{SecurityFilter, for_profile}
use docker_socket_proxy.Policy.Document.{PolicyDocument, empty, apply_document}
use docker_socket_proxy.Policy.Environment.{Env, apply_environment}
use docker_socket_proxy.Policy.Compat.{compatibility_filter}

-- What code outside the program answers: a value, or the text of its error.
pub data Answer (A : Type 0) : Type 0 where
  value : A → Answer A
  failed : Str → Answer A

pub record Host : Type 0 where
  pub read_to_string : Str → Answer Str
  pub toml_from_str : Str → Answer PolicyDocument
  pub yaml_from_str : Str → Answer PolicyDocument
  -- the build feature
  pub has_yaml : Bool
  pub debug_str : Str → Str

-- `Path::file_name`: the last component, unless that is `..`
last_component : List Str → Option Str
last_component [] = none
last_component (c ∷ []) = if str_eq c (codes "..") then none else some c
last_component (c ∷ d ∷ rest) = last_component (d ∷ rest)

unfoldable pub file_name : Str → Option Str
unfolding last_component
file_name path =
    last_component (keep (λ c. not (is_empty c || str_eq c (codes "."))) (split slash path))

after_last : List Str → Option Str
after_last [] = none
after_last (p ∷ []) = some p
after_last (p ∷ q ∷ rest) = after_last (q ∷ rest)

-- what follows the last dot of a name, if something stands before that dot
extension_of_parts : List Str → Option Str
extension_of_parts [] = none
extension_of_parts (p ∷ []) = none
extension_of_parts (p ∷ q ∷ []) = if is_empty p then none else some q
extension_of_parts (p ∷ q ∷ r ∷ rest) = after_last (q ∷ r ∷ rest)

unfoldable pub extension_of_name : Option Str → Option Str
unfolding extension_of_parts after_last
extension_of_name none = none
extension_of_name (some name) = extension_of_parts (split b'.' name)

-- `Path::extension`
unfoldable pub extension : Str → Option Str
extension path = extension_of_name (file_name path)

-- `.and_then(to_str).map(to_ascii_lowercase)`
unfoldable pub lower_extension : Option Str → Option Str
lower_extension none = none
lower_extension (some e) = if is_utf8 e then some (to_ascii_lowercase e) else none

unfoldable pub invalid_document : Str → Answer PolicyDocument → Result PolicyDocument
invalid_document path (value document) = ok document
invalid_document path (failed e) =
    err (config (codes "invalid allowlist " ++ (path ++ (codes ": " ++ e))))

-- the filter that the document is applied to
unfoldable pub base_filter : SecurityProfile → Option SecurityFilter → SecurityFilter
base_filter profile none = for_profile profile
base_filter profile (some filter) = filter

module _ (host : Host) where
  unfoldable pub parse_yaml : Str → Str → Result PolicyDocument
  parse_yaml path contents =
      if host.has_yaml
      then invalid_document path (host.yaml_from_str contents)
      else err (
          config (
            codes "cannot read "
            ++ (path
                ++ codes
                    ": this build has no YAML support (built without the \"yaml\" feature); convert the file to TOML or use a default build")))

  unfoldable pub parse_as : Option Str → Str → Str → Result PolicyDocument
  parse_as none path contents = invalid_document path (host.toml_from_str contents)
  parse_as (some e) path contents =
      if str_eq e (codes "yaml") || str_eq e (codes "yml")
      then parse_yaml path contents
      else if str_eq e (codes "toml")
      then invalid_document path (host.toml_from_str contents)
      else err (
          config (
            codes "unsupported allowlist format "
            ++ (host.debug_str e
                ++ (codes " for " ++ (path ++ codes ": expected toml, yaml, or yml")))))

  unfoldable pub parse_document : Str → Str → Result PolicyDocument
  parse_document path contents = parse_as (lower_extension (extension path)) path contents

  unfoldable pub read_contents : Str → Answer Str → Result Str
  read_contents path (value contents) = ok contents
  read_contents path (failed e) =
      err (config (codes "cannot read allowlist " ++ (path ++ (codes ": " ++ e))))

  -- no file is the empty document
  unfoldable pub load_document : Option Str → Result PolicyDocument
  load_document none = ok empty
  load_document (some path) = do
    contents ← read_contents path (host.read_to_string path)
    parse_document path contents

  unfoldable pub load : Option Str → SecurityProfile → Env → Result SecurityFilter
  load file profile env = do
    document ← load_document file
    compat ← compatibility_filter env profile
    ok (apply_environment (apply_document (base_filter profile compat) document) env)
