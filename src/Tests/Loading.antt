-- ===== src/Tests/Loading.antt =====
-- The policy that a concrete file and concrete variables make, with a small stand-in for the host.
use docker_socket_proxy.Security.Percent.{is_utf8, lead, utf8_from}
use docker_socket_proxy.Common.{
  ascii_lower, cons_first, is_space, to_ascii_lowercase, trim_end, trim_front, trim_start, [], ◌∷◌,
  Option, none, some, true, false, Str, codes, ◌≡◌, ◌≢◌, ◌⊎◌, ◌↔◌, refl, str_eq, contains, split,
  trim,
}
use docker_socket_proxy.Error.{ok}
use docker_socket_proxy.Config.{default, read_only}
use docker_socket_proxy.Security.Rules.Laws.{RulesApply}
use docker_socket_proxy.Security.Profile.{SecurityFilter, deny_all, for_profile}
use docker_socket_proxy.Security.Filter.{check}
use docker_socket_proxy.Policy.Document.{PolicyDocument, empty, push_allow}
use docker_socket_proxy.Policy.Environment.{Env, get}
use docker_socket_proxy.Policy.Compat.{
  compat_names, is_default, is_enabled, is_set, operation_endpoints, section_endpoints, sections,
  operations, granted, compat_endpoints, compat_methods, compatibility_filter,
}
use docker_socket_proxy.Policy.Compat.Endpoints.{SectionGrants, OperationGrants}
use docker_socket_proxy.Policy.Compat.Laws.{compat_iff, compat_open}
use docker_socket_proxy.Policy.Merge.{SetApplies, EnvApplies, merged, merged_iff}
use docker_socket_proxy.Policy.Loader.{
  base_filter, extension, extension_of_name, file_name, invalid_document, lower_extension, parse_as,
  read_contents, parse_document, load_document, load,
}
use docker_socket_proxy.Policy.Loader.Laws.{ParsedAs, parse_document-ParsedAs}
use docker_socket_proxy.Tests.Fixtures.{host}

-- the document that the stand-in reads from each file
abbrev pub document : PolicyDocument
document = record empty {
  exclude = some record { methods = none; endpoints = some (codes "/info" ∷ []) };
}

abbrev pub file : Option Str
file = some (codes "/etc/p.toml")

abbrev containers_on : Env
containers_on = (codes "CONTAINERS", codes "1") ∷ []

-- the three sections that are on by default, switched off
abbrev all_off : Env
all_off =
    (codes "EVENTS", codes "0") ∷ (codes "PING", codes "0") ∷ (codes "VERSION", codes "0") ∷ []

abbrev compat_of : Env → SecurityFilter
compat_of env = push_allow deny_all (some (compat_methods env)) (some (compat_endpoints env))

code : Unit {0}
unfolding str_eq contains split get parse_document load_document load compat_endpoints
    compatibility_filter ascii_lower cons_first is_space to_ascii_lowercase trim_end trim_front
    trim_start compat_names is_default is_enabled is_set operation_endpoints section_endpoints
    extension extension_of_name file_name invalid_document lower_extension parse_as read_contents
    is_utf8 lead utf8_from granted trim base_filter for_profile
code = tt

pub loads_read_only : load host file read_only [] ≡ ok (merged (for_profile read_only) document [])
unfolding code
loads_read_only = refl

pub reads : load_document host file ≡ ok document
unfolding code
reads = refl

parses : parse_document host (codes "/etc/p.toml") [] ≡ ok document
unfolding code
parses = refl

containers_filter : compatibility_filter containers_on default ≡ ok (some (compat_of containers_on))
unfolding code
containers_filter = refl

containers_given : compat_endpoints containers_on ≢ []
unfolding code
containers_given e = cc

off_filter : compatibility_filter all_off default ≡ ok (some (compat_of all_off))
unfolding code
off_filter = refl

off_none : compat_endpoints all_off ≡ []
unfolding code
off_none = refl

off_post : granted all_off (codes "POST") ≡ false
unfolding code
off_post = refl

parse_document-ParsedAs_example : ParsedAs host (codes "/etc/p.toml") [] document
parse_document-ParsedAs_example =
    parse_document-ParsedAs host (codes "/etc/p.toml") [] document parses

merged_iff_example :
    (RulesApply (merged (for_profile default) document []).allow (codes "GET") (codes "/info") ↔ (
      (((RulesApply (for_profile default).allow (codes "GET") (codes "/info")
            ⊎ SetApplies document.allow (codes "GET") (codes "/info"))
          ⊎ SetApplies document.include (codes "GET") (codes "/info"))
        ⊎ EnvApplies [] (codes "ALLOW") (codes "GET") (codes "/info"))
      ⊎ EnvApplies [] (codes "INCLUDE") (codes "GET") (codes "/info")))
    × (RulesApply (merged (for_profile default) document []).deny (codes "GET") (codes "/info") ↔ (
        (RulesApply (for_profile default).deny (codes "GET") (codes "/info")
          ⊎ SetApplies document.deny (codes "GET") (codes "/info"))
        ⊎ EnvApplies [] (codes "DENY") (codes "GET") (codes "/info")))
    × (RulesApply (merged (for_profile default) document []).exclude (codes "GET") (codes "/info")
        ↔ ((RulesApply (for_profile default).exclude (codes "GET") (codes "/info")
              ⊎ SetApplies document.exclude (codes "GET") (codes "/info"))
            ⊎ EnvApplies [] (codes "EXCLUDE") (codes "GET") (codes "/info")))
merged_iff_example = merged_iff (for_profile default) document [] (codes "GET") (codes "/info")

compat_iff_example :
    (check (compat_of containers_on) (codes "GET") (codes "/containers/json") ≡ ok tt) ↔ (
      ((granted containers_on (codes "POST") ≡ true)
        ⊎ (codes "GET" ≡ codes "GET")
        ⊎ (codes "GET" ≡ codes "HEAD"))
      × (SectionGrants containers_on sections (codes "/containers/json")
          ⊎ OperationGrants containers_on operations (codes "/containers/json")))
compat_iff_example =
    compat_iff containers_on default (compat_of containers_on) (codes "GET")
      (codes "/containers/json") containers_filter containers_given

compat_open_example :
    (check (compat_of all_off) (codes "GET") (codes "/secrets") ≡ ok tt)
    ↔ ((codes "GET" ≡ codes "GET") ⊎ (codes "GET" ≡ codes "HEAD"))
compat_open_example =
    compat_open all_off default (compat_of all_off) (codes "GET") (codes "/secrets") off_filter
      off_none off_post
