-- ===== src/Policy/Document.antt =====
-- src/policy.rs: the policy document, and `apply_document` with what it logs.
use docker_socket_proxy.Common.{List, [], ◌++◌, Option, none, some, Str, codes}
use docker_socket_proxy.Security.Rules
use docker_socket_proxy.Security.Profile.{SecurityFilter}
use docker_socket_proxy.Policy.Report.{Warning, report_unknown}

pub record EndpointSet : Type 0 where
  pub endpoints : Option (List Str)
  pub methods : Option (List Str)

pub record PolicyDocument : Type 0 where
  pub allow : Option EndpointSet
  pub deny : Option EndpointSet
  pub include : Option EndpointSet
  pub exclude : Option EndpointSet

-- `PolicyDocument::default()`
abbrev pub empty : PolicyDocument
empty = record { allow = none; deny = none; include = none; exclude = none }

-- `filter.allow_mut().push(…)`, and likewise for the two other lists
unfoldable pub push_allow : SecurityFilter → Option (List Str) → Option (List Str) → SecurityFilter
push_allow f methods endpoints = record f { allow = Rules.push f.allow methods endpoints }

unfoldable pub push_deny : SecurityFilter → Option (List Str) → Option (List Str) → SecurityFilter
push_deny f methods endpoints = record f { deny = Rules.push f.deny methods endpoints }

unfoldable pub push_exclude :
    SecurityFilter → Option (List Str) → Option (List Str) → SecurityFilter
push_exclude f methods endpoints = record f { exclude = Rules.push f.exclude methods endpoints }

-- one section of the document, with the list that it is pushed to
unfoldable pub apply_set :
    (SecurityFilter → Option (List Str) → Option (List Str) → SecurityFilter)
    → Option EndpointSet
    → SecurityFilter
    → SecurityFilter
apply_set push none f = f
apply_set push (some set) f = push f set.methods set.endpoints

unfoldable pub report_set : Str → Option EndpointSet → List Warning
report_set name none = []
report_set name (some set) = report_unknown name set.methods set.endpoints

unfoldable pub apply_document : SecurityFilter → PolicyDocument → SecurityFilter
apply_document f document = apply_set push_exclude document.exclude (
    apply_set push_deny document.deny
      (apply_set push_allow document.include (apply_set push_allow document.allow f)))

-- what `apply_document` logs, in its order
unfoldable pub document_warnings : PolicyDocument → List Warning
document_warnings document =
    report_set (codes "allow") document.allow
    ++ (report_set (codes "include") document.include
        ++ (report_set (codes "deny") document.deny
            ++ report_set (codes "exclude") document.exclude))
