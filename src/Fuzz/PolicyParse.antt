-- ===== src/Fuzz/PolicyParse.antt =====
-- fuzz/fuzz_targets/policy_parse.rs. The TOML parser is a parameter.
use docker_socket_proxy.Common.{
  Str, codes, List, [], ◌∷◌, if◌then◌else◌, true, Option, none, some, ◌≡◌, refl,
}
use docker_socket_proxy.Error.{Result}
use docker_socket_proxy.Security.Body.{Json, check_request}
use docker_socket_proxy.Security.Filter.{check}
use docker_socket_proxy.Security.Percent.{is_utf8}
use docker_socket_proxy.Security.Profile.{SecurityFilter, deny_all}
use docker_socket_proxy.Policy.Document.{
  EndpointSet, PolicyDocument, push_allow, push_deny, push_exclude, apply_set, apply_document,
}

unfoldable pub fuzz_allow : Option EndpointSet → SecurityFilter → SecurityFilter
fuzz_allow none filter = filter
fuzz_allow (some set) filter = push_allow filter set.methods set.endpoints

unfoldable pub fuzz_deny : Option EndpointSet → SecurityFilter → SecurityFilter
fuzz_deny none filter = filter
fuzz_deny (some set) filter = push_deny filter set.methods set.endpoints

unfoldable pub fuzz_exclude : Option EndpointSet → SecurityFilter → SecurityFilter
fuzz_exclude none filter = filter
fuzz_exclude (some set) filter = push_exclude filter set.methods set.endpoints

-- the four `if let` in their order
unfoldable pub fuzz_document : PolicyDocument → SecurityFilter
fuzz_document document =
    fuzz_exclude document.exclude
      (fuzz_deny document.deny (fuzz_allow document.include (fuzz_allow document.allow deny_all)))

-- the decisions whose results are thrown away
unfoldable pub decisions : Json → SecurityFilter → List (Result (Unit {0}))
decisions json filter =
    check filter (codes "GET") (codes "/info")
    ∷ check filter (codes "POST") (codes "/containers/create")
    ∷ check_request json filter (codes "GET") (codes "/v1.55/version") []
    ∷ []

-- the decisions on what is parsed, where it is a document
unfoldable pub decide : Json → Option PolicyDocument → Option (List (Result (Unit {0})))
decide json none = none
decide json (some document) = some (decisions json (fuzz_document document))

-- `None` is the early return, on input that is no text or no document.
unfoldable pub policy_parse :
    Json → (Str → Option PolicyDocument) → Str → Option (List (Result (Unit {0})))
policy_parse json from_str input = decide json (if is_utf8 input then from_str input else none)

allow_lem :
    (o : Option EndpointSet) (f : SecurityFilter) → fuzz_allow o f ≡ apply_set push_allow o f
unfolding fuzz_allow apply_set
allow_lem none f = refl
allow_lem (some set) f = refl

deny_lem : (o : Option EndpointSet) (f : SecurityFilter) → fuzz_deny o f ≡ apply_set push_deny o f
unfolding fuzz_deny apply_set
deny_lem none f = refl
deny_lem (some set) f = refl

exclude_lem :
    (o : Option EndpointSet) (f : SecurityFilter) → fuzz_exclude o f ≡ apply_set push_exclude o f
unfolding fuzz_exclude apply_set
exclude_lem none f = refl
exclude_lem (some set) f = refl

-- The fuzz target drives the same merge as the loader: its filter is `apply_document`'s on an empty
-- one.
fuzz_document-apply_document : (d : PolicyDocument) → fuzz_document d ≡ apply_document deny_all d
unfolding fuzz_document apply_document
fuzz_document-apply_document d = rw (
  allow_lem d.allow deny_all,
  allow_lem d.include (apply_set push_allow d.allow deny_all),
  deny_lem d.deny (apply_set push_allow d.include (apply_set push_allow d.allow deny_all)),
  exclude_lem d.exclude (
      apply_set push_deny d.deny
        (apply_set push_allow d.include (apply_set push_allow d.allow deny_all))),
)

-- What the target decides are the decisions under the loader's merge of the document that the input
-- spells.
policy_parse-decides :
    (json : Json) (from_str : Str → Option PolicyDocument) (input : Str) (document : PolicyDocument)
    → is_utf8 input ≡ true
    → from_str input ≡ some document
    → policy_parse json from_str input ≡ some (decisions json (apply_document deny_all document))
unfolding policy_parse decide
policy_parse-decides json from_str input document text spelled =
    rw (text, spelled, fuzz_document-apply_document document) refl
