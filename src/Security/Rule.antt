-- ===== src/Security/Rule.antt =====
-- src/security.rs, `RuleSet`: methods and endpoint patterns evaluated as one rule. The hash set of
-- methods is a list without repetition.
pub mod Laws
use docker_socket_proxy.Common.{
  Bool, false, ◌&&◌, ◌||◌, List, [], ◌∷◌, ◌++◌, Option, none, some, any, is_empty, if◌then◌else◌,
  Str, contains,
}
use docker_socket_proxy.Security.Pattern.{matches_pattern}

pub record RuleSet : Type 0 where
  pub methods : List Str
  pub endpoints : List Str

abbrev pub empty : RuleSet
empty = record { methods = []; endpoints = [] }

unfoldable pub is_inert : RuleSet → Bool
is_inert rule = is_empty rule.methods && is_empty rule.endpoints

unfoldable pub matches : RuleSet → Str → Str → Bool
matches rule method path =
    if is_inert rule
    then false
    else (is_empty rule.methods || contains rule.methods method)
      && (is_empty rule.endpoints || any (λ p. matches_pattern p path) rule.endpoints)

-- push what is not there already: `HashSet::insert`, and the loop body over endpoints
unfoldable pub insert : List Str → Str → List Str
insert xs x = if contains xs x then xs else xs ++ x ∷ []

unfoldable pub insert_all : List Str → List Str → List Str
insert_all xs [] = xs
insert_all xs (y ∷ ys) = insert_all (insert xs y) ys

-- `into_iter().flatten()` of an optional vector
abbrev pub flatten : Option (List Str) → List Str
flatten none = []
flatten (some xs) = xs

unfoldable pub extend : RuleSet → Option (List Str) → Option (List Str) → RuleSet
extend rule methods endpoints = record {
  methods = insert_all rule.methods (flatten methods);
  endpoints = insert_all rule.endpoints (flatten endpoints);
}

unfoldable pub add : RuleSet → List Str → List Str → RuleSet
add rule methods endpoints = extend rule (some methods) (some endpoints)

unfoldable pub new : List Str → List Str → RuleSet
new methods endpoints = add empty methods endpoints
