-- ===== src/Security/Rules.antt =====
-- src/security.rs, `RuleList`: independent rules, matching when any one of them does.
pub mod Laws
use docker_socket_proxy.Common.{Bool, List, [], ◌∷◌, ◌++◌, Option, any, if◌then◌else◌, Str}
use docker_socket_proxy.Security.Rule
use docker_socket_proxy.Security.Rule.{RuleSet}

abbrev pub RuleList : Type 0
RuleList = List RuleSet

unfoldable pub matches : RuleList → Str → Str → Bool
matches rules method path = any (λ rule. Rule.matches rule method path) rules

unfoldable pub push_rule : RuleList → RuleSet → RuleList
push_rule rules rule = if Rule.is_inert rule then rules else rules ++ rule ∷ []

unfoldable pub push : RuleList → Option (List Str) → Option (List Str) → RuleList
push rules methods endpoints = push_rule rules (Rule.extend Rule.empty methods endpoints)

unfoldable pub add : RuleList → List Str → List Str → RuleList
add rules methods endpoints = push_rule rules (Rule.new methods endpoints)
