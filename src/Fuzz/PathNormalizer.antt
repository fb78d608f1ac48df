-- ===== src/Fuzz/PathNormalizer.antt =====
-- fuzz/fuzz_targets/path_normalizer.rs. The standard library's `from_utf8_lossy` is a parameter.
pub mod Verdicts
use docker_socket_proxy.Common.{
  Bool, true, false, List, [], ◌∷◌, ◌++◌, Option, some, ◌==◌, if◌then◌else◌, Str, codes,
}
use docker_socket_proxy.Error.{Result, ok, err}
use docker_socket_proxy.Security.Profile.{SecurityFilter, deny_all}
use docker_socket_proxy.Security.Normalize.{BodyRule, container_create, check_head}
use docker_socket_proxy.Security.Filter.{check}
use docker_socket_proxy.Security.Body.{Json, check_request}
use docker_socket_proxy.Policy.Document.{push_allow, push_deny, push_exclude}

-- what stands before the first NUL byte, and what stands behind it
unfoldable pub split_once : Str → Str × Str
split_once [] = ([], [])
split_once (b ∷ bytes) =
    let rest = split_once bytes in if b == 0 then ([], bytes) else (b ∷ rest.0, rest.1)

-- the same rule under allow, deny and exclude
unfoldable pub fuzz_filter : Str → Str → SecurityFilter
fuzz_filter method pattern =
    let methods = some (method ∷ []) in
    let endpoints = some (pattern ∷ []) in
    push_exclude (push_deny (push_allow deny_all methods endpoints) methods endpoints) methods
      endpoints

abbrev pub is_ok : Result (Unit {0}) → Bool
is_ok (ok u) = true
is_ok (err e) = false

module _ (json : Json) (from_utf8_lossy : Str → Str) where
  -- the match on `check_head`: whether its assertion holds
  unfoldable pub assertion : SecurityFilter → Str → Str → Result BodyRule → Bool
  assertion filter method path (ok BodyRule.none) =
      is_ok (check_request json filter method path (codes "{}"))
  assertion filter method path (ok container_create) = true
  assertion filter method path (err e) = true

  -- the call of the arm that asserts nothing
  unfoldable pub other_arm : SecurityFilter → Str → Str → Result BodyRule → List (Result (Unit {0}))
  other_arm filter method path (ok BodyRule.none) = []
  other_arm filter method path _ = check_request json filter method path (codes "{}") ∷ []

  -- Whether the assertion holds, and the results that are thrown away in their order.
  unfoldable pub path_normalizer : Str → Bool × List (Result (Unit {0}))
  path_normalizer input =
      let (head, raw_pattern) = split_once input in
      let (raw_method, raw_path) = split_once head in
      let method = from_utf8_lossy raw_method in
      let path = from_utf8_lossy raw_path in
      let pattern = from_utf8_lossy raw_pattern in
      let filter = fuzz_filter method pattern in
      let decided = check_head filter method path in
      (
        assertion filter method path decided,
        check filter method path
            ∷ (other_arm filter method path decided
                ++ check filter method pattern
                  ∷ check_request json filter method pattern (codes "{}")
                  ∷ []),
      )
