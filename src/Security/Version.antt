-- ===== src/Security/Version.antt =====
-- src/security.rs, `strip_api_version`.
pub mod Laws
use docker_socket_proxy.Common.{
  ℕ, ◌+◌, Bool, not, ◌&&◌, [], ◌∷◌, Option, none, some, ◌==◌, if◌then◌else◌, between, all, is_empty,
  length, drop, Str, slash, split, first_part,
}

unfoldable pub is_digit : ℕ → Bool
is_digit c = between b'0' b'9' c

-- non-empty runs of digits between dots
unfoldable pub is_version : Str → Bool
is_version version =
    not (is_empty version)
    && all (λ part. not (is_empty part) && all is_digit part) (split b'.' version)

-- `path.strip_prefix("/v")`
unfoldable pub strip_v : Str → Option Str
strip_v [] = none
strip_v (c ∷ []) = none
strip_v (c ∷ d ∷ rest) = if c == slash && d == b'v' then some rest else none

unfoldable pub strip_api_version : Str → Str
strip_api_version path = elim (strip_v path) [
  | none ↦ path
  | some rest ↦
      let version = first_part slash rest in
      if is_version version then drop (1 + 1 + length version) path else path
]
