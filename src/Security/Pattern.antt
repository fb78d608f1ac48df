-- ===== src/Security/Pattern.antt =====
-- src/security.rs, `matches_pattern`: a path against one endpoint pattern.
pub mod Matches
use docker_socket_proxy.Common.{
  Bool, true, false, not, ◌&&◌, ◌||◌, List, [], ◌∷◌, length, keep, is_empty, ◌==◌, if◌then◌else◌,
  Str, codes, slash, str_eq, starts_with, ends_with, has_byte, split,
}

-- `split('/').filter(|s| !s.is_empty())`
unfoldable pub segments : Str → List Str
segments path = keep (λ s. not (is_empty s)) (split slash path)

-- `zip(…).all(|(p, a)| *p == "*" || p == a)`: the zip stops at the shorter list.
unfoldable pub segments_match : List Str → List Str → Bool
segments_match [] ss = true
segments_match (p ∷ ps) [] = true
segments_match (p ∷ ps) (a ∷ ss) = (str_eq p (codes "*") || str_eq p a) && segments_match ps ss

unfoldable pub matches_pattern : Str → Str → Bool
matches_pattern pattern path =
    if str_eq pattern path
    then true
    else if ends_with pattern slash
    then starts_with path pattern
    else if has_byte pattern b'*'
    then (if not (length (segments pattern) == length (segments path))
        then false
        else segments_match (segments pattern) (segments path))
    else false
