-- ===== src/Security/Segments.antt =====
-- src/security.rs, `remove_dot_segments`. The vector of segments is a stack with its last item first.
pub mod Render
pub mod Laws
use docker_socket_proxy.Common.{
  List, [], ◌∷◌, ◌++◌, ◌||◌, is_empty, if◌then◌else◌, Str, codes, slash, str_eq, split,
}
use mathlib.Core.List.{reverse, tail}

-- one round of the loop over `path.split('/')`
unfoldable pub push_segment : List Str → Str → List Str
push_segment stack segment =
    if is_empty segment || str_eq segment (codes ".")
    then stack
    else if str_eq segment (codes "..")
    then tail stack
    else segment ∷ stack

unfoldable pub resolve : List Str → List Str → List Str
resolve stack [] = reverse stack
resolve stack (segment ∷ rest) = resolve (push_segment stack segment) rest

-- `out.push('/'); out.push_str(segment)` for each segment
unfoldable pub render : List Str → Str
render [] = []
render (segment ∷ rest) = slash ∷ (segment ++ render rest)

unfoldable pub remove_dot_segments : Str → Str
remove_dot_segments path =
    let found = resolve [] (split slash path) in if is_empty found then codes "/" else render found
