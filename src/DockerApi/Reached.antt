-- ===== src/DockerApi/Reached.antt =====
-- What `matches_known_path` accepts applies to a request on a path of the Docker API.
use docker_socket_proxy.Common.{List, [], ◌∷◌, ◌≡◌, Str, codes, slash, str_eq, if◌then◌else◌}
use docker_socket_proxy.Security.Segments.{render}
use docker_socket_proxy.Security.Pattern.Matches.{Matches}

-- One segment for a pattern's and a known path's that meet.
merge : List Str → List Str → List Str
merge [] ks = []
merge (p ∷ ps) [] = []
merge (p ∷ ps) (k ∷ ks) = let rest = merge ps ks in (if str_eq p (codes "*") then k else p) ∷ rest

-- The path of a request begins with a slash.
abbrev pub IsAbsolute : Str → Type 0
IsAbsolute path = (rest : Str) × (path ≡ slash ∷ rest)

-- The segments as an absolute path.
rooted : List Str → Str
rooted [] = codes "/"
rooted (s ∷ ss) = render (s ∷ ss)
