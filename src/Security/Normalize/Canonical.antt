-- ===== src/Security/Normalize/Canonical.antt =====
-- The form of a normalised path.
use docker_socket_proxy.Common.{
  ℕ, true, ◌≢◌, Lacks, List, [], ◌∷◌, ◌≡◌, ◌⊎◌, inl, inr, refl, ap, ◌∙◌, arith, ◌==◌, Bool-cases,
  Str, codes, All,
}
use docker_socket_proxy.Error.{ok, >>=-eq-ok}
use docker_socket_proxy.Security.Percent.{is_utf8, percent_decode}
use docker_socket_proxy.Security.Percent.Decodes.{Decodes, percent_decode_iff}
use docker_socket_proxy.Security.Segments.{render, remove_dot_segments}
use docker_socket_proxy.Security.Segments.Render.{IsPlain}
use docker_socket_proxy.Security.Segments.Laws.{
  absolute, remove_dot_segments-IsPlain, remove_dot_segments-absolute_of_IsPlain,
}
use docker_socket_proxy.Security.Version.{is_version, strip_v, strip_api_version}
use docker_socket_proxy.Security.Version.Laws.{
  strip_api_version-render, strip_api_version-render_other,
}
use docker_socket_proxy.Security.Normalize.{normalize_path}

-- "/", or separators each followed by a segment that is neither empty nor a dot segment and holds no
-- separator. No segment at all gives the empty text: what is left of a bare version prefix.
abbrev pub IsCanonical : Str → Type 0
IsCanonical path = (path ≡ codes "/") ⊎ ((ss : List Str) × All IsPlain ss × (path ≡ render ss))

strip_api_version-IsCanonical :
    (ss : List Str) → All IsPlain ss → IsCanonical (strip_api_version (absolute ss))
strip_api_version-IsCanonical [] _ = inl (unfold strip_api_version strip_v in refl)
strip_api_version-IsCanonical ([] ∷ ss) (h, hs) = absurd (h.0 refl)
strip_api_version-IsCanonical ((c ∷ s) ∷ ss) (h, hs) = elim (Bool-cases (c == b'v')) [
  | inl v ↦
      let same : c ≡ b'v' = ground arith in
      elim (Bool-cases (is_version s)) [
        | inl version ↦ inr (ss, hs, rw same (strip_api_version-render s ss h.3.1 ∙ rw version))
        | inr word ↦
            inr ((c ∷ s) ∷ ss, (h, hs), rw same (strip_api_version-render s ss h.3.1 ∙ rw word))
      ]
  | inr other ↦ inr ((c ∷ s) ∷ ss, (h, hs), strip_api_version-render_other c s ss (ground arith))
]

-- A path that normalises gives the root, or separators each followed by a segment that is neither
-- empty nor a dot segment and holds no separator, or the empty text.
pub normalize_path-IsCanonical :
    (path normalized : Str) → normalize_path path ≡ ok normalized → IsCanonical normalized
unfolding normalize_path
normalize_path-IsCanonical path normalized h =
    let (decoded, _, same) = >>=-eq-ok (percent_decode path) _ h in
    let (ss, plain, found) = remove_dot_segments-IsPlain decoded in
    let result : normalized ≡ strip_api_version (absolute ss) =
      ground (arith, ap strip_api_version found) in
    rw result (strip_api_version-IsCanonical ss plain)

Decodes-plain : (s : Str) → Lacks b'%' s → Decodes s s
Decodes-plain [] h = Decodes.done
Decodes-plain (c ∷ s) (n, h) = Decodes.plain n (Decodes-plain s h)

-- Without an escape, what is normalised is the path itself.
normalize_path-plain :
    (path : Str)
    → Lacks b'%' path
    → is_utf8 path ≡ true
    → normalize_path path ≡ ok (strip_api_version (remove_dot_segments path))
unfolding normalize_path
normalize_path-plain path h valid =
    rw ((percent_decode_iff path path).1 (Decodes-plain path h, valid))

-- A canonical path of at least one segment normalises to itself if it holds no `%`, is valid UTF-8,
-- and its first segment does not begin with a `v`.
pub normalize_path-render :
    (c : ℕ) (s : Str) (ss : List Str)
    → All IsPlain ((c ∷ s) ∷ ss)
    → Lacks b'%' (render ((c ∷ s) ∷ ss))
    → is_utf8 (render ((c ∷ s) ∷ ss)) ≡ true
    → c ≢ b'v'
    → normalize_path (render ((c ∷ s) ∷ ss)) ≡ ok (render ((c ∷ s) ∷ ss))
normalize_path-render c s ss h lacks valid n =
    normalize_path-plain (render ((c ∷ s) ∷ ss)) lacks valid
    ∙ ap (λ p. ok (strip_api_version p)) (remove_dot_segments-absolute_of_IsPlain ((c ∷ s) ∷ ss) h)
    ∙ ap ok (strip_api_version-render_other c s ss n)

-- A canonical path under a version prefix normalises to the path without the prefix, if the whole
-- holds no `%` and is valid UTF-8: a rule written without a version covers every version.
pub normalize_path-versioned :
    (version : Str) (ss : List Str)
    → is_version version ≡ true
    → All IsPlain ((b'v' ∷ version) ∷ ss)
    → Lacks b'%' (render ((b'v' ∷ version) ∷ ss))
    → is_utf8 (render ((b'v' ∷ version) ∷ ss)) ≡ true
    → normalize_path (render ((b'v' ∷ version) ∷ ss)) ≡ ok (render ss)
normalize_path-versioned version ss is (h, hs) lacks valid =
    normalize_path-plain (render ((b'v' ∷ version) ∷ ss)) lacks valid
    ∙ ap (λ p. ok (strip_api_version p))
        (remove_dot_segments-absolute_of_IsPlain ((b'v' ∷ version) ∷ ss) (h, hs))
    ∙ ap ok (strip_api_version-render version ss h.3.1 ∙ rw is)
