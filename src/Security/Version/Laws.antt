-- ===== src/Security/Version/Laws.antt =====
-- `strip_api_version`: which prefix it removes.
use docker_socket_proxy.Common.{
  ℕ, suc, ◌+◌, List, [], ◌∷◌, ◌++◌, ◌≡◌, ◌≢◌, refl, arith, if◌then◌else◌, length, drop-append, Str,
  slash, first_part, Lacks,
}
use docker_socket_proxy.Security.Version.{is_version, strip_v, strip_api_version}
use docker_socket_proxy.Security.Segments.{render}

two-add : (n : ℕ) → 2 + n ≡ suc (suc n)
two-add n = omega arith

first_part-append_render :
    (s : Str) (ss : List Str) → Lacks slash s → first_part slash (s ++ render ss) ≡ s
unfolding first_part
first_part-append_render [] [] _ = unfold render in refl
first_part-append_render [] (t ∷ ss) _ = unfold render in refl
first_part-append_render (c ∷ s) ss (n, h) = ground (arith, first_part-append_render s ss h)

-- On a rendered path whose first segment is a `v` and a text without a separator, that segment is
-- removed where the text is a version, and the path is left as it is otherwise.
pub strip_api_version-render :
    (s : Str) (ss : List Str)
    → Lacks slash s
    → strip_api_version (render ((b'v' ∷ s) ∷ ss))
      ≡ (if is_version s then render ss else render ((b'v' ∷ s) ∷ ss))
unfolding strip_api_version strip_v render
strip_api_version-render s ss h =
    rw (first_part-append_render s ss h, two-add (length s), drop-append s (render ss))

-- A path whose first segment does not begin with a `v` is left alone.
pub strip_api_version-render_other :
    (c : ℕ) (s : Str) (ss : List Str)
    → c ≢ b'v'
    → strip_api_version (render ((c ∷ s) ∷ ss)) ≡ render ((c ∷ s) ∷ ss)
unfolding strip_api_version strip_v render
strip_api_version-render_other c s ss h = ground arith
