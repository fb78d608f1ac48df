-- ===== src/Security/Segments/Render.antt =====
-- Splitting what was rendered gives the segments back.
use docker_socket_proxy.Common.{
  ℕ, List, [], ◌∷◌, ◌++◌, ◌≡◌, ◌≢◌, refl, ap, arith, Str, codes, slash, split, cons_first, All,
  Lacks, keep, is_empty, not, split-Lacks,
}
use mathlib.Core.List.{cons-ne-nil}
use docker_socket_proxy.Security.Segments.{render}
use docker_socket_proxy.Security.Pattern.{segments}

-- a segment of a canonical path
abbrev pub IsPlain : Str → Type 0
IsPlain segment =
    (segment ≢ []) × (segment ≢ codes ".") × (segment ≢ codes "..") × Lacks slash segment

split-cons_lacking :
    (c : ℕ) (s : Str) → c ≢ slash → split slash (c ∷ s) ≡ cons_first c (split slash s)
unfolding split
split-cons_lacking c s n = ground arith

split_at_slash : (s : Str) → split slash (slash ∷ s) ≡ [] ∷ split slash s
unfolding split
split_at_slash s = refl

render-cons : (s : Str) (ss : List Str) → render (s ∷ ss) ≡ slash ∷ (s ++ render ss)
unfolding render
render-cons s ss = refl

split-append_render :
    (s : Str) (rest : List Str)
    → Lacks slash s
    → All (Lacks slash) rest
    → split slash (s ++ render rest) ≡ s ∷ rest
split-append_render [] [] _ _ = unfold split render in refl
split-append_render [] (t ∷ rest) _ (k, ks) =
    rw (render-cons, split_at_slash, split-append_render t rest k ks)
split-append_render (c ∷ s) rest (n, h) k =
    rw (split-cons_lacking c (s ++ render rest) n, split-append_render s rest h k)
      (unfold cons_first in refl)

All-Lacks : (ss : List Str) → All IsPlain ss → All (Lacks slash) ss
All-Lacks [] _ = tt
All-Lacks (s ∷ ss) (h, hs) = (h.3, All-Lacks ss hs)

-- A rendered path begins with the separator, so its first part is empty.
pub split-render :
    (s : Str) (ss : List Str) → All IsPlain (s ∷ ss) → split slash (render (s ∷ ss)) ≡ [] ∷ s ∷ ss
split-render s ss (h, hs) =
    unfold split render in
    ap (λ (ts : List Str). [] ∷ ts) (split-append_render s ss h.3 (All-Lacks ss hs))

-- Not empty, and without a separator.
abbrev pub IsFilled : Str → Type 0
IsFilled segment = (segment ≢ []) × Lacks slash segment

IsFilled-Lacks : (ss : List Str) → All IsFilled ss → All (Lacks slash) ss
IsFilled-Lacks [] _ = tt
IsFilled-Lacks (s ∷ ss) (h, hs) = (h.1, IsFilled-Lacks ss hs)

keep-IsFilled : (ss : List Str) → All IsFilled ss → keep (λ s. not (is_empty s)) ss ≡ ss
keep-IsFilled [] _ = refl
keep-IsFilled ([] ∷ ss) (h, hs) = absurd (h.0 refl)
keep-IsFilled ((c ∷ s) ∷ ss) (h, hs) = ap (λ (ts : List Str). (c ∷ s) ∷ ts) (keep-IsFilled ss hs)

-- The segments of a rendered path are those that were rendered, if none of them is empty or holds a
-- separator.
pub segments-render : (ss : List Str) → All IsFilled ss → segments (render ss) ≡ ss
segments-render [] _ = unfold segments render split in refl
segments-render (s ∷ ss) (h, hs) =
    unfold segments split render in
    rw (split-append_render s ss h.1 (IsFilled-Lacks ss hs)) (keep-IsFilled (s ∷ ss) (h, hs))

kept-IsFilled :
    (ss : List Str) → All (Lacks slash) ss → All IsFilled (keep (λ s. not (is_empty s)) ss)
kept-IsFilled [] _ = tt
kept-IsFilled ([] ∷ ss) (h, hs) = kept-IsFilled ss hs
kept-IsFilled ((c ∷ s) ∷ ss) (h, hs) = ((cons-ne-nil c s, h), kept-IsFilled ss hs)

-- Segments are filled.
pub segments-IsFilled : (path : Str) → All IsFilled (segments path)
segments-IsFilled path =
    unfold segments in kept-IsFilled (split slash path) (split-Lacks slash path)
