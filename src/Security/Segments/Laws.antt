-- ===== src/Security/Segments/Laws.antt =====
-- `remove_dot_segments`: what it returns, and a description that reads the path from its end.
use mathlib.Core.List.{reverse, tail, reverse-cons}
use docker_socket_proxy.Common.{
  ℕ, zero, suc, ◌||◌, List, [], ◌∷◌, ◌++◌, ◌≡◌, inl, inr, refl, sym, ap, ◌∙◌, arith, Bool-cases,
  if◌then◌else◌, Str, codes, slash, split, split-Lacks, str_eq, str_eq_iff, All, All-append, Lacks,
  is_empty, drop, append-nil, append_assoc,
}
use docker_socket_proxy.Security.Segments.{push_segment, resolve, render, remove_dot_segments}
use docker_socket_proxy.Security.Segments.Render.{IsPlain, split-render}

-- The path that a list of segments stands for.
abbrev pub absolute : List Str → Str
absolute [] = codes "/"
absolute (s ∷ ss) = render (s ∷ ss)

-- A segment met from the end: it is kept, or cancelled by a later "..".
abbrev pub meet : Str → ℕ → List Str → ℕ × List Str
meet segment zero kept = (0, segment ∷ kept)
meet segment (suc n) kept = (n, kept)

abbrev pub cancel_one : Str → ℕ → List Str → ℕ × List Str
cancel_one segment n kept =
    if is_empty segment || str_eq segment (codes ".")
    then (n, kept)
    else if str_eq segment (codes "..")
    then (suc n, kept)
    else meet segment n kept

-- Reading from the end: how many ".." cancel nothing yet, and the segments kept.
abbrev pub cancel : List Str → ℕ × List Str
cancel [] = (0, [])
cancel (segment ∷ rest) = let later = cancel rest in cancel_one segment later.0 later.1

remove_dot_segments-absolute :
    (path : Str) → remove_dot_segments path ≡ absolute (resolve [] (split slash path))
unfolding remove_dot_segments
remove_dot_segments-absolute path = go (resolve [] (split slash path))
  where
    go : (found : List Str) → (if is_empty found then codes "/" else render found) ≡ absolute found
    go [] = refl
    go (s ∷ ss) = refl

All-reverse : (P : Str → Type 0) (ss : List Str) → All P ss → All P (reverse ss)
All-reverse P [] h = h
All-reverse P (s ∷ ss) (h, hs) =
    rw (reverse-cons s ss) (All-append P (reverse ss) (s ∷ []) (All-reverse P ss hs) (h, tt))

All-tail : (ss : List Str) → All IsPlain ss → All IsPlain (tail ss)
All-tail [] h = h
All-tail (s ∷ ss) h = h.1

push_segment-IsPlain :
    (stack : List Str) (s : Str)
    → All IsPlain stack
    → Lacks slash s
    → All IsPlain (push_segment stack s)
unfolding push_segment
push_segment-IsPlain stack [] h k = h
push_segment-IsPlain stack (c ∷ s) h k =
    ground
      (arith, str_eq_iff (c ∷ s) (codes "."), str_eq_iff (c ∷ s) (codes ".."), All-tail stack h)

resolve-IsPlain :
    (stack ss : List Str)
    → All IsPlain stack
    → All (Lacks slash) ss
    → All IsPlain (resolve stack ss)
unfolding resolve
resolve-IsPlain stack [] h _ = All-reverse IsPlain stack h
resolve-IsPlain stack (s ∷ ss) h (k, ks) =
    resolve-IsPlain (push_segment stack s) ss (push_segment-IsPlain stack s h k) ks

-- The result is the root, or separators each followed by a segment that is neither empty, nor a dot
-- segment, and holds no separator.
pub remove_dot_segments-IsPlain :
    (path : Str) → (ss : List Str) × All IsPlain ss × (remove_dot_segments path ≡ absolute ss)
remove_dot_segments-IsPlain path = (
  resolve [] (split slash path),
  resolve-IsPlain [] (split slash path) tt (split-Lacks slash path),
  remove_dot_segments-absolute path,
)

resolve-cons :
    (stack : List Str) (s : Str) (ss : List Str)
    → resolve stack (s ∷ ss) ≡ resolve (push_segment stack s) ss
unfolding resolve
resolve-cons stack s ss = refl

push_segment-nil : (stack : List Str) → push_segment stack [] ≡ stack
unfolding push_segment
push_segment-nil stack = refl

push_segment_of_IsPlain :
    (stack : List Str) (s : Str) → IsPlain s → push_segment stack s ≡ s ∷ stack
unfolding push_segment
push_segment_of_IsPlain stack [] h = absurd (h.0 refl)
push_segment_of_IsPlain stack (c ∷ s) h =
    ground (arith, str_eq_iff (c ∷ s) (codes "."), str_eq_iff (c ∷ s) (codes ".."))

resolve_of_IsPlain : (stack ss : List Str) → All IsPlain ss → resolve stack ss ≡ reverse stack ++ ss
resolve_of_IsPlain stack [] _ = unfold resolve in sym (append-nil _)
resolve_of_IsPlain stack (s ∷ ss) (h, hs) =
    resolve-cons stack s ss
    ∙ ap (λ t. resolve t ss) (push_segment_of_IsPlain stack s h)
    ∙ resolve_of_IsPlain (s ∷ stack) ss hs
    ∙ simp (reverse-cons, append_assoc)

pub remove_dot_segments-absolute_of_IsPlain :
    (ss : List Str) → All IsPlain ss → remove_dot_segments (absolute ss) ≡ absolute ss
remove_dot_segments-absolute_of_IsPlain [] _ =
    unfold remove_dot_segments resolve push_segment split str_eq in refl
remove_dot_segments-absolute_of_IsPlain (s ∷ ss) h =
    remove_dot_segments-absolute (render (s ∷ ss))
    ∙ ap (λ ts. absolute (resolve [] ts)) (split-render s ss h)
    ∙ ap absolute (
        resolve-cons [] [] (s ∷ ss)
        ∙ ap (λ t. resolve t (s ∷ ss)) (push_segment-nil [])
        ∙ resolve_of_IsPlain [] (s ∷ ss) h)

-- Removing dot segments a second time changes nothing.
remove_dot_segments_idempotent :
    (path : Str) → remove_dot_segments (remove_dot_segments path) ≡ remove_dot_segments path
remove_dot_segments_idempotent path =
    let (ss, h, e) = remove_dot_segments-IsPlain path in
    rw e (remove_dot_segments-absolute_of_IsPlain ss h)

reverse-drop-tail : (n : ℕ) (stack : List Str) → drop n (tail stack) ≡ drop (suc n) stack
reverse-drop-tail zero [] = refl
reverse-drop-tail (suc n) [] = refl
reverse-drop-tail n (s ∷ stack) = refl

reverse-drop_push :
    (s : Str) (n : ℕ) (kept stack : List Str)
    → reverse (drop n (s ∷ stack)) ++ kept
      ≡ reverse (drop (meet s n kept).0 stack) ++ (meet s n kept).1
reverse-drop_push s zero kept stack = simp (reverse-cons, append_assoc)
reverse-drop_push s (suc n) kept stack = refl

push_segment-cancel :
    (s : Str) (n : ℕ) (kept stack : List Str)
    → reverse (drop n (push_segment stack s)) ++ kept
      ≡ reverse (drop (cancel_one s n kept).0 stack) ++ (cancel_one s n kept).1
unfolding push_segment
push_segment-cancel s n kept stack = elim (Bool-cases (is_empty s || str_eq s (codes "."))) [
  | inl skip ↦ rw skip
  | inr named ↦ elim (Bool-cases (str_eq s (codes ".."))) [
    | inl up ↦ rw (named, up, reverse-drop-tail n stack)
    | inr plain ↦ rw (named, plain) (reverse-drop_push s n kept stack)
  ]
]

resolve-cancel :
    (stack ss : List Str) → resolve stack ss ≡ reverse (drop (cancel ss).0 stack) ++ (cancel ss).1
resolve-cancel stack [] = unfold resolve in sym (append-nil _)
resolve-cancel stack (s ∷ ss) =
    resolve-cons stack s ss
    ∙ resolve-cancel (push_segment stack s) ss
    ∙ push_segment-cancel s (cancel ss).0 (cancel ss).1 stack

drop-nil : (n : ℕ) → drop {A = Str} n [] ≡ []
drop-nil zero = refl
drop-nil (suc n) = refl

-- The segments that remain are those that no later ".." cancels, ".." cancelling the nearest
-- segment before it that is neither empty, nor ".", nor already cancelled.
pub remove_dot_segments-cancel :
    (path : Str) → remove_dot_segments path ≡ absolute (cancel (split slash path)).1
remove_dot_segments-cancel path =
    remove_dot_segments-absolute path
    ∙ ap absolute (
        resolve-cancel [] (split slash path)
        ∙ ap (λ (s : List Str). reverse s ++ (cancel (split slash path)).1)
            (drop-nil (cancel (split slash path)).0))
