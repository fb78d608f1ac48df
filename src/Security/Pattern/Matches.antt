-- ===== src/Security/Pattern/Matches.antt =====
-- `matches_pattern` against the three modes that its documentation names.
use docker_socket_proxy.Common.{
  ℕ, true, false, ◌&&◌, ◌||◌, List, [], ◌∷◌, ◌++◌, ◌≡◌, ◌↔◌, inl, inr, refl, ap, arith, ◌==◌,
  Bool-cases, length, Member, Str, codes, slash, str_eq, str_eq_iff, starts_with, starts_with_iff,
  ends_with, has_byte,
}
use docker_socket_proxy.Security.Pattern.{segments, segments_match, matches_pattern}

-- Segment by segment: the wildcard stands for any one segment.
pub data SegmentsMatch : List Str → List Str → Type 0 where
  done : SegmentsMatch [] []
  star :
      {p a : Str} {ps ss : List Str}
      → p ≡ codes "*"
      → SegmentsMatch ps ss
      → SegmentsMatch (p ∷ ps) (a ∷ ss)
  same :
      {p a : Str} {ps ss : List Str} → p ≡ a → SegmentsMatch ps ss → SegmentsMatch (p ∷ ps) (a ∷ ss)

abbrev pub EndsInSlash : Str → Type 0
EndsInSlash pattern = (init : Str) × (pattern ≡ init ++ slash ∷ [])

-- The modes of a pattern.
pub data Matches (pattern path : Str) : Type 0 where
  exact : pattern ≡ path → Matches pattern path
  under : (rest : Str) → EndsInSlash pattern → path ≡ pattern ++ rest → Matches pattern path
  wildcard :
      ¬ EndsInSlash pattern
      → Member b'*' pattern
      → SegmentsMatch (segments pattern) (segments path)
      → Matches pattern path

ends_with_sound : (s : Str) → ends_with s slash ≡ true → EndsInSlash s
unfolding ends_with
ends_with_sound [] h = cc
ends_with_sound (c ∷ []) h = ([], ground arith)
ends_with_sound (c ∷ d ∷ s) h =
    let (init, e) = ends_with_sound (d ∷ s) h in (c ∷ init, ap (λ (t : Str). c ∷ t) e)

ends_with-append : (init : Str) → ends_with (init ++ slash ∷ []) slash ≡ true
unfolding ends_with
ends_with-append [] = refl
ends_with-append (c ∷ []) = refl
ends_with-append (c ∷ d ∷ s) = ends_with-append (d ∷ s)

pub ends_with_iff : (s : Str) → (ends_with s slash ≡ true) ↔ EndsInSlash s
ends_with_iff s = (ends_with_sound s, λ e. rw e.1 (ends_with-append e.0))

pub has_byte_iff : (s : Str) (b : ℕ) → (has_byte s b ≡ true) ↔ Member b s
unfolding has_byte
has_byte_iff [] b = ground arith
has_byte_iff (c ∷ s) b = ground (arith, has_byte_iff s b)

segments_match_sound :
    (ps ss : List Str)
    → (length ps == length ss) ≡ true
    → segments_match ps ss ≡ true
    → SegmentsMatch ps ss
unfolding segments_match
segments_match_sound [] [] n h = done
segments_match_sound [] (a ∷ ss) n h = absurd (ground arith)
segments_match_sound (p ∷ ps) [] n h = absurd (ground arith)
segments_match_sound (p ∷ ps) (a ∷ ss) n h = elim (Bool-cases (str_eq p (codes "*"))) [
  | inl any ↦
      star ((str_eq_iff p (codes "*")).0 any)
        (segments_match_sound ps ss (ground arith) (ground arith))
  | inr named ↦
      same ((str_eq_iff p a).0 (ground arith))
        (segments_match_sound ps ss (ground arith) (ground arith))
]

segments_match_complete :
    {ps ss : List Str}
    → SegmentsMatch ps ss
    → ((length ps == length ss) ≡ true) × (segments_match ps ss ≡ true)
unfolding segments_match
segments_match_complete done = (refl, refl)
segments_match_complete (star {p} {a} e m) =
    ground (arith, segments_match_complete m, str_eq_iff p (codes "*"))
segments_match_complete (same {p} {a} e m) =
    ground (arith, segments_match_complete m, str_eq_iff p a)

module _ (pattern path : Str) where
  matches_exact : str_eq pattern path ≡ true → matches_pattern pattern path ≡ true
  unfolding matches_pattern
  matches_exact h = rw h

  matches_prefix :
      ends_with pattern slash ≡ true
      → matches_pattern pattern path ≡ str_eq pattern path || starts_with path pattern
  unfolding matches_pattern
  matches_prefix h = ground arith

  matches_wildcard :
      ends_with pattern slash ≡ false
      → matches_pattern pattern path
        ≡ str_eq pattern path
          || (has_byte pattern b'*'
              && (length (segments pattern) == length (segments path)
                  && segments_match (segments pattern) (segments path)))
  unfolding matches_pattern
  matches_wildcard h = ground arith

-- A pattern matches a path exactly in one of the three documented modes.
pub matches_pattern_iff :
    (pattern path : Str) → (matches_pattern pattern path ≡ true) ↔ Matches pattern path
matches_pattern_iff pattern path = (to, from)
  where
    to : matches_pattern pattern path ≡ true → Matches pattern path
    to h = elim (Bool-cases (str_eq pattern path)) [
      | inl equal ↦ exact ((str_eq_iff pattern path).0 equal)
      | inr differ ↦ elim (Bool-cases (ends_with pattern slash)) [
        | inl prefix ↦
            let starts : starts_with path pattern ≡ true =
              ground (arith, matches_prefix pattern path prefix) in
            let (rest, e) = (starts_with_iff path pattern).0 starts in
            under rest (ends_with_sound pattern prefix) e
        | inr bare ↦
            let parts = matches_wildcard pattern path bare in
            wildcard (λ ends. cc ((ends_with_iff pattern).1 ends))
              ((has_byte_iff pattern b'*').0 (ground arith))
              (segments_match_sound (segments pattern) (segments path) (ground arith)
                (ground arith))
      ]
    ]

    from : Matches pattern path → matches_pattern pattern path ≡ true
    from (exact e) = matches_exact pattern path ((str_eq_iff pattern path).1 e)
    from (under rest ends e) = ground (
      arith,
      matches_prefix pattern path ((ends_with_iff pattern).1 ends),
      (starts_with_iff path pattern).1 (rest, e),
    )
    from (wildcard bare has m) = elim (Bool-cases (ends_with pattern slash)) [
      | inl prefix ↦ absurd (bare ((ends_with_iff pattern).0 prefix))
      | inr other ↦ ground (
        arith,
        matches_wildcard pattern path other,
        (has_byte_iff pattern b'*').1 has,
        segments_match_complete m,
      )
    ]
