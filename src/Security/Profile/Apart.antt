-- ===== src/Security/Profile/Apart.antt =====
-- Lists of patterns that no path matches at once.
use docker_socket_proxy.Common.{
  Bool, true, false, not, ◌&&◌, ◌||◌, List, [], ◌∷◌, ◌≡◌, refl, arith, all, all-of-Member, Str,
  codes, slash, str_eq, str_eq_iff, ends_with,
}
use docker_socket_proxy.Security.Pattern.{segments}
use docker_socket_proxy.Security.Pattern.Matches.{
  Matches, exact, under, wildcard, SegmentsMatch, done, star, same, ends_with_iff,
}
use docker_socket_proxy.Security.Rule.Laws.{Covers}

-- Two patterns, by segments, that no path matches at once.
unfoldable pub apart : List Str → List Str → Bool
apart [] [] = false
apart [] (q ∷ qs) = true
apart (p ∷ ps) [] = true
apart (p ∷ ps) (q ∷ qs) =
    not (str_eq p (codes "*") || str_eq q (codes "*") || str_eq p q) || apart ps qs

apart_sound :
    {ps qs ss : List Str} → SegmentsMatch ps ss → SegmentsMatch qs ss → apart ps qs ≡ true → ⊥
unfolding apart
apart_sound done done h = cc
apart_sound (star {p} e m) (star n_e n) h =
    ground (arith, str_eq_iff p (codes "*"), apart_sound m n)
apart_sound (star {p} e m) (same n_e n) h =
    ground (arith, str_eq_iff p (codes "*"), apart_sound m n)
apart_sound (same e m) (star {p = q} n_e n) h =
    ground (arith, str_eq_iff q (codes "*"), apart_sound m n)
apart_sound (same {p} e m) (same {p = q} n_e n) h = ground (arith, str_eq_iff p q, apart_sound m n)

SegmentsMatch-refl : (ss : List Str) → SegmentsMatch ss ss
SegmentsMatch-refl [] = done
SegmentsMatch-refl (s ∷ ss) = same refl (SegmentsMatch-refl ss)

-- A pattern that is no prefix pattern matches segment by segment.
Matches-SegmentsMatch :
    (pattern path : Str)
    → ends_with pattern slash ≡ false
    → Matches pattern path
    → SegmentsMatch (segments pattern) (segments path)
Matches-SegmentsMatch pattern path bare (exact e) = rw e (SegmentsMatch-refl (segments path))
Matches-SegmentsMatch pattern path bare (under rest ends e) = cc ((ends_with_iff pattern).1 ends)
Matches-SegmentsMatch pattern path bare (wildcard no_slash star_in m) = m

unfoldable pub apart_patterns : Str → Str → Bool
apart_patterns p q =
    not (ends_with p slash) && not (ends_with q slash) && apart (segments p) (segments q)

apart_patterns_sound :
    (p q path : Str) → apart_patterns p q ≡ true → Matches p path → Matches q path → ⊥
unfolding apart_patterns
apart_patterns_sound p q path h m n =
    apart_sound (Matches-SegmentsMatch p path (ground arith) m)
      (Matches-SegmentsMatch q path (ground arith) n) (ground arith)

unfoldable pub apart_lists : List Str → List Str → Bool
apart_lists ps qs = all (λ p. all (apart_patterns p) qs) ps

pub apart_lists_sound :
    (ps qs : List Str) (path : Str) → apart_lists ps qs ≡ true → Covers ps path → Covers qs path → ⊥
unfolding apart_lists
apart_lists_sound ps qs path h (p, in_ps, m) (q, in_qs, n) =
    apart_patterns_sound p q path
      (all-of-Member (apart_patterns p) qs q
        (all-of-Member (λ x. all (apart_patterns x) qs) ps p h in_ps) in_qs)
      m n
