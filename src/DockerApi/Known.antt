-- ===== src/DockerApi/Known.antt =====
-- What a warning about an unknown endpoint is worth: `matches_known_path` against `matches_pattern`.
use docker_socket_proxy.Common.{
  true, false, List, [], ◌∷◌, ◌≡◌, inl, inr, refl, sym, ◌∙◌, arith, ◌==◌, Bool-cases, any_of_Member,
  length, Member, Str, codes, slash, str_eq_iff, ends_with,
}
use docker_socket_proxy.Security.Pattern.{segments}
use docker_socket_proxy.Security.Pattern.Matches.{
  SegmentsMatch, done, star, same, EndsInSlash, Matches, exact, under, wildcard, ends_with_iff,
}
use docker_socket_proxy.DockerApi.{paths, segments_meet, meets_path, matches_known_path}

-- A request path is an instance of a known path when each of its segments is the known one, or
-- stands where the known path has a `*`.
abbrev pub InstanceOf : Str → Str → Type 0
InstanceOf known path = SegmentsMatch (segments known) (segments path)

segments_meet_lem :
    {ps ks ss : List Str}
    → SegmentsMatch ps ss
    → SegmentsMatch ks ss
    → ((length ps == length ks) ≡ true) × (segments_meet ps ks ≡ true)
unfolding segments_meet
segments_meet_lem done done = (refl, refl)
segments_meet_lem (star {p} e m) (star {p = k} f n) =
    ground (arith, segments_meet_lem m n, str_eq_iff p (codes "*"))
segments_meet_lem (star {p} e m) (same {p = k} f n) =
    ground (arith, segments_meet_lem m n, str_eq_iff p (codes "*"))
segments_meet_lem (same {p} e m) (star {p = k} f n) =
    ground (arith, segments_meet_lem m n, str_eq_iff k (codes "*"))
segments_meet_lem (same {p} e m) (same {p = k} f n) =
    ground (arith, segments_meet_lem m n, (str_eq_iff k p).1 (f ∙ sym e))

SegmentsMatch-refl : (ss : List Str) → SegmentsMatch ss ss
SegmentsMatch-refl [] = done
SegmentsMatch-refl (s ∷ ss) = same refl (SegmentsMatch-refl ss)

-- An endpoint that does not end in a slash and is reported as unknown applies to no request on a
-- path of the Docker API: the warning that it never takes effect is right.
pub unknown_never_applies :
    (pattern known path : Str)
    → matches_known_path pattern ≡ false
    → ¬ EndsInSlash pattern
    → Member known paths
    → InstanceOf known path
    → ¬ Matches pattern path
unfolding matches_known_path meets_path
unknown_never_applies pattern known path unknown bare listed instance_of m =
    let parts : SegmentsMatch (segments pattern) (segments path) = elim m [
      | exact e ↦ rw e (SegmentsMatch-refl (segments path))
      | under rest ends e ↦ absurd (bare ends)
      | wildcard not_prefix has_star q ↦ q
    ] in
    let (lengths, meet) = segments_meet_lem parts instance_of in
    elim (Bool-cases (ends_with pattern slash)) [
      | inl ends ↦ absurd (bare ((ends_with_iff pattern).0 ends))
      | inr off ↦
          let hit : meets_path pattern known ≡ true = rw off (ground arith) in
          cc (any_of_Member (meets_path pattern) paths known listed hit)
    ]
