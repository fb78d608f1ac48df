-- ===== src/Tests/Paths.antt =====
-- Decoding and normalising at concrete paths.
use docker_socket_proxy.Common.{
  cons_first, [], ◌∷◌, codes, slash, All, Lacks, split, first_part, has_byte, str_eq, starts_with,
  ◌≡◌, ◌↔◌, true, refl, arith,
}
use docker_socket_proxy.Error.{ok}
use docker_socket_proxy.Security.Percent.{
  accept_byte, decode_loop, escape, from_str_radix, hex_value, lead, radix_digits, utf8_from,
  is_utf8, percent_decode,
}
use docker_socket_proxy.Security.Percent.Decodes.{Decodes, percent_decode_iff}
use docker_socket_proxy.Security.Segments.{push_segment, resolve, render, remove_dot_segments}
use docker_socket_proxy.Security.Segments.Render.{IsPlain}
use docker_socket_proxy.Security.Segments.Laws.{absolute, cancel, remove_dot_segments-cancel}
use docker_socket_proxy.Security.Version.{is_digit, strip_v, is_version, strip_api_version}
use docker_socket_proxy.Security.Normalize.{normalize_path}
use docker_socket_proxy.Security.Normalize.Canonical.{
  normalize_path-versioned, IsCanonical, normalize_path-IsCanonical,
}

code : Unit {0}
unfolding str_eq starts_with has_byte split first_part percent_decode remove_dot_segments
    strip_api_version normalize_path cons_first accept_byte decode_loop escape from_str_radix
    hex_value lead radix_digits utf8_from push_segment resolve is_digit strip_v is_utf8 is_version
    render
code = tt

climbing : normalize_path (codes "/v1.55/containers/%2e%2e/info") ≡ ok (codes "/info")
unfolding code
climbing = refl

plain_letters : Lacks slash (codes "info")
plain_letters = (ground arith, (ground arith, (ground arith, (ground arith, tt))))

IsPlain-info : All IsPlain (codes "info" ∷ [])
IsPlain-info = ((λ e. cc, λ e. cc, λ e. cc, plain_letters), tt)

percent_decode_iff_example :
    (percent_decode (codes "/a%41") ≡ ok (codes "/aA"))
    ↔ (Decodes (codes "/a%41") (codes "/aA") × (is_utf8 (codes "/aA") ≡ true))
percent_decode_iff_example = percent_decode_iff (codes "/a%41") (codes "/aA")

remove_dot_segments-cancel_example :
    remove_dot_segments (codes "/../a/b/../../info")
    ≡ absolute (cancel (split slash (codes "/../a/b/../../info"))).1
remove_dot_segments-cancel_example = remove_dot_segments-cancel (codes "/../a/b/../../info")

normalize_path-IsCanonical_example : IsCanonical (codes "/info")
normalize_path-IsCanonical_example =
    normalize_path-IsCanonical (codes "/v1.55/containers/%2e%2e/info") (codes "/info") climbing

plain_info : Lacks b'%' (codes "/info")
plain_info = (ground arith, (ground arith, (ground arith, (ground arith, (ground arith, tt)))))

info_valid : is_utf8 (codes "/info") ≡ true
unfolding code
info_valid = refl

IsPlain-versioned : All IsPlain (codes "v1" ∷ codes "info" ∷ [])
IsPlain-versioned = ((λ e. cc, λ e. cc, λ e. cc, (ground arith, (ground arith, tt))), IsPlain-info)

plain_versioned : Lacks b'%' (codes "/v1/info")
plain_versioned = (ground arith, (ground arith, (ground arith, plain_info)))

versioned_valid : is_utf8 (codes "/v1/info") ≡ true
unfolding code
versioned_valid = refl

one_is_version : is_version (codes "1") ≡ true
unfolding code
one_is_version = refl

normalize_path-versioned_example :
    normalize_path (render (codes "v1" ∷ codes "info" ∷ [])) ≡ ok (render (codes "info" ∷ []))
normalize_path-versioned_example =
    normalize_path-versioned (codes "1") (codes "info" ∷ []) one_is_version IsPlain-versioned
      (unfold code in plain_versioned) (unfold code in versioned_valid)
