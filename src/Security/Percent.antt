-- ===== src/Security/Percent.antt =====
-- src/security.rs, `percent_decode`, with the two operations of the standard library that it rests
-- on: UTF-8 validation and `u8::from_str_radix`.
pub mod Decodes
pub mod Slashes
use docker_socket_proxy.Common.{
  ℕ, ◌+◌, ◌-◌, ◌*◌, Bool, true, false, ◌&&◌, ◌||◌, List, [], ◌∷◌, ◌++◌, Option, none, some, ltb,
  leb, ◌==◌, between, if◌then◌else◌, Str, codes, slash,
}
use docker_socket_proxy.Error.{ProxyError, forbidden, bad_request, Result, ok, err, ◌>>=◌}

abbrev Range : Type 0
Range = ℕ × ℕ

abbrev tail_range : Range
tail_range = (0x80, 0xBF)

-- The ranges of the bytes that follow a first byte in UTF-8 (RFC 3629 §4).
unfoldable pub lead : ℕ → Option (List Range)
lead c =
    if ltb c 0x80
    then some []
    else if between 0xC2 0xDF c
    then some (tail_range ∷ [])
    else if c == 0xE0
    then some ((0xA0, 0xBF) ∷ tail_range ∷ [])
    else if c == 0xED
    then some ((0x80, 0x9F) ∷ tail_range ∷ [])
    else if between 0xE1 0xEF c
    then some (tail_range ∷ tail_range ∷ [])
    else if c == 0xF0
    then some ((0x90, 0xBF) ∷ tail_range ∷ tail_range ∷ [])
    else if between 0xF1 0xF3 c
    then some (tail_range ∷ tail_range ∷ tail_range ∷ [])
    else if c == 0xF4
    then some ((0x80, 0x8F) ∷ tail_range ∷ tail_range ∷ [])
    else none

unfoldable pub utf8_from : List Range → Str → Bool
utf8_from [] [] = true
utf8_from (r ∷ rs) [] = false
utf8_from [] (c ∷ s) = elim (lead c) [ none ↦ false | some rs ↦ utf8_from rs s ]
utf8_from (r ∷ rs) (c ∷ s) = between r.0 r.1 c && utf8_from rs s

-- `str::from_utf8(…).is_ok()`
unfoldable pub is_utf8 : Str → Bool
is_utf8 s = utf8_from [] s

-- `char::to_digit(16)`
unfoldable pub hex_value : ℕ → Option ℕ
hex_value c =
    if between b'0' b'9' c
    then some (c - b'0')
    else if between b'a' b'f' c
    then some (c - b'a' + 10)
    else if between b'A' b'F' c
    then some (c - b'A' + 10)
    else none

unfoldable pub radix_digits : ℕ → Str → Option ℕ
radix_digits n [] = some n
radix_digits n (c ∷ s) = elim (hex_value c) [
  | none ↦ none
  | some d ↦ elim (leb (n * 16 + d) 255) [ true ↦ radix_digits (n * 16 + d) s | false ↦ none ]
]

-- `u8::from_str_radix(_, 16)`: a leading `+` is accepted, a sign alone is not.
unfoldable pub from_str_radix : Str → Option ℕ
from_str_radix [] = none
from_str_radix (c ∷ []) = if c == b'+' || c == b'-' then none else radix_digits 0 (c ∷ [])
from_str_radix (c ∷ d ∷ s) =
    if c == b'+' then radix_digits 0 (d ∷ s) else radix_digits 0 (c ∷ d ∷ s)

abbrev truncated : ProxyError
truncated = bad_request (codes "truncated percent-encoding in path")

abbrev invalid : ProxyError
invalid = bad_request (codes "invalid percent-encoding in path")

abbrev encoded_separator : ProxyError
encoded_separator = forbidden (codes "encoded path separator in path")

abbrev pub not_utf8 : ProxyError
not_utf8 = bad_request (codes "path is not valid UTF-8")

unfoldable pub accept_byte : Option ℕ → Result ℕ
accept_byte none = err invalid
accept_byte (some b) = if b == slash || b == b'\\' then err encoded_separator else ok b

-- the byte that the two bytes behind a `%` stand for
unfoldable pub escape : ℕ → ℕ → Result ℕ
escape d e =
    if is_utf8 (d ∷ e ∷ []) then accept_byte (from_str_radix (d ∷ e ∷ [])) else err truncated

-- the loop over `i`, on the bytes from `i` on, with `out`
unfoldable pub decode_loop : Str → Str → Result Str
decode_loop [] out = ok out
decode_loop (c ∷ []) out = if c == b'%' then err truncated else ok (out ++ c ∷ [])
decode_loop (c ∷ d ∷ []) out =
    let next = decode_loop (d ∷ []) (out ++ c ∷ []) in if c == b'%' then err truncated else next
decode_loop (c ∷ d ∷ e ∷ s) out =
    let triple = escape d e >>= λ b. decode_loop s (out ++ b ∷ []) in
    let next = decode_loop (d ∷ e ∷ s) (out ++ c ∷ []) in if c == b'%' then triple else next

unfoldable pub percent_decode : Str → Result Str
percent_decode path = do out ← decode_loop path []; if is_utf8 out then ok out else err not_utf8
