-- ===== src/Security/Percent/Decodes.antt =====
-- `percent_decode` against a grammar of percent-encoded text.
use docker_socket_proxy.Common.{
  ℕ, ◌+◌, ◌*◌, ◌<◌, true, false, [], ◌∷◌, ◌++◌, Option, none, some, ◌≡◌, ◌≢◌, ◌⊎◌, ◌↔◌, inl, inr,
  ◌∙◌, sym, ap, arith, ◌==◌, Bool-cases, Option-cases, Str, slash, append-nil, append_assoc,
}
use mathlib.Core.Path.{subst}
use docker_socket_proxy.Error.{ok, >>=-eq-ok}
use docker_socket_proxy.Security.Percent.{
  is_utf8, lead, utf8_from, hex_value, radix_digits, from_str_radix, accept_byte, escape,
  decode_loop, percent_decode,
}

-- What two bytes behind a `%` may stand for: two hexadecimal digits, or a `+` and one digit.
abbrev pub HexPair : ℕ → ℕ → ℕ → Type 0
HexPair d e b =
    ((x : ℕ) × (y : ℕ) × (hex_value d ≡ some x) × (hex_value e ≡ some y) × (b ≡ x * 16 + y))
    ⊎ ((d ≡ b'+') × (hex_value e ≡ some b))

-- A byte that an escape may introduce.
abbrev pub IsAllowed : ℕ → Type 0
IsAllowed b = (b ≢ slash) × (b ≢ b'\\')

-- A raw path and the bytes that it stands for.
pub data Decodes : Str → Str → Type 0 where
  done : Decodes [] []
  plain : {c : ℕ} {s t : Str} → c ≢ b'%' → Decodes s t → Decodes (c ∷ s) (c ∷ t)
  triple :
      {c d e b : ℕ} {s t : Str}
      → c ≡ b'%'
      → HexPair d e b
      → IsAllowed b
      → Decodes s t
      → Decodes (c ∷ d ∷ e ∷ s) (b ∷ t)

hex_value-lt : (c x : ℕ) → hex_value c ≡ some x → (x < 16) × (c < 128) × (c ≢ b'+')
unfolding hex_value
hex_value-lt c x h = ground arith

is_utf8-pair : (d e : ℕ) → d < 128 → e < 128 → is_utf8 (d ∷ e ∷ []) ≡ true
unfolding is_utf8 utf8_from lead
is_utf8-pair d e hd he = ground arith

from_str_radix-plus : (e b : ℕ) → (from_str_radix (b'+' ∷ e ∷ []) ≡ some b) ↔ (hex_value e ≡ some b)
unfolding from_str_radix radix_digits hex_value
from_str_radix-plus e b = ground (arith, hex_value-lt e b)

-- Two digits never overflow.
radix_digits-pair :
    (d e x y : ℕ)
    → hex_value d ≡ some x
    → hex_value e ≡ some y
    → radix_digits 0 (d ∷ e ∷ []) ≡ some (x * 16 + y)
unfolding radix_digits
radix_digits-pair d e x y p q = ground (arith, hex_value-lt d x, hex_value-lt e y)

radix_digits-none : (c n : ℕ) (s : Str) → hex_value c ≡ none → radix_digits n (c ∷ s) ≡ none
unfolding radix_digits
radix_digits-none c n s h = ground arith

radix_digits-none_second :
    (d e x : ℕ) → hex_value d ≡ some x → hex_value e ≡ none → radix_digits 0 (d ∷ e ∷ []) ≡ none
unfolding radix_digits
radix_digits-none_second d e x p q = ground (arith, hex_value-lt d x)

from_str_radix-digits :
    (d e : ℕ) → d ≢ b'+' → from_str_radix (d ∷ e ∷ []) ≡ radix_digits 0 (d ∷ e ∷ [])
unfolding from_str_radix
from_str_radix-digits d e n = ground arith

HexPair-from_str_radix : (d e b : ℕ) → HexPair d e b → from_str_radix (d ∷ e ∷ []) ≡ some b
HexPair-from_str_radix d e b (inl (x, y, p, q, same)) =
    from_str_radix-digits d e (hex_value-lt d x p).2
    ∙ radix_digits-pair d e x y p q
    ∙ ap some (sym same)
HexPair-from_str_radix d e b (inr (plus, q)) = rw plus ((from_str_radix-plus e b).1 q)

from_str_radix-HexPair : (d e b : ℕ) → from_str_radix (d ∷ e ∷ []) ≡ some b → HexPair d e b
from_str_radix-HexPair d e b h = elim (Bool-cases (d == b'+')) [
  | inl plus ↦
      let same : d ≡ b'+' = ground arith in inr (same, (from_str_radix-plus e b).0 (rw same at h))
  | inr other ↦
      let digits = sym (from_str_radix-digits d e (ground arith)) ∙ h in
      elim (Option-cases (hex_value d)) [
        | inl no_d ↦ cc (radix_digits-none d 0 (e ∷ []) no_d)
        | inr (x, is_x) ↦ elim (Option-cases (hex_value e)) [
          | inl no_e ↦ cc (radix_digits-none_second d e x is_x no_e)
          | inr (y, is_y) ↦ inl (x, y, is_x, is_y, cc (radix_digits-pair d e x y is_x is_y))
        ]
      ]
]

HexPair-ascii : (d e b : ℕ) → HexPair d e b → (d < 128) × (e < 128)
HexPair-ascii d e b (inl (x, y, p, q, _)) = ((hex_value-lt d x p).1, (hex_value-lt e y q).1)
HexPair-ascii d e b (inr (plus, q)) = (omega arith, (hex_value-lt e b q).1)

accept_byte_iff : (o : Option ℕ) (b : ℕ) → (accept_byte o ≡ ok b) ↔ ((o ≡ some b) × IsAllowed b)
unfolding accept_byte
accept_byte_iff o b = ground arith

escape_utf8 :
    (d e : ℕ) → is_utf8 (d ∷ e ∷ []) ≡ true → accept_byte (from_str_radix (d ∷ e ∷ [])) ≡ escape d e
escape_utf8 d e h = unfold escape in rw h

escape_broken : (d e : ℕ) → is_utf8 (d ∷ e ∷ []) ≡ false → (b : ℕ) → escape d e ≢ ok b
unfolding escape
escape_broken d e h b = rw h (cc)

-- The escapes that the decoder accepts.
escape_iff : (d e b : ℕ) → (escape d e ≡ ok b) ↔ (HexPair d e b × IsAllowed b)
escape_iff d e b = (to, from)
  where
    to : escape d e ≡ ok b → HexPair d e b × IsAllowed b
    to h = elim (Bool-cases (is_utf8 (d ∷ e ∷ []))) [
      | inl fine ↦
          let (value, allowed) =
            (accept_byte_iff (from_str_radix (d ∷ e ∷ [])) b).0 (escape_utf8 d e fine ∙ h) in
          (from_str_radix-HexPair d e b value, allowed)
      | inr broken ↦ absurd (escape_broken d e broken b h)
    ]

    from : HexPair d e b × IsAllowed b → escape d e ≡ ok b
    from (pair, allowed) =
        let (hd, he) = HexPair-ascii d e b pair in
        sym (escape_utf8 d e (is_utf8-pair d e hd he))
        ∙ (accept_byte_iff (from_str_radix (d ∷ e ∷ [])) b).1
            (HexPair-from_str_radix d e b pair, allowed)

decode_loop_sound :
    (s out r : Str) → decode_loop s out ≡ ok r → (t : Str) × Decodes s t × (r ≡ out ++ t)
unfolding decode_loop
decode_loop_sound [] out r h = ([], done, ground (arith, append-nil out))
decode_loop_sound (c ∷ []) out r h = (c ∷ [], plain (ground arith) done, ground arith)
decode_loop_sound (c ∷ d ∷ []) out r h =
    let (t, ih, e) = decode_loop_sound (d ∷ []) (out ++ c ∷ []) r (ground arith) in
    (c ∷ t, plain (ground arith) ih, e ∙ append_assoc out (c ∷ []) t)
decode_loop_sound (c ∷ d ∷ e ∷ s) out r h = elim (Bool-cases (c == b'%')) [
  | inl percent ↦
      let (b, value, rest) =
        >>=-eq-ok (escape d e) (λ b. decode_loop s (out ++ b ∷ [])) (rw percent at h) in
      let (t, ih, same) = decode_loop_sound s (out ++ b ∷ []) r rest in
      let (pair, allowed) = (escape_iff d e b).0 value in
      (b ∷ t, triple (ground arith) pair allowed ih, same ∙ append_assoc out (b ∷ []) t)
  | inr other ↦
      let (t, ih, same) = decode_loop_sound (d ∷ e ∷ s) (out ++ c ∷ []) r (rw other at h) in
      (c ∷ t, plain (ground arith) ih, same ∙ append_assoc out (c ∷ []) t)
]

decode_loop-plain :
    (c : ℕ) (s out : Str) → c ≢ b'%' → decode_loop (c ∷ s) out ≡ decode_loop s (out ++ c ∷ [])
unfolding decode_loop
decode_loop-plain c [] out n = ground arith
decode_loop-plain c (d ∷ []) out n = ground arith
decode_loop-plain c (d ∷ e ∷ s) out n = ground arith

decode_loop-triple :
    (c d e b : ℕ) (s out : Str)
    → c ≡ b'%'
    → escape d e ≡ ok b
    → decode_loop (c ∷ d ∷ e ∷ s) out ≡ decode_loop s (out ++ b ∷ [])
unfolding decode_loop
decode_loop-triple c d e b s out percent value = rw (percent, value)

decode_loop_complete : (out : Str) {s t : Str} → Decodes s t → decode_loop s out ≡ ok (out ++ t)
decode_loop_complete out done = unfold decode_loop in rw append-nil
decode_loop_complete out (plain {c} {s} {t} n ih) =
    decode_loop-plain c s out n
    ∙ decode_loop_complete (out ++ c ∷ []) ih
    ∙ ap ok (append_assoc out (c ∷ []) t)
decode_loop_complete out (triple {c} {d} {e} {b} {s} {t} percent pair allowed ih) =
    decode_loop-triple c d e b s out percent ((escape_iff d e b).1 (pair, allowed))
    ∙ decode_loop_complete (out ++ b ∷ []) ih
    ∙ ap ok (append_assoc out (b ∷ []) t)

-- A path decodes to a text exactly when the grammar relates the two and the text is valid UTF-8.
pub percent_decode_iff :
    (s t : Str) → (percent_decode s ≡ ok t) ↔ (Decodes s t × (is_utf8 t ≡ true))
unfolding percent_decode
percent_decode_iff s t = (to, from)
  where
    to : percent_decode s ≡ ok t → Decodes s t × (is_utf8 t ≡ true)
    to h =
        let (out, looped, checked) = >>=-eq-ok (decode_loop s []) _ h in
        let (u, d, same) = decode_loop_sound s [] out looped in
        let valid : (is_utf8 out ≡ true) × (out ≡ t) = ground arith in
        (subst (Decodes s) (sym same ∙ valid.1) d, rw (← valid.1) valid.0)

    from : Decodes s t × (is_utf8 t ≡ true) → percent_decode s ≡ ok t
    from (d, valid) = rw (decode_loop_complete [] d, valid)
