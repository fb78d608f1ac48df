-- ===== src/Security/Percent/Slashes.antt =====
-- Decoding a path keeps its separators: no escape introduces one.
use docker_socket_proxy.Common.{
  ℕ, ◌+◌, [], ◌∷◌, some, ◌≡◌, ◌≢◌, inl, inr, refl, arith, ◌==◌, if◌then◌else◌, Str, slash,
}
use docker_socket_proxy.Error.{ok}
use docker_socket_proxy.Security.Percent.{hex_value, percent_decode}
use docker_socket_proxy.Security.Percent.Decodes.{
  HexPair, Decodes, done, plain, triple, percent_decode_iff,
}

-- how often a byte stands in a text
abbrev pub count : ℕ → Str → ℕ
count b [] = 0
count b (c ∷ s) = (if c == b then 1 else 0) + count b s

hex_value-ne : (c x : ℕ) → hex_value c ≡ some x → (c ≢ slash) × (c ≢ b'\\')
unfolding hex_value
hex_value-ne c x h = ground arith

HexPair-ne : (d e b : ℕ) → HexPair d e b → (d ≢ slash) × (d ≢ b'\\') × (e ≢ slash) × (e ≢ b'\\')
HexPair-ne d e b (inl (x, y, p, q, _)) =
    let (d1, d2) = hex_value-ne d x p in let (e1, e2) = hex_value-ne e y q in (d1, d2, e1, e2)
HexPair-ne d e b (inr (plus, q)) =
    let (e1, e2) = hex_value-ne e b q in (omega arith, omega arith, e1, e2)

Decodes-count :
    {s t : Str} → Decodes s t → (count slash t ≡ count slash s) × (count b'\\' t ≡ count b'\\' s)
Decodes-count done = (refl, refl)
Decodes-count (plain n d) = ground (arith, Decodes-count d)
Decodes-count (triple {d} {e} {b} same pair allowed rest) =
    ground (arith, Decodes-count rest, HexPair-ne d e b pair)

-- Where a path decodes, the result has as many slashes, and as many backslashes, as the raw path.
percent_decode-count :
    (s t : Str)
    → percent_decode s ≡ ok t
    → (count slash t ≡ count slash s) × (count b'\\' t ≡ count b'\\' s)
percent_decode-count s t h = Decodes-count ((percent_decode_iff s t).0 h).0
