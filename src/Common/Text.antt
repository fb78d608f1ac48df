-- ===== src/Common/Text.antt =====
-- Byte strings: the operations of Rust's `str` that the program calls, over UTF-8 bytes.
use Prim.Native.Char.{code}
use Prim.Native.Nat.{ℕ, ◌+◌, ◌-◌}
use Prim.Native.String.{String}
use mathlib.Core.Path.{◌≡◌, refl}
use mathlib.Core.Logic.{◌≢◌, ◌↔◌, inl, inr}
use mathlib.Core.Bool.{Bool, true, false, ◌&&◌}
use mathlib.Core.List.{List, [], ◌∷◌, ◌++◌, map}
use native.Mathlib.Omega.{arith}
use docker_socket_proxy.Common.Tests.{◌==◌, if◌then◌else◌, between, Bool-cases}
use docker_socket_proxy.Common.Lists.{any, All, Member}

-- A `str` or `String`: its UTF-8 bytes.
abbrev pub Str : Type 0
Str = List ℕ

-- The code points of a literal: its bytes, since every literal of the program is ASCII here.
abbrev pub codes : String → Str
codes String.[] = []
codes (String.◌∷◌ c s) = code c ∷ codes s

abbrev pub slash : ℕ
slash = b'/'

-- `==` on strings
unfoldable pub str_eq : Str → Str → Bool
str_eq [] [] = true
str_eq [] (d ∷ t) = false
str_eq (c ∷ s) [] = false
str_eq (c ∷ s) (d ∷ t) = c == d && str_eq s t

pub str_eq_iff : (s t : Str) → (str_eq s t ≡ true) ↔ (s ≡ t)
unfolding str_eq
str_eq_iff [] [] = ground arith
str_eq_iff [] (d ∷ t) = ground arith
str_eq_iff (c ∷ s) [] = ground arith
str_eq_iff (c ∷ s) (d ∷ t) = ground (arith, str_eq_iff s t)

str_eq_refl : (s : Str) → str_eq s s ≡ true
str_eq_refl s = (str_eq_iff s s).1 refl

-- `xs.contains(&x)` on a list or a set of strings
unfoldable pub contains : List Str → Str → Bool
contains xs x = any (λ y. str_eq y x) xs

pub contains_iff : (xs : List Str) (x : Str) → (contains xs x ≡ true) ↔ Member x xs
unfolding contains
contains_iff [] x = ground arith
contains_iff (y ∷ ys) x = ground (arith, contains_iff ys x, str_eq_iff y x)

-- `path.starts_with(prefix)`
unfoldable pub starts_with : Str → Str → Bool
starts_with s [] = true
starts_with [] (d ∷ t) = false
starts_with (c ∷ s) (d ∷ t) = c == d && starts_with s t

pub starts_with_iff : (s t : Str) → (starts_with s t ≡ true) ↔ ((rest : Str) × (s ≡ t ++ rest))
unfolding starts_with
starts_with_iff s [] = ((λ _. (s, refl)), (λ _. refl))
starts_with_iff [] (d ∷ t) = ((λ h. cc), (λ h. let (r, e) = h in cc))
starts_with_iff (c ∷ s) (d ∷ t) = (
  (λ h. let (r, e) = (starts_with_iff s t).0 (ground arith) in (r, ground arith)),
  (λ h. let (r, e) = h in ground (arith, (starts_with_iff s t).1 (r, ground arith))),
)

-- `ends_with` of a single byte
unfoldable pub ends_with : Str → ℕ → Bool
ends_with [] b = false
ends_with (c ∷ []) b = c == b
ends_with (c ∷ d ∷ s) b = ends_with (d ∷ s) b

-- `contains` of a single byte
unfoldable pub has_byte : Str → ℕ → Bool
has_byte s b = any (λ c. c == b) s

unfoldable pub cons_first : ℕ → List Str → List Str
cons_first c [] = (c ∷ []) ∷ []
cons_first c (s ∷ rest) = (c ∷ s) ∷ rest

-- `split` at a single byte
unfoldable pub split : ℕ → Str → List Str
split sep [] = [] ∷ []
split sep (c ∷ s) = let rest = split sep s in if c == sep then [] ∷ rest else cons_first c rest

-- the first item of `split`, which always has one
unfoldable pub first_part : ℕ → Str → Str
first_part sep [] = []
first_part sep (c ∷ s) = let rest = first_part sep s in if c == sep then [] else c ∷ rest

unfoldable pub join : Str → List Str → Str
join sep [] = []
join sep (s ∷ []) = s
join sep (s ∷ t ∷ rest) = s ++ sep ++ join sep (t ∷ rest)

unfoldable pub ascii_lower : ℕ → ℕ
ascii_lower c = if between b'A' b'Z' c then c + 32 else c

unfoldable pub ascii_upper : ℕ → ℕ
ascii_upper c = if between b'a' b'z' c then c - 32 else c

unfoldable pub to_ascii_lowercase : Str → Str
to_ascii_lowercase s = map ascii_lower s

unfoldable pub to_ascii_uppercase : Str → Str
to_ascii_uppercase s = map ascii_upper s

-- a byte that no text in the list holds
abbrev pub Lacks : ℕ → Str → Type 0
Lacks b s = All (λ c. c ≢ b) s

cons_first-Lacks :
    (sep c : ℕ) (rest : List Str)
    → c ≢ sep
    → All (Lacks sep) rest
    → All (Lacks sep) (cons_first c rest)
unfolding cons_first
cons_first-Lacks sep c [] n h = ((n, tt), tt)
cons_first-Lacks sep c (t ∷ rest) n h = ((n, h.0), h.1)

-- No part of a split holds the separator.
pub split-Lacks : (sep : ℕ) (s : Str) → All (Lacks sep) (split sep s)
unfolding split
split-Lacks sep [] = (tt, tt)
split-Lacks sep (c ∷ s) = elim (Bool-cases (c == sep)) [
  | inl e ↦ rw e (tt, split-Lacks sep s)
  | inr e ↦ rw e (cons_first-Lacks sep c (split sep s) (ground arith) (split-Lacks sep s))
]
