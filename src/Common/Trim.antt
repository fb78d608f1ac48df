-- ===== src/Common/Trim.antt =====
-- `str::trim`: white space in the sense of Unicode, recognised on UTF-8 bytes.
use mathlib.Core.List.{reverse}
use docker_socket_proxy.Common.Tests.{◌==◌, if◌then◌else◌, between}
use docker_socket_proxy.Common.Text.{Str}
use Prim.Native.Nat.{ℕ}
use mathlib.Core.Bool.{Bool, ◌&&◌, ◌||◌}
use mathlib.Core.List.{[], ◌∷◌}

-- U+0009 to U+000D and U+0020
unfoldable pub is_space : ℕ → Bool
is_space a = between 9 13 a || a == 32

-- U+0085 and U+00A0
unfoldable pub is_space2 : ℕ → ℕ → Bool
is_space2 a b = a == 0xC2 && (b == 0x85 || b == 0xA0)

-- U+1680, U+2000 to U+200A, U+2028, U+2029, U+202F, U+205F and U+3000
unfoldable pub is_space3 : ℕ → ℕ → ℕ → Bool
is_space3 a b c =
    (a == 0xE1 && b == 0x9A && c == 0x80)
    || (a == 0xE2 && b == 0x80 && (between 0x80 0x8A c || c == 0xA8 || c == 0xA9 || c == 0xAF))
    || (a == 0xE2 && b == 0x81 && c == 0x9F)
    || (a == 0xE3 && b == 0x80 && c == 0x80)

-- Drop white space at the front, where the tests say how a character's bytes stand.
module _ (two : ℕ → ℕ → Bool) (three : ℕ → ℕ → ℕ → Bool) where
  unfoldable pub trim_front : Str → Str
  trim_front [] = []
  trim_front (a ∷ []) = if is_space a then [] else a ∷ []
  trim_front (a ∷ b ∷ []) =
      let one = trim_front (b ∷ []) in
      if is_space a then one else if two a b then [] else a ∷ b ∷ []
  trim_front (a ∷ b ∷ c ∷ s) =
      let one = trim_front (b ∷ c ∷ s) in
      let both = trim_front (c ∷ s) in
      let all_three = trim_front s in
      if is_space a
      then one
      else if two a b
      then both
      else if three a b c
      then all_three
      else a ∷ b ∷ c ∷ s

unfoldable pub trim_start : Str → Str
trim_start s = trim_front is_space2 is_space3 s

-- The same from the end, on the bytes in reverse.
unfoldable pub trim_end : Str → Str
trim_end s = reverse (trim_front (λ b a. is_space2 a b) (λ c b a. is_space3 a b c) (reverse s))

unfoldable pub trim : Str → Str
trim s = trim_end (trim_start s)
