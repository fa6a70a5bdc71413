-- ===== src/Prelude/Str/Utf8.antt =====
-- `String::from_utf8_lossy`: bytes that are not UTF-8 are replaced.
use hakimi_hub.Prelude.Str.{Text}
use Prim.Native.Nat.{ℕ, ◌<◌}
use mathlib.Core.Path.{◌≡◌, refl, ap}
use mathlib.Core.Bool.{◌&&◌}
use mathlib.Core.Option.{Option, none, some}
use mathlib.Core.List.{List, [], ◌∷◌, ◌++◌}
use native.Mathlib.Omega.{arith}
use hakimi_hub.Prelude.Tests.{leb, ltb, ◌==◌, if◌then◌else◌}
use hakimi_hub.Prelude.Lists.{is_empty, All}

-- The bytes of U+FFFD, which stands for each part that is not UTF-8.
abbrev pub replacement : Text
replacement = 239 ∷ 191 ∷ 189 ∷ []

abbrev tail_range : ℕ × ℕ
tail_range = (128, 191)

-- The ranges of the bytes that follow the first byte of a character, if one begins with it.
unfoldable pub following : ℕ → Option (List (ℕ × ℕ))
following b =
    if ltb b 128
    then some []
    else if leb 0xc2 b && leb b 0xdf
    then some (tail_range ∷ [])
    else if b == 0xe0
    then some ((0xa0, 0xbf) ∷ tail_range ∷ [])
    else if b == 0xed
    then some ((0x80, 0x9f) ∷ tail_range ∷ [])
    else if leb 0xe1 b && leb b 0xef
    then some (tail_range ∷ tail_range ∷ [])
    else if b == 0xf0
    then some ((0x90, 0xbf) ∷ tail_range ∷ tail_range ∷ [])
    else if leb 0xf1 b && leb b 0xf3
    then some (tail_range ∷ tail_range ∷ tail_range ∷ [])
    else if b == 0xf4
    then some ((0x80, 0x8f) ∷ tail_range ∷ tail_range ∷ [])
    else none

-- A character that has begun, and the ranges of the bytes that it still wants.
pub record Decoder : Type 0 where
  pub begun : Text
  pub wanted : List (ℕ × ℕ)

abbrev pub idle : Decoder
idle = record { begun = []; wanted = [] }

unfoldable pub first_byte : ℕ → Text × Decoder
unfolding following
first_byte b = elim (following b) [
  | none ↦ (replacement, idle)
  | some [] ↦ (b ∷ [], idle)
  | some (r ∷ rs) ↦ ([], record { begun = b ∷ []; wanted = r ∷ rs })
]

-- What a byte puts out; one that the character does not want begins the next.
unfoldable pub next_byte : Decoder → ℕ → Text × Decoder
unfolding first_byte
next_byte d b = elim d.wanted [
  | [] ↦ first_byte b
  | r ∷ rs ↦
      if leb r.0 b && leb b r.1
      then if is_empty rs
        then (d.begun ++ b ∷ [], idle)
        else ([], record { begun = d.begun ++ b ∷ []; wanted = rs })
      else (replacement ++ (first_byte b).0, (first_byte b).1)
]

unfoldable pub decode : Decoder → Text → Text
unfolding next_byte
decode d [] = if is_empty d.begun then [] else replacement
decode d (b ∷ s) = let r = next_byte d b in r.0 ++ decode r.1 s

unfoldable pub from_utf8_lossy : Text → Text
unfolding decode
from_utf8_lossy s = decode idle s

abbrev pub IsAscii : Text → Type 0
IsAscii = All (λ c. c < 128)

following-ascii : (b : ℕ) → b < 128 → following b ≡ some []
unfolding following
following-ascii b h = ground (arith, h)

first_byte-ascii : (b : ℕ) → b < 128 → first_byte b ≡ (b ∷ [], idle)
unfolding first_byte
first_byte-ascii b h = rw (following-ascii b h, first_byte) refl

next_byte-ascii : (b : ℕ) → b < 128 → next_byte idle b ≡ (b ∷ [], idle)
unfolding next_byte
next_byte-ascii b h = first_byte-ascii b h

decode-IsAscii : (s : Text) → IsAscii s → decode idle s ≡ s
unfolding decode
decode-IsAscii [] h = refl
decode-IsAscii (b ∷ s) h = rw (next_byte-ascii b h.0) (ap (λ t. b ∷ t) (decode-IsAscii s h.1))

-- A text of ASCII characters stays as it is.
pub from_utf8_lossy-IsAscii : (s : Text) → IsAscii s → from_utf8_lossy s ≡ s
unfolding from_utf8_lossy
from_utf8_lossy-IsAscii s h = decode-IsAscii s h

two_bytes : from_utf8_lossy (97 ∷ 0xc3 ∷ 0xa9 ∷ []) ≡ 97 ∷ 0xc3 ∷ 0xa9 ∷ []
unfolding from_utf8_lossy
two_bytes = refl

broken_byte : from_utf8_lossy (0xe2 ∷ 0x82 ∷ 97 ∷ 0xff ∷ []) ≡ replacement ++ 97 ∷ replacement
unfolding from_utf8_lossy
broken_byte = refl
