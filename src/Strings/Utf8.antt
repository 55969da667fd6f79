-- ===== src/Strings/Utf8.antt =====
-- `str::from_utf8`: the bytes are decoded if they are well-formed UTF-8.
use r_environment_tools.Base.{
  ℕ, zero, suc, ◌+◌, ◌-◌, ◌*◌, ◌<◌, ◌≡◌, refl, ◌&&◌, List, [], ◌∷◌, Option, none, some, Text, All,
  ltb, leb, ◌==◌, if◌then◌else◌, lt→ltb,
}

-- The continuation bytes that a character still needs, the range of the next, and its bits so far.
pub data Decoder : Type 0 where
  ready : Decoder
  needs : ℕ → ℕ → ℕ → ℕ → Decoder

pub data Decoded : Type 0 where
  emit : ℕ → Decoded
  more : Decoder → Decoded
  invalid : Decoded

first_byte : ℕ → Decoded
first_byte b =
    if ltb b 0x80
    then emit b
    else if ltb b 0xc2
    then invalid
    else if ltb b 0xe0
    then more (needs 0 0x80 0xbf (b - 0xc0))
    else if b == 0xe0
    then more (needs 1 0xa0 0xbf 0)
    else if b == 0xed
    then more (needs 1 0x80 0x9f 13)
    else if ltb b 0xf0
    then more (needs 1 0x80 0xbf (b - 0xe0))
    else if b == 0xf0
    then more (needs 2 0x90 0xbf 0)
    else if ltb b 0xf4
    then more (needs 2 0x80 0xbf (b - 0xf0))
    else if b == 0xf4
    then more (needs 2 0x80 0x8f 4)
    else invalid

next_byte : Decoder → ℕ → Decoded
unfolding first_byte
next_byte ready b = first_byte b
next_byte (needs zero lo hi acc) b =
    if leb lo b && leb b hi then emit (acc * 64 + (b - 0x80)) else invalid
next_byte (needs (suc n) lo hi acc) b =
    if leb lo b && leb b hi then more (needs n 0x80 0xbf (acc * 64 + (b - 0x80))) else invalid

abbrev with_char : ℕ → Option Text → Option Text
with_char c none = none
with_char c (some s) = some (c ∷ s)

-- The rest of the bytes, read by `next` once this byte has been.
abbrev resume : (Decoder → Option Text) → Decoded → Option Text
resume next (emit c) = with_char c (next ready)
resume next (more d) = next d
resume next invalid = none

decode : List ℕ → Decoder → Option Text
decode [] ready = some []
decode [] (needs _ _ _ _) = none
decode (b ∷ bs) d = resume (decode bs) (next_byte d b)

unfoldable pub from_utf8 : List ℕ → Option Text
unfolding decode next_byte
from_utf8 bytes = decode bytes ready

abbrev pub IsAscii : List ℕ → Type 0
IsAscii s = All (λ b. b < 128) s

-- ASCII bytes are their own text.
pub from_utf8-ascii : (s : List ℕ) → IsAscii s → from_utf8 s ≡ some s
unfolding from_utf8
from_utf8-ascii [] h = refl
from_utf8-ascii (b ∷ s) (p, h) = rw (lt→ltb b 128 p) (rw (from_utf8-ascii s h))
