-- ===== src/Strings.antt =====
-- What the program uses of Rust's `str`: trimming, splitting, lines, UTF-8 and decimal numbers.
-- Text is a list of code points, and bytes are a list of numbers below 256.
pub mod Trim
pub mod Utf8
pub mod Decimal
pub use r_environment_tools.Base.{
  ℕ, ◌+◌, ◌-◌, ◌*◌, ◌^◌, Bool, true, false, ◌&&◌, ◌||◌, List, [], ◌∷◌, ◌++◌, Option, none, some,
  Text, ltb, leb, ◌==◌, if◌then◌else◌, is_empty,
}

-- `char::is_whitespace`: the code points with the property White_Space.
unfoldable pub is_whitespace : ℕ → Bool
is_whitespace c =
    (leb 9 c && leb c 13)
    || c == 32
    || c == 0x85
    || c == 0xa0
    || c == 0x1680
    || (leb 0x2000 c && leb c 0x200a)
    || c == 0x2028
    || c == 0x2029
    || c == 0x202f
    || c == 0x205f
    || c == 0x3000

unfoldable pub trim_start : Text → Text
unfolding is_whitespace
trim_start [] = []
trim_start (c ∷ s) = if is_whitespace c then trim_start s else c ∷ s

unfoldable pub trim_end : Text → Text
unfolding is_whitespace
trim_end [] = []
trim_end (c ∷ s) = let t = trim_end s in if is_whitespace c && is_empty t then [] else c ∷ t

unfoldable pub trim : Text → Text
unfolding trim_start trim_end
trim s = trim_end (trim_start s)

-- `split_once` at a character.
abbrev pub with_head : ℕ → Option (Text × Text) → Option (Text × Text)
with_head c none = none
with_head c (some (a, b)) = some (c ∷ a, b)

unfoldable pub split_once : ℕ → Text → Option (Text × Text)
split_once d [] = none
split_once d (c ∷ s) = if c == d then some ([], s) else with_head c (split_once d s)

-- A character in front of the first of the parts of the text after it.
abbrev pub extend_first : ℕ → List Text → List Text
extend_first d [] = (d ∷ []) ∷ []
extend_first d (part ∷ parts) = (d ∷ part) ∷ parts

-- `str::lines`: a line ends at a line feed, with a carriage return before it if there is one.
abbrev is_next_feed : Text → Bool
is_next_feed [] = false
is_next_feed (c ∷ _) = c == 10

unfoldable pub lines : Text → List Text
lines [] = []
lines (c ∷ s) =
    let rest = lines s in
    if c == 10 then [] ∷ rest else if (c == 13) && is_next_feed s then rest else extend_first c rest
