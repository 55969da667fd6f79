-- ===== src/Strings/Trim.antt =====
-- What `trim` keeps and what it drops.
use r_environment_tools.Base.{
  ℕ, ◌≤◌, ◌≡◌, refl, ◌∙◌, true, false, [], ◌∷◌, ◌++◌, Text, All, arith, length, is_empty,
}
use r_environment_tools.Strings.{is_whitespace, trim_start, trim_end, trim}

abbrev pub IsSpace : ℕ → Type 0
IsSpace c = is_whitespace c ≡ true

abbrev pub IsInk : ℕ → Type 0
IsInk c = is_whitespace c ≡ false

trim_end-spaces : (w : Text) → All IsSpace w → trim_end w ≡ []
unfolding trim_end
trim_end-spaces [] h = refl
trim_end-spaces (c ∷ w) (p, h) = rw (p, trim_end-spaces w h)

trim_end-append : (s w : Text) → All IsSpace w → trim_end (s ++ w) ≡ trim_end s
unfolding trim_end
trim_end-append [] w h = trim_end-spaces w h
trim_end-append (c ∷ s) w h = rw (trim_end-append s w h)

trim_end-ink : (s : Text) → All IsInk s → trim_end s ≡ s
unfolding trim_end
trim_end-ink [] h = refl
trim_end-ink (c ∷ s) (p, h) = rw (p, trim_end-ink s h)

is_empty-append : (p s : Text) → 1 ≤ length s → is_empty (p ++ s) ≡ false
is_empty-append [] [] h = absurd (omega arith)
is_empty-append [] (c ∷ s) h = refl
is_empty-append (c ∷ p) s h = refl

trim_end-last : (p s : Text) → All IsInk s → 1 ≤ length s → trim_end (p ++ s) ≡ p ++ s
unfolding trim_end
trim_end-last [] s h k = trim_end-ink s h
trim_end-last (c ∷ p) s h k = rw (trim_end-last p s h k, is_empty-append p s k) (ground arith)

-- A line that begins with ink `c`, ends with ink `s` and is followed by spaces `w`.
pub trim-line :
    (c : ℕ) (p s w : Text)
    → IsInk c
    → All IsInk s
    → 1 ≤ length s
    → All IsSpace w
    → trim (c ∷ (p ++ s) ++ w) ≡ c ∷ p ++ s
unfolding trim trim_start
trim-line c p s w i h k z = rw i (trim_end-append (c ∷ p ++ s) w z ∙ trim_end-last (c ∷ p) s h k)

-- A word with a space before it.
pub trim-word : (c d : ℕ) (s : Text) → IsSpace c → All IsInk (d ∷ s) → trim (c ∷ d ∷ s) ≡ d ∷ s
unfolding trim trim_start
trim-word c d s z (i, h) = rw z (rw i (trim_end-ink (d ∷ s) (i, h)))

-- Ink alone is kept.
pub trim-ink : (s : Text) → All IsInk s → trim s ≡ s
unfolding trim trim_start
trim-ink [] h = refl
trim-ink (c ∷ s) (i, h) = rw i (trim_end-ink (c ∷ s) (i, h))
