-- ===== src/Strings/Decimal.antt =====
-- Unsigned numbers in decimal: `{}` of a `usize`, and `parse::<usize>`, on a 64-bit target.
use r_environment_tools.Base.{
  ℕ, zero, suc, ◌+◌, ◌-◌, ◌*◌, ◌/◌, ◌%◌, ◌^◌, ◌≤◌, ◌<◌, ◌≡◌, refl, ◌&&◌, [], ◌∷◌, Option, none,
  some, Text, All, ltb, leb, ◌==◌, if◌then◌else◌, arith, length, ◌∙◌, Bool-cases, inl, inr, ==_iff,
  ap,
}

abbrev pub usize_mod : ℕ
usize_mod = 2 ^ 64

abbrev pub IsDigit : ℕ → Type 0
IsDigit c = (48 ≤ c) × (c < 58)

-- 20 digits are enough for a `usize`.
unfoldable pub print_digits : ℕ → ℕ → Text → Text
print_digits zero n acc = acc
print_digits (suc fuel) n acc =
    let rest = print_digits fuel (n / 10) ((48 + n % 10) ∷ acc) in
    if n / 10 == 0 then (48 + n % 10) ∷ acc else rest

unfoldable pub print_usize : ℕ → Text
unfolding print_digits
print_usize n = print_digits 20 n []

unfoldable pub parse_digits : ℕ → Text → Option ℕ
parse_digits acc [] = some acc
parse_digits acc (c ∷ s) =
    let rest = parse_digits (acc * 10 + (c - 48)) s in
    if leb 48 c && leb c 57 && ltb (acc * 10 + (c - 48)) usize_mod then rest else none

-- A leading `+` is accepted before a digit; no digit at all is an error.
unfoldable pub parse_usize : Text → Option ℕ
unfolding parse_digits
parse_usize [] = none
parse_usize (c ∷ []) = parse_digits 0 (c ∷ [])
parse_usize (c ∷ d ∷ s) = if c == b'+' then parse_digits 0 (d ∷ s) else parse_digits 0 (c ∷ d ∷ s)

abbrev ten_pow : ℕ → ℕ
ten_pow zero = 1
ten_pow (suc f) = 10 * ten_pow f

parse_digits-cons :
    (a d : ℕ) (s : Text)
    → d < 10
    → a * 10 + d < usize_mod
    → parse_digits a ((48 + d) ∷ s) ≡ parse_digits (a * 10 + d) s
unfolding parse_digits
parse_digits-cons a d s h k = ground arith

print_digits-parse :
    (f n : ℕ) (acc : Text)
    → n < ten_pow (suc f)
    → n < usize_mod
    → parse_digits 0 (print_digits (suc f) n acc) ≡ parse_digits n acc
unfolding print_digits
print_digits-parse zero n acc h k = ground (arith, parse_digits-cons 0 (n % 10) acc)
print_digits-parse (suc f) n acc h k = elim (Bool-cases (n / 10 == 0)) [
  | inl e ↦
      let small = (==_iff (n / 10) 0).0 e in
      rw e (
        parse_digits-cons 0 (n % 10) acc (omega arith) (omega arith)
        ∙ ap (λ m. parse_digits m acc) (omega arith))
  | inr e ↦ rw e (
      print_digits-parse f (n / 10) ((48 + n % 10) ∷ acc) (omega arith) (omega arith)
      ∙ parse_digits-cons (n / 10) (n % 10) acc (omega arith) (omega arith)
      ∙ ap (λ m. parse_digits m acc) (omega arith))
]

print_digits-All :
    (P : ℕ → Type 0) (f n : ℕ) (acc : Text)
    → ((c : ℕ) → IsDigit c → P c)
    → All P acc
    → All P (print_digits f n acc)
unfolding print_digits
print_digits-All P zero n acc d h = h
print_digits-All P (suc f) n acc d h =
    ground (arith, d (48 + n % 10), print_digits-All P f (n / 10) ((48 + n % 10) ∷ acc) d)

length-print_digits : (f n : ℕ) (acc : Text) → length (print_digits f n acc) ≤ f + length acc
unfolding print_digits
length-print_digits zero n acc = omega arith
length-print_digits (suc f) n acc =
    ground (arith, length-print_digits f (n / 10) ((48 + n % 10) ∷ acc))

print_digits-ne-nil : (f n c : ℕ) (acc : Text) → 1 ≤ length (print_digits f n (c ∷ acc))
unfolding print_digits
print_digits-ne-nil zero n c acc = omega arith
print_digits-ne-nil (suc f) n c acc =
    ground (arith, print_digits-ne-nil f (n / 10) (48 + n % 10) (c ∷ acc))

-- Only digits are printed, and from 1 to 20 of them.
pub print_usize-All : (P : ℕ → Type 0) (n : ℕ) → ((c : ℕ) → IsDigit c → P c) → All P (print_usize n)
unfolding print_usize
print_usize-All P n d = print_digits-All P 20 n [] d tt

pub length-print_usize : (n : ℕ) → (1 ≤ length (print_usize n)) × (length (print_usize n) ≤ 20)
unfolding print_usize
length-print_usize n = (
  ground (arith, print_digits-ne-nil 19 (n / 10) (48 + n % 10) []),
  omega (arith, length-print_digits 20 n []),
)

parse_usize-digits : (s : Text) → All IsDigit s → 1 ≤ length s → parse_usize s ≡ parse_digits 0 s
unfolding parse_usize
parse_usize-digits [] h k = absurd (omega arith)
parse_usize-digits (c ∷ []) h k = refl
parse_usize-digits (c ∷ d ∷ s) (p, h) k = ground arith

parse_digits-print : (n : ℕ) → n < usize_mod → parse_digits 0 (print_usize n) ≡ some n
unfolding print_usize parse_digits
parse_digits-print n h = print_digits-parse 19 n [] (omega arith) h

-- Every `usize` is read back from what is printed for it.
pub parse-print_usize : (n : ℕ) → n < usize_mod → parse_usize (print_usize n) ≡ some n
parse-print_usize n h =
    parse_usize-digits (print_usize n) (print_usize-All IsDigit n (λ c d. d))
      (length-print_usize n).0
    ∙ parse_digits-print n h
