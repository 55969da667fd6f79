-- ===== src/Shell/Word.antt =====
-- Quoting against a reader of one word of the POSIX shell language.
use r_environment_tools.Base.{
  ℕ, ◌≡◌, refl, inl, inr, Bool, true, false, not, ◌&&◌, ◌||◌, [], ◌∷◌, ◌++◌, Option, none, some,
  Text, codes, ◌==◌, ==_iff, is_empty, contains_char, if◌then◌else◌, arith, Bool-cases,
}
use mathlib.Core.Option
use r_environment_tools.Shell.{is_safe, quote, escape_quotes, all_safe, quote_shell_argument}

-- Where the reader is: outside quotes, or in single or double ones.
pub data Mode : Type 0 where
  plain single double : Mode

-- The characters that end a word, that quote, or that the shell may expand or treat as an
-- operator outside quotes, by the standard's section on quoting: blanks and a line feed, and
-- the ones listed. Quotes are 39 and 34, a backslash is 92.
abbrev is_special : ℕ → Bool
is_special c =
    c == 9 || c == 10 || c == 32 || c == 92 || contains_char c (codes "|&;<>()$`*?[]#~!{}^")

-- The characters that the shell treats as such between double quotes.
abbrev is_expanded : ℕ → Bool
is_expanded c = (c == 36) || (c == 96) || (c == 92)

-- The rest of a word; `none` for an unclosed quote or a character that the shell would treat
-- specially.
read_rest : Mode → Text → Option Text
unfolding contains_char
read_rest plain [] = some []
read_rest single [] = none
read_rest double [] = none
read_rest plain (c ∷ s) =
    let in_single = read_rest single s in
    let in_double = read_rest double s in
    let rest = Option.map (λ r. c ∷ r) (read_rest plain s) in
    if c == 39
    then in_single
    else if c == 34
    then in_double
    else if is_special c
    then none
    else rest
read_rest single (c ∷ s) =
    let outside = read_rest plain s in
    let rest = Option.map (λ r. c ∷ r) (read_rest single s) in if c == 39 then outside else rest
read_rest double (c ∷ s) =
    let outside = read_rest plain s in
    let rest = Option.map (λ r. c ∷ r) (read_rest double s) in
    if c == 34 then outside else if is_expanded c then none else rest

-- The text that a word stands for. Nothing is no word; an empty one is two quotes.
unfoldable pub read_word : Text → Option Text
unfolding read_rest
read_word [] = none
read_word (c ∷ s) = read_rest plain (c ∷ s)

safe-special : (c : ℕ) → is_safe c ≡ true → is_special c ≡ false
unfolding is_safe contains_char
safe-special c h = ground arith

safe-quote : (c : ℕ) → is_safe c ≡ true → ((c == 39) || (c == 34)) ≡ false
unfolding is_safe contains_char
safe-quote c h = ground arith

read_rest-all_safe : (a : Text) → all_safe a ≡ true → read_rest plain a ≡ some a
unfolding read_rest
read_rest-all_safe [] h = refl
read_rest-all_safe (c ∷ a) h = ground (arith, read_rest-all_safe a, safe-quote c, safe-special c)

read_rest-escape_quotes : (a : Text) → read_rest single (escape_quotes a ++ quote ∷ []) ≡ some a
unfolding read_rest escape_quotes
read_rest-escape_quotes [] = refl
read_rest-escape_quotes (c ∷ a) = elim (Bool-cases (c == 39)) [
  | inl t ↦ rw (t, read_rest-escape_quotes a, (==_iff c 39).0 t) refl
  | inr t ↦ rw (t, read_rest-escape_quotes a, t) refl
]

read_word-safe : (a : Text) → (not (is_empty a) && all_safe a) ≡ true → read_word a ≡ some a
unfolding read_word
read_word-safe [] h = cc
read_word-safe (c ∷ a) h = read_rest-all_safe (c ∷ a) h

-- The shell reads a quoted argument as one word, which stands for the argument. The shell's
-- special characters are listed apart from those that the code leaves unquoted, and an empty text
-- is no word.
pub read_word-quote_shell_argument : (a : Text) → read_word (quote_shell_argument a) ≡ some a
unfolding read_word quote_shell_argument read_rest
read_word-quote_shell_argument a = elim (Bool-cases (not (is_empty a) && all_safe a)) [
  | inl t ↦ rw (t) (read_word-safe a t)
  | inr t ↦ rw (t) (read_rest-escape_quotes a)
]
