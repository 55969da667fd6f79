-- ===== src/Shell.antt =====
-- crates/ret-core/src/shell.rs: quoting one argument of a POSIX shell command.
pub mod Word
use r_environment_tools.Base.{
  ℕ, Bool, true, false, not, ◌&&◌, ◌||◌, List, [], ◌∷◌, ◌++◌, Text, codes, leb, ◌==◌, any, is_empty,
  contains_char, if◌then◌else◌,
}

abbrev pub is_alphanumeric : ℕ → Bool
is_alphanumeric c = (leb 48 c && leb c 57) || (leb 65 c && leb c 90) || (leb 97 c && leb c 122)

-- A character whose bytes all are letters, digits or of the source's list, which is ASCII.
unfoldable pub is_safe : ℕ → Bool
is_safe c = is_alphanumeric c || contains_char c (codes "_@%+=:,./-")

abbrev pub quote : ℕ
quote = 39

-- `argument.replace('\'', "'\"'\"'")`
unfoldable pub escape_quotes : Text → Text
escape_quotes [] = []
escape_quotes (c ∷ s) =
    let rest = escape_quotes s in
    if c == quote then quote ∷ 34 ∷ quote ∷ 34 ∷ quote ∷ rest else c ∷ rest

abbrev pub all_safe : Text → Bool
all_safe [] = true
all_safe (c ∷ s) = is_safe c && all_safe s

unfoldable pub quote_shell_argument : Text → Text
unfolding escape_quotes
quote_shell_argument argument =
    if not (is_empty argument) && all_safe argument
    then argument
    else quote ∷ (escape_quotes argument ++ quote ∷ [])
