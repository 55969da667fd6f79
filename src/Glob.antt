-- ===== src/Glob.antt =====
-- crates/ret-fs/src/glob.rs: glob patterns with brace groups.
pub mod Expansion
use r_environment_tools.Base.{
  ℕ, zero, suc, ◌+◌, ◌≡◌, Bool, true, false, not, ◌&&◌, ◌||◌, List, [], ◌∷◌, ◌++◌, map, Option,
  none, some, Text, codes, leb, ◌==◌, length, any, contains_char, count, nat_eq, if◌then◌else◌,
}
use r_environment_tools.Strings.{split_once, extend_first}

-- `str::split`: one part more than there are separators.
unfoldable pub split : ℕ → Text → List Text
split c [] = [] ∷ []
split c (d ∷ text) = let rest = split c text in if d == c then [] ∷ rest else extend_first d rest

abbrev pub open_brace : ℕ
open_brace = 123

abbrev pub close_brace : ℕ
close_brace = 125

abbrev pub comma : ℕ
comma = 44

is_glob_metacharacter : ℕ → Bool
is_glob_metacharacter c = (c == 42) || (c == 63) || (c == 91) || (c == 93)

-- A brace group: the text before, the text in the braces, and the text after.
unfoldable pub first_group : Text → Option (Text × Text × Text)
unfolding split_once
first_group pattern = elim (split_once open_brace pattern) [
  | none ↦ none
  | some outer ↦ elim (split_once close_brace outer.1) [
    | none ↦ none
    | some inner ↦ some (outer.0, inner.0, inner.1)
  ]
]

-- The loop of `has_brace_pattern`; each turn drops at least two characters.
brace_loop : ℕ → Text → Bool
unfolding first_group
brace_loop zero remaining = false
brace_loop (suc fuel) remaining = elim (first_group remaining) [
  | none ↦ false
  | some (_, inner, after) ↦ contains_char comma inner || brace_loop fuel after
]

unfoldable pub has_brace_pattern : Text → Bool
unfolding brace_loop
has_brace_pattern path = brace_loop (suc (length path)) path

unfoldable pub is_glob_pattern : Text → Bool
unfolding is_glob_metacharacter has_brace_pattern
is_glob_pattern path = any is_glob_metacharacter path || has_brace_pattern path

abbrev pub max_brace_expansions : ℕ
max_brace_expansions = 1024

-- The loop over the alternatives, where `expand` is the call on an expanded text.
unfoldable pub expand_alternatives :
    ℕ
    → (Text → List Text → Option (List Text))
    → Text
    → Text
    → List Text
    → List Text
    → Option (List Text)
expand_alternatives limit expand prefix suffix [] results = some results
expand_alternatives limit expand prefix suffix (alt ∷ alts) results =
    if leb limit (length results)
    then some results
    else elim (expand (prefix ++ (alt ++ suffix)) results) [
      | none ↦ none
      | some grown ↦ expand_alternatives limit expand prefix suffix alts grown
    ]

-- `expand_braces_inner` on fuel, for any bound on the results; `none` when the fuel is out.
unfoldable pub expand_braces_inner : ℕ → ℕ → Text → List Text → Option (List Text)
unfolding first_group expand_alternatives
expand_braces_inner limit zero pattern results = none
expand_braces_inner limit (suc fuel) pattern results =
    if leb limit (length results) then some results else elim (first_group pattern) [
      | none ↦ some (results ++ pattern ∷ [])
      | some (prefix, alternatives, suffix) ↦
          expand_alternatives limit (expand_braces_inner limit fuel) prefix suffix
            (split comma alternatives) results
    ]

-- The fuel is one more than the number of closing braces, of which every turn removes one.
unfoldable pub expand_braces : Text → Option (List Text)
unfolding expand_braces_inner
expand_braces pattern =
    expand_braces_inner max_brace_expansions (suc (count close_brace pattern)) pattern []

-- `glob` gives the paths that match a pattern and can be read, none for an invalid pattern.
module _ {PathBuf : Type 0} (path_of : Text → PathBuf) (glob : Text → List PathBuf) where
  paths_of : Text → List PathBuf
  unfolding is_glob_metacharacter
  paths_of pat = if not (any is_glob_metacharacter pat) then path_of pat ∷ [] else glob pat

  unfoldable pub paths_of_all : List Text → List PathBuf
  unfolding paths_of
  paths_of_all [] = []
  paths_of_all (pat ∷ patterns) = paths_of pat ++ paths_of_all patterns

  unfoldable pub expand_glob_pattern : Text → Option (List PathBuf)
  unfolding is_glob_pattern expand_braces paths_of_all
  expand_glob_pattern pattern =
      if not (is_glob_pattern pattern)
      then some (path_of pattern ∷ [])
      else elim (expand_braces pattern) [
        | none ↦ none
        | some patterns ↦ some (paths_of_all patterns)
      ]

  -- One turn of the loop for each path; a failure stands only for spent fuel.
  unfoldable pub expand_glob_patterns : List Text → Option (List PathBuf)
  unfolding expand_glob_pattern
  expand_glob_patterns [] = some []
  expand_glob_patterns (pattern ∷ patterns) =
      let rest = expand_glob_patterns patterns in
      elim (expand_glob_pattern pattern) [
        | none ↦ none
        | some paths ↦ elim rest [ none ↦ none | some more ↦ some (paths ++ more) ]
      ]
