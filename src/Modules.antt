-- ===== src/Modules.antt =====
-- The names that the locator of environment modules reads and where it looks for `modulecmd`:
-- crates/ret-module/src/lib.rs. Running `modulecmd` is left out.
pub mod Command
use r_environment_tools.Base.{
  ℕ, zero, suc, Bool, true, false, ◌&&◌, ◌||◌, List, [], ◌∷◌, ◌++◌, Option, none, some, Text, codes,
  leb, ◌==◌, drop, length, find, map, same_text, starts_with, contains_text, to_ascii_lowercase,
  is_empty, or_else, if◌then◌else◌,
}
use r_environment_tools.Paths.{PathLib}
use r_environment_tools.Strings.{is_whitespace, trim_start, extend_first, lines}

-- `str::split` at a character.
unfoldable pub split : ℕ → Text → List Text
split d [] = [] ∷ []
split d (c ∷ s) = let rest = split d s in if c == d then [] ∷ rest else extend_first c rest

-- `split_whitespace().next()`
until_space : Text → Text
unfolding is_whitespace
until_space [] = []
until_space (c ∷ s) = if is_whitespace c then [] else c ∷ until_space s

unfoldable pub first_word : Text → Option Text
unfolding until_space trim_start
first_word s = let word = until_space (trim_start s) in if is_empty word then none else some word

-- `trim_end_matches` with a text: the text stops where only copies of the other text follow.
repeats : ℕ → Text → Text → Bool
unfolding starts_with
repeats zero p s = is_empty s
repeats (suc n) p s = is_empty s || (starts_with p s && repeats n p (drop (length p) s))

unfoldable pub trim_end_matches : Text → Text → Text
unfolding repeats
trim_end_matches p [] = []
trim_end_matches p (c ∷ s) =
    if repeats (length (c ∷ s)) p (c ∷ s) then [] else c ∷ trim_end_matches p s

-- `chars().next().is_some_and(is_ascii_digit)`
starts_with_digit : Text → Bool
starts_with_digit [] = false
starts_with_digit (c ∷ s) = leb b'0' c && leb c b'9'

-- A component `R` with a version after it.
has_r_release : List Text → Bool
unfolding same_text to_ascii_lowercase starts_with_digit
has_r_release [] = false
has_r_release (name ∷ []) = false
has_r_release (name ∷ version ∷ rest) =
    (same_text (to_ascii_lowercase name) (codes "r") && starts_with_digit version)
    || has_r_release (version ∷ rest)

-- A last component such as `r-4.1`.
ends_in_release : List Text → Bool
unfolding starts_with to_ascii_lowercase starts_with_digit
ends_in_release [] = false
ends_in_release (name ∷ []) =
    let lower = to_ascii_lowercase name in
    starts_with (codes "r-") lower && starts_with_digit (drop 2 lower)
ends_in_release (name ∷ next ∷ rest) = ends_in_release (next ∷ rest)

unfoldable pub is_r_module_name : Text → Bool
unfolding split has_r_release ends_in_release
is_r_module_name name =
    let components = split b'/' name in has_r_release components || ends_in_release components

-- The name of a listing's line without its mark.
unfoldable pub listed_name : Text → Option Text
unfolding first_word trim_end_matches
listed_name line = go (first_word line)
  where
    go : Option Text → Option Text
    go none = none
    go (some word) =
        some (trim_end_matches (codes "(D)") (trim_end_matches (codes "(default)") word))

unfoldable pub add_r_module : Option Text → List Text → List Text
unfolding is_r_module_name
add_r_module none names = names
add_r_module (some name) names = if is_r_module_name name then name ∷ names else names

unfoldable pub parse_r_module_lines : List Text → List Text
unfolding listed_name add_r_module
parse_r_module_lines [] = []
parse_r_module_lines (line ∷ rest) = add_r_module (listed_name line) (parse_r_module_lines rest)

unfoldable pub parse_r_modules : Text → List Text
unfolding parse_r_module_lines lines
parse_r_modules text = parse_r_module_lines (lines text)

abbrev pub common_paths : List Text
common_paths =
    codes "/usr/share/lmod/lmod/libexec/lmod"
    ∷ codes "/usr/share/Modules/libexec/modulecmd.tcl"
    ∷ codes "/usr/local/Modules/libexec/modulecmd.tcl"
    ∷ codes "/opt/apps/lmod/lmod/libexec/lmod"
    ∷ []

module _ (L : PathLib) where
  open L use {PathBuf, join, to_text}

  unfoldable pub looks_like_module_path : PathBuf → Bool
  unfolding contains_text
  looks_like_module_path path =
      let s = to_text path in
      contains_text (codes "/modules/") s
      || contains_text (codes "/modulefiles/") s
      || contains_text (codes "/easybuild/") s
      || contains_text (codes "/lmod/") s
      || contains_text (codes "/spack/opt/") s
      || contains_text (codes "/apps/") s
      || contains_text (codes "/software/") s

  -- The variables of the program's environment and of the process, `PathBuf::from`,
  -- `env::split_paths` and `Path::exists` are arguments.
  module _ (get_env_var env_var : Text → Option Text) (path_from : Text → PathBuf)
      (split_paths : Text → List PathBuf) (exists : PathBuf → Bool) where
    -- The early returns of the code, each step with what follows it.
    unfoldable pub from_lmod_cmd : Option Text → Option PathBuf → Option PathBuf
    from_lmod_cmd none later = later
    from_lmod_cmd (some lmod_cmd) later =
        let path = path_from lmod_cmd in if exists path then some path else later

    unfoldable pub from_modules_home : Option Text → Option PathBuf → Option PathBuf
    from_modules_home none later = later
    from_modules_home (some modules_home) later =
        let modulecmd = join (join (path_from modules_home) (codes "bin")) (codes "modulecmd") in
        let lmod = join (join (path_from modules_home) (codes "libexec")) (codes "lmod") in
        if exists modulecmd then some modulecmd else if exists lmod then some lmod else later

    unfoldable pub from_common_paths : List Text → Option PathBuf → Option PathBuf
    from_common_paths [] later = later
    from_common_paths (candidate ∷ rest) later =
        let path = path_from candidate in
        let next = from_common_paths rest later in if exists path then some path else next

    unfoldable pub from_directories : List PathBuf → Option PathBuf
    from_directories [] = none
    from_directories (dir ∷ rest) =
        let next = from_directories rest in
        if exists (join dir (codes "lmod"))
        then some (join dir (codes "lmod"))
        else if exists (join dir (codes "modulecmd"))
        then some (join dir (codes "modulecmd"))
        else next

    unfoldable pub from_path : Option Text → Option PathBuf
    unfolding from_directories
    from_path none = none
    from_path (some path_var) = from_directories (split_paths path_var)

    unfoldable pub find_modulecmd : Option PathBuf
    unfolding from_lmod_cmd from_modules_home from_common_paths from_path
    find_modulecmd =
        from_lmod_cmd (or_else (get_env_var (codes "LMOD_CMD")) (env_var (codes "LMOD_CMD"))) (
          from_modules_home
            (or_else (get_env_var (codes "MODULESHOME")) (env_var (codes "MODULESHOME")))
            (from_common_paths common_paths (from_path (env_var (codes "PATH")))))
