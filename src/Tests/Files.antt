-- ===== src/Tests/Files.antt =====
-- Glob patterns, r-versions files and shell arguments.
use r_environment_tools.Strings.{trim, split_once}
use r_environment_tools.Base.{
  starts_with, same_text, to_ascii_lowercase, ◌≡◌, refl, none, List, [], ◌∷◌, ◌++◌, some, Text,
  codes, All, take, suc, count, nat_eq,
}
use r_environment_tools.Glob.{expand_braces, max_brace_expansions, close_brace}
use r_environment_tools.Glob.Expansion.{expand_braces-IsFull, expansions}
use r_environment_tools.RVersions.{default_entry, parse_lines, parse_rversions_file}
use r_environment_tools.RVersions.Parse.{
  IsEntry, parse_rversions_file-IsEntry, parse_lines-separated, fresh,
}
use r_environment_tools.Shell.{quote_shell_argument}
use r_environment_tools.Shell.Word.{read_word, read_word-quote_shell_argument}

abbrev own_path : Text → Text
own_path t = t

abbrev r_or_script : Text
r_or_script = codes "{b,c}/R{,script}"

abbrev file : Text
file = codes "Path: /opt/R" ++ (10 ∷ codes "Label: a")

file_run :
    parse_rversions_file own_path file
    ≡ record default_entry { path = some (codes "/opt/R"); label = some (codes "a") } ∷ []
unfolding parse_rversions_file trim starts_with split_once same_text to_ascii_lowercase
file_run = refl

parse_rversions_file-IsEntry_example : All IsEntry (parse_rversions_file own_path file)
parse_rversions_file-IsEntry_example = parse_rversions_file-IsEntry own_path file

abbrev first_lines : List Text
first_lines = codes "Path: /opt/R" ∷ codes "Label: a" ∷ []

abbrev second_lines : List Text
second_lines = codes "Module: r/4" ∷ [] ∷ []

second_run :
    (parse_lines own_path second_lines (fresh own_path)).entries
    ≡ record default_entry { named_module = some (codes "r/4") } ∷ []
unfolding parse_lines trim starts_with split_once same_text to_ascii_lowercase
second_run = refl

first_run :
    (parse_lines own_path (first_lines ++ [] ∷ []) (fresh own_path)).entries
    ≡ record default_entry { path = some (codes "/opt/R"); label = some (codes "a") } ∷ []
unfolding parse_lines trim starts_with split_once same_text to_ascii_lowercase
first_run = refl

parse_lines-separated_example :
    (parse_lines own_path (first_lines ++ [] ∷ second_lines) (fresh own_path)).entries
    ≡ (parse_lines own_path (first_lines ++ [] ∷ []) (fresh own_path)).entries
      ++ (parse_lines own_path second_lines (fresh own_path)).entries
parse_lines-separated_example = parse_lines-separated own_path first_lines second_lines

read_word-special : read_word (codes "a;b") ≡ none
unfolding read_word
read_word-special = refl

read_word-quote_shell_argument_example :
    read_word (quote_shell_argument (codes "it's")) ≡ some (codes "it's")
read_word-quote_shell_argument_example = read_word-quote_shell_argument (codes "it's")

expand_braces-IsFull_example :
    expand_braces r_or_script
    ≡ some
        (take max_brace_expansions (expansions (suc (count close_brace r_or_script)) r_or_script))
expand_braces-IsFull_example = expand_braces-IsFull r_or_script
