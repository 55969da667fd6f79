-- ===== src/Tests/Listings.antt =====
-- Listings of modules and the search for `modulecmd`.
use r_environment_tools.Base.{
  ◌≡◌, refl, Bool, List, [], ◌∷◌, Option, none, some, Text, codes, find, same_text, if◌then◌else◌,
}
use r_environment_tools.Modules.{parse_r_modules, find_modulecmd}
use r_environment_tools.Modules.Command.{places, find_modulecmd_lem}
use r_environment_tools.Tests.Discovery.{texts}

abbrev listing : Text
listing = codes "R/4.4.1 (default)\nlang/R/4.3.3 (D)\nr-4.1(D)\nr-base/4.4\nrstudio/2024"

parse_r_modules_run :
    parse_r_modules listing ≡ codes "R/4.4.1" ∷ codes "lang/R/4.3.3" ∷ codes "r-4.1" ∷ []
unfolding parse_r_modules
parse_r_modules_run = refl

-- Only the process's environment has MODULESHOME and PATH.
abbrev given : Text → Option Text
given name = none

abbrev process_env : Text → Option Text
process_env name =
    if same_text name (codes "MODULESHOME")
    then some (codes "/m")
    else if same_text name (codes "PATH")
    then some (codes "/p")
    else none

abbrev split_one : Text → List Text
split_one path_var = path_var ∷ []

abbrev is_there : Text → Bool
is_there path = same_text path (codes "/p/modulecmd")

find_modulecmd_run :
    find_modulecmd texts given process_env (λ t. t) split_one is_there ≡ some (codes "/p/modulecmd")
unfolding find_modulecmd same_text
find_modulecmd_run = refl

find_modulecmd_lem_example :
    find_modulecmd texts given process_env (λ t. t) split_one is_there
    ≡ find is_there (places texts given process_env (λ t. t) split_one is_there)
find_modulecmd_lem_example = find_modulecmd_lem texts given process_env (λ t. t) split_one is_there
