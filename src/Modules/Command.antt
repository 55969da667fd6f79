-- ===== src/Modules/Command.antt =====
-- Where `modulecmd` is found, and what the names in a listing are.
use r_environment_tools.Base.{
  ◌≡◌, refl, Bool, true, inl, inr, List, [], ◌∷◌, ◌++◌, Option, none, some, Text, codes, All, find,
  map, or_else, Bool-cases,
}
use r_environment_tools.Paths.{PathLib}
use r_environment_tools.Strings.{lines}
use r_environment_tools.Modules.{
  is_r_module_name, listed_name, add_r_module, parse_r_module_lines, parse_r_modules, from_lmod_cmd,
  from_modules_home, common_paths, from_common_paths, from_directories, from_path, find_modulecmd,
}

abbrev IsRModule : Text → Type 0
IsRModule name = is_r_module_name name ≡ true

add_r_module-IsRModule :
    (name : Option Text) (names : List Text)
    → All IsRModule names
    → All IsRModule (add_r_module name names)
unfolding add_r_module
add_r_module-IsRModule none names h = h
add_r_module-IsRModule (some name) names h = elim (Bool-cases (is_r_module_name name)) [
  | inl t ↦ rw (t) (t, h)
  | inr f ↦ rw (f) h
]

parse_r_module_lines-IsRModule :
    (listing : List Text) → All IsRModule (parse_r_module_lines listing)
unfolding parse_r_module_lines
parse_r_module_lines-IsRModule [] = tt
parse_r_module_lines-IsRModule (line ∷ rest) =
    add_r_module-IsRModule (listed_name line) _ (parse_r_module_lines-IsRModule rest)

-- Every name that a listing gives is a name of an R module.
parse_r_modules-IsRModule : (text : Text) → All IsRModule (parse_r_modules text)
unfolding parse_r_modules
parse_r_modules-IsRModule text = parse_r_module_lines-IsRModule (lines text)

module _ (L : PathLib) (get_env_var env_var : Text → Option Text)
    (path_from : Text → PathLib.PathBuf L) (split_paths : Text → List (PathLib.PathBuf L))
    (exists : PathLib.PathBuf L → Bool) where
  open L use {PathBuf, join}

  -- The places of the search, in its order.
  abbrev at_lmod_cmd : Option Text → List PathBuf
  at_lmod_cmd none = []
  at_lmod_cmd (some lmod_cmd) = path_from lmod_cmd ∷ []

  abbrev at_modules_home : Option Text → List PathBuf
  at_modules_home none = []
  at_modules_home (some home) =
      join (join (path_from home) (codes "bin")) (codes "modulecmd")
      ∷ join (join (path_from home) (codes "libexec")) (codes "lmod")
      ∷ []

  abbrev in_directories : List PathBuf → List PathBuf
  in_directories [] = []
  in_directories (dir ∷ rest) =
      join dir (codes "lmod") ∷ join dir (codes "modulecmd") ∷ in_directories rest

  abbrev on_path : Option Text → List PathBuf
  on_path none = []
  on_path (some path_var) = in_directories (split_paths path_var)

  abbrev pub places : List PathBuf
  places =
      at_lmod_cmd (or_else (get_env_var (codes "LMOD_CMD")) (env_var (codes "LMOD_CMD")))
      ++ (at_modules_home
            (or_else (get_env_var (codes "MODULESHOME")) (env_var (codes "MODULESHOME")))
          ++ (map path_from common_paths ++ on_path (env_var (codes "PATH"))))

  from_lmod_cmd_lem :
      (o : Option Text) (rest : List PathBuf)
      → from_lmod_cmd L get_env_var env_var path_from split_paths exists o (find exists rest)
        ≡ find exists (at_lmod_cmd o ++ rest)
  unfolding from_lmod_cmd
  from_lmod_cmd_lem none rest = refl
  from_lmod_cmd_lem (some lmod_cmd) rest = refl

  from_modules_home_lem :
      (o : Option Text) (rest : List PathBuf)
      → from_modules_home L get_env_var env_var path_from split_paths exists o (find exists rest)
        ≡ find exists (at_modules_home o ++ rest)
  unfolding from_modules_home
  from_modules_home_lem none rest = refl
  from_modules_home_lem (some home) rest = refl

  from_common_paths_lem :
      (candidates : List Text) (rest : List PathBuf)
      → from_common_paths L get_env_var env_var path_from split_paths exists candidates
          (find exists rest)
        ≡ find exists (map path_from candidates ++ rest)
  unfolding from_common_paths
  from_common_paths_lem [] rest = refl
  from_common_paths_lem (candidate ∷ candidates) rest = rw (from_common_paths_lem candidates rest)

  from_directories_lem :
      (dirs : List PathBuf)
      → from_directories L get_env_var env_var path_from split_paths exists dirs
        ≡ find exists (in_directories dirs)
  unfolding from_directories
  from_directories_lem [] = refl
  from_directories_lem (dir ∷ dirs) = rw (from_directories_lem dirs)

  from_path_lem :
      (o : Option Text)
      → from_path L get_env_var env_var path_from split_paths exists o ≡ find exists (on_path o)
  unfolding from_path
  from_path_lem none = refl
  from_path_lem (some path_var) = from_directories_lem (split_paths path_var)

  -- The command is the first existing path of a list: the one that LMOD_CMD names, the two under
  -- MODULESHOME, four fixed ones, and then `lmod` and `modulecmd` in each directory of PATH; the
  -- given environment's LMOD_CMD and MODULESHOME go before the process's.
  pub find_modulecmd_lem :
      find_modulecmd L get_env_var env_var path_from split_paths exists ≡ find exists places
  unfolding find_modulecmd
  find_modulecmd_lem =
      rw
        (
          from_path_lem (env_var (codes "PATH")),
          from_common_paths_lem common_paths (on_path (env_var (codes "PATH"))),
          from_modules_home_lem
              (or_else (get_env_var (codes "MODULESHOME")) (env_var (codes "MODULESHOME"))) _,
        )
        (from_lmod_cmd_lem (or_else (get_env_var (codes "LMOD_CMD")) (env_var (codes "LMOD_CMD")))
          _)
