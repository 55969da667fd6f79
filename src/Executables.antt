-- ===== src/Executables.antt =====
-- The search for R executables in a directory: crates/ret-r-utils/src/executable.rs.
pub mod Found
use r_environment_tools.Base.{
  ◌≡◌, Bool, true, false, not, ◌&&◌, ◌||◌, List, [], ◌∷◌, ◌++◌, Option, none, some, Text, codes,
  Ord, any, filter, find, map, sort, sort_dedup, contains, same_text, same_option, text_eq,
  to_ascii_lowercase, unwrap_or, if◌then◌else◌,
}
use r_environment_tools.Paths.{PathLib, FileTree, entries, norm_case, normalize_paths}

pub data ExecutableResult (PathBuf : Type 0) : Type 0 where
  found : PathBuf → ExecutableResult PathBuf
  broken : PathBuf → ExecutableResult PathBuf
  not_found : ExecutableResult PathBuf

abbrev one_of : Text → List Text → Bool
one_of text names = any (same_text text) names

-- The architectures of Windows layouts, the given one's first.
arches : Text → List Text
arches architecture =
    if one_of architecture (codes "aarch64" ∷ codes "arm64" ∷ [])
    then codes "aarch64" ∷ codes "arm64" ∷ codes "x64" ∷ codes "i386" ∷ []
    else if one_of architecture (codes "x86" ∷ codes "i386" ∷ codes "i686" ∷ [])
    then codes "i386" ∷ codes "x64" ∷ codes "aarch64" ∷ codes "arm64" ∷ []
    else codes "x64" ∷ codes "aarch64" ∷ codes "arm64" ∷ codes "i386" ∷ []

module _ (L : PathLib) where
  open L use {PathBuf, order, join, file_name, parent}

  abbrev path_order : Ord PathBuf
  path_order = order

  arch_directories : PathBuf → List Text → List PathBuf
  arch_directories root [] = []
  arch_directories root (arch ∷ rest) =
      join (join root (codes "bin")) arch
      ∷ join root arch
      ∷ join (join root (codes "lib/R/bin")) arch
      ∷ join (join root (codes "lib64/R/bin")) arch
      ∷ join (join root (codes "Library/lib/R/bin")) arch
      ∷ join (join root (codes "Library/lib64/R/bin")) arch
      ∷ arch_directories root rest

  candidate_directories : PathBuf → Bool → Text → List PathBuf
  unfolding arches arch_directories
  candidate_directories root windows architecture =
      (if windows
        then join root (codes "Scripts")
          ∷ join (join root (codes "Library")) (codes "bin")
          ∷ join root (codes "Library/lib/R/bin")
          ∷ join root (codes "Library/lib64/R/bin")
          ∷ []
        else [])
      ++ (join root (codes "bin") ∷ [])
      ++ (if windows then arch_directories root (arches architecture) else [])
      ++ join (join (join root (codes "lib")) (codes "R")) (codes "bin")
        ∷ join (join (join root (codes "lib64")) (codes "R")) (codes "bin")
        ∷ join (join root (codes "Resources")) (codes "bin")
        ∷ root
        ∷ []

  with_names : List Text → List PathBuf → List PathBuf
  with_names names [] = []
  with_names names (directory ∷ rest) = map (join directory) names ++ with_names names rest

  unfoldable pub executable_candidates_for_platform : PathBuf → Bool → Text → List PathBuf
  unfolding candidate_directories with_names
  executable_candidates_for_platform root windows architecture =
      with_names
        (if windows
          then codes "R.exe" ∷ codes "Rscript.exe" ∷ []
          else codes "R" ∷ codes "Rscript" ∷ [])
        (candidate_directories root windows architecture)

  -- The target is Unix, where the architecture is not read.
  unfoldable pub executable_candidates : PathBuf → List PathBuf
  unfolding executable_candidates_for_platform
  executable_candidates root = executable_candidates_for_platform root false []

  -- The expression `^(r|rscript)$`. No other letter's lower case is one of these letters, so
  -- `to_lowercase` is that of ASCII here.
  unfoldable pub is_r_executable_name : PathBuf → Bool
  is_r_executable_name exe =
      let name = to_ascii_lowercase (unwrap_or (file_name exe) []) in
      same_text name (codes "r") || same_text name (codes "rscript")

  unfoldable pub parents : List PathBuf → List PathBuf
  parents [] = []
  parents (path ∷ paths) = elim (parent path) [ none ↦ parents paths | some p ↦ p ∷ parents paths ]

  unfoldable pub push_new : List PathBuf → List PathBuf → List PathBuf
  push_new executables [] = executables
  push_new executables (path ∷ extra) =
      push_new
        (if contains ⦃o = order⦄ path executables then executables else executables ++ path ∷ [])
        extra

  unfoldable pub normalize_executable_paths : List PathBuf → List PathBuf
  normalize_executable_paths paths = normalize_paths ⦃o = order⦄ paths

  module _ (tree : FileTree PathBuf) where
    -- A link that leads nowhere. `exists` follows links.
    unfoldable pub is_broken_symlink : PathBuf → Bool
    is_broken_symlink path = if tree.is_symlink path then not (tree.exists path) else false

    unfoldable pub extra_in : PathBuf → List PathBuf
    unfolding is_r_executable_name entries
    extra_in directory = elim (tree.read_dir directory) [
      | none ↦ []
      | some results ↦
          sort ⦃o = order⦄
            (filter (λ path. tree.is_file path && is_r_executable_name path) (entries results))
    ]

    unfoldable pub add_extra : List PathBuf → List PathBuf → List PathBuf
    unfolding extra_in push_new
    add_extra executables [] = executables
    add_extra executables (directory ∷ directories) =
        add_extra (push_new executables (extra_in directory)) directories

    unfoldable pub find_executables : PathBuf → List PathBuf
    unfolding is_r_executable_name executable_candidates parents add_extra
    find_executables root =
        if tree.is_file root
        then if is_r_executable_name root then root ∷ [] else []
        else let candidates = executable_candidates root in
          add_extra (filter tree.is_file candidates) (sort_dedup ⦃o = order⦄ (parents candidates))

    unfoldable pub find_executable : PathBuf → Option PathBuf
    unfolding find_executables
    find_executable install_path = elim (find_executables install_path) [
      | [] ↦ none
      | x ∷ _ ↦ some x
    ]

    unfoldable pub find_executable_or_broken : PathBuf → ExecutableResult PathBuf
    unfolding is_broken_symlink find_executable executable_candidates
    find_executable_or_broken install_path =
        if is_broken_symlink install_path
        then broken install_path
        else elim (find_executable install_path) [
          | some path ↦ found path
          | none ↦ elim (find is_broken_symlink (executable_candidates install_path)) [
            | some path ↦ broken path
            | none ↦ not_found
          ]
        ]

    unfoldable pub filter_symlink_paths : List PathBuf → List PathBuf
    filter_symlink_paths paths =
        sort_dedup ⦃o = order⦄ (filter tree.is_symlink (map norm_case paths))
