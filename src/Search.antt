-- ===== src/Search.antt =====
-- The recursive search of crates/ret/src/find.rs, with the tests on directories of
-- crates/ret-conda/src/utils.rs, crates/ret-pixi/src/lib.rs and
-- crates/ret-r-utils/src/executable.rs.
pub mod Bounded
pub mod Complete
use r_environment_tools.Base.{
  ℕ, zero, suc, ◌+◌, ◌*◌, ◌≡◌, Bool, true, false, not, ◌&&◌, ◌||◌, List, [], ◌∷◌, ◌++◌, Option,
  none, some, Text, codes, Ord, any, filter, sort, sort_dedup, contains, take, drop, length,
  same_option, text_eq, if◌then◌else◌,
}
use r_environment_tools.Paths.{PathLib, FileTree, entries}

abbrev pub folders_to_ignore : List Text
folders_to_ignore =
    codes "node_modules"
    ∷ codes ".cargo"
    ∷ codes ".devcontainer"
    ∷ codes ".github"
    ∷ codes ".git"
    ∷ codes ".cache"
    ∷ codes ".vscode"
    ∷ codes ".Rproj.user"
    ∷ codes "renv"
    ∷ codes "library"
    ∷ []

module _ (L : PathLib) where
  open L use {PathBuf, order, join, file_name}

  abbrev path_order : Ord PathBuf
  path_order = order

  -- `ends_with` of one name is a test of the file name.
  unfoldable pub should_search_for_installations_in_path : PathBuf → Bool
  should_search_for_installations_in_path path =
      not
        (any (λ folder. same_option ⦃e = text_eq⦄ (file_name path) (some folder)) folders_to_ignore)

  module _ (tree : FileTree PathBuf) where
    unfoldable pub is_conda_env : PathBuf → Bool
    is_conda_env path =
        tree.is_dir (join path (codes "conda-meta"))
        && not (tree.is_file (join (join path (codes "conda-meta")) (codes "pixi")))

    unfoldable pub is_pixi_env : PathBuf → Bool
    is_pixi_env path = tree.is_file (join (join path (codes "conda-meta")) (codes "pixi"))

    -- The directories that a searched directory adds, in the order they are taken up.
    unfoldable pub children : PathBuf → List PathBuf
    unfolding is_conda_env is_pixi_env should_search_for_installations_in_path entries
    children directory =
        if is_conda_env directory || is_pixi_env directory
        then []
        else elim (tree.read_dir directory) [
          | none ↦ []
          | some reader ↦ sort ⦃o = order⦄ (
              filter (λ path. tree.is_dir path && should_search_for_installations_in_path path)
                (entries reader))
        ]

    -- The loop. The stack's top is the head of `pending`; `visited` keeps the order of insertion.
    -- Without fuel there is no result; with it, `paths` and `visited`.
    unfoldable pub search : ℕ → List PathBuf → List PathBuf → Option (List PathBuf × List PathBuf)
    unfolding children
    search zero pending visited = none
    search (suc fuel) [] visited = some ([], visited)
    search (suc fuel) (directory ∷ pending) visited = elim (tree.canonicalize directory) [
      | none ↦ search fuel pending visited
      | some canonical ↦ elim (contains ⦃o = order⦄ canonical visited) [
        | true ↦ search fuel pending visited
        | false ↦ elim (search fuel (children directory ++ pending) (visited ++ canonical ∷ [])) [
          | none ↦ none
          | some (paths, seen) ↦ some (directory ∷ paths, seen)
        ]
      ]
    ]

    unfoldable pub collect_recursive_search_paths : ℕ → PathBuf → Option (List PathBuf)
    unfolding search
    collect_recursive_search_paths fuel directory = elim (search fuel (directory ∷ []) []) [
      | none ↦ none
      | some (paths, seen) ↦ some paths
    ]

-- `slice::chunks`; the fuel is at least the length.
unfoldable pub chunks_from {ℓ} : {A : Type ℓ} → ℕ → ℕ → List A → List (List A)
chunks_from n zero xs = []
chunks_from n (suc fuel) [] = []
chunks_from n (suc fuel) (x ∷ xs) = take n (x ∷ xs) ∷ chunks_from n fuel (drop n (x ∷ xs))

unfoldable pub chunks {ℓ} : {A : Type ℓ} → ℕ → List A → List (List A)
unfolding chunks_from
chunks n xs = chunks_from n (length xs) xs

module _ (L : PathLib) (tree : FileTree L.PathBuf) where
  -- The batches that are given to `find_r_installations_in_paths`, one after the other: it probes
  -- the paths of a batch in a thread each.
  unfoldable pub batches_to_search : ℕ → L.PathBuf → Option (List (List L.PathBuf))
  unfolding collect_recursive_search_paths chunks
  batches_to_search fuel directory = elim (collect_recursive_search_paths L tree fuel directory) [
    | none ↦ none
    | some paths_to_search ↦ some (chunks 64 (sort_dedup ⦃o = L.order⦄ paths_to_search))
  ]
