-- ===== src/Paths.antt =====
-- Paths. `std::path::PathBuf` enters as an interface: the operations that the program uses, on a
-- type of its own with the order of `PathBuf`. The target is Unix.
use r_environment_tools.Base.{Ord, Text, Bool, Option, none, some, List, [], ◌∷◌, map, sort_dedup}

pub record PathLib : Type 1 where
  pub PathBuf : Type 0
  -- `Ord for PathBuf`; equal paths may be spelled differently.
  pub order : Ord PathBuf
  pub join : PathBuf → Text → PathBuf
  -- `file_name` and `to_string_lossy`, as text.
  pub file_name : PathBuf → Option Text
  pub to_text : PathBuf → Text
  pub with_file_name : PathBuf → Text → PathBuf
  pub parent : PathBuf → Option PathBuf

module _ {PathBuf : Type 0} where
  -- `norm_case` of crates/ret-fs/src/path.rs returns the path unchanged on Unix.
  unfoldable pub norm_case : PathBuf → PathBuf
  norm_case p = p

  -- crates/ret-core/src/r_installation.rs
  unfoldable pub normalize_paths : ⦃o : Ord PathBuf⦄ → List PathBuf → List PathBuf
  unfolding norm_case
  normalize_paths paths = sort_dedup (map norm_case paths)

-- What the program asks the file system about paths. A directory that cannot be read has no list,
-- and an entry of it that cannot be read no path.
pub record FileTree (PathBuf : Type 0) : Type 0 where
  pub is_file : PathBuf → Bool
  pub is_dir : PathBuf → Bool
  pub is_symlink : PathBuf → Bool
  pub exists : PathBuf → Bool
  pub canonicalize : PathBuf → Option PathBuf
  pub read_dir : PathBuf → Option (List (Option PathBuf))

-- `filter_map(Result::ok)`
unfoldable pub entries : {A : Type 0} → List (Option A) → List A
entries [] = []
entries (none ∷ results) = entries results
entries (some a ∷ results) = a ∷ entries results
