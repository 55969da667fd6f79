-- ===== src/Configuration/Directories.antt =====
-- The directories that a configuration and a refresh search.
use r_environment_tools.Base.{
  Text, ◌≡◌, ◌≢◌, Bool, List, [], Option, some, filter, Ord, IsStrict, contains, sort_dedup,
  sort_dedup-IsStrict, contains-sort_dedup, unwrap_or,
}
use mathlib.Core.Option
use r_environment_tools.Installation.Builder.Normal.{unwrap-non_empty, non_empty-ne}
use r_environment_tools.Configuration.{expand, expand_configured_directories}

module _ {PathBuf : Type 0} ⦃o : Ord PathBuf⦄ (to_text : PathBuf → Text) (path_of : Text → PathBuf)
    (glob : Text → List PathBuf) (is_dir is_file : PathBuf → Bool) where
  -- The configured directories are strictly increasing, never an empty list, and are exactly the
  -- directories among the expanded paths.
  pub expand_configured_directories-IsStrict :
      (paths : Option (List PathBuf))
      → IsStrict
          (unwrap_or (expand_configured_directories to_text path_of glob is_dir is_file paths) [])
        × (expand_configured_directories to_text path_of glob is_dir is_file paths ≢ some [])
        × ((p : PathBuf)
            → contains p (
                unwrap_or
                  (expand_configured_directories to_text path_of glob is_dir is_file paths)
                  [])
              ≡ contains p (
                  filter is_dir
                    (unwrap_or (Option.map (expand to_text path_of glob is_dir is_file) paths) [])))
  unfolding expand_configured_directories
  expand_configured_directories-IsStrict paths = (
    rw
        (unwrap-non_empty (
          sort_dedup (
            filter is_dir
              (unwrap_or (Option.map (expand to_text path_of glob is_dir is_file) paths) []))))
        (sort_dedup-IsStrict _),
    non_empty-ne _,
    λ p.
        rw
          (unwrap-non_empty (
            sort_dedup (
              filter is_dir
                (unwrap_or (Option.map (expand to_text path_of glob is_dir is_file) paths) []))))
          (contains-sort_dedup p _),
  )
