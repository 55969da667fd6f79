-- ===== src/Configuration.antt =====
-- Configuration in crates/ret/src/jsonrpc.rs: applying one, with its roll back, the guard of
-- reports by generation, and the configuration that a refresh runs with.
pub mod Rollback
pub mod Directories
use r_environment_tools.Base.{
  ℕ, ◌+◌, ◌%◌, ◌^◌, Bool, true, false, List, [], ◌∷◌, ◌++◌, map, filter, Option, none, some, Text,
  or_else, unwrap_or, is_some, is_empty, ◌==◌, Ord, sort_dedup, if◌then◌else◌,
}
use mathlib.Core.Option
use r_environment_tools.Installation.{RInstallationKind}
use r_environment_tools.Installation.Builder.{non_empty}
use r_environment_tools.Glob.{expand_glob_patterns}
use r_environment_tools.Paths.{normalize_paths}

pub record Configuration (PathBuf : Type 0) : Type 0 where
  pub workspace_directories : Option (List PathBuf)
  pub environment_directories : Option (List PathBuf)
  pub search_directories : Option (List PathBuf)
  pub executables : Option (List PathBuf)
  pub cache_directory : Option PathBuf
  pub conda_executable : Option PathBuf
  pub rig_executable : Option PathBuf

pub record ConfigurationState (PathBuf : Type 0) : Type 0 where
  pub generation : ℕ
  pub config : Configuration PathBuf

-- Options and configuration have the same fields.
abbrev pub ConfigureOptions : Type 0 → Type 0
ConfigureOptions PathBuf = Configuration PathBuf

-- `u64`
abbrev pub generation_mod : ℕ
generation_mod = 2 ^ 64

pub record Context (PathBuf Locator Cache : Type 0) : Type 0 where
  pub configuration : ConfigurationState PathBuf
  pub locators : List Locator
  pub cache : Cache

-- How `apply_configuration` ends: well, with an error after the roll back, or with a panic of the
-- roll back itself.
pub data Applied {ℓ} (A : Type ℓ) : Type ℓ where
  applied : A → Applied A
  failed : A → Applied A
  crashed : A → Applied A

-- `configure` is a locator's and `set_cache_directory` the cache's; each gives whether it
-- panicked, and what it left.
module _ {PathBuf Locator Cache : Type 0}
    (configure : Configuration PathBuf → Locator → Bool × Locator)
    (set_cache_directory : PathBuf → Cache → Bool × Cache) where
  abbrev with_locator : Locator → Bool × List Locator → Bool × List Locator
  with_locator l (panicked, ls) = (panicked, l ∷ ls)

  abbrev after_configure :
      (Bool × List Locator) → List Locator → Bool × Locator → Bool × List Locator
  after_configure rest ls (true, l) = (true, l ∷ ls)
  after_configure rest ls (false, l) = with_locator l rest

  -- The loop over the locators; a panic ends it.
  unfoldable pub configure_all : Configuration PathBuf → List Locator → Bool × List Locator
  configure_all config [] = (false, [])
  configure_all config (l ∷ ls) =
      let rest = configure_all config ls in after_configure rest ls (configure config l)

  abbrev set_option : Option PathBuf → Cache → Bool × Cache
  set_option none cache = (false, cache)
  set_option (some directory) cache = set_cache_directory directory cache

  -- The closure under `catch_unwind`.
  configured : Option PathBuf → Cache → Bool × List Locator → Bool × List Locator × Cache
  configured directory cache (true, ls) = (true, ls, cache)
  configured directory cache (false, ls) =
      let set = set_option directory cache in (set.0, ls, set.1)

  abbrev pub next_config : ConfigureOptions PathBuf → Configuration PathBuf → Configuration PathBuf
  next_config options config = record options {
    cache_directory = or_else options.cache_directory config.cache_directory;
  }

  finish :
      Configuration PathBuf
      → Context PathBuf Locator Cache
      → Bool × List Locator × Cache
      → Applied (Context PathBuf Locator Cache)
  unfolding configure_all
  finish next context (true, ls, cache) =
      let back = configure_all context.configuration.config ls in
      let left = record context { locators = back.1; cache = cache } in
      if back.0 then crashed left else failed left
  finish next context (false, ls, cache) = applied (record {
    configuration = record {
      generation = (context.configuration.generation + 1) % generation_mod;
      config = next;
    };
    locators = ls;
    cache = cache;
  })

  -- The directories and executables of `options` are the expanded ones.
  unfoldable pub apply_configuration :
      ConfigureOptions PathBuf
      → Context PathBuf Locator Cache
      → Applied (Context PathBuf Locator Cache)
  unfolding configured finish
  apply_configuration options context =
      let next = next_config options context.configuration.config in
      finish next context
        (configured options.cache_directory context.cache (configure_all next context.locators))

-- The reporter of a refresh: what is reported is passed on while the generation is the refresh's.
unfoldable pub report_if_current {ℓ} :
    {PathBuf : Type 0} {A : Type ℓ} → ConfigurationState PathBuf → ℕ → A → List A → List A
report_if_current state generation report sent =
    if state.generation == generation then sent ++ report ∷ [] else sent

pub record RefreshOptions (PathBuf : Type 0) : Type 0 where
  pub search_kind : Option RInstallationKind
  pub search_paths : Option (List PathBuf)

pub data SearchScope : Type 0 where
  global : RInstallationKind → SearchScope
  search_paths : SearchScope

pub data RefreshStateSyncScope : Type 0 where
  full : RefreshStateSyncScope
  global_filtered : RInstallationKind → RefreshStateSyncScope
  workspace : RefreshStateSyncScope

abbrev pub refresh_sync_scope : Option SearchScope → RefreshStateSyncScope
refresh_sync_scope (some (global kind)) = global_filtered kind
refresh_sync_scope (some search_paths) = workspace
refresh_sync_scope none = full

-- `to_text` is `to_string_lossy`, `path_of` is `PathBuf::from`, `glob` the glob crate's, and `is_dir`
-- and `is_file` are the file system's tests.
module _ {PathBuf : Type 0} (to_text : PathBuf → Text) (path_of : Text → PathBuf)
    (glob : Text → List PathBuf) (is_dir is_file : PathBuf → Bool) where
  -- `expand_glob_patterns`, which always gives a result.
  unfoldable pub expand : List PathBuf → List PathBuf
  unfolding expand_glob_patterns
  expand paths = unwrap_or (expand_glob_patterns path_of glob (map to_text paths)) []

  unfoldable pub expand_configured_directories :
      ⦃o : Ord PathBuf⦄ → Option (List PathBuf) → Option (List PathBuf)
  unfolding expand
  expand_configured_directories paths =
      non_empty (sort_dedup (filter is_dir (unwrap_or (Option.map expand paths) [])))

  -- `parse_refresh_options` after the decoding of the parameters.
  unfoldable pub parse_refresh_options :
      ⦃o : Ord PathBuf⦄ → RefreshOptions PathBuf → RefreshOptions PathBuf
  unfolding expand
  parse_refresh_options options = record options {
    search_paths = Option.map (λ paths. normalize_paths (expand paths)) options.search_paths;
  }

  searched : Option (List PathBuf) → Configuration PathBuf → Configuration PathBuf
  unfolding expand
  searched none config = config
  searched (some paths) config = record config {
    workspace_directories = none;
    environment_directories = none;
    search_directories = some (filter is_dir (expand paths));
    executables = some (filter is_file (expand paths));
  }

  abbrev scope_of : RefreshOptions PathBuf → Option SearchScope
  scope_of options =
      if is_some options.search_paths
      then some search_paths
      else Option.map global options.search_kind

  unfoldable pub build_refresh_config :
      RefreshOptions PathBuf → Configuration PathBuf → Configuration PathBuf × Option SearchScope
  unfolding searched
  build_refresh_config options config = (searched options.search_paths config, scope_of options)
