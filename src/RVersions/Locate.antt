-- ===== src/RVersions/Locate.antt =====
-- The locator of crates/ret-rversions/src/lib.rs, from the parsed entries on, with
-- `build_module_startup_command` of crates/ret-module/src/lib.rs. Running R, in a shell with a
-- startup command or without, is an argument.
pub mod Plain
use r_environment_tools.Base.{
  ◌≡◌, Bool, true, false, not, ◌&&◌, ◌||◌, List, [], ◌∷◌, ◌++◌, Option, none, some, Text, codes,
  Ord, same, contains, find, is_some, or_else, and_then, unwrap_or, if◌then◌else◌,
}
use mathlib.Core.Option
use r_environment_tools.Paths.{PathLib}
use r_environment_tools.Shell.{quote_shell_argument}
use r_environment_tools.Installation.{
  RInstallation, RVersionsOverlay, Variables, DiscoverySource, Architecture,
}
use r_environment_tools.Installation.Builder.{
  build, new, with_display_name, with_executable, with_home, with_orthogonal, with_version,
  with_arch, with_known_executables, with_symlinks, with_discovered_by, with_rversions_overlay,
  with_startup_command, with_environment_variables,
}
use r_environment_tools.ProbeCache.{ResolvedRInstallation}
use r_environment_tools.Identify.{REnv, add_to_cache}
use r_environment_tools.RVersions.{
  RVersionsEntry, build_rversions_overlay, infer_kind, merge_optional_paths,
  combine_startup_command,
}

pub record ResolvedRVersionsEntry (PathBuf : Type 0) : Type 0 where
  pub resolved : ResolvedRInstallation PathBuf
  pub label : Option Text
  pub startup_command : Option Text
  pub environment_variables : Option Variables
  pub rversions_overlay : Option RVersionsOverlay

-- The environment variables of an entry with a library.
abbrev pub r_libs : Text → Variables
r_libs library = (codes "R_LIBS", library) ∷ []

module _ (L : PathLib) where
  open L use {PathBuf, order, to_text}

  abbrev path_order : Ord PathBuf
  path_order = order

  unfoldable pub build_module_startup_command : PathBuf → Text → Text
  unfolding quote_shell_argument
  build_module_startup_command modulecmd module_name =
      codes "_ret_module_code=\"$("
      ++ (quote_shell_argument (to_text modulecmd)
          ++ (codes " sh load "
              ++ (quote_shell_argument module_name ++ codes ")\" && eval \"$_ret_module_code\"")))

  -- The command of an entry's module, if it has one and there is a `modulecmd`.
  unfoldable pub module_command : Option PathBuf → Option Text → Option Text
  unfolding build_module_startup_command
  module_command (some modulecmd) (some name) = some (build_module_startup_command modulecmd name)
  module_command _ _ = none

  -- The startup command in which R runs, with the library.
  unfoldable pub shell_startup : Option Text → Option Text → Text
  unfolding quote_shell_argument
  shell_startup startup_command none = unwrap_or startup_command (codes ":")
  shell_startup startup_command (some library) =
      unwrap_or startup_command (codes ":")
      ++ (codes " && export R_LIBS=" ++ quote_shell_argument library)

  -- The executable of an entry: nothing when its path has none, and no executable without a path.
  unfoldable pub entry_executable :
      (PathBuf → Option PathBuf) → Option PathBuf → Option (Option PathBuf)
  entry_executable find_executable none = some none
  entry_executable find_executable (some path) = Option.map some (find_executable path)

  unfoldable pub resolve_plain :
      (PathBuf → Option (ResolvedRInstallation PathBuf))
      → Option PathBuf
      → Option (ResolvedRInstallation PathBuf)
  resolve_plain resolve none = none
  resolve_plain resolve (some executable) = resolve executable

  -- With the executable, the rest of `resolve_entry`.
  unfoldable pub resolve_found :
      (PathBuf → Option (ResolvedRInstallation PathBuf))
      → (Option PathBuf → Text → Option (ResolvedRInstallation PathBuf))
      → RVersionsEntry PathBuf
      → Option Text
      → Option PathBuf
      → Option (ResolvedRVersionsEntry PathBuf)
  unfolding resolve_plain shell_startup combine_startup_command build_rversions_overlay
  resolve_found resolve resolve_with_startup entry module_startup_command executable =
      let startup_command = combine_startup_command module_startup_command entry.script in
      Option.map
        (λ resolved. record {
          resolved = resolved;
          label = entry.label;
          startup_command = startup_command;
          environment_variables = Option.map r_libs entry.library;
          rversions_overlay = build_rversions_overlay entry module_startup_command;
        })
        (if is_some startup_command || is_some entry.library
          then resolve_with_startup executable (shell_startup startup_command entry.library)
          else resolve_plain resolve executable)

  unfoldable pub resolve_entry :
      Option PathBuf
      → (PathBuf → Option PathBuf)
      → (PathBuf → Option (ResolvedRInstallation PathBuf))
      → (Option PathBuf → Text → Option (ResolvedRInstallation PathBuf))
      → RVersionsEntry PathBuf
      → Option (ResolvedRVersionsEntry PathBuf)
  unfolding module_command entry_executable resolve_found
  resolve_entry modulecmd find_executable resolve resolve_with_startup entry =
      let module_startup_command = module_command modulecmd entry.named_module in
      if is_some entry.named_module && not (is_some module_startup_command)
      then none
      else and_then (entry_executable find_executable entry.path)
          (resolve_found resolve resolve_with_startup entry module_startup_command)

  unfoldable pub is_plain : ResolvedRVersionsEntry PathBuf → Bool
  is_plain entry = not (is_some entry.startup_command) && not (is_some entry.environment_variables)

  module _ (looks_like_module_path : PathBuf → Bool) where
    unfoldable pub build_installation_from_env :
        REnv PathBuf → ResolvedRVersionsEntry PathBuf → RInstallation PathBuf
    unfolding infer_kind merge_optional_paths
    build_installation_from_env env entry =
        let home = unwrap_or env.home entry.resolved.home in
        let kind = infer_kind looks_like_module_path env.executable home in
        let named = with_display_name L entry.label (new L (some kind)) in
        let placed = with_home L (some home) (with_executable L (some env.executable) named) in
        let versioned =
          with_version L (or_else env.version (some entry.resolved.version))
            (with_orthogonal L (or_else env.orthogonal entry.resolved.orthogonal) placed) in
        let known =
          with_known_executables L
            (merge_optional_paths env.known_executables entry.resolved.known_executables)
            (with_arch L (or_else env.arch (some entry.resolved.arch)) versioned) in
        let linked =
          with_symlinks L (merge_optional_paths env.symlinks entry.resolved.symlinks) known in
        let discovered =
          with_discovered_by L (DiscoverySource.locator ∷ DiscoverySource.rversions ∷ []) linked in
        build L (
          with_environment_variables L entry.environment_variables (
            with_startup_command L entry.startup_command
              (with_rversions_overlay L entry.rversions_overlay discovered)))

    unfoldable pub build_installation_from_resolved :
        ResolvedRInstallation PathBuf → ResolvedRVersionsEntry PathBuf → RInstallation PathBuf
    unfolding infer_kind
    build_installation_from_resolved resolved entry =
        let kind = infer_kind looks_like_module_path resolved.executable resolved.home in
        let named = with_display_name L entry.label (new L (some kind)) in
        let placed =
          with_home L (some resolved.home) (with_executable L (some resolved.executable) named) in
        let versioned =
          with_version L (some resolved.version) (with_orthogonal L resolved.orthogonal placed) in
        let known =
          with_known_executables L resolved.known_executables
            (with_arch L (some resolved.arch) versioned) in
        let discovered =
          with_discovered_by L (DiscoverySource.locator ∷ DiscoverySource.rversions ∷ [])
            (with_symlinks L resolved.symlinks known) in
        build L (
          with_environment_variables L entry.environment_variables (
            with_startup_command L entry.startup_command
              (with_rversions_overlay L entry.rversions_overlay discovered)))

    unfoldable pub matches : REnv PathBuf → ResolvedRVersionsEntry PathBuf → Bool
    unfolding is_plain
    matches env entry =
        is_plain entry
        && (same ⦃o = order⦄ entry.resolved.executable env.executable
            || contains ⦃o = order⦄ env.executable (unwrap_or entry.resolved.known_executables []))

    unfoldable pub try_from :
        List (ResolvedRVersionsEntry PathBuf) → REnv PathBuf → Option (RInstallation PathBuf)
    unfolding matches build_installation_from_env
    try_from entries env = Option.map (build_installation_from_env env) (find (matches env) entries)

    -- `find`: each installation that is reported, with what was handed to the cache, if
    -- `add_to_cache` was called.
    unfoldable pub reports_of :
        PathBuf
        → List (ResolvedRVersionsEntry PathBuf)
        → List (RInstallation PathBuf × Option (Option (List PathBuf)))
    unfolding build_installation_from_resolved is_plain add_to_cache
    reports_of empty [] = []
    reports_of empty (entry ∷ entries) =
        let installation = build_installation_from_resolved entry.resolved entry in
        (
          installation,
          if is_plain entry then some (add_to_cache L empty entry.resolved installation) else none,
        )
        ∷ reports_of empty entries

  -- `filter_map` of `load_entries`, from the parsed entries.
  unfoldable pub load_entries :
      (RVersionsEntry PathBuf → Option (ResolvedRVersionsEntry PathBuf))
      → List (RVersionsEntry PathBuf)
      → List (ResolvedRVersionsEntry PathBuf)
  load_entries resolve_entry [] = []
  load_entries resolve_entry (entry ∷ entries) = elim (resolve_entry entry) [
    | none ↦ load_entries resolve_entry entries
    | some resolved ↦ resolved ∷ load_entries resolve_entry entries
  ]
