-- ===== src/Installation/Merge.antt =====
-- crates/ret-reporter/src/installation.rs: how two reports of one installation become one.
pub mod Union
pub mod Environment
use r_environment_tools.Base.{
  ℕ, Bool, true, false, ◌&&◌, ◌||◌, List, [], ◌∷◌, ◌++◌, Option, none, some, Text, same_text, ltb,
  ◌==◌, filter, length, sort_dedup, is_some, or_else, unwrap_or, and_then, if◌then◌else◌, Ord,
}
use mathlib.Core.Option
use r_environment_tools.Paths.{PathLib}
use r_environment_tools.Installation.{
  RInstallationKind, RInstallation, LocatorMetadata, RVersionsOverlay, Variables, priority,
  source_order,
}
use r_environment_tools.Installation.Builder.{
  from_installation, with_executable, with_home, with_known_executables, with_symlinks,
  with_discovered_by, with_script_path, with_display_name, with_name, with_kind, with_version,
  with_manager, with_arch, with_locator_metadata, with_rversions_overlay, with_startup_command,
  with_environment_variables, with_orthogonal, with_error, build, non_empty, overlay_label,
}

abbrev pub kind_rank : Option RInstallationKind → ℕ
kind_rank (some RInstallationKind.global_paths) = 1
kind_rank (some RInstallationKind.linux_global) = 2
kind_rank (some RInstallationKind.environment_module) = 3
kind_rank (some _) = 4
kind_rank none = 0

module _ {PathBuf : Type 0} where
  abbrev pub installation_priority : RInstallation PathBuf → ℕ
  installation_priority installation =
      unwrap_or (Option.map priority installation.locator_metadata) 0

  abbrev pub kind_specificity : RInstallation PathBuf → ℕ
  kind_specificity installation = kind_rank installation.kind

  abbrev pub present_fields : RInstallation PathBuf → List Bool
  present_fields installation =
      is_some installation.display_name
      ∷ is_some installation.name
      ∷ is_some installation.executable
      ∷ is_some installation.kind
      ∷ is_some installation.version
      ∷ is_some installation.home
      ∷ is_some installation.manager
      ∷ is_some installation.arch
      ∷ is_some installation.known_executables
      ∷ is_some installation.symlinks
      ∷ is_some installation.locator_metadata
      ∷ is_some installation.rversions_overlay
      ∷ is_some installation.script_path
      ∷ is_some installation.startup_command
      ∷ is_some installation.environment_variables
      ∷ is_some installation.orthogonal
      ∷ is_some installation.error
      ∷ []

  -- At most 17, so that the source's `as u8` loses nothing.
  abbrev pub installation_completeness : RInstallation PathBuf → ℕ
  installation_completeness installation =
      length (filter (λ present. present) (present_fields installation))

  unfoldable pub preferred_installation :
      RInstallation PathBuf → RInstallation PathBuf → RInstallation PathBuf × RInstallation PathBuf
  preferred_installation existing new =
      if ltb (installation_priority existing) (installation_priority new)
        || ((installation_priority new == installation_priority existing)
            && ltb (kind_specificity existing) (kind_specificity new))
        || ((installation_priority new == installation_priority existing)
            && (kind_specificity new == kind_specificity existing)
            && ltb (installation_completeness existing) (installation_completeness new))
      then (new, existing)
      else (existing, new)

  unfoldable pub select_locator_metadata :
      Option (LocatorMetadata PathBuf)
      → Option (LocatorMetadata PathBuf)
      → Option (LocatorMetadata PathBuf)
  select_locator_metadata (some existing) (some new) =
      if ltb (priority existing) (priority new) then some new else some existing
  select_locator_metadata (some existing) none = some existing
  select_locator_metadata none (some new) = some new
  select_locator_metadata none none = none

-- `HashMap::insert`: the value of a known key is replaced.
unfoldable pub insert_variable : Text → Text → Variables → Variables
insert_variable key value [] = (key, value) ∷ []
insert_variable key value ((k, v) ∷ variables) =
    let rest = insert_variable key value variables in
    if same_text key k then (key, value) ∷ variables else (k, v) ∷ rest

-- `HashMap::extend`
unfoldable pub extend : Variables → Variables → Variables
unfolding insert_variable
extend merged [] = merged
extend merged ((k, v) ∷ variables) = extend (insert_variable k v merged) variables

unfoldable pub merge_environment_variables : Option Variables → Option Variables → Option Variables
unfolding extend
merge_environment_variables none none = none
merge_environment_variables (some primary) none = some primary
merge_environment_variables none (some secondary) = some secondary
merge_environment_variables (some primary) (some secondary) = some (extend secondary primary)

unfoldable pub merge_rversions_overlay :
    Option RVersionsOverlay → Option RVersionsOverlay → Option RVersionsOverlay
merge_rversions_overlay none none = none
merge_rversions_overlay (some existing) none = some existing
merge_rversions_overlay none (some new) = some new
merge_rversions_overlay (some existing) (some new) = some (record {
  label = or_else existing.label new.label;
  script = or_else existing.script new.script;
  repo = or_else existing.repo new.repo;
  library = or_else existing.library new.library;
  loaded_module = or_else existing.loaded_module new.loaded_module;
  module_startup_command = or_else existing.module_startup_command new.module_startup_command;
})

module _ (L : PathLib) where
  open L use {PathBuf, order}

  -- The builder that `merge_installations` hands to `build`.
  unfoldable pub merged_builder :
      RInstallation PathBuf → RInstallation PathBuf → RInstallation PathBuf
  unfolding preferred_installation select_locator_metadata merge_environment_variables
      merge_rversions_overlay
  merged_builder existing new =
      let chosen = preferred_installation existing new in
      let primary = chosen.0 in
      let secondary = chosen.1 in
      let discovered_by = sort_dedup (existing.discovered_by ++ new.discovered_by) in
      let symlinks =
        sort_dedup ⦃o = order⦄ (unwrap_or existing.symlinks [] ++ unwrap_or new.symlinks []) in
      let known_executables =
        sort_dedup ⦃o = order⦄
          (unwrap_or existing.known_executables [] ++ unwrap_or new.known_executables []) in
      let overlay = merge_rversions_overlay existing.rversions_overlay new.rversions_overlay in
      let named = with_name L (or_else primary.name secondary.name) (
        with_display_name L
          (or_else (or_else (overlay_label overlay) primary.display_name) secondary.display_name)
          (from_installation L primary)) in
      let located = with_executable L (or_else primary.executable secondary.executable) named in
      let versioned =
        with_version L (or_else primary.version secondary.version)
          (with_kind L (or_else primary.kind secondary.kind) located) in
      let housed = with_home L (or_else primary.home secondary.home) versioned in
      let managed =
        with_arch L (or_else primary.arch secondary.arch)
          (with_manager L (or_else primary.manager secondary.manager) housed) in
      let known = with_known_executables L (non_empty known_executables) managed in
      let linked = with_symlinks L (non_empty symlinks) known in
      let discovered = with_discovered_by L discovered_by linked in
      let overlaid = with_rversions_overlay L overlay (
        with_locator_metadata L
          (select_locator_metadata existing.locator_metadata new.locator_metadata) discovered) in
      let scripted =
        with_script_path L (or_else primary.script_path secondary.script_path) overlaid in
      let variable =
        with_environment_variables L
          (merge_environment_variables primary.environment_variables
            secondary.environment_variables)
          (with_startup_command L (or_else primary.startup_command secondary.startup_command)
            scripted) in
      with_error L (or_else primary.error secondary.error)
        (with_orthogonal L (or_else primary.orthogonal secondary.orthogonal) variable)

  unfoldable pub merge_installations :
      RInstallation PathBuf → RInstallation PathBuf → RInstallation PathBuf
  unfolding merged_builder
  merge_installations existing new = build L (merged_builder existing new)
