-- ===== src/Installation/Builder.antt =====
-- `RInstallationBuilder` of crates/ret-core/src/r_installation.rs. The builder has the fields of
-- the installation that it builds, so one record serves for both.
pub mod Normal
use r_environment_tools.Base.{
  ℕ, Bool, true, false, not, ◌&&◌, ◌||◌, List, [], ◌∷◌, ◌++◌, Option, none, some, Text, codes,
  same_text, contains_text, to_ascii_lowercase, Ord, sort_dedup, contains, is_empty, if◌then◌else◌,
  or_else, unwrap_or, and_then,
}
use mathlib.Core.Option
use r_environment_tools.Paths.{PathLib, norm_case, normalize_paths}
use r_environment_tools.Installation.{
  RInstallationKind, DiscoverySource, locator, Architecture, Variables, EnvManager, LocatorMetadata,
  RVersionsOverlay, RInstallation, source_order,
}

abbrev pub RInstallationBuilder : Type 0 → Type 0
RInstallationBuilder PathBuf = RInstallation PathBuf

-- The texts of `format!("R {version} ({source}: {name})")` and of the form with no name.
abbrev manager_name : Text → Text → Option Text → Text
manager_name source version none = codes "R " ++ (version ++ (codes " (" ++ (source ++ codes ")")))
manager_name source version (some []) =
    codes "R " ++ (version ++ (codes " (" ++ (source ++ codes ")")))
manager_name source version (some (c ∷ name)) =
    codes "R " ++ (version ++ (codes " (" ++ (source ++ (codes ": " ++ ((c ∷ name) ++ codes ")")))))

generated_manager_display_name : Option RInstallationKind → Option Text → Option Text → Option Text
generated_manager_display_name (some RInstallationKind.conda) (some version) name =
    some (manager_name (codes "Conda") version name)
generated_manager_display_name (some RInstallationKind.pixi) (some version) name =
    some (manager_name (codes "Pixi") version name)
generated_manager_display_name _ _ _ = none

-- `kind.is_some() && kind != Some(GlobalPaths)`
abbrev pub is_located : Option RInstallationKind → Bool
is_located none = false
is_located (some RInstallationKind.global_paths) = false
is_located (some _) = true

infer_orthogonal_text : Text → Option Bool
infer_orthogonal_text home =
    if contains_text (codes "R.framework") home
    then some (
        contains_text (codes "R.framework/Versions/") home
        && not (contains_text (codes "R.framework/Versions/Current/") home))
    else none

abbrev pub non_empty {ℓ} : {A : Type ℓ} → List A → Option (List A)
non_empty [] = none
non_empty (x ∷ xs) = some (x ∷ xs)

-- `filter(|vars| !vars.is_empty())`
abbrev pub keep_non_empty {ℓ} : {A : Type ℓ} → Option (List A) → Option (List A)
keep_non_empty none = none
keep_non_empty (some xs) = non_empty xs

abbrev pub push_option {ℓ} : {A : Type ℓ} → List A → Option A → List A
push_option xs none = xs
push_option xs (some x) = xs ++ x ∷ []

unfoldable pub default_sources :
    Option RInstallationKind → List DiscoverySource → List DiscoverySource
default_sources kind sources =
    sort_dedup (if is_empty sources && is_located kind then sources ++ locator ∷ [] else sources)

abbrev pub overlay_label : Option RVersionsOverlay → Option Text
overlay_label none = none
overlay_label (some overlay) = overlay.label

module _ (L : PathLib) where
  open L use {PathBuf, order, join, file_name, to_text, with_file_name}

  abbrev path_order : Ord PathBuf
  path_order = order

  abbrev pub new : Option RInstallationKind → RInstallationBuilder PathBuf
  new kind = record {
    display_name = none;
    name = none;
    executable = none;
    kind = kind;
    version = none;
    home = none;
    manager = none;
    arch = none;
    known_executables = none;
    symlinks = none;
    discovered_by = [];
    locator_metadata = none;
    rversions_overlay = none;
    script_path = none;
    startup_command = none;
    environment_variables = none;
    orthogonal = none;
    error = none;
  }

  -- Every field is moved over.
  abbrev pub from_installation : RInstallation PathBuf → RInstallationBuilder PathBuf
  from_installation installation = installation

  -- The setters that replace a field.
  abbrev pub with_display_name :
      Option Text → RInstallationBuilder PathBuf → RInstallationBuilder PathBuf
  with_display_name v b = record b { display_name = v }

  abbrev pub with_name : Option Text → RInstallationBuilder PathBuf → RInstallationBuilder PathBuf
  with_name v b = record b { name = v }

  abbrev pub with_kind :
      Option RInstallationKind → RInstallationBuilder PathBuf → RInstallationBuilder PathBuf
  with_kind v b = record b { kind = v }

  abbrev pub with_version :
      Option Text → RInstallationBuilder PathBuf → RInstallationBuilder PathBuf
  with_version v b = record b { version = v }

  abbrev pub with_manager :
      Option (EnvManager PathBuf) → RInstallationBuilder PathBuf → RInstallationBuilder PathBuf
  with_manager v b = record b { manager = v }

  abbrev pub with_arch :
      Option Architecture → RInstallationBuilder PathBuf → RInstallationBuilder PathBuf
  with_arch v b = record b { arch = v }

  abbrev pub with_locator_metadata :
      Option (LocatorMetadata PathBuf) → RInstallationBuilder PathBuf → RInstallationBuilder PathBuf
  with_locator_metadata v b = record b { locator_metadata = v }

  abbrev pub with_rversions_overlay :
      Option RVersionsOverlay → RInstallationBuilder PathBuf → RInstallationBuilder PathBuf
  with_rversions_overlay v b = record b { rversions_overlay = v }

  abbrev pub with_startup_command :
      Option Text → RInstallationBuilder PathBuf → RInstallationBuilder PathBuf
  with_startup_command v b = record b { startup_command = v }

  abbrev pub with_environment_variables :
      Option Variables → RInstallationBuilder PathBuf → RInstallationBuilder PathBuf
  with_environment_variables v b = record b { environment_variables = v }

  abbrev pub with_orthogonal :
      Option Bool → RInstallationBuilder PathBuf → RInstallationBuilder PathBuf
  with_orthogonal v b = record b { orthogonal = v }

  abbrev pub with_error : Option Text → RInstallationBuilder PathBuf → RInstallationBuilder PathBuf
  with_error v b = record b { error = v }

  -- The setters that normalise what they are given.
  abbrev pub with_executable :
      Option PathBuf → RInstallationBuilder PathBuf → RInstallationBuilder PathBuf
  with_executable p b = record b { executable = Option.map norm_case p }

  abbrev pub with_home :
      Option PathBuf → RInstallationBuilder PathBuf → RInstallationBuilder PathBuf
  with_home p b = record b { home = Option.map norm_case p }

  abbrev pub with_known_executables :
      Option (List PathBuf) → RInstallationBuilder PathBuf → RInstallationBuilder PathBuf
  with_known_executables ps b = record b {
    known_executables = Option.map (normalize_paths ⦃o = order⦄) ps;
  }

  abbrev pub with_symlinks :
      Option (List PathBuf) → RInstallationBuilder PathBuf → RInstallationBuilder PathBuf
  with_symlinks ps b = record b { symlinks = Option.map (normalize_paths ⦃o = order⦄) ps }

  abbrev pub with_discovered_by :
      List DiscoverySource → RInstallationBuilder PathBuf → RInstallationBuilder PathBuf
  with_discovered_by sources b = record b { discovered_by = sort_dedup sources }

  abbrev pub with_script_path :
      Option PathBuf → RInstallationBuilder PathBuf → RInstallationBuilder PathBuf
  with_script_path p b = record b { script_path = Option.map norm_case p }

  abbrev pub add_discovery_source :
      DiscoverySource → RInstallationBuilder PathBuf → RInstallationBuilder PathBuf
  add_discovery_source source b =
      if not (contains source b.discovered_by)
      then record b { discovered_by = sort_dedup (b.discovered_by ++ source ∷ []) }
      else b

  -- The last step of `infer_script_path`, from the home.
  script_of_home : Option PathBuf → Option PathBuf
  script_of_home none = none
  script_of_home (some home) = some (join (join home (codes "bin")) (codes "Rscript"))

  script_of_executable : PathBuf → Text → Option PathBuf → Option PathBuf
  unfolding script_of_home
  script_of_executable executable file home =
      if same_text file (codes "rscript") || same_text file (codes "rscript.exe")
      then some executable
      else if same_text file (codes "r")
      then some (with_file_name executable (codes "Rscript"))
      else if same_text file (codes "r.exe")
      then some (with_file_name executable (codes "Rscript.exe"))
      else script_of_home home

  -- The source's `?` on `file_name` ends the function, also where there is a home.
  infer_script_path : Option PathBuf → Option PathBuf → Option PathBuf
  unfolding script_of_executable
  infer_script_path none home = script_of_home home
  infer_script_path (some executable) home = elim (file_name executable) [
    | none ↦ none
    | some file ↦ script_of_executable executable (to_ascii_lowercase file) home
  ]

  infer_orthogonal : Option PathBuf → Option Bool
  unfolding infer_orthogonal_text
  infer_orthogonal none = none
  infer_orthogonal (some home) = infer_orthogonal_text (to_text home)

  unfoldable pub build : RInstallationBuilder PathBuf → RInstallation PathBuf
  unfolding infer_script_path infer_orthogonal generated_manager_display_name default_sources
  build b = record b {
    display_name =
        or_else
          (or_else (overlay_label b.rversions_overlay)
            (generated_manager_display_name b.kind b.version b.name))
          b.display_name;
    known_executables =
        non_empty (
          normalize_paths ⦃o = order⦄
            (push_option (unwrap_or b.known_executables []) b.executable));
    symlinks = non_empty (normalize_paths ⦃o = order⦄ (unwrap_or b.symlinks []));
    discovered_by = default_sources b.kind b.discovered_by;
    script_path =
        Option.map norm_case (or_else b.script_path (infer_script_path b.executable b.home));
    environment_variables = keep_non_empty b.environment_variables;
    orthogonal = or_else b.orthogonal (infer_orthogonal b.home);
  }
