-- ===== src/Installation.antt =====
-- The data of crates/ret-core: src/r_installation.rs, src/manager.rs and src/arch.rs.
pub mod Arch
pub mod Builder
pub mod Merge
use r_environment_tools.Base.{
  ℕ, ◌≡◌, Bool, true, false, List, [], ◌∷◌, Option, none, some, Text, Ord, leb, leb→le, le→leb, ◌⊎◌,
  inl, inr, arith, Bool-cases,
}

pub data RInstallationKind : Type 0 where
  chocolatey conda environment_module guix homebrew linux_global : RInstallationKind
  mac_framework mac_ports nix pixi rig scoop spack : RInstallationKind
  windows_hq windows_registry global_paths : RInstallationKind

pub data DiscoverySource : Type 0 where
  locator global_paths explicit_search rversions : DiscoverySource

-- The derived order: that of the declaration.
abbrev pub source_rank : DiscoverySource → ℕ
source_rank locator = 0
source_rank global_paths = 1
source_rank explicit_search = 2
source_rank rversions = 3

abbrev source_le : DiscoverySource → DiscoverySource → Bool
source_le a b = leb (source_rank a) (source_rank b)

pub source_total : (a b : DiscoverySource) → (source_le a b ≡ true) ⊎ (source_le b a ≡ true)
source_total a b = elim (Bool-cases (source_le a b)) [ inl h ↦ inl h | inr h ↦ inr (ground arith) ]

pub source_trans :
    (a b c : DiscoverySource) → source_le a b ≡ true → source_le b c ≡ true → source_le a c ≡ true
source_trans a b c h k = ground arith

instance abbrev pub source_order : Ord DiscoverySource
source_order = record { le = source_le; total = source_total; trans = source_trans }

pub data Architecture : Type 0 where
  arm64 x64 x86 : Architecture

pub data EnvManagerType : Type 0 where
  chocolatey conda environment_module guix mamba homebrew mac_ports nix : EnvManagerType
  rig scoop spack windows_registry : EnvManagerType

pub record EnvManager (PathBuf : Type 0) : Type 0 where
  pub executable : PathBuf
  pub version : Option Text
  pub tool : EnvManagerType

pub data LocatorMetadata (PathBuf : Type 0) : Type 0 where
  conda_metadata : PathBuf → LocatorMetadata PathBuf
  pixi_metadata : PathBuf → Option PathBuf → Option Text → LocatorMetadata PathBuf
  module_metadata : Text → Text → LocatorMetadata PathBuf

abbrev pub priority : {PathBuf : Type 0} → LocatorMetadata PathBuf → ℕ
priority (pixi_metadata _ _ _) = 3
priority (conda_metadata _) = 2
priority (module_metadata _ _) = 1

pub record RVersionsOverlay : Type 0 where
  pub label : Option Text
  pub script : Option Text
  pub repo : Option Text
  pub library : Option Text
  pub loaded_module : Option Text
  pub module_startup_command : Option Text

-- `HashMap<String, String>` as an association list.
abbrev pub Variables : Type 0
Variables = List (Text × Text)

pub record RInstallation (PathBuf : Type 0) : Type 0 where
  pub display_name : Option Text
  pub name : Option Text
  pub executable : Option PathBuf
  pub kind : Option RInstallationKind
  pub version : Option Text
  pub home : Option PathBuf
  pub manager : Option (EnvManager PathBuf)
  pub arch : Option Architecture
  pub known_executables : Option (List PathBuf)
  pub symlinks : Option (List PathBuf)
  pub discovered_by : List DiscoverySource
  pub locator_metadata : Option (LocatorMetadata PathBuf)
  pub rversions_overlay : Option RVersionsOverlay
  pub script_path : Option PathBuf
  pub startup_command : Option Text
  pub environment_variables : Option Variables
  pub orthogonal : Option Bool
  pub error : Option Text
