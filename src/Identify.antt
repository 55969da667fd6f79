-- ===== src/Identify.antt =====
-- Identifying the installation of an executable: crates/ret/src/locators.rs,
-- crates/ret/src/resolve.rs, `REnv` of crates/ret-core/src/env.rs and the conversions of
-- crates/ret-r-utils/src/env.rs. A locator is its `try_from`; probing, with its cache, is the
-- argument `resolve`, and what `add_to_cache` hands to the cache is a result.
pub mod Cached
pub mod Resolved
use r_environment_tools.Base.{
  ◌≡◌, Bool, true, false, not, ◌&&◌, ◌||◌, List, [], ◌∷◌, ◌++◌, Option, none, some, Text, codes,
  Ord, any, same, sort_dedup, contains, same_text, same_option, text_eq, unwrap_or, or_else,
  and_then, if◌then◌else◌,
}
use mathlib.Core.Option
use r_environment_tools.Paths.{PathLib, norm_case}
use r_environment_tools.Installation.{
  RInstallationKind, RInstallation, Architecture, DiscoverySource,
}
use r_environment_tools.Installation.Builder.{
  build, new, from_installation, with_executable, with_home, with_version, with_arch,
  with_orthogonal, with_known_executables, with_symlinks, add_discovery_source,
}
use r_environment_tools.Installation.Merge.{merge_installations}
use r_environment_tools.ProbeCache.{ResolvedRInstallation}

pub record REnv (PathBuf : Type 0) : Type 0 where
  pub executable : PathBuf
  pub home : Option PathBuf
  pub version : Option Text
  pub known_executables : Option (List PathBuf)
  pub symlinks : Option (List PathBuf)
  pub arch : Option Architecture
  pub orthogonal : Option Bool

pub record ResolvedInstallation (PathBuf : Type 0) : Type 0 where
  pub discovered : RInstallation PathBuf
  pub resolved : Option (RInstallation PathBuf)

-- An installation, and what was handed to the cache, if `add_to_cache` was called.
pub record Identified (PathBuf : Type 0) : Type 0 where
  pub installation : Option (RInstallation PathBuf)
  pub cached : Option (Option (List PathBuf))

unfoldable pub same_arch : Architecture → Architecture → Bool
same_arch Architecture.arm64 Architecture.arm64 = true
same_arch Architecture.x64 Architecture.x64 = true
same_arch Architecture.x86 Architecture.x86 = true
same_arch _ _ = false

module _ (L : PathLib) where
  open L use {PathBuf, order, file_name, parent}

  abbrev path_order : Ord PathBuf
  path_order = order

  -- `ends_with` of one name.
  unfoldable pub is_named : Text → PathBuf → Bool
  is_named name path = same_option ⦃e = text_eq⦄ (file_name path) (some name)

  unix_home : PathBuf → Option PathBuf
  unfolding is_named
  unix_home directory = if is_named (codes "bin") directory then parent directory else none

  infer_home : PathBuf → Option PathBuf
  unfolding is_named unix_home
  infer_home executable = elim (parent executable) [
    | none ↦ none
    | some directory ↦
        if any (λ arch. is_named arch directory)
          (codes "x64" ∷ codes "i386" ∷ codes "aarch64" ∷ codes "arm64" ∷ [])
        then elim (parent directory) [
          | none ↦ none
          | some bin ↦ if is_named (codes "bin") bin then parent bin else unix_home directory
        ]
        else unix_home directory
  ]

  -- `REnv::new`
  unfoldable pub new_env : PathBuf → Option PathBuf → Option Text → REnv PathBuf
  unfolding infer_home norm_case
  new_env executable home version = record {
    executable = norm_case executable;
    home = or_else (Option.map norm_case home) (infer_home (norm_case executable));
    version = version;
    known_executables = none;
    symlinks = none;
    arch = none;
    orthogonal = none;
  }

  unfoldable pub to_r_env : ResolvedRInstallation PathBuf → REnv PathBuf
  unfolding new_env
  to_r_env self = record (new_env self.executable (some self.home) (some self.version)) {
    known_executables = self.known_executables;
    symlinks = self.symlinks;
    arch = some self.arch;
    orthogonal = self.orthogonal;
  }

  -- The executables that the cache is told to track, or nothing and an error message. A missing
  -- home counts as the empty path, `empty`.
  unfoldable pub add_to_cache :
      PathBuf → ResolvedRInstallation PathBuf → RInstallation PathBuf → Option (List PathBuf)
  unfolding same_arch
  add_to_cache empty self installation =
      let known_executables = unwrap_or installation.known_executables [] in
      if contains ⦃o = order⦄ self.executable known_executables
        && (same_text (unwrap_or installation.version []) self.version
            && (same ⦃o = order⦄ (unwrap_or installation.home empty) self.home
                && elim installation.arch [ none ↦ false | some arch ↦ same_arch arch self.arch ]))
      then some known_executables
      else none

  -- `filter_map` and `reduce`, from the merge so far.
  unfoldable pub merge_found :
      Option (RInstallation PathBuf)
      → List (REnv PathBuf → Option (RInstallation PathBuf))
      → REnv PathBuf
      → Option (RInstallation PathBuf)
  merge_found existing [] env = existing
  merge_found existing (try_from ∷ locators) env = elim (try_from env) [
    | none ↦ merge_found existing locators env
    | some found ↦ elim existing [
      | none ↦ merge_found (some found) locators env
      | some merged ↦ merge_found (some (merge_installations L merged found)) locators env
    ]
  ]

  unfoldable pub identify_installation_without_resolution :
      REnv PathBuf
      → List (REnv PathBuf → Option (RInstallation PathBuf))
      → Option (RInstallation PathBuf)
  unfolding merge_found
  identify_installation_without_resolution env locators = merge_found none locators env

  unfoldable pub create_unknown_installation :
      ResolvedRInstallation PathBuf → Option RInstallationKind → RInstallation PathBuf
  create_unknown_installation resolved fallback_kind =
      let found =
        with_home L (some resolved.home)
          (with_executable L (some resolved.executable) (new L fallback_kind)) in
      let versioned =
        with_version L (some resolved.version) (with_orthogonal L resolved.orthogonal found) in
      let known =
        with_known_executables L resolved.known_executables
          (with_arch L (some resolved.arch) versioned) in
      build L (with_symlinks L resolved.symlinks known)

  -- The installation with what R said. resolve.rs has the same steps once more.
  unfoldable pub merge_resolved_installation :
      RInstallation PathBuf → ResolvedRInstallation PathBuf → RInstallation PathBuf
  merge_resolved_installation installation resolved =
      let symlinks =
        sort_dedup ⦃o = order⦄
          (unwrap_or installation.symlinks [] ++ unwrap_or resolved.symlinks []) in
      let known_executables = sort_dedup ⦃o = order⦄ (
        (unwrap_or installation.known_executables [] ++ resolved.executable ∷ [])
        ++ unwrap_or resolved.known_executables []) in
      let found =
        with_home L (some resolved.home)
          (with_executable L (some resolved.executable) (from_installation L installation)) in
      let versioned =
        with_version L (some resolved.version) (with_orthogonal L resolved.orthogonal found) in
      let known =
        with_known_executables L (some known_executables)
          (with_arch L (some resolved.arch) versioned) in
      build L (with_symlinks L (some symlinks) known)

  unfoldable pub mark_locator_discovery : RInstallation PathBuf → RInstallation PathBuf
  mark_locator_discovery installation =
      build L (add_discovery_source L DiscoverySource.locator (from_installation L installation))

  is_global : List PathBuf → PathBuf → Bool
  is_global global_search_paths executable = elim (parent executable) [
    | none ↦ false
    | some bin ↦ contains ⦃o = order⦄ bin global_search_paths
  ]

  unfoldable pub infer_fallback_kind :
      ResolvedRInstallation PathBuf → List PathBuf → Option RInstallationKind
  unfolding is_global
  infer_fallback_kind resolved global_search_paths =
      if any (is_global global_search_paths)
        (unwrap_or resolved.known_executables [] ++ resolved.executable ∷ [])
      then some RInstallationKind.global_paths
      else none

  unfoldable pub settle :
      PathBuf → ResolvedRInstallation PathBuf → RInstallation PathBuf → Identified PathBuf
  unfolding add_to_cache
  settle empty resolved installation = record {
    installation = some installation;
    cached = some (add_to_cache empty resolved installation);
  }

  -- What the locators know of an executable that R described.
  unfoldable pub choose :
      ResolvedRInstallation PathBuf
      → Option (RInstallation PathBuf)
      → Option (RInstallation PathBuf)
      → List PathBuf
      → RInstallation PathBuf
  unfolding merge_resolved_installation mark_locator_discovery create_unknown_installation
      infer_fallback_kind
  choose resolved (some again) discovered global_search_paths =
      mark_locator_discovery (merge_resolved_installation again resolved)
  choose resolved none (some discovered) global_search_paths =
      mark_locator_discovery (merge_resolved_installation discovered resolved)
  choose resolved none none global_search_paths =
      create_unknown_installation resolved (infer_fallback_kind resolved global_search_paths)

  unfoldable pub identify_r_installation_using_locators :
      PathBuf
      → REnv PathBuf
      → List (REnv PathBuf → Option (RInstallation PathBuf))
      → List PathBuf
      → (PathBuf → Option (ResolvedRInstallation PathBuf))
      → Identified PathBuf
  unfolding identify_installation_without_resolution to_r_env settle choose
  identify_r_installation_using_locators empty env locators global_search_paths resolve =
      let discovered = identify_installation_without_resolution env locators in
      elim (resolve env.executable) [
        | none ↦ record { installation = discovered; cached = none }
        | some resolved ↦ settle empty resolved (
            choose resolved (identify_installation_without_resolution (to_r_env resolved) locators)
              discovered global_search_paths)
      ]

  -- `infer_fallback_kind` of resolve.rs.
  unfoldable pub infer_kind_of_path : PathBuf → List PathBuf → Option RInstallationKind
  unfolding is_global
  infer_kind_of_path executable global_search_paths =
      if is_global global_search_paths executable then some RInstallationKind.global_paths else none

  unfoldable pub create_unknown_installation_from_raw :
      REnv PathBuf → List PathBuf → RInstallation PathBuf
  unfolding infer_kind_of_path
  create_unknown_installation_from_raw env global_search_paths =
      let found = with_home L env.home (
        with_executable L (some env.executable)
          (new L (infer_kind_of_path env.executable global_search_paths))) in
      build L (with_symlinks L env.symlinks (with_known_executables L env.known_executables found))

  -- The result, and what was handed to the cache.
  unfoldable pub resolve_info :
      PathBuf
      → REnv PathBuf
      → List (REnv PathBuf → Option (RInstallation PathBuf))
      → List PathBuf
      → Option (ResolvedRInstallation PathBuf)
      → Option (ResolvedInstallation PathBuf) × Option (Option (List PathBuf))
  unfolding identify_installation_without_resolution to_r_env add_to_cache
      merge_resolved_installation create_unknown_installation_from_raw
  resolve_info empty env locators global_search_paths none = (
    Option.map (λ discovered. record { discovered = discovered; resolved = none })
        (identify_installation_without_resolution env locators),
    none,
  )
  resolve_info empty env locators global_search_paths (some info) =
      let discovered =
        unwrap_or (identify_installation_without_resolution env locators)
          (create_unknown_installation_from_raw env global_search_paths) in
      let resolved_base =
        unwrap_or (identify_installation_without_resolution (to_r_env info) locators) discovered in
      let resolved = merge_resolved_installation resolved_base info in
      (
        some (record { discovered = discovered; resolved = some resolved }),
        some (add_to_cache empty info resolved),
      )

  -- A directory stands for its first executable, `find_executable`.
  unfoldable pub resolve_installation :
      PathBuf
      → (PathBuf → Bool)
      → (PathBuf → Option PathBuf)
      → PathBuf
      → List (REnv PathBuf → Option (RInstallation PathBuf))
      → List PathBuf
      → (PathBuf → Option (ResolvedRInstallation PathBuf))
      → Option (ResolvedInstallation PathBuf) × Option (Option (List PathBuf))
  unfolding new_env resolve_info
  resolve_installation empty is_dir find_executable executable locators global_search_paths
        resolve =
      elim (if is_dir executable then find_executable executable else some executable) [
        | none ↦ (none, none)
        | some found ↦
            resolve_info empty (new_env found none none) locators global_search_paths
              (resolve found)
      ]
