-- ===== src/Identify/Resolved.antt =====
-- What the installations that are identified in crates/ret/src/locators.rs and
-- crates/ret/src/resolve.rs have to do with what R said.
use r_environment_tools.Base.{
  ◌≡◌, refl, subst, inl, inr, Bool, ◌||◌, List, [], ◌∷◌, Option, none, some, All, any, is_some,
  contains, Bool-cases, Option-cases, arith,
}
use r_environment_tools.Paths.{PathLib, norm_case}
use r_environment_tools.Installation.{
  RInstallation, RInstallationKind, DiscoverySource, source_order,
}
use r_environment_tools.Installation.Builder.{build}
use r_environment_tools.Installation.Builder.Normal.{IsNormal, build-IsNormal}
use r_environment_tools.Installation.Merge.{merge_installations}
use r_environment_tools.ProbeCache.{ResolvedRInstallation}
use r_environment_tools.Identify.{
  REnv, merge_found, identify_installation_without_resolution, create_unknown_installation,
  merge_resolved_installation, mark_locator_discovery, choose, infer_fallback_kind,
}

module _ (L : PathLib) where
  open L use {PathBuf, order}

  -- The installation is normal and has what R said.
  pub record Describes (resolved : ResolvedRInstallation PathBuf) (r : RInstallation PathBuf)
      : Type 0 where
    pub normal : IsNormal L r
    pub executable : r.executable ≡ some resolved.executable
    pub home : r.home ≡ some resolved.home
    pub version : r.version ≡ some resolved.version
    pub arch : r.arch ≡ some resolved.arch

  unknown-IsNormal :
      (resolved : ResolvedRInstallation PathBuf) (kind : Option RInstallationKind)
      → IsNormal L (create_unknown_installation L resolved kind)
  unfolding create_unknown_installation
  unknown-IsNormal resolved kind = build-IsNormal L _

  merged-IsNormal :
      (r : RInstallation PathBuf) (resolved : ResolvedRInstallation PathBuf)
      → IsNormal L (merge_resolved_installation L r resolved)
  unfolding merge_resolved_installation
  merged-IsNormal r resolved = build-IsNormal L _

  marked-IsNormal : (r : RInstallation PathBuf) → IsNormal L (mark_locator_discovery L r)
  unfolding mark_locator_discovery
  marked-IsNormal r = build-IsNormal L _

  merge_installations-IsNormal :
      (r s : RInstallation PathBuf) → IsNormal L (merge_installations L r s)
  unfolding merge_installations
  merge_installations-IsNormal r s = build-IsNormal L _

  unknown-Describes :
      (resolved : ResolvedRInstallation PathBuf) (kind : Option RInstallationKind)
      → Describes resolved (create_unknown_installation L resolved kind)
  unfolding create_unknown_installation build norm_case
  unknown-Describes resolved kind = record {
    normal = unknown-IsNormal resolved kind;
    executable = refl;
    home = refl;
    version = refl;
    arch = refl;
  }

  pub merged-Describes :
      (r : RInstallation PathBuf) (resolved : ResolvedRInstallation PathBuf)
      → Describes resolved (merge_resolved_installation L r resolved)
  unfolding merge_resolved_installation build norm_case
  merged-Describes r resolved = record {
    normal = merged-IsNormal r resolved;
    executable = refl;
    home = refl;
    version = refl;
    arch = refl;
  }

  marked-Describes :
      (resolved : ResolvedRInstallation PathBuf) (r : RInstallation PathBuf)
      → Describes resolved r
      → Describes resolved (mark_locator_discovery L r)
  unfolding mark_locator_discovery build
  marked-Describes resolved r d =
      elim (Bool-cases (contains DiscoverySource.locator r.discovered_by)) [
        | inl h ↦ record {
          normal = marked-IsNormal r;
          executable = rw (h) d.executable;
          home = rw (h) d.home;
          version = rw (h) d.version;
          arch = rw (h) d.arch;
        }
        | inr h ↦ record {
          normal = marked-IsNormal r;
          executable = rw (h) d.executable;
          home = rw (h) d.home;
          version = rw (h) d.version;
          arch = rw (h) d.arch;
        }
      ]

  pub choose-Describes :
      (resolved : ResolvedRInstallation PathBuf) (again discovered : Option (RInstallation PathBuf))
      (global_search_paths : List PathBuf)
      → Describes resolved (choose L resolved again discovered global_search_paths)
  unfolding choose
  choose-Describes resolved (some r) discovered paths =
      marked-Describes resolved (merge_resolved_installation L r resolved)
        (merged-Describes r resolved)
  choose-Describes resolved none (some r) paths =
      marked-Describes resolved (merge_resolved_installation L r resolved)
        (merged-Describes r resolved)
  choose-Describes resolved none none paths =
      unknown-Describes resolved (infer_fallback_kind L resolved paths)

  -- Whether a locator of the list knows the environment.
  abbrev pub is_known : List (REnv PathBuf → Option (RInstallation PathBuf)) → REnv PathBuf → Bool
  is_known locators env = any (λ try_from. is_some (try_from env)) locators

  abbrev pub AllNormal : Option (RInstallation PathBuf) → Type 0
  AllNormal none = Unit
  AllNormal (some r) = IsNormal L r

  merge_found_lem :
      (existing : Option (RInstallation PathBuf))
      (locators : List (REnv PathBuf → Option (RInstallation PathBuf))) (env : REnv PathBuf)
      → AllNormal existing
      → All (λ try_from. AllNormal (try_from env)) locators
      → (is_some (merge_found L existing locators env)
          ≡ (is_some existing || is_known locators env))
        × AllNormal (merge_found L existing locators env)
  unfolding merge_found
  merge_found_lem existing [] env h k = (ground arith, h)
  merge_found_lem none (try_from ∷ locators) env h k = elim (Option-cases (try_from env)) [
    | inl n ↦ rw (n, merge_found) (merge_found_lem none locators env h k.1)
    | inr (found, n) ↦
        rw (n, merge_found) (merge_found_lem (some found) locators env (subst AllNormal n k.0) k.1)
  ]
  merge_found_lem (some r) (try_from ∷ locators) env h k = elim (Option-cases (try_from env)) [
    | inl n ↦ rw (n, merge_found) (merge_found_lem (some r) locators env h k.1)
    | inr (found, n) ↦
        rw (n, merge_found)
          (merge_found_lem (some (merge_installations L r found)) locators env
            (merge_installations-IsNormal r found) k.1)
  ]

  -- Locators that give normal installations give, together, a normal installation, exactly if one
  -- of them knows the environment.
  pub identify_installation_without_resolution-IsNormal :
      (locators : List (REnv PathBuf → Option (RInstallation PathBuf))) (env : REnv PathBuf)
      → All (λ try_from. AllNormal (try_from env)) locators
      → (is_some (identify_installation_without_resolution L env locators) ≡ is_known locators env)
        × AllNormal (identify_installation_without_resolution L env locators)
  unfolding identify_installation_without_resolution
  identify_installation_without_resolution-IsNormal locators env k =
      merge_found_lem none locators env tt k
