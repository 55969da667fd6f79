-- ===== src/Identify/Cached.antt =====
-- What crates/ret/src/locators.rs and crates/ret/src/resolve.rs give, and hand to the cache, of an
-- executable that R described.
use r_environment_tools.Base.{
  ◌≡◌, refl, ap, inl, inr, Bool, true, List, [], Option, none, some, same_self, same_text_self,
  unwrap_or, Option-cases, if◌then◌else◌,
}
use r_environment_tools.Paths.{PathLib}
use r_environment_tools.Installation.{RInstallation, Architecture}
use r_environment_tools.ProbeCache.{ResolvedRInstallation}
use r_environment_tools.Identify.{
  REnv, Identified, ResolvedInstallation, same_arch, new_env, to_r_env, add_to_cache, settle,
  identify_installation_without_resolution, identify_r_installation_using_locators, resolve_info,
  resolve_installation, merge_resolved_installation, create_unknown_installation_from_raw,
}
use r_environment_tools.Identify.Resolved.{Describes, choose-Describes, merged-Describes}

module _ (L : PathLib) where
  open L use {PathBuf, order}

  pub same_arch_self : (a : Architecture) → same_arch a a ≡ true
  unfolding same_arch
  same_arch_self Architecture.arm64 = refl
  same_arch_self Architecture.x64 = refl
  same_arch_self Architecture.x86 = refl

  add_to_cache-Describes :
      (empty : PathBuf) (resolved : ResolvedRInstallation PathBuf) (r : RInstallation PathBuf)
      → Describes L resolved r
      → add_to_cache L empty resolved r ≡ some (unwrap_or r.known_executables [])
  unfolding add_to_cache
  add_to_cache-Describes empty resolved r d =
      rw
        (
          d.version,
          d.home,
          d.arch,
          same_text_self resolved.version,
          same_self ⦃o = order⦄ resolved.home,
          same_arch_self resolved.arch,
          d.normal.executable_known resolved.executable d.executable,
        )
        refl

  -- The installation describes what R said, and the cache is told all its executables.
  pub record IsSettled (resolved : ResolvedRInstallation PathBuf) (result : Identified PathBuf)
      : Type 0 where
    pub settled : RInstallation PathBuf
    pub given : result.installation ≡ some settled
    pub described : Describes L resolved settled
    pub tracked : result.cached ≡ some (some (unwrap_or settled.known_executables []))

  settle-IsSettled :
      (empty : PathBuf) (resolved : ResolvedRInstallation PathBuf) (r : RInstallation PathBuf)
      → Describes L resolved r
      → IsSettled resolved (settle L empty resolved r)
  unfolding settle
  settle-IsSettled empty resolved r d = record {
    settled = r;
    given = refl;
    described = d;
    tracked = ap some (add_to_cache-Describes empty resolved r d);
  }

  -- Whatever the locators know, an executable that R described is identified as a normal
  -- installation with the executable, home, version and architecture that R said, and the cache
  -- accepts it: it is told to track the installation's executables.
  pub identify_r_installation_using_locators-IsSettled :
      (empty : PathBuf) (env : REnv PathBuf)
      (locators : List (REnv PathBuf → Option (RInstallation PathBuf)))
      (global_search_paths : List PathBuf)
      (resolve : PathBuf → Option (ResolvedRInstallation PathBuf))
      (resolved : ResolvedRInstallation PathBuf)
      → resolve env.executable ≡ some resolved
      → IsSettled resolved
          (identify_r_installation_using_locators L empty env locators global_search_paths resolve)
  unfolding identify_r_installation_using_locators
  identify_r_installation_using_locators-IsSettled empty env locators global_search_paths resolve
        resolved h =
      rw (h, identify_r_installation_using_locators)
        (settle-IsSettled empty resolved _ (
          choose-Describes L resolved
            (identify_installation_without_resolution L (to_r_env L resolved) locators)
            (identify_installation_without_resolution L env locators) global_search_paths))

  -- With what R said there is a resolved installation that the cache accepts; without it there is
  -- no resolved installation, and the cache is not asked.
  abbrev pub IsResolution :
      Option (ResolvedRInstallation PathBuf)
      → Option (ResolvedInstallation PathBuf) × Option (Option (List PathBuf))
      → Type 0
  IsResolution none (none, cached) = cached ≡ none
  IsResolution none (some result, cached) = (result.resolved ≡ none) × (cached ≡ none)
  IsResolution (some info) (none, cached) = ⊥
  IsResolution (some info) (some result, cached) =
      (r : RInstallation PathBuf) × (result.resolved ≡ some r)
      × Describes L info r
      × (cached ≡ some (some (unwrap_or r.known_executables [])))

  resolve_info-IsResolution :
      (empty : PathBuf) (env : REnv PathBuf)
      (locators : List (REnv PathBuf → Option (RInstallation PathBuf)))
      (global_search_paths : List PathBuf) (info : Option (ResolvedRInstallation PathBuf))
      → IsResolution info (resolve_info L empty env locators global_search_paths info)
  unfolding resolve_info
  resolve_info-IsResolution empty env locators global_search_paths none =
      elim (Option-cases (identify_installation_without_resolution L env locators)) [
        | inl h ↦ rw (h) refl
        | inr (r, h) ↦ rw (h) (refl, refl)
      ]
  resolve_info-IsResolution empty env locators global_search_paths (some info) =
      let base = unwrap_or (identify_installation_without_resolution L (to_r_env L info) locators) (
        unwrap_or (identify_installation_without_resolution L env locators)
          (create_unknown_installation_from_raw L env global_search_paths)) in
      let described = merged-Describes L base info in
      (
        merge_resolved_installation L base info,
        refl,
        described,
        ap some
            (add_to_cache-Describes empty info (merge_resolved_installation L base info) described),
      )

  -- Where the executable is given, or is the first of a given directory: with what R said of it
  -- there is a resolved installation that describes it and that the cache accepts; otherwise there
  -- is none, and nothing is cached.
  pub resolve_installation-IsResolution :
      (empty : PathBuf) (is_dir : PathBuf → Bool) (find_executable : PathBuf → Option PathBuf)
      (executable : PathBuf) (locators : List (REnv PathBuf → Option (RInstallation PathBuf)))
      (global_search_paths : List PathBuf)
      (resolve : PathBuf → Option (ResolvedRInstallation PathBuf)) (found : PathBuf)
      → (if is_dir executable then find_executable executable else some executable) ≡ some found
      → IsResolution (resolve found) (
          resolve_installation L empty is_dir find_executable executable locators
            global_search_paths resolve)
  unfolding resolve_installation
  resolve_installation-IsResolution empty is_dir find_executable executable locators
        global_search_paths resolve found h =
      rw (h, resolve_installation)
        (resolve_info-IsResolution empty (new_env L found none none) locators global_search_paths
          (resolve found))
