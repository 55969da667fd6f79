-- ===== src/Requests/Resolve.antt =====
-- What the resolve request of crates/ret/src/jsonrpc.rs replies and reports.
use r_environment_tools.Base.{
  ◌≡◌, refl, Bool, true, false, List, [], Option, none, some, same_self, contains, same_text_self,
  unwrap_or, if◌then◌else◌,
}
use r_environment_tools.Paths.{PathLib}
use r_environment_tools.Installation.{RInstallation}
use r_environment_tools.ProbeCache.{ResolvedRInstallation}
use r_environment_tools.Identify.{REnv, ResolvedInstallation, resolve_installation}
use r_environment_tools.Identify.Resolved.{Describes}
use r_environment_tools.Identify.Cached.{
  IsResolution, resolve_installation-IsResolution, same_arch_self,
}
use r_environment_tools.Requests.{
  InaccurateEnvironmentInfo, Response, replied, failed, is_true, differs, not_among, inaccuracy_of,
  detect_inaccurate_environment, handle_resolve,
}

module _ (L : PathLib) (canonicalize : L.PathBuf → Option L.PathBuf) where
  open L use {PathBuf, order}

  among :
      (executable : PathBuf) (known : Option (List PathBuf))
      → contains ⦃o = order⦄ executable (unwrap_or known []) ≡ true
      → is_true (not_among L canonicalize (some executable) known) ≡ false
  unfolding not_among
  among executable none h = refl
  among executable (some known) h = rw (h) refl

  -- Of two normal installations with the executable, home, version and architecture that R said,
  -- none is inaccurate.
  pub detect_inaccurate_environment-Describes :
      (info : ResolvedRInstallation PathBuf) (discovered resolved : RInstallation PathBuf)
      → Describes L info discovered
      → Describes L info resolved
      → detect_inaccurate_environment L canonicalize discovered resolved ≡ none
  unfolding detect_inaccurate_environment inaccuracy_of differs
  detect_inaccurate_environment-Describes info discovered resolved d r =
      rw
        (
          d.executable,
          r.executable,
          d.home,
          r.home,
          d.version,
          r.version,
          d.arch,
          r.arch,
          same_self ⦃o = order⦄ info.executable,
          same_self ⦃o = order⦄ info.home,
          same_text_self info.version,
          same_arch_self L info.arch,
          among info.executable resolved.known_executables
              (r.normal.executable_known info.executable r.executable),
        )
        refl

  -- With what R said, the reply describes it; without, no inaccuracy is reported.
  abbrev pub IsAnswer :
      Option (ResolvedRInstallation PathBuf)
      → Response (RInstallation PathBuf) × Option InaccurateEnvironmentInfo
      → Type 0
  IsAnswer none (response, telemetry) = telemetry ≡ none
  IsAnswer (some info) (failed, telemetry) = ⊥
  IsAnswer (some info) (replied r, telemetry) = Describes L info r

  answer :
      (info : Option (ResolvedRInstallation PathBuf))
      (result : Option (ResolvedInstallation PathBuf) × Option (Option (List PathBuf)))
      → IsResolution L info result
      → IsAnswer info (handle_resolve L canonicalize result.0)
  unfolding handle_resolve
  answer none (none, cached) h = refl
  answer none (some result, cached) h = rw (h.0, handle_resolve) refl
  answer (some info) (none, cached) h = h
  answer (some info) (some result, cached) h = rw (h.1, handle_resolve) (h.2)

  -- Where the executable is given, or is the first of a given directory: what R said of it is what
  -- the reply describes; and when R could not be asked, no inaccuracy is reported.
  pub handle_resolve-IsAnswer :
      (empty : PathBuf) (is_dir : PathBuf → Bool) (find_executable : PathBuf → Option PathBuf)
      (executable : PathBuf) (locators : List (REnv PathBuf → Option (RInstallation PathBuf)))
      (global_search_paths : List PathBuf)
      (resolve : PathBuf → Option (ResolvedRInstallation PathBuf)) (found : PathBuf)
      → (if is_dir executable then find_executable executable else some executable) ≡ some found
      → IsAnswer (resolve found) (
          handle_resolve L canonicalize
            (resolve_installation L empty is_dir find_executable executable locators
              global_search_paths resolve).0)
  handle_resolve-IsAnswer empty is_dir find_executable executable locators global_search_paths
        resolve found h =
      answer (resolve found) _ (
        resolve_installation-IsResolution L empty is_dir find_executable executable locators
          global_search_paths resolve found h)
