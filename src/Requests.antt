-- ===== src/Requests.antt =====
-- The find and resolve requests of crates/ret/src/jsonrpc.rs, with the reports of
-- `identify_r_executables_using_locators` of crates/ret/src/find.rs.
pub mod Threads
pub mod Find
pub mod Resolve
use r_environment_tools.Base.{
  ℕ, map, ◌≡◌, Bool, true, false, not, ◌&&◌, ◌||◌, List, [], ◌∷◌, ◌++◌, Option, none, some, Text,
  Ord, Eq, any, same, contains, same_text, is_empty, or_else, unwrap_or, if◌then◌else◌,
}
use mathlib.Core.Option
use r_environment_tools.Paths.{PathLib, FileTree}
use r_environment_tools.Search.{batches_to_search}
use r_environment_tools.Executables.{find_executables}
use r_environment_tools.Installation.{
  RInstallation, RInstallationKind, DiscoverySource, EnvManager, Architecture, source_order,
}
use r_environment_tools.Installation.Builder.{build, from_installation, add_discovery_source}
use r_environment_tools.Installation.Merge.{merge_installations}
use r_environment_tools.ProbeCache.{ResolvedRInstallation}
use r_environment_tools.Identify.{
  REnv, ResolvedInstallation, same_arch, new_env, identify_r_installation_using_locators,
}
use r_environment_tools.Reporter
use r_environment_tools.Reporter.{
  CacheReporter, report_manager, report_installation, get_installations,
}

pub record InaccurateEnvironmentInfo : Type 0 where
  pub kind : Option RInstallationKind
  pub invalid_executable : Option Bool
  pub executable_not_in_symlinks : Option Bool
  pub invalid_prefix : Option Bool
  pub invalid_version : Option Bool
  pub invalid_arch : Option Bool

-- `send_reply` with a payload, or `send_error`.
pub data Response (A : Type 0) : Type 0 where
  replied : A → Response A
  failed : Response A

-- `==` of options, from that of their values.
abbrev pub same_with {ℓ} : {A : Type ℓ} → (A → A → Bool) → Option A → Option A → Bool
same_with eq none none = true
same_with eq (some a) (some b) = eq a b
same_with eq _ _ = false

abbrev pub is_true : Option Bool → Bool
is_true none = false
is_true (some b) = b

module _ (L : PathLib) (canonicalize : L.PathBuf → Option L.PathBuf) where
  open L use {PathBuf, order}

  abbrev same_path : PathBuf → PathBuf → Bool
  same_path = same ⦃o = order⦄

  -- Whether the homes are different directories, as far as one can tell.
  unfoldable pub differs : PathBuf → Option PathBuf → Bool
  differs home none = true
  differs home (some resolved_home) =
      if same_path home resolved_home then false else elim (canonicalize home) [
        | none ↦ true
        | some a ↦ elim (canonicalize resolved_home) [ none ↦ true | some b ↦ not (same_path a b) ]
      ]

  unfoldable pub not_among : Option PathBuf → Option (List PathBuf) → Option Bool
  not_among (some executable) (some known_executables) =
      some (not (contains ⦃o = order⦄ executable known_executables))
  not_among _ _ = none

  unfoldable pub inaccuracy_of :
      RInstallation PathBuf → RInstallation PathBuf → InaccurateEnvironmentInfo
  unfolding differs not_among
  inaccuracy_of discovered resolved = record {
    kind = or_else resolved.kind discovered.kind;
    invalid_executable =
        Option.map (λ _. not (same_with same_path discovered.executable resolved.executable))
          discovered.executable;
    executable_not_in_symlinks = not_among discovered.executable resolved.known_executables;
    invalid_prefix = Option.map (λ home. differs home resolved.home) discovered.home;
    invalid_version =
        Option.map (λ _. not (same_with same_text discovered.version resolved.version))
          discovered.version;
    invalid_arch =
        Option.map (λ _. not (same_with same_arch discovered.arch resolved.arch)) discovered.arch;
  }

  unfoldable pub detect_inaccurate_environment :
      RInstallation PathBuf → RInstallation PathBuf → Option InaccurateEnvironmentInfo
  unfolding inaccuracy_of
  detect_inaccurate_environment discovered resolved =
      let inaccuracy = inaccuracy_of discovered resolved in
      if any is_true (
        inaccuracy.invalid_executable ∷ inaccuracy.executable_not_in_symlinks
        ∷ inaccuracy.invalid_prefix ∷ inaccuracy.invalid_version ∷ inaccuracy.invalid_arch ∷ [])
      then some inaccuracy
      else none

  -- The closure of `handle_resolve`, from what `resolve_installation` gave: the response, and the
  -- telemetry that was reported.
  unfoldable pub handle_resolve :
      Option (ResolvedInstallation PathBuf)
      → Response (RInstallation PathBuf) × Option InaccurateEnvironmentInfo
  unfolding detect_inaccurate_environment
  handle_resolve none = (failed, none)
  handle_resolve (some result) = elim result.resolved [
    | none ↦ (replied result.discovered, none)
    | some resolved ↦ (replied resolved, detect_inaccurate_environment result.discovered resolved)
  ]

unfoldable pub build_find_response {ℓ} : {A : Type ℓ} → List A → Option (List A)
build_find_response installations = if is_empty installations then none else some installations

module _ (L : PathLib) where
  open L use {PathBuf}

  -- What `identify_r_executables_using_locators` reports of an executable.
  unfoldable pub found_at :
      PathBuf
      → List (REnv PathBuf → Option (RInstallation PathBuf))
      → List PathBuf
      → (PathBuf → Option (ResolvedRInstallation PathBuf))
      → Option DiscoverySource
      → PathBuf
      → Option (RInstallation PathBuf)
  unfolding identify_r_installation_using_locators new_env
  found_at empty locators global_search_paths resolve discovery_source executable =
      Option.map
        (λ installation. elim discovery_source [
          | none ↦ installation
          | some source ↦ build L (add_discovery_source L source (from_installation L installation))
        ])
        (identify_r_installation_using_locators L empty (new_env L executable none none) locators
          global_search_paths resolve).installation

  -- The installations of executables that are identified.
  unfoldable pub found_all :
      (PathBuf → Option (RInstallation PathBuf)) → List PathBuf → List (RInstallation PathBuf)
  found_all found [] = []
  found_all found (executable ∷ executables) = elim (found executable) [
    | none ↦ found_all found executables
    | some installation ↦ installation ∷ found_all found executables
  ]

  module _ {Key : Type 0} ⦃e : Eq Key⦄ ⦃d : Eq PathBuf⦄
      (key_of : RInstallation PathBuf → Option Key) where
    abbrev pub report_option :
        Option (EnvManager PathBuf) → CacheReporter PathBuf Key → CacheReporter PathBuf Key
    report_option none reporter = reporter
    report_option (some manager) reporter = report_manager manager reporter

    -- The manager first, if there is one.
    unfoldable pub report_found :
        RInstallation PathBuf → CacheReporter PathBuf Key → CacheReporter PathBuf Key
    unfolding report_installation
    report_found installation reporter =
        report_installation key_of (merge_installations L) installation
          (report_option installation.manager reporter)

    -- The loop over the executables. The threads of a batch share the reporter; `executables` are
    -- all of them, in the order in which their installations are reported.
    unfoldable pub identify_r_executables_using_locators :
        (PathBuf → Option (RInstallation PathBuf))
        → List PathBuf
        → CacheReporter PathBuf Key
        → CacheReporter PathBuf Key
    unfolding report_found
    identify_r_executables_using_locators found [] reporter = reporter
    identify_r_executables_using_locators found (executable ∷ executables) reporter =
        elim (found executable) [
          | none ↦ identify_r_executables_using_locators found executables reporter
          | some installation ↦
              identify_r_executables_using_locators found executables
                (report_found installation reporter)
        ]

    -- The paths of a batch are searched in a thread each, and the threads share the reporter:
    -- `schedule` gives the order in which the executables of the threads are reported. All threads
    -- have ended when the batch has.
    module _ (tree : FileTree PathBuf) (schedule : List (List PathBuf) → List PathBuf) where
      unfoldable pub find_r_installations_in_paths :
          (PathBuf → Option (RInstallation PathBuf))
          → List PathBuf
          → CacheReporter PathBuf Key
          → CacheReporter PathBuf Key
      unfolding identify_r_executables_using_locators find_executables
      find_r_installations_in_paths found paths reporter =
          if is_empty paths
          then reporter
          else identify_r_executables_using_locators found
              (schedule (map (find_executables L tree) paths)) reporter

      unfoldable pub find_r_installations_in_batches :
          (PathBuf → Option (RInstallation PathBuf))
          → List (List PathBuf)
          → CacheReporter PathBuf Key
          → CacheReporter PathBuf Key
      unfolding find_r_installations_in_paths
      find_r_installations_in_batches found [] reporter = reporter
      find_r_installations_in_batches found (paths ∷ batches) reporter =
          find_r_installations_in_batches found batches
            (find_r_installations_in_paths found paths reporter)

      unfoldable pub find_r_installations_in_directory_recursive :
          ℕ
          → (PathBuf → Option (RInstallation PathBuf))
          → PathBuf
          → CacheReporter PathBuf Key
          → Option (CacheReporter PathBuf Key)
      unfolding find_r_installations_in_batches batches_to_search
      find_r_installations_in_directory_recursive fuel found directory reporter =
          Option.map (λ batches. find_r_installations_in_batches found batches reporter)
            (batches_to_search L tree fuel directory)

      -- The closure of `handle_find`: its reply, if the fuel of the search is enough. Both branches
      -- report what they find as an explicit search.
      unfoldable pub handle_find :
          ℕ
          → Ord (RInstallation PathBuf)
          → PathBuf
          → List (REnv PathBuf → Option (RInstallation PathBuf))
          → List PathBuf
          → (PathBuf → Option (ResolvedRInstallation PathBuf))
          → PathBuf
          → Option (Option (List (RInstallation PathBuf)))
      unfolding found_at find_r_installations_in_directory_recursive build_find_response
          get_installations
      handle_find fuel order empty locators global_search_paths resolve search_path =
          let found =
            found_at empty locators global_search_paths resolve
              (some DiscoverySource.explicit_search) in
          Option.map (λ reporter. build_find_response (get_installations order reporter))
            (if tree.is_file search_path
              then some
                  (identify_r_executables_using_locators found (search_path ∷ []) Reporter.new)
              else find_r_installations_in_directory_recursive fuel found search_path Reporter.new)
