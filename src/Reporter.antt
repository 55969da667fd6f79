-- ===== src/Reporter.antt =====
-- crates/ret-reporter/src/cache.rs, with `get_installation_key` of src/installation.rs: the
-- reporter that passes on the first report of each installation and manager, and merges the rest.
pub mod Keys
pub mod Cache
pub mod Managers
use r_environment_tools.Base.{
  ◌≡◌, Bool, true, false, ◌&&◌, ◌||◌, List, [], ◌∷◌, ◌++◌, map, Option, none, some, Text, codes,
  same_text, Ord, sort, to_ascii_lowercase, is_some, not, and_then, unwrap_or, if◌then◌else◌, Eq,
  option_eq, list_eq, text_eq,
}
use mathlib.Core.Option
use r_environment_tools.Tables.{Table, lookup, store, values}
use r_environment_tools.Paths.{PathLib}
use r_environment_tools.Installation.{RInstallation, EnvManager, Variables}
use r_environment_tools.Installation.Arch.{as_serialized_str}
use r_environment_tools.Installation.Merge.{merge_installations}

pub record InstallationKey (PathBuf : Type 0) : Type 0 where
  pub home : Option PathBuf
  pub launch_directory : Option PathBuf
  pub launcher_name : Option Text
  pub architecture : Option Text
  pub startup : Option Text
  pub environment : Variables

-- The launcher's name: R and Rscript are one.
unfoldable pub launcher_of : Text → Text
launcher_of name =
    let lower = to_ascii_lowercase name in
    if same_text lower (codes "r")
      || same_text lower (codes "r.exe")
      || same_text lower (codes "rscript")
      || same_text lower (codes "rscript.exe")
    then codes "R"
    else name

-- `canonicalize` is the file system's, with the path itself where that fails, and
-- `variable_order` is the derived order of `(String, String)`.
module _ (L : PathLib) where
  open L use {PathBuf, file_name, parent}

  module _ (canonicalize : PathBuf → Option PathBuf) (variable_order : Ord (Text × Text)) where
    canonical : PathBuf → PathBuf
    canonical path = unwrap_or (canonicalize path) path

    unfoldable pub get_installation_key : RInstallation PathBuf → Option (InstallationKey PathBuf)
    unfolding canonical launcher_of
    get_installation_key installation =
        let launcher = Option.map canonical installation.executable in
        let key : InstallationKey PathBuf = record {
          home = Option.map canonical installation.home;
          launch_directory = and_then launcher parent;
          launcher_name = Option.map launcher_of (and_then launcher file_name);
          architecture = Option.map as_serialized_str installation.arch;
          startup = installation.startup_command;
          environment = sort ⦃o = variable_order⦄ (unwrap_or installation.environment_variables []);
        } in
        if not (is_some installation.home) && not (is_some installation.executable)
        then none
        else some key

-- The reporter behind the cache, as the reports that it was given, oldest first.
pub record CacheReporter (PathBuf Key : Type 0) : Type 0 where
  pub managers_sent : List (EnvManager PathBuf)
  pub installations_sent : List (RInstallation PathBuf)
  pub reported_managers : Table PathBuf (EnvManager PathBuf)
  pub reported_installations : Table Key (RInstallation PathBuf)

module _ {PathBuf Key : Type 0} where
  abbrev pub new : CacheReporter PathBuf Key
  new = record {
    managers_sent = [];
    installations_sent = [];
    reported_managers = [];
    reported_installations = [];
  }

module _ {PathBuf Key : Type 0} ⦃d : Eq PathBuf⦄ where
  -- The test under the read lock, then again under the write lock.
  unfoldable pub report_manager :
      EnvManager PathBuf → CacheReporter PathBuf Key → CacheReporter PathBuf Key
  unfolding lookup store
  report_manager manager self =
      if is_some (lookup manager.executable self.reported_managers)
      then self
      else if not (is_some (lookup manager.executable self.reported_managers))
      then record self {
        reported_managers = store manager.executable manager self.reported_managers;
        managers_sent = self.managers_sent ++ manager ∷ [];
      }
      else self

  unfoldable pub report_managers :
      List (EnvManager PathBuf) → CacheReporter PathBuf Key → CacheReporter PathBuf Key
  unfolding report_manager
  report_managers [] self = self
  report_managers (m ∷ ms) self = report_managers ms (report_manager m self)

-- `key_of` is `get_installation_key`, `merge` is `merge_installations`.
module _ {PathBuf Key : Type 0} ⦃e : Eq Key⦄ (key_of : RInstallation PathBuf → Option Key)
    (merge : RInstallation PathBuf → RInstallation PathBuf → RInstallation PathBuf) where
  report_under :
      Option Key → RInstallation PathBuf → CacheReporter PathBuf Key → CacheReporter PathBuf Key
  unfolding lookup store
  report_under none installation self = self
  report_under (some key) installation self = elim (lookup key self.reported_installations) [
    | some existing ↦ record self {
      reported_installations = store key (merge existing installation) self.reported_installations;
    }
    | none ↦ record self {
      reported_installations = store key installation self.reported_installations;
      installations_sent = self.installations_sent ++ installation ∷ [];
    }
  ]

  unfoldable pub report_installation :
      RInstallation PathBuf → CacheReporter PathBuf Key → CacheReporter PathBuf Key
  unfolding report_under
  report_installation installation self = report_under (key_of installation) installation self

  unfoldable pub report_all :
      List (RInstallation PathBuf) → CacheReporter PathBuf Key → CacheReporter PathBuf Key
  unfolding report_installation
  report_all [] self = self
  report_all (r ∷ rs) self = report_all rs (report_installation r self)

module _ {PathBuf Key : Type 0} where
  unfoldable pub get_installations :
      Ord (RInstallation PathBuf) → CacheReporter PathBuf Key → List (RInstallation PathBuf)
  get_installations order self = sort ⦃o = order⦄ (values self.reported_installations)

  unfoldable pub get_managers :
      Ord (EnvManager PathBuf) → CacheReporter PathBuf Key → List (EnvManager PathBuf)
  get_managers order self = sort ⦃o = order⦄ (values self.reported_managers)
