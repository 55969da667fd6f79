-- ===== src/RVersions.antt =====
-- crates/ret-rversions/src/lib.rs: the entries of an r-versions file, where the file is looked
-- for, and what is made of an entry.
pub mod Parse
pub mod Locate
use r_environment_tools.Base.{
  Bool, true, false, not, ◌&&◌, ◌||◌, List, [], ◌∷◌, ◌++◌, Option, none, some, Text, codes,
  same_text, starts_with, to_ascii_lowercase, is_some, is_empty, is_empty, any, find, map, or_else,
  unwrap_or, if◌then◌else◌, Ord, sort_dedup,
}
use mathlib.Core.Option
use r_environment_tools.Strings.{trim, split_once, lines}
use r_environment_tools.Installation.Builder.{non_empty}
use r_environment_tools.Shell.{quote_shell_argument}
use r_environment_tools.Installation.{RVersionsOverlay, RInstallationKind}

pub record RVersionsEntry (PathBuf : Type 0) : Type 0 where
  pub path : Option PathBuf
  pub label : Option Text
  pub named_module : Option Text
  pub script : Option Text
  pub repo : Option Text
  pub library : Option Text

-- The loop's state: the entry that is being read, and the entries read.
pub record Parser (PathBuf : Type 0) : Type 0 where
  pub current : RVersionsEntry PathBuf
  pub entries : List (RVersionsEntry PathBuf)

module _ {PathBuf : Type 0} where
  abbrev pub default_entry : RVersionsEntry PathBuf
  default_entry = record {
    path = none;
    label = none;
    named_module = none;
    script = none;
    repo = none;
    library = none;
  }

  abbrev pub has_any_fields : RVersionsEntry PathBuf → Bool
  has_any_fields entry =
      is_some entry.path
      || is_some entry.label
      || is_some entry.named_module
      || is_some entry.script
      || is_some entry.repo
      || is_some entry.library

  unfoldable pub finish_entry : Parser PathBuf → Parser PathBuf
  finish_entry self =
      if is_some self.current.path || is_some self.current.named_module
      then record self { current = default_entry; entries = self.entries ++ self.current ∷ [] }
      else if has_any_fields self.current
      then record self { current = default_entry }
      else self

-- `path_of` is `PathBuf::from`.
module _ {PathBuf : Type 0} (path_of : Text → PathBuf) where
  unfoldable pub set_field : Text → Text → RVersionsEntry PathBuf → RVersionsEntry PathBuf
  set_field key value current =
      if same_text key (codes "path")
      then record current { path = some (path_of value) }
      else if same_text key (codes "label")
      then record current { label = some value }
      else if same_text key (codes "module")
      then record current { named_module = some value }
      else if same_text key (codes "script")
      then record current { script = some value }
      else if same_text key (codes "repo")
      then record current { repo = some value }
      else if same_text key (codes "library")
      then record current { library = some value }
      else current

  abbrev bare_entry : Text → RVersionsEntry PathBuf
  bare_entry line = record default_entry { path = some (path_of line) }

  unfoldable pub field_line : Text → Option (Text × Text) → Parser PathBuf → Parser PathBuf
  unfolding finish_entry set_field
  field_line line none self =
      let finished = finish_entry self in
      record finished { entries = finished.entries ++ bare_entry line ∷ [] }
  field_line line (some (key, value)) self = record self {
    current = set_field (to_ascii_lowercase (trim key)) (trim value) self.current;
  }

  unfoldable pub parse_line : Text → Parser PathBuf → Parser PathBuf
  unfolding field_line
  parse_line line self =
      let trimmed_line = trim line in
      if is_empty trimmed_line
      then finish_entry self
      else if starts_with (codes "#") trimmed_line
      then self
      else field_line trimmed_line (split_once 58 trimmed_line) self

  unfoldable pub parse_lines : List Text → Parser PathBuf → Parser PathBuf
  unfolding parse_line
  parse_lines [] self = self
  parse_lines (line ∷ rest) self = parse_lines rest (parse_line line self)

  unfoldable pub parse_rversions_file : Text → List (RVersionsEntry PathBuf)
  unfolding parse_lines lines
  parse_rversions_file content =
      (parse_lines (lines content ++ [] ∷ [])
        (record { current = default_entry; entries = [] })).entries

-- `same_path` is `==` on paths, `is_file` the file system's test.
module _ {PathBuf : Type 0} (path_of : Text → PathBuf) (join : PathBuf → Text → PathBuf)
    (same_path : PathBuf → PathBuf → Bool) (is_file : PathBuf → Bool) where
  unfoldable pub unique : List PathBuf → List PathBuf → List PathBuf
  unique seen [] = seen
  unique seen (dir ∷ dirs) =
      if not (any (λ s. same_path s dir) seen)
      then unique (seen ++ dir ∷ []) dirs
      else unique seen dirs

  abbrev home_config : Option PathBuf → Option PathBuf → List PathBuf
  home_config (some config_home) user_home = config_home ∷ []
  home_config none (some home) = join home (codes ".config") ∷ []
  home_config none none = []

  abbrev shared_config : List PathBuf → List PathBuf
  shared_config [] = path_of (codes "/etc/xdg") ∷ []
  shared_config (dir ∷ dirs) = dir ∷ dirs

  unfoldable pub config_dirs : Option PathBuf → Option PathBuf → List PathBuf → List PathBuf
  config_dirs user_home xdg_config_home xdg_config_dirs =
      (home_config xdg_config_home user_home ++ shared_config xdg_config_dirs)
      ++ path_of (codes "/etc") ∷ []

  unfoldable pub find_rversions_file :
      Option PathBuf → Option PathBuf → List PathBuf → Option PathBuf
  unfolding unique config_dirs
  find_rversions_file user_home xdg_config_home xdg_config_dirs = find is_file (
      map (λ dir. join (join dir (codes "rstudio")) (codes "r-versions"))
        (unique [] (config_dirs user_home xdg_config_home xdg_config_dirs)))

module _ {PathBuf : Type 0} where
  unfoldable pub build_rversions_overlay :
      RVersionsEntry PathBuf → Option Text → Option RVersionsOverlay
  build_rversions_overlay entry module_startup_command =
      if is_some entry.label
        || is_some entry.script
        || is_some entry.repo
        || is_some entry.library
        || is_some entry.named_module
        || is_some module_startup_command
      then some (record {
        label = entry.label;
        script = entry.script;
        repo = entry.repo;
        library = entry.library;
        loaded_module = entry.named_module;
        module_startup_command = module_startup_command;
      })
      else none

  unfoldable pub infer_kind : (PathBuf → Bool) → PathBuf → PathBuf → RInstallationKind
  infer_kind looks_like_module_path executable home =
      if looks_like_module_path executable || looks_like_module_path home
      then RInstallationKind.environment_module
      else RInstallationKind.linux_global

  unfoldable pub merge_optional_paths :
      Option (List PathBuf) → Option (List PathBuf) → Option (List PathBuf)
  merge_optional_paths primary secondary =
      non_empty (unwrap_or primary [] ++ unwrap_or secondary [])

unfoldable pub combine_startup_command : Option Text → Option Text → Option Text
unfolding quote_shell_argument
combine_startup_command (some module_startup_command) (some script) =
    some (module_startup_command ++ (codes " && . " ++ quote_shell_argument script))
combine_startup_command (some module_startup_command) none = some module_startup_command
combine_startup_command none (some script) = some (codes ". " ++ quote_shell_argument script)
combine_startup_command none none = none
