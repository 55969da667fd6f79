-- ===== src/Tests/Discovery.antt =====
-- Installations over paths that are texts, ordered as lists.
use r_environment_tools.Base.{
  filter, ◌≡◌, refl, Bool, true, false, ◌&&◌, ◌||◌, ◌⊎◌, inl, inr, List, [], ◌∷◌, ◌++◌, Option,
  none, some, Text, codes, Ord, Eq, text_eq, ltb, ◌==◌, arith, Bool-cases, or_else, if◌then◌else◌,
}
use r_environment_tools.Paths.{PathLib}
use r_environment_tools.Installation.{
  RInstallationKind, RInstallation, EnvManager, EnvManagerType, Variables, conda_metadata,
  pixi_metadata,
}
use r_environment_tools.Installation.Builder.{build, new}
use r_environment_tools.Installation.Builder.Normal.{IsNormal, build-IsNormal}
use r_environment_tools.Installation.Merge.{
  merge_installations, preferred_installation, merge_environment_variables,
}
use r_environment_tools.Installation.Merge.Union.{
  IsUnion, merge_installations-IsUnion, preferred_installation-IsLargest,
}
use r_environment_tools.Installation.Merge.Environment.{
  lookup_in, merge_environment_variables-lookup,
}
use r_environment_tools.Reporter
use r_environment_tools.Tables
use r_environment_tools.Reporter.{InstallationKey, get_installation_key}
use r_environment_tools.Reporter.Keys.{key_eq}
use r_environment_tools.Reporter.Cache

unfoldable pub text_le : Text → Text → Bool
text_le [] t = true
text_le (c ∷ s) [] = false
text_le (c ∷ s) (d ∷ t) = ltb c d || ((c == d) && text_le s t)

pub text_total : (a b : Text) → (text_le a b ≡ true) ⊎ (text_le b a ≡ true)
unfolding text_le
text_total [] t = inl refl
text_total (c ∷ s) [] = inr refl
text_total (c ∷ s) (d ∷ t) = elim (text_total s t) [
  | inl h ↦ elim (Bool-cases (ltb c d || (c == d))) [
    | inl k ↦ inl (ground arith)
    | inr k ↦ inr (ground arith)
  ]
  | inr h ↦ elim (Bool-cases (ltb c d)) [ inl k ↦ inl (ground arith) | inr k ↦ inr (ground arith) ]
]

pub text_trans : (a b c : Text) → text_le a b ≡ true → text_le b c ≡ true → text_le a c ≡ true
unfolding text_le
text_trans [] b c h k = refl
text_trans (x ∷ a) [] c h k = cc
text_trans (x ∷ a) (y ∷ b) [] h k = cc
text_trans (x ∷ a) (y ∷ b) (z ∷ c) h k = ground (arith, text_trans a b c)

abbrev pub text_order : Ord Text
text_order = record { le = text_le; total = text_total; trans = text_trans }

-- The parts around the last slash.
abbrev pub last_slash : Text → Option (Text × Text)
last_slash [] = none
last_slash (c ∷ s) = elim (last_slash s) [
  | some parts ↦ some (c ∷ parts.0, parts.1)
  | none ↦ if c == 47 then some ([], s) else none
]

abbrev pub texts : PathLib
texts = record {
  PathBuf = Text;
  order = text_order;
  join = λ a b. a ++ (47 ∷ b);
  file_name = λ p. elim (last_slash p) [ some parts ↦ some (parts.1) | none ↦ some p ];
  to_text = λ p. p;
  with_file_name = λ p n. elim (last_slash p) [ some parts ↦ parts.0 ++ (47 ∷ n) | none ↦ n ];
  parent = λ p. elim (last_slash p) [ some parts ↦ some (parts.0) | none ↦ none ];
}

abbrev pub conda_builder : RInstallation Text
conda_builder = record (new texts (some RInstallationKind.conda)) {
  executable = some (codes "/c/R");
  known_executables = some (codes "/c/Rscript" ∷ codes "/c/R" ∷ []);
  version = some (codes "4");
  locator_metadata = some (conda_metadata (codes "/c"));
  environment_variables = some ((codes "A", codes "1") ∷ []);
}

abbrev pixi_builder : RInstallation Text
pixi_builder = record (new texts (some RInstallationKind.pixi)) {
  executable = some (codes "/p/R");
  home = some (codes "/p/lib");
  locator_metadata = some (pixi_metadata (codes "/p") none none);
  environment_variables = some ((codes "A", codes "2") ∷ (codes "B", codes "3") ∷ []);
}

abbrev pub conda : RInstallation Text
conda = build texts conda_builder

abbrev pixi : RInstallation Text
pixi = build texts pixi_builder

build-IsNormal_example : IsNormal texts conda
build-IsNormal_example = build-IsNormal texts conda_builder

merge_installations-IsUnion_example :
    IsNormal texts (merge_installations texts conda pixi)
    × IsUnion texts conda pixi (merge_installations texts conda pixi)
merge_installations-IsUnion_example =
    merge_installations-IsUnion texts conda pixi (build-IsNormal texts conda_builder)
      (build-IsNormal texts pixi_builder)

preferred_installation-IsLargest_example :
    preferred_installation conda_builder pixi_builder ≡ (pixi_builder, conda_builder)
preferred_installation-IsLargest_example =
    preferred_installation-IsLargest conda_builder pixi_builder

abbrev one_variable : Option Variables
one_variable = some ((codes "A", codes "1") ∷ [])

abbrev two_variables : Option Variables
two_variables = some ((codes "A", codes "2") ∷ (codes "B", codes "3") ∷ [])

merge_environment_variables-lookup_example :
    lookup_in (codes "A") (merge_environment_variables one_variable two_variables)
    ≡ or_else (lookup_in (codes "A") one_variable) (lookup_in (codes "A") two_variables)
merge_environment_variables-lookup_example =
    merge_environment_variables-lookup (codes "A") one_variable two_variables (refl, tt)

instance abbrev text_equality : Eq Text
text_equality = text_eq

-- Variables are ordered by name.
name_total : (a b : Text × Text) → (text_le a.0 b.0 ≡ true) ⊎ (text_le b.0 a.0 ≡ true)
name_total a b = text_total a.0 b.0

name_trans :
    (a b c : Text × Text) → text_le a.0 b.0 ≡ true → text_le b.0 c.0 ≡ true → text_le a.0 c.0 ≡ true
name_trans a b c h k = text_trans a.0 b.0 c.0 h k

abbrev variable_order : Ord (Text × Text)
variable_order = record { le = λ a b. text_le a.0 b.0; total = name_total; trans = name_trans }

-- The key where no path can be made canonical.
abbrev key_of : RInstallation Text → Option (InstallationKey Text)
key_of = get_installation_key texts (λ p. none) variable_order

abbrev keep_first : RInstallation Text → RInstallation Text → RInstallation Text
keep_first known r = merge_installations texts known r

abbrev reports : List (RInstallation Text)
reports = conda_builder ∷ pixi_builder ∷ conda_builder ∷ []

conda_key : InstallationKey Text
conda_key = record {
  home = none;
  launch_directory = some (codes "/c");
  launcher_name = some (codes "R");
  architecture = none;
  startup = none;
  environment = (codes "A", codes "1") ∷ [];
}

report_all-lookup_example :
    Tables.lookup conda_key
      (Reporter.report_all key_of keep_first reports Reporter.new).reported_installations
    ≡ Reporter.Cache.merged key_of keep_first
        (Tables.lookup conda_key (Reporter.new {PathBuf = Text}).reported_installations)
        (filter (Reporter.Cache.has_key key_of keep_first conda_key) reports)
report_all-lookup_example =
    Reporter.Cache.report_all-lookup key_of keep_first conda_key reports Reporter.new

report_all-firsts_example :
    (Reporter.report_all key_of keep_first reports Reporter.new).installations_sent
    ≡ Reporter.Cache.firsts key_of keep_first [] reports
report_all-firsts_example = Reporter.Cache.report_all-firsts key_of keep_first reports Reporter.new

abbrev conda_manager : EnvManager Text
conda_manager = record { executable = codes "/conda"; version = none; tool = EnvManagerType.conda }
