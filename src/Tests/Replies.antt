-- ===== src/Tests/Replies.antt =====
-- The replies to find and resolve requests.
use r_environment_tools.Base.{
  ◌≡◌, inl, refl, true, false, List, [], ◌∷◌, Option, none, some, Text, codes, same_text, text_eq,
  Ord, filter, sort, sort_dedup, contains, to_ascii_lowercase, is_empty, if◌then◌else◌,
}
use r_environment_tools.Tables.{Table, lookup, values}
use r_environment_tools.Tables.Laws.{IsDistinct}
use r_environment_tools.Installation.{RInstallation, DiscoverySource}
use r_environment_tools.Installation.Builder.{build}
use r_environment_tools.Installation.Merge.{merge_installations}
use r_environment_tools.Reporter.Cache.{merged, has_key}
use r_environment_tools.Identify.{resolve_installation}
use r_environment_tools.Requests.{found_at, found_all, handle_find, handle_resolve}
use r_environment_tools.Requests.Find.{handle_find_lem, IsSearched}
use r_environment_tools.Requests.Threads.{Interleaves-concat}
use r_environment_tools.Search.Bounded.{concat}
use r_environment_tools.Requests.Resolve.{IsAnswer, handle_resolve-IsAnswer}
use r_environment_tools.Paths.{norm_case}
use r_environment_tools.ProbeCache.{ResolvedRInstallation}
use r_environment_tools.Identify.{REnv, new_env}
use r_environment_tools.RVersions.{RVersionsEntry}
use r_environment_tools.RVersions.Locate.{
  resolve_entry, load_entries, try_from, build_installation_from_env, ResolvedRVersionsEntry,
}
use r_environment_tools.RVersions.Locate.Plain.{IsPlain, try_from-IsPlain}
use r_environment_tools.Tests.Discovery.{texts, text_le}
use r_environment_tools.Tests.Searches.{described, resolve, locators, is_directory, tree, collected}

abbrev as_reported : Ord (RInstallation Text)
as_reported = record { le = λ a b. true; total = λ a b. inl refl; trans = λ a b c h k. refl }

abbrev found : Text → Option (RInstallation Text)
found = found_at texts [] locators [] resolve (some DiscoverySource.explicit_search)

-- The executable is the key.
abbrev executable_of : RInstallation Text → Option Text
executable_of r = r.executable

find_run :
    handle_find texts ⦃e = text_eq⦄ ⦃d = text_eq⦄ executable_of tree concat 10 as_reported []
      locators [] resolve
      (codes "/w")
    ≡ some (some (found_all texts found (codes "/w/a/R" ∷ [])))
unfolding handle_find same_text contains sort text_le sort_dedup to_ascii_lowercase build found_all
find_run = refl

handle_find_lem_example :
    (executables : List Text) × IsSearched texts ⦃e = text_eq⦄ ⦃d = text_eq⦄ executable_of tree
      concat Interleaves-concat
      (codes "/w")
      (codes "/w" ∷ codes "/w/a" ∷ [])
      executables
    × (table : Table Text (RInstallation Text)) × IsDistinct ⦃e = text_eq⦄ table
    × ((k : Text)
        → lookup ⦃e = text_eq⦄ k table
          ≡ merged ⦃e = text_eq⦄ executable_of (merge_installations texts) none (
              filter
                (has_key ⦃e = text_eq⦄ executable_of (merge_installations texts) k)
                (found_all texts found executables)))
    × (handle_find texts ⦃e = text_eq⦄ ⦃d = text_eq⦄ executable_of tree concat 10 as_reported []
          locators [] resolve
          (codes "/w")
        ≡ some (
            if is_empty (sort ⦃o = as_reported⦄ (values table))
            then none
            else some (sort ⦃o = as_reported⦄ (values table))))
handle_find_lem_example =
    handle_find_lem texts ⦃e = text_eq⦄ ⦃d = text_eq⦄ executable_of tree concat Interleaves-concat
      10 as_reported [] locators [] resolve (codes "/w") (codes "/w" ∷ codes "/w/a" ∷ []) collected

handle_resolve-IsAnswer_example :
    IsAnswer texts
      (λ p. some p)
      (resolve (codes "/w/a/R"))
      (handle_resolve texts
        (λ p. some p)
        (resolve_installation texts [] is_directory
          (λ p. some (codes "/w/a/R"))
          (codes "/w/a")
          locators
          []
          resolve).0)
unfolding same_text
handle_resolve-IsAnswer_example =
    handle_resolve-IsAnswer texts (λ p. some p) [] is_directory (λ p. some (codes "/w/a/R"))
      (codes "/w/a") locators [] resolve (codes "/w/a/R") refl

-- A versions file with a module and a plain path, where there is no `modulecmd`.
abbrev module_entry : RVersionsEntry Text
module_entry = record {
  path = none;
  label = none;
  named_module = some (codes "R/4");
  script = none;
  repo = none;
  library = none;
}

abbrev path_entry : RVersionsEntry Text
path_entry = record module_entry { path = some (codes "/w/a"); named_module = none }

abbrev versions : List (RVersionsEntry Text)
versions = module_entry ∷ path_entry ∷ []

abbrev in_shell : Option Text → Text → Option (ResolvedRInstallation Text)
in_shell executable startup = some described

abbrev loaded : List (ResolvedRVersionsEntry Text)
loaded =
    load_entries texts (resolve_entry texts none (λ p. some (codes "/w/a/R")) resolve in_shell)
      versions

abbrev plain_entry : ResolvedRVersionsEntry Text
plain_entry = record {
  resolved = described;
  label = none;
  startup_command = none;
  environment_variables = none;
  rversions_overlay = none;
}

abbrev request : REnv Text
request = new_env texts (codes "/w/a/R") none none

located :
    try_from texts (λ p. false) loaded request
    ≡ some (build_installation_from_env texts (λ p. false) request plain_entry)
unfolding try_from load_entries resolve_entry new_env norm_case same_text text_le
located = refl

try_from-IsPlain_example :
    IsPlain texts none
      (λ p. some (codes "/w/a/R"))
      resolve
      in_shell
      (λ p. false)
      versions
      request
      (build_installation_from_env texts (λ p. false) request plain_entry)
try_from-IsPlain_example =
    try_from-IsPlain texts none (λ p. some (codes "/w/a/R")) resolve in_shell (λ p. false) versions
      request (build_installation_from_env texts (λ p. false) request plain_entry) located
