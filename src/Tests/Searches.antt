-- ===== src/Tests/Searches.antt =====
-- The search for directories and executables, their identification, and the end of the probes.
use r_environment_tools.Base.{
  ℕ, ◌≡◌, ◌≤◌, refl, ap, Bool, true, false, not, ◌||◌, inl, inr, List, [], ◌∷◌, Option, none, some,
  Text, codes, same_text, is_some, All, IsStrict, contains, sort, sort_dedup, filter, unwrap_or,
  length, ◌==◌, arith, if◌then◌else◌, Bool-cases,
}
use r_environment_tools.Paths.{FileTree}
use r_environment_tools.Installation.{RInstallation, Architecture}
use r_environment_tools.Search.{children, collect_recursive_search_paths, batches_to_search}
use r_environment_tools.Search.Complete.{IsComplete, collect_recursive_search_paths-IsComplete}
use r_environment_tools.Search.Bounded.{
  IsBatch, concat, collect_recursive_search_paths_total, batches_to_search_lem,
}
use r_environment_tools.Executables.{executable_candidates, find_executables, parents}
use r_environment_tools.Executables.Found.{Extends, HasExtra, find_executables_lem}
use r_environment_tools.ProbeCache.{ResolvedRInstallation}
use r_environment_tools.Identify.{REnv, new_env, identify_r_installation_using_locators}
use r_environment_tools.Identify.Cached.{
  IsSettled, identify_r_installation_using_locators-IsSettled,
}
use r_environment_tools.Tests.Discovery.{texts, text_order, text_le, conda}
use r_environment_tools.Tests.Configurations.{nat_order}
use r_environment_tools.Paths.{PathLib}
use r_environment_tools.Probes.{
  System, reaping, returned, exit_child, lock_child, locks, exits, start, spawn_probe,
  stop_registry, next_child, stopping, is_dropping, Reach, here, next, spawns, stops, continues,
}
use r_environment_tools.Probes.Shutdown.{Reach-IsStopped}
use r_environment_tools.Probes.Guarded.{is_called}
use r_environment_tools.Probes.Liveness.{GetsOn, Reach-GetsOn}
use r_environment_tools.Probes.Liveness.Turns.{left}

-- `/w` has `a` and a link to itself; `/w/a` has an R.
abbrev pub is_directory : Text → Bool
is_directory p =
    same_text p (codes "/w") || (same_text p (codes "/w/a") || same_text p (codes "/w/l"))

abbrev pub tree : FileTree Text
tree = record {
  is_file = λ p. same_text p (codes "/w/a/R");
  is_dir = is_directory;
  is_symlink = λ p. same_text p (codes "/w/l");
  exists = λ p. true;
  canonicalize = λ p.
      if same_text p (codes "/w/a")
      then some (codes "/w/a")
      else if is_directory p
      then some (codes "/w")
      else none;
  read_dir = λ p.
      if same_text p (codes "/w")
      then some (some (codes "/w/l") ∷ none ∷ some (codes "/w/a") ∷ [])
      else if same_text p (codes "/w/a")
      then some (some (codes "/w/a/R") ∷ [])
      else none;
}

pub collected :
    collect_recursive_search_paths texts tree 10 (codes "/w")
    ≡ some (codes "/w" ∷ codes "/w/a" ∷ [])
unfolding collect_recursive_search_paths same_text contains sort text_le
collected = refl

collect_recursive_search_paths-IsComplete_example :
    IsComplete texts tree (codes "/w") (codes "/w" ∷ codes "/w/a" ∷ [])
collect_recursive_search_paths-IsComplete_example =
    collect_recursive_search_paths-IsComplete texts tree 10 (codes "/w")
      (codes "/w" ∷ codes "/w/a" ∷ []) collected

batches_to_search_lem_example :
    All (IsBatch 64) (unwrap_or (batches_to_search texts tree 10 (codes "/w")) [])
    × IsStrict ⦃o = text_order⦄
        (concat (unwrap_or (batches_to_search texts tree 10 (codes "/w")) []))
    × ((p : Text)
        → contains ⦃o = text_order⦄ p
            (concat (unwrap_or (batches_to_search texts tree 10 (codes "/w")) []))
          ≡ contains ⦃o = text_order⦄ p (codes "/w" ∷ codes "/w/a" ∷ []))
batches_to_search_lem_example =
    batches_to_search_lem texts tree 10 (codes "/w") (codes "/w" ∷ codes "/w/a" ∷ []) collected

find_executables_lem_example :
    All (λ p. tree.is_file p ≡ true) (find_executables texts tree (codes "/w/a"))
    × Extends texts
        (filter tree.is_file (executable_candidates texts (codes "/w/a")))
        (find_executables texts tree (codes "/w/a"))
    × All
        (HasExtra texts tree (find_executables texts tree (codes "/w/a")))
        (sort_dedup ⦃o = text_order⦄ (parents texts (executable_candidates texts (codes "/w/a"))))
unfolding same_text
find_executables_lem_example = find_executables_lem texts tree (codes "/w/a") refl

-- Two directories, each with both, and no names.
abbrev two : PathLib
two = record {
  PathBuf = ℕ;
  order = nat_order;
  join = λ a b. 0;
  file_name = λ p. none;
  to_text = λ p. [];
  with_file_name = λ p n. 0;
  parent = λ p. none;
}

abbrev two_tree : FileTree ℕ
two_tree = record {
  is_file = λ p. false;
  is_dir = λ p. not (p == 0);
  is_symlink = λ p. false;
  exists = λ p. true;
  canonicalize = λ p. if p == 2 then some 2 else some 1;
  read_dir = λ p. some (some 1 ∷ some 2 ∷ []);
}

two_known :
    (p c : ℕ) → two_tree.canonicalize p ≡ some c → contains ⦃o = nat_order⦄ c (1 ∷ 2 ∷ []) ≡ true
unfolding contains
two_known p c h = elim (Bool-cases (p == 2)) [ inl k ↦ ground arith | inr k ↦ ground arith ]

two_wide : (p : ℕ) → length (children two two_tree p) ≤ 2
unfolding children sort same_text
two_wide p = omega arith

collect_recursive_search_paths_total_example :
    is_some (collect_recursive_search_paths two two_tree 6 1) ≡ true
collect_recursive_search_paths_total_example =
    collect_recursive_search_paths_total two two_tree (1 ∷ 2 ∷ []) 2 two_known two_wide 6 1
      (omega arith)

abbrev pub described : ResolvedRInstallation Text
described = record {
  executable = codes "/w/a/R";
  home = codes "/w/a";
  version = codes "4.4.0";
  arch = Architecture.x64;
  known_executables = none;
  symlinks = none;
  orthogonal = none;
  metadata_files = [];
}

abbrev pub resolve : Text → Option (ResolvedRInstallation Text)
resolve p = if same_text p (codes "/w/a/R") then some described else none

abbrev pub locators : List (REnv Text → Option (RInstallation Text))
locators = (λ env. some conda) ∷ []

identify_r_installation_using_locators-IsSettled_example : IsSettled texts described (
    identify_r_installation_using_locators texts []
      (new_env texts (codes "/w/a/R") none none)
      locators
      []
      resolve)
unfolding new_env same_text
identify_r_installation_using_locators-IsSettled_example =
    identify_r_installation_using_locators-IsSettled texts []
      (new_env texts (codes "/w/a/R") none none) locators [] resolve described refl

-- A probe starts, the shutdown takes it over while it runs, and returns.
abbrev probing : System
probing = (spawn_probe true start).1

abbrev stopped : System
stopped = stop_registry probing

-- The shutdown has locked the child and killed its process, and waits for it.
abbrev killing : System
killing = next_child (next_child stopped)

Reach-killing : Reach killing
unfolding spawn_probe
Reach-killing = next (next (next (next here (spawns true)) (stops refl)) continues) continues

abbrev ended : System
ended = next_child (next_child (exit_child 0 killing))

Reach-ended : Reach ended
Reach-ended = next (next (next Reach-killing (exits 0)) continues) continues

killing-reaping : killing.shutdown ≡ reaping 0 []
unfolding spawn_probe stop_registry next_child
killing-reaping = refl

ended-returned : ended.shutdown ≡ returned
unfolding spawn_probe stop_registry next_child exit_child
ended-returned = refl

Reach-IsStopped_example :
    ((starts : Bool) → spawn_probe starts ended ≡ (stopping, ended))
    × ((i : ℕ) → (ended.probes i).running ≡ true → is_dropping (ended.probes i) ≡ true)
Reach-IsStopped_example = Reach-IsStopped Reach-ended ended-returned

-- The owner cannot lock the child meanwhile, and the next turn waits.
Reach-GetsOn_example : (left (lock_child 0 killing) ≤ left killing) × GetsOn killing
Reach-GetsOn_example = Reach-GetsOn Reach-killing (ap is_called killing-reaping) (locks 0)
