-- ===== src/Tests/Caches.antt =====
-- The cache of the locators and the cache of probes, with numbers for paths.
use r_environment_tools.Base.{
  ℕ, ◌≡◌, refl, true, List, [], ◌∷◌, Option, none, some, All, codes, nat_eq, contains, sort_dedup,
  ◌&&◌, ◌+◌, ◌*◌, if◌then◌else◌,
}
use r_environment_tools.LocatorCache
use r_environment_tools.LocatorCache.{checking, computing, inserting, returned}
use r_environment_tools.LocatorCache.Agreement
use r_environment_tools.LocatorCache.Agreement.{
  here, next, spawns, advances, Agrees, after, Reach-Agrees,
}
use r_environment_tools.LocatorCache.Refinement.{
  Operation, asks, tests, puts, puts_many, fetches, clears, run, replay, run-replay,
}
use r_environment_tools.Installation.{Architecture}
use r_environment_tools.ProbeCache.{
  ResolvedRInstallation, Files, CacheFile, CacheEntryImpl, complete, create, get, store, is_file,
  is_fresh, all, tracked,
}
use r_environment_tools.ProbeCache.Freshness.{IsServed, get-IsServed, get-store, get-create-store}
use r_environment_tools.ProbeCache.Registry
use r_environment_tools.ProbeCache.Registry.{
  CacheImpl, created, creating, locking, setting, clearing, create_cache, set_cache_directory,
}
use r_environment_tools.ProbeCache.Registry.Current.{
  get_elem?, IsEntry, IsCurrent, create_cache-IsCurrent,
}
use r_environment_tools.Probes.Output.{
  Poll, Output, IsBounded, output_with_timeout, output_with_timeout-IsBounded,
}
use r_environment_tools.Tables.{lookup}
use r_environment_tools.Tests.Configurations.{nat_order}

-- A call that finds nothing, computes and inserts.
abbrev inserted : Agreement.Threads ℕ ℕ
inserted = after [] [] (LocatorCache.step (some 5) LocatorCache.new (inserting 1 5))

Reach-inserted : Agreement.Reach inserted
unfolding LocatorCache.step lookup
Reach-inserted =
    next
      (next (next (next (here LocatorCache.new) (spawns 1)) (advances none (checking 1) [] [] refl))
        (advances (some 5) (computing 1) [] [] refl))
      (advances (some 5) (inserting 1 5) [] [] refl)

Reach-Agrees_example : All (Agrees inserted.shared) inserted.calls
Reach-Agrees_example = Reach-Agrees Reach-inserted

abbrev operations : List (Operation ℕ ℕ)
operations =
    fetches 1 none
    ∷ fetches 1 (some 5)
    ∷ fetches 1 (some 6)
    ∷ puts_many ((2, 7) ∷ (1, 8) ∷ [])
    ∷ asks 1
    ∷ puts 2 9
    ∷ tests 2
    ∷ clears
    ∷ tests 2
    ∷ []

run-replay_example : run operations LocatorCache.new ≡ replay operations (λ _. none)
unfolding lookup
run-replay_example = run-replay operations LocatorCache.new (λ _. none) (λ _. refl)

abbrev resolved : ResolvedRInstallation ℕ
resolved = record {
  executable = 1;
  home = 2;
  version = codes "4.4.0";
  arch = Architecture.x64;
  known_executables = some (1 ∷ 3 ∷ []);
  symlinks = none;
  orthogonal = none;
  metadata_files = 4 ∷ [];
}

-- Every path is a file from the given time.
abbrev files_at : ℕ → Files ℕ
files_at time = record {
  metadata = λ path. some (record { is_file = true; modified = some time; created = none });
  removes = true;
  writes = complete;
}

abbrev cache_file : ℕ → ℕ → ℕ
cache_file directory executable = directory * 100 + executable

abbrev entry : CacheEntryImpl ℕ
entry = create (some 9) 1

abbrev stored : CacheEntryImpl ℕ × (ℕ → Option (CacheFile ℕ))
stored = store cache_file (files_at 5) resolved entry (λ _. none)

get-IsServed_example :
    IsServed cache_file
      (files_at 5)
      (get cache_file (files_at 5) stored.0 stored.1).0
      (get cache_file (files_at 5) stored.0 stored.1).1
get-IsServed_example = get-IsServed cache_file (files_at 5) stored.0 stored.1

get-store_example : (get cache_file (files_at 6) stored.0 stored.1).0 ≡ (
    if all (is_fresh (files_at 6)) (tracked (files_at 5) resolved) && is_file (files_at 6) 1
    then some resolved
    else none)
get-store_example = get-store cache_file (files_at 5) (files_at 6) resolved entry (λ _. none) refl

get-create-store_example : (get cache_file (files_at 5) (create (some 9) 1) stored.1).0 ≡ (
    if is_file (files_at 5) 1
      && (contains ⦃o = nat_order⦄ 1 (1 ∷ 3 ∷ [])
          && all (is_fresh (files_at 5)) (tracked (files_at 5) resolved))
    then some resolved
    else none)
get-create-store_example =
    get-create-store cache_file (files_at 5) (files_at 5) resolved entry 9 (λ _. none) refl refl
      refl

-- What changed since is not given, and what did not is.
get_changed : (get cache_file (files_at 6) stored.0 stored.1).0 ≡ none
unfolding get store sort_dedup
get_changed = refl

get_unchanged : (get cache_file (files_at 5) (create (some 9) 1) stored.1).0 ≡ some resolved
unfolding get store contains sort_dedup
get_unchanged = refl

abbrev no_entries : CacheImpl ℕ
no_entries = Registry.new (some 1)

create_cache-IsCurrent_example :
    (lock : ℕ) × ((create_cache 7 no_entries).0 ≡ created lock)
    × IsEntry (some 1) ((create_cache 7 no_entries).1).entries 7 lock
    × (create_cache 7 (create_cache 7 no_entries).1 ≡ create_cache 7 no_entries)
    × IsCurrent (create_cache 7 no_entries).1
unfolding lookup
create_cache-IsCurrent_example = create_cache-IsCurrent 7 no_entries (λ executable lock h. cc)

-- Between the sections of `create_cache` another thread sets the directory: the entry that is
-- made after the table was cleared has the old one.
abbrev raced : CacheImpl ℕ
raced =
    let read = Registry.step (creating 7) no_entries in
    let set = Registry.step (setting 2) read.1 in
    let cleared = Registry.step set.0 set.1 in (Registry.step read.0 cleared.1).1

raced-stale :
    (raced.cache_dir ≡ some 2)
    × (lookup 7 raced.locks ≡ some 0)
    × (get_elem? 0 raced.entries ≡ some (create (some 1) 7))
unfolding Registry.step lookup store
raced-stale = (refl, refl, refl)

-- A child that is still there at its timeout.
abbrev late : Poll
late = record {
  stdout_size = some 3;
  stderr_size = some 0;
  waited = some none;
  elapsed = 30;
  stdout = some (1 ∷ 2 ∷ 3 ∷ []);
  stderr = some [];
}

abbrev polls : List Poll
polls =
    record late { elapsed = 10 } ∷ record late { elapsed = 20; waited = some (some 0) } ∷ late ∷ []

output_with_timeout-IsBounded_example :
    (result : Output) × (output_with_timeout 30 polls ≡ some result) × IsBounded result
output_with_timeout-IsBounded_example = output_with_timeout-IsBounded 30 polls refl
