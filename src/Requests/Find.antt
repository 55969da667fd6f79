-- ===== src/Requests/Find.antt =====
-- What the find request of crates/ret/src/jsonrpc.rs replies.
use r_environment_tools.Base.{
  ◌≡◌, refl, sym, ap, ◌∙◌, inl, inr, List, [], ◌∷◌, Option, none, some, Ord, Eq, filter, sort,
  sort_dedup, map, any, contains, contains-append, length, Bool, Bool-cases, true, false, ◌||◌,
  ◌++◌, ◌⊎◌, arith, ℕ, is_empty, Option-cases, if◌then◌else◌,
}
use r_environment_tools.Paths.{PathLib, FileTree}
use r_environment_tools.Search.{collect_recursive_search_paths, chunks}
use r_environment_tools.Search.Bounded.{concat, batches_of, chunks_from-concat}
use r_environment_tools.Executables.{find_executables}
use r_environment_tools.Requests.Threads.{Interleaves, contains-Interleaves}
use r_environment_tools.Tables.{Table, lookup, values}
use r_environment_tools.Tables.Laws.{IsDistinct}
use r_environment_tools.Installation.{RInstallation, EnvManager, DiscoverySource}
use r_environment_tools.ProbeCache.{ResolvedRInstallation}
use r_environment_tools.Identify.{REnv}
use mathlib.Core.Option
use r_environment_tools.Installation.Merge.{merge_installations}
use r_environment_tools.Reporter
use r_environment_tools.Reporter.{
  CacheReporter, report_manager, report_installation, report_all, get_installations,
}
use r_environment_tools.Reporter.Cache.{
  merged, has_key, table_after, report_installation-table, report_all-lookup, report_all-IsCached,
}
use r_environment_tools.Requests.{
  found_all, report_option, report_found, identify_r_executables_using_locators, handle_find,
  find_r_installations_in_paths, find_r_installations_in_batches, found_at, build_find_response,
  find_r_installations_in_directory_recursive,
}

any-map :
    {A B : Type 0} (p : B → Bool) (f : A → B) (xs : List A)
    → any p (map f xs) ≡ any (λ x. p (f x)) xs
any-map p f [] = refl
any-map p f (x ∷ xs) = rw (any-map p f xs) refl

any-append :
    {A : Type 0} (p : A → Bool) (xs ys : List A) → any p (xs ++ ys) ≡ (any p xs || any p ys)
any-append p [] ys = refl
any-append p (x ∷ xs) ys = ground (arith, any-append p xs ys)

module _ (L : PathLib) {Key : Type 0} ⦃e : Eq Key⦄ ⦃d : Eq L.PathBuf⦄
    (key_of : RInstallation L.PathBuf → Option Key) where
  open L use {PathBuf, order}

  abbrev merge : RInstallation PathBuf → RInstallation PathBuf → RInstallation PathBuf
  merge = merge_installations L

  report_manager-table :
      (m : EnvManager PathBuf) (self : CacheReporter PathBuf Key)
      → (report_manager m self).reported_installations ≡ self.reported_installations
  unfolding report_manager
  report_manager-table m self = elim (Option-cases (lookup m.executable self.reported_managers)) [
    | inl h ↦ rw (h, report_manager) refl
    | inr (x, h) ↦ rw (h, report_manager) refl
  ]

  report_found-table :
      (r : RInstallation PathBuf) (self : CacheReporter PathBuf Key)
      → (report_found L key_of r self).reported_installations
        ≡ table_after key_of merge (key_of r) r self.reported_installations
  unfolding report_found
  report_found-table r self =
      report_installation-table key_of merge r (report_option L key_of r.manager self)
      ∙ ap (table_after key_of merge (key_of r) r) (go r.manager)
    where
      go :
          (o : Option (EnvManager PathBuf))
          → (report_option L key_of o self).reported_installations ≡ self.reported_installations
      go none = refl
      go (some m) = report_manager-table m self

  -- Of the installations, the loop leaves what reporting them alone does.
  identify-report_all :
      (found : PathBuf → Option (RInstallation PathBuf)) (executables : List PathBuf)
      (a b : CacheReporter PathBuf Key)
      → a.reported_installations ≡ b.reported_installations
      → (identify_r_executables_using_locators L key_of found executables a).reported_installations
        ≡ (report_all key_of merge (found_all L found executables) b).reported_installations
  unfolding identify_r_executables_using_locators found_all report_all
  identify-report_all found [] a b h = h
  identify-report_all found (x ∷ xs) a b h = elim (Option-cases (found x)) [
    | inl n ↦
        rw (n, identify_r_executables_using_locators, found_all)
          (identify-report_all found xs a b h)
    | inr (r, n) ↦
        rw (n, identify_r_executables_using_locators, found_all)
          (identify-report_all found xs (report_found L key_of r a)
            (report_installation key_of merge r b)
            (report_found-table r a
              ∙ ap (table_after key_of merge (key_of r) r) h
              ∙ sym (report_installation-table key_of merge r b)))
  ]

  identify-append :
      (found : PathBuf → Option (RInstallation PathBuf)) (xs ys : List PathBuf)
      (a : CacheReporter PathBuf Key)
      → identify_r_executables_using_locators L key_of found (xs ++ ys) a
        ≡ identify_r_executables_using_locators L key_of found ys
            (identify_r_executables_using_locators L key_of found xs a)
  unfolding identify_r_executables_using_locators
  identify-append found [] ys a = refl
  identify-append found (x ∷ xs) ys a = elim (Option-cases (found x)) [
    | inl n ↦ rw (n, identify_r_executables_using_locators) (identify-append found xs ys a)
    | inr (r, n) ↦
        rw (n, identify_r_executables_using_locators)
          (identify-append found xs ys (report_found L key_of r a))
  ]

  module _ (tree : FileTree PathBuf) (schedule : List (List PathBuf) → List PathBuf) where
    -- The executables of a batch, and of batches, in the order of the reports.
    abbrev of_batch : List PathBuf → List PathBuf
    of_batch [] = []
    of_batch (path ∷ paths) = schedule (map (find_executables L tree) (path ∷ paths))

    abbrev of_batches : List (List PathBuf) → List PathBuf
    of_batches [] = []
    of_batches (paths ∷ batches) = of_batch paths ++ of_batches batches

    find_r_installations_in_paths_lem :
        (found : PathBuf → Option (RInstallation PathBuf)) (paths : List PathBuf)
        (a : CacheReporter PathBuf Key)
        → find_r_installations_in_paths L key_of tree schedule found paths a
          ≡ identify_r_executables_using_locators L key_of found (of_batch paths) a
    unfolding find_r_installations_in_paths identify_r_executables_using_locators
    find_r_installations_in_paths_lem found [] a = refl
    find_r_installations_in_paths_lem found (path ∷ paths) a = refl

    find_r_installations_in_batches_lem :
        (found : PathBuf → Option (RInstallation PathBuf)) (batches : List (List PathBuf))
        (a : CacheReporter PathBuf Key)
        → find_r_installations_in_batches L key_of tree schedule found batches a
          ≡ identify_r_executables_using_locators L key_of found (of_batches batches) a
    unfolding find_r_installations_in_batches identify_r_executables_using_locators
    find_r_installations_in_batches_lem found [] a = refl
    find_r_installations_in_batches_lem found (paths ∷ batches) a =
        find_r_installations_in_batches_lem found batches _
        ∙ ap (identify_r_executables_using_locators L key_of found (of_batches batches))
            (find_r_installations_in_paths_lem found paths a)
        ∙ sym (identify-append found (of_batch paths) (of_batches batches) a)

    -- Whether a directory has the executable.
    abbrev pub has_executable : PathBuf → PathBuf → Bool
    has_executable x path = contains ⦃o = order⦄ x (find_executables L tree path)

    module _ (fair : (xss : List (List PathBuf)) → Interleaves xss (schedule xss)) where
      contains-of_batch :
          (x : PathBuf) (paths : List PathBuf)
          → contains ⦃o = order⦄ x (of_batch paths) ≡ any (has_executable x) paths
      unfolding contains
      contains-of_batch x [] = refl
      contains-of_batch x (path ∷ paths) =
          contains-Interleaves ⦃o = order⦄ x (fair (map (find_executables L tree) (path ∷ paths)))
          ∙ any-map (λ xs. contains ⦃o = order⦄ x xs) (find_executables L tree) (path ∷ paths)

      contains-of_batches :
          (x : PathBuf) (batches : List (List PathBuf))
          → contains ⦃o = order⦄ x (of_batches batches) ≡ any (has_executable x) (concat batches)
      unfolding contains
      contains-of_batches x [] = refl
      contains-of_batches x (paths ∷ batches) =
          rw
            (
              contains-append ⦃o = order⦄ x (of_batch paths) (of_batches batches),
              any-append (has_executable x) paths (concat batches),
              contains-of_batch x paths,
              contains-of_batches x batches,
            )
            refl

      -- The executables that a request asks for: the given file alone; or those of all directories
      -- of the search.
      abbrev pub IsSearched : PathBuf → List PathBuf → List PathBuf → Type 0
      IsSearched search_path paths executables =
          ((tree.is_file search_path ≡ true) × (executables ≡ search_path ∷ []))
          ⊎ ((tree.is_file search_path ≡ false)
              × ((x : PathBuf)
                  → contains ⦃o = order⦄ x executables
                    ≡ any (has_executable x) (sort_dedup ⦃o = order⦄ paths)))

      -- The reporter at the end, in both branches.
      searched :
          (fuel : ℕ) (found : PathBuf → Option (RInstallation PathBuf)) (search_path : PathBuf)
          (paths : List PathBuf)
          → collect_recursive_search_paths L tree fuel search_path ≡ some paths
          → (executables : List PathBuf) × IsSearched search_path paths executables
            × ((if tree.is_file search_path
                  then some (
                      identify_r_executables_using_locators L key_of found
                        (search_path ∷ [])
                        Reporter.new)
                  else find_r_installations_in_directory_recursive L key_of tree schedule fuel found
                      search_path Reporter.new)
                ≡ some
                    (identify_r_executables_using_locators L key_of found executables Reporter.new))
      unfolding find_r_installations_in_directory_recursive chunks
      searched fuel found search_path paths h = elim (Bool-cases (tree.is_file search_path)) [
        | inl t ↦ (search_path ∷ [], inl (t, refl), rw (t) refl)
        | inr f ↦
            let sorted = sort_dedup ⦃o = order⦄ paths in
            let whole = chunks_from-concat 64 (length sorted) sorted (omega arith) (omega arith) in
            (
              of_batches (chunks 64 sorted),
              inr (
                f,
                λ x. contains-of_batches x (chunks 64 sorted) ∙ ap (any (has_executable x)) whole,
              ),
              rw (f, batches_of L tree fuel search_path paths h)
                  (ap some (find_r_installations_in_batches_lem found (chunks 64 sorted) _)),
            )
      ]

      -- The reply to a find request whose search ends, however the threads of a batch interleave:
      -- it is sorted and there is none when nothing is found; it has one installation for each key,
      -- the merge, in the order of the reports, of those identified as an explicit search that have
      -- the key. They are identified from the given path if it is a file, and otherwise from
      -- exactly the executables of the directories that the recursive search collects.
      pub handle_find_lem :
          (fuel : ℕ) (by_name : Ord (RInstallation PathBuf)) (empty : PathBuf)
          (locators : List (REnv PathBuf → Option (RInstallation PathBuf)))
          (global_search_paths : List PathBuf)
          (resolve : PathBuf → Option (ResolvedRInstallation PathBuf)) (search_path : PathBuf)
          (paths : List PathBuf)
          → collect_recursive_search_paths L tree fuel search_path ≡ some paths
          → (executables : List PathBuf) × IsSearched search_path paths executables
            × (table : Table Key (RInstallation PathBuf)) × IsDistinct table
            × ((k : Key)
                → lookup k table
                  ≡ merged key_of merge none (
                      filter (has_key key_of merge k) (
                        found_all L
                          (found_at L empty locators global_search_paths resolve
                            (some DiscoverySource.explicit_search))
                          executables)))
            × (handle_find L key_of tree schedule fuel by_name empty locators global_search_paths
                  resolve search_path
                ≡ some (
                    if is_empty (sort ⦃o = by_name⦄ (values table))
                    then none
                    else some (sort ⦃o = by_name⦄ (values table))))
      unfolding handle_find get_installations build_find_response
      handle_find_lem fuel by_name empty locators global_search_paths resolve search_path paths h =
          let found =
            found_at L empty locators global_search_paths resolve
              (some DiscoverySource.explicit_search) in
          let (executables, s, e) = searched fuel found search_path paths h in
          let reports = found_all L found executables in
          (
            executables,
            s,
            (report_all key_of merge reports Reporter.new).reported_installations,
            (report_all-IsCached key_of merge reports Reporter.new (tt, refl)).0,
            (λ k. report_all-lookup key_of merge k reports Reporter.new),
            ap (Option.map (λ reporter. build_find_response (get_installations by_name reporter))) e
                ∙ ap (λ table. some (build_find_response (sort ⦃o = by_name⦄ (values table))))
                    (identify-report_all found executables Reporter.new Reporter.new refl),
          )
