-- ===== src/Executables/Found.antt =====
-- What the search of crates/ret-r-utils/src/executable.rs finds.
use r_environment_tools.Base.{
  ◌≡◌, refl, sym, ap, ◌∙◌, inl, inr, Bool, true, false, not, codes, same_text, to_ascii_lowercase,
  unwrap_or, All-imp, ◌&&◌, ◌||◌, List, [], ◌∷◌, ◌++◌, Option, none, some, All, All-append, filter,
  find, sort, sort_dedup, contains, contains-append, contains-same, same, append-nil, append_assoc,
  Bool-cases, Option-cases, arith,
}
use r_environment_tools.Base.Filters.{
  All-filter, find-none, find-some, All-sort, contains-sort, contains-filter,
}
use r_environment_tools.Paths.{PathLib, FileTree, entries}
use r_environment_tools.Executables.{
  ExecutableResult, found, broken, not_found, executable_candidates, is_r_executable_name, push_new,
  is_broken_symlink, extra_in, add_extra, find_executables, find_executable,
  find_executable_or_broken, parents,
}

module _ (L : PathLib) where
  open L use {PathBuf, order}

  contains-push_new :
      (p : PathBuf) (xs ys : List PathBuf)
      → contains ⦃o = order⦄ p (push_new L xs ys)
        ≡ (contains ⦃o = order⦄ p xs || contains ⦃o = order⦄ p ys)
  unfolding push_new contains
  contains-push_new p xs [] = ground arith
  contains-push_new p xs (y ∷ ys) = elim (Bool-cases (contains ⦃o = order⦄ y xs)) [
    | inl h ↦
        rw (h, contains-push_new p xs ys)
          (elim (Bool-cases (same ⦃o = order⦄ p y)) [
            | inl k ↦ ground (arith, contains-same ⦃o = order⦄ p y xs k)
            | inr k ↦ ground arith
          ])
    | inr h ↦
        rw (h, contains-push_new p (xs ++ y ∷ []) ys, contains-append ⦃o = order⦄ p xs (y ∷ []))
          (ground arith)
  ]

  All-push_new :
      (P : PathBuf → Type 0) (xs ys : List PathBuf) → All P xs → All P ys → All P (push_new L xs ys)
  unfolding push_new
  All-push_new P xs [] h k = h
  All-push_new P xs (y ∷ ys) h k = elim (Bool-cases (contains ⦃o = order⦄ y xs)) [
    | inl l ↦ rw (l) (All-push_new P xs ys h k.1)
    | inr l ↦ rw (l) (All-push_new P (xs ++ y ∷ []) ys (All-append P xs (y ∷ []) h (k.0, tt)) k.1)
  ]

  -- What was found first stays in front.
  abbrev pub Extends : List PathBuf → List PathBuf → Type 0
  Extends xs result = (rest : List PathBuf) × (result ≡ xs ++ rest)

  push_new-Extends : (xs ys : List PathBuf) → Extends xs (push_new L xs ys)
  unfolding push_new
  push_new-Extends xs [] = ([], sym (append-nil xs))
  push_new-Extends xs (y ∷ ys) = elim (Bool-cases (contains ⦃o = order⦄ y xs)) [
    | inl l ↦ rw (l) (push_new-Extends xs ys)
    | inr l ↦ rw (l) (
        let later = push_new-Extends (xs ++ y ∷ []) ys in
        (y ∷ later.0, later.1 ∙ append_assoc xs (y ∷ []) later.0))
  ]

  module _ (tree : FileTree PathBuf) where
    All-entries :
        (xs : List PathBuf)
        → All (λ x. (tree.is_file x && is_r_executable_name L x) ≡ true) xs
        → All (λ x. tree.is_file x ≡ true) xs
    All-entries [] h = tt
    All-entries (x ∷ xs) h = (ground arith, All-entries xs h.1)

    extra_in-is_file :
        (directory : PathBuf) → All (λ x. tree.is_file x ≡ true) (extra_in L tree directory)
    unfolding extra_in
    extra_in-is_file directory = elim (Option-cases (tree.read_dir directory)) [
      | inl h ↦ rw (h, extra_in) tt
      | inr (results, h) ↦
          rw (h, extra_in)
            (All-sort ⦃o = order⦄ (λ x. tree.is_file x ≡ true) _
              (All-entries _ (All-filter _ (entries results))))
    ]

    add_extra-is_file :
        (xs directories : List PathBuf)
        → All (λ x. tree.is_file x ≡ true) xs
        → All (λ x. tree.is_file x ≡ true) (add_extra L tree xs directories)
    unfolding add_extra
    add_extra-is_file xs [] h = h
    add_extra-is_file xs (d ∷ directories) h =
        add_extra-is_file (push_new L xs (extra_in L tree d)) directories
          (All-push_new (λ x. tree.is_file x ≡ true) xs (extra_in L tree d) h (extra_in-is_file d))

    add_extra-Extends :
        (xs directories : List PathBuf) → Extends xs (add_extra L tree xs directories)
    unfolding add_extra
    add_extra-Extends xs [] = ([], sym (append-nil xs))
    add_extra-Extends xs (d ∷ directories) =
        let first = push_new-Extends xs (extra_in L tree d) in
        let later = add_extra-Extends (push_new L xs (extra_in L tree d)) directories in
        (
          first.0 ++ later.0,
          later.1 ∙ ap (λ r. r ++ later.0) first.1 ∙ append_assoc xs first.0 later.0,
        )

    -- The name of an R executable, in any case.
    abbrev is_named_r : PathBuf → Bool
    is_named_r path =
        same_text (to_ascii_lowercase (unwrap_or (L.file_name path) [])) (codes "r")
        || same_text (to_ascii_lowercase (unwrap_or (L.file_name path) [])) (codes "rscript")

    abbrev listed : PathBuf → List PathBuf
    listed directory = elim (tree.read_dir directory) [ none ↦ [] | some results ↦ entries results ]

    -- Each file of a directory that has such a name is there.
    abbrev pub HasExtra : List PathBuf → PathBuf → Type 0
    HasExtra result directory =
        All
          (λ path.
            (not (tree.is_file path && is_named_r path) || contains ⦃o = order⦄ path result) ≡ true)
          (listed directory)

    -- All that a directory adds is there.
    abbrev Covers : List PathBuf → PathBuf → Type 0
    Covers result directory =
        (p : PathBuf)
        → contains ⦃o = order⦄ p (extra_in L tree directory) ≡ true
        → contains ⦃o = order⦄ p result ≡ true

    Covers-HasExtra :
        (result : List PathBuf) (directory : PathBuf)
        → Covers result directory
        → HasExtra result directory
    unfolding extra_in is_r_executable_name
    Covers-HasExtra result directory = go (tree.read_dir directory)
      where
        go :
            (o : Option (List (Option PathBuf)))
            → ((p : PathBuf)
                → contains ⦃o = order⦄ p (elim o as (λ _. List PathBuf) [
                  | none ↦ []
                  | some results ↦ sort ⦃o = order⦄ (
                      filter
                        (λ path. tree.is_file path && is_r_executable_name L path)
                        (entries results))
                ])
                  ≡ true
                → contains ⦃o = order⦄ p result ≡ true)
            → All
                (λ path.
                  (not (tree.is_file path && is_named_r path) || contains ⦃o = order⦄ path result)
                  ≡ true)
                (elim o as (λ _. List PathBuf) [ none ↦ [] | some results ↦ entries results ])
        go none h = tt
        go (some results) h =
            contains-filter ⦃o = order⦄ (λ path. tree.is_file path && is_named_r path)
              (entries results) result (λ a k. h a (contains-sort ⦃o = order⦄ a _ ∙ k))

    add_extra-contains :
        (xs directories : List PathBuf) (p : PathBuf)
        → contains ⦃o = order⦄ p xs ≡ true
        → contains ⦃o = order⦄ p (add_extra L tree xs directories) ≡ true
    add_extra-contains xs directories p h =
        let later = add_extra-Extends xs directories in
        rw (later.1, contains-append ⦃o = order⦄ p xs later.0) (ground arith)

    add_extra-Covers :
        (xs directories : List PathBuf) → All (Covers (add_extra L tree xs directories)) directories
    unfolding add_extra
    add_extra-Covers xs [] = tt
    add_extra-Covers xs (d ∷ directories) = (
      λ p h.
          add_extra-contains (push_new L xs (extra_in L tree d)) directories p
            (rw (contains-push_new p xs (extra_in L tree d)) (ground arith)),
      add_extra-Covers (push_new L xs (extra_in L tree d)) directories,
    )

    find_executables-directory :
        (root : PathBuf)
        → tree.is_file root ≡ false
        → find_executables L tree root
          ≡ add_extra L tree
              (filter tree.is_file (executable_candidates L root))
              (sort_dedup ⦃o = order⦄ (parents L (executable_candidates L root)))
    unfolding find_executables
    find_executables-directory root h = rw (h, find_executables) refl

    -- In a directory, the executables are files; the candidates that are files come first, in the
    -- candidates' order; and with them are all files with the name of an R executable that a
    -- directory of a candidate has.
    pub find_executables_lem :
        (root : PathBuf)
        → tree.is_file root ≡ false
        → let result = find_executables L tree root in
          All (λ p. tree.is_file p ≡ true) result
          × Extends (filter tree.is_file (executable_candidates L root)) result
          × All
              (HasExtra result)
              (sort_dedup ⦃o = order⦄ (parents L (executable_candidates L root)))
    find_executables_lem root h =
        let candidates = filter tree.is_file (executable_candidates L root) in
        let directories = sort_dedup ⦃o = order⦄ (parents L (executable_candidates L root)) in
        rw (find_executables-directory root h) (
          add_extra-is_file candidates directories
              (All-filter tree.is_file (executable_candidates L root)),
          add_extra-Extends candidates directories,
          All-imp _ _ directories (Covers-HasExtra (add_extra L tree candidates directories))
              (add_extra-Covers candidates directories),
        )

    -- What a result says of the files.
    abbrev pub IsOutcome : PathBuf → ExecutableResult PathBuf → Type 0
    IsOutcome root (found p) =
        (tree.is_file p ≡ true)
        × (find_executable L tree root ≡ some p)
        × (is_broken_symlink L tree root ≡ false)
    IsOutcome root (broken p) = is_broken_symlink L tree p ≡ true
    IsOutcome root not_found =
        (find_executables L tree root ≡ [])
        × All (λ p. is_broken_symlink L tree p ≡ false) (executable_candidates L root)

    find_executables-is_file :
        (root : PathBuf) → All (λ p. tree.is_file p ≡ true) (find_executables L tree root)
    unfolding find_executables
    find_executables-is_file root = elim (Bool-cases (tree.is_file root)) [
      | inr h ↦ (find_executables_lem root h).0
      | inl h ↦ elim (Bool-cases (is_r_executable_name L root)) [
        | inl k ↦ rw (h, k, find_executables) (h, tt)
        | inr k ↦ rw (h, k, find_executables) tt
      ]
    ]

    find_executable-is_file :
        (root p : PathBuf) → find_executable L tree root ≡ some p → tree.is_file p ≡ true
    unfolding find_executable
    find_executable-is_file root p h =
        go (find_executables L tree root) (find_executables-is_file root) h
      where
        go :
            (xs : List PathBuf)
            → All (λ q. tree.is_file q ≡ true) xs
            → (elim xs as (λ _. Option PathBuf) [ [] ↦ none | x ∷ _ ↦ some x ]) ≡ some p
            → tree.is_file p ≡ true
        go [] g k = cc
        go (x ∷ xs) g k = cc

    find_executable-none :
        (root : PathBuf) → find_executable L tree root ≡ none → find_executables L tree root ≡ []
    unfolding find_executable
    find_executable-none root h = go (find_executables L tree root) h
      where
        go :
            (xs : List PathBuf)
            → (elim xs as (λ _. Option PathBuf) [ [] ↦ none | x ∷ _ ↦ some x ]) ≡ none
            → xs ≡ []
        go [] k = refl
        go (x ∷ xs) k = cc

    -- A path that was found is the first executable, a file, of a root that is no broken link; one
    -- that is reported broken is a broken link; and when nothing is reported there is no
    -- executable, and no candidate is a broken link.
    pub find_executable_or_broken-IsOutcome :
        (root : PathBuf) → IsOutcome root (find_executable_or_broken L tree root)
    unfolding find_executable_or_broken
    find_executable_or_broken-IsOutcome root = elim (Bool-cases (is_broken_symlink L tree root)) [
      | inl h ↦ rw (h, find_executable_or_broken, IsOutcome) h
      | inr h ↦ elim (Option-cases (find_executable L tree root)) [
        | inr (p, k) ↦ rw (h, k, find_executable_or_broken) (find_executable-is_file root p k, k, h)
        | inl k ↦
            elim (Option-cases (find (is_broken_symlink L tree) (executable_candidates L root))) [
              | inr (p, l) ↦
                  rw (h, k, l, find_executable_or_broken)
                    (find-some (is_broken_symlink L tree) (executable_candidates L root) p l)
              | inl l ↦
                  rw (h, k, l, find_executable_or_broken)
                    (
                      find_executable-none root k,
                      find-none (is_broken_symlink L tree) (executable_candidates L root) l,
                    )
            ]
      ]
    ]
