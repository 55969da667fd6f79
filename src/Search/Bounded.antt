-- ===== src/Search/Bounded.antt =====
-- The search of crates/ret/src/find.rs ends, and its batches are bounded.
use r_environment_tools.Base.{
  ℕ, zero, suc, ◌+◌, ◌*◌, ◌≤◌, ◌<◌, ◌≡◌, refl, ap, ◌∙◌, inl, inr, true, false, List, [], ◌∷◌, ◌++◌,
  Option, none, some, is_some, contains, contains-append, contains-same, same, All, length,
  length-append, length-take, length-drop, take, drop, take-append-drop, arith, Bool-cases,
  Option-cases, sort_dedup, IsStrict, sort_dedup-IsStrict, contains-sort_dedup, unwrap_or,
  if◌then◌else◌,
}
use r_environment_tools.Paths.{PathLib, FileTree}
use r_environment_tools.Search.{
  children, search, collect_recursive_search_paths, chunks_from, chunks, batches_to_search,
}

times-lt : (a b w : ℕ) → a < b → a * w + w ≤ b * w
times-lt a zero w h = ground arith
times-lt zero (suc b) w h = omega arith
times-lt (suc a) (suc b) w h = omega (arith, times-lt a b w (omega arith))

module _ (L : PathLib) (tree : FileTree L.PathBuf) where
  open L use {PathBuf, order}

  -- How many of the directories are still to be visited.
  abbrev remaining : List PathBuf → List PathBuf → ℕ
  remaining visited [] = 0
  remaining visited (d ∷ directories) =
      (if contains ⦃o = order⦄ d visited then 0 else 1) + remaining visited directories

  remaining-snoc_le :
      (visited directories : List PathBuf) (c : PathBuf)
      → remaining (visited ++ c ∷ []) directories ≤ remaining visited directories
  unfolding contains
  remaining-snoc_le visited [] c = omega arith
  remaining-snoc_le visited (d ∷ directories) c = ground (
    arith,
    remaining-snoc_le visited directories c,
    contains-append ⦃o = order⦄ d visited (c ∷ []),
  )

  remaining-snoc :
      (visited directories : List PathBuf) (c : PathBuf)
      → contains ⦃o = order⦄ c visited ≡ false
      → contains ⦃o = order⦄ c directories ≡ true
      → remaining (visited ++ c ∷ []) directories < remaining visited directories
  unfolding contains
  remaining-snoc visited [] c h k = cc
  remaining-snoc visited (d ∷ directories) c h k = elim (Bool-cases (same ⦃o = order⦄ c d)) [
    | inl e ↦ ground (
      arith,
      remaining-snoc_le visited directories c,
      contains-same ⦃o = order⦄ c d visited e,
      contains-append ⦃o = order⦄ d visited (c ∷ []),
    )
    | inr e ↦ ground (
      arith,
      remaining-snoc visited directories c h,
      contains-append ⦃o = order⦄ d visited (c ∷ []),
    )
  ]

  -- The fuel that a stack needs, if no directory adds more than `width` others.
  abbrev needed : ℕ → List PathBuf → List PathBuf → List PathBuf → ℕ
  needed width directories pending visited =
      suc (length pending + remaining visited directories * width)

  with_first_total :
      (directory : PathBuf) (rest : Option (List PathBuf × List PathBuf))
      → is_some rest ≡ true
      → is_some (elim rest as (λ _. Option (List PathBuf × List PathBuf)) [
        | none ↦ none
        | some (paths, seen) ↦ some (directory ∷ paths, seen)
      ])
        ≡ true
  with_first_total directory none h = h
  with_first_total directory (some (paths, seen)) h = refl

  search_total :
      (directories : List PathBuf) (width : ℕ)
      → ((p c : PathBuf) → tree.canonicalize p ≡ some c → contains ⦃o = order⦄ c directories ≡ true)
      → ((p : PathBuf) → length (children L tree p) ≤ width)
      → (fuel : ℕ) (pending visited : List PathBuf)
      → needed width directories pending visited ≤ fuel
      → is_some (search L tree fuel pending visited) ≡ true
  unfolding search
  search_total directories width known wide zero pending visited h = ground arith
  search_total directories width known wide (suc fuel) [] visited h = refl
  search_total directories width known wide (suc fuel) (directory ∷ pending) visited h =
      elim (Option-cases (tree.canonicalize directory)) [
        | inl n ↦
            rw (n, search)
              (search_total directories width known wide fuel pending visited (omega arith))
        | inr (canonical, n) ↦ elim (Bool-cases (contains ⦃o = order⦄ canonical visited)) [
          | inl k ↦
              rw (n, k, search)
                (search_total directories width known wide fuel pending visited (omega arith))
          | inr k ↦
              rw (n, k, search)
                (with_first_total directory _ (
                  search_total directories width known wide fuel
                    (children L tree directory ++ pending) (visited ++ canonical ∷ [])
                    (omega (
                      arith,
                      wide directory,
                      length-append (children L tree directory) pending,
                      times-lt (remaining (visited ++ canonical ∷ []) directories)
                          (remaining visited directories) width
                          (remaining-snoc visited directories canonical k
                            (known directory canonical n)),
                    ))))
        ]
      ]

  remaining-nil : (directories : List PathBuf) → remaining [] directories ≡ length directories
  unfolding contains
  remaining-nil [] = refl
  remaining-nil (d ∷ directories) = omega (arith, remaining-nil directories)

  -- The search ends, symbolic links and all: if every canonical path is among finitely many
  -- directories and none adds more than `width` others, two turns more than their product suffice.
  pub collect_recursive_search_paths_total :
      (directories : List PathBuf) (width : ℕ)
      → ((p c : PathBuf) → tree.canonicalize p ≡ some c → contains ⦃o = order⦄ c directories ≡ true)
      → ((p : PathBuf) → length (children L tree p) ≤ width)
      → (fuel : ℕ) (directory : PathBuf) → 2 + length directories * width ≤ fuel
      → is_some (collect_recursive_search_paths L tree fuel directory) ≡ true
  unfolding collect_recursive_search_paths
  collect_recursive_search_paths_total directories width known wide fuel directory h = go _ (
      search_total directories width known wide fuel (directory ∷ []) []
        (rw (remaining-nil directories) (omega arith)))
    where
      go :
          (r : Option (List PathBuf × List PathBuf))
          → is_some r ≡ true
          → is_some (elim r as (λ _. Option (List PathBuf)) [
            | none ↦ none
            | some (found, seen) ↦ some found
          ])
            ≡ true
      go none k = k
      go (some (found, seen)) k = refl

abbrev pub concat {ℓ} : {A : Type ℓ} → List (List A) → List A
concat [] = []
concat (xs ∷ xss) = xs ++ concat xss

module _ {ℓ} {A : Type ℓ} where
  pub chunks_from-concat :
      (n fuel : ℕ) (xs : List A) → 1 ≤ n → length xs ≤ fuel → concat (chunks_from n fuel xs) ≡ xs
  unfolding chunks_from
  chunks_from-concat n zero [] p h = refl
  chunks_from-concat n zero (x ∷ xs) p h = absurd (omega arith)
  chunks_from-concat n (suc fuel) [] p h = refl
  chunks_from-concat n (suc fuel) (x ∷ xs) p h =
      ap (λ rest. take n (x ∷ xs) ++ rest)
        (chunks_from-concat n fuel (drop n (x ∷ xs)) p (omega (arith, length-drop n (x ∷ xs))))
      ∙ take-append-drop n (x ∷ xs)

  abbrev pub IsBatch : ℕ → List A → Type 0
  IsBatch n batch = (1 ≤ length batch) × (length batch ≤ n)

  chunks_from-IsBatch : (n fuel : ℕ) (xs : List A) → 1 ≤ n → All (IsBatch n) (chunks_from n fuel xs)
  unfolding chunks_from
  chunks_from-IsBatch n zero xs p = tt
  chunks_from-IsBatch n (suc fuel) [] p = tt
  chunks_from-IsBatch n (suc fuel) (x ∷ xs) p = (
    (rw (length-take n (x ∷ xs)) (omega arith), rw (length-take n (x ∷ xs)) (omega arith)),
    chunks_from-IsBatch n fuel (drop n (x ∷ xs)) p,
  )

module _ (L : PathLib) (tree : FileTree L.PathBuf) where
  open L use {PathBuf, order}

  pub batches_of :
      (fuel : ℕ) (directory : PathBuf) (paths : List PathBuf)
      → collect_recursive_search_paths L tree fuel directory ≡ some paths
      → batches_to_search L tree fuel directory ≡ some (chunks 64 (sort_dedup ⦃o = order⦄ paths))
  unfolding batches_to_search
  batches_of fuel directory paths h = rw (h, batches_to_search) refl

  -- The batches have between one and 64 paths, one after the other they are strictly increasing,
  -- and they have exactly the paths that the search collected.
  pub batches_to_search_lem :
      (fuel : ℕ) (directory : PathBuf) (paths : List PathBuf)
      → collect_recursive_search_paths L tree fuel directory ≡ some paths
      → let batches = unwrap_or (batches_to_search L tree fuel directory) [] in
        All (IsBatch 64) batches
        × IsStrict ⦃o = order⦄ (concat batches)
        × ((p : PathBuf) → contains ⦃o = order⦄ p (concat batches) ≡ contains ⦃o = order⦄ p paths)
  unfolding chunks
  batches_to_search_lem fuel directory paths h =
      let sorted = sort_dedup ⦃o = order⦄ paths in
      let whole = chunks_from-concat 64 (length sorted) sorted (omega arith) (omega arith) in
      rw (batches_of fuel directory paths h) (
        chunks_from-IsBatch 64 (length sorted) sorted (omega arith),
        rw (whole) (sort_dedup-IsStrict ⦃o = order⦄ paths),
        λ p. rw (whole) (contains-sort_dedup ⦃o = order⦄ p paths),
      )
