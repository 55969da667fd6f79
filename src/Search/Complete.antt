-- ===== src/Search/Complete.antt =====
-- Which directories the search of crates/ret/src/find.rs takes up.
use r_environment_tools.Base.{
  ℕ, zero, suc, ◌≡◌, refl, sym, ap, subst, ◌∙◌, inl, inr, true, false, List, [], ◌∷◌, ◌++◌, Option,
  none, some, contains, contains-append, append_assoc, append-nil, All, le_self, arith, Bool-cases,
  Option-cases,
}
use r_environment_tools.Paths.{PathLib, FileTree}
use r_environment_tools.Search.{children, search, collect_recursive_search_paths}

module _ (L : PathLib) (tree : FileTree L.PathBuf) where
  open L use {PathBuf, order}

  -- The canonical paths, of the paths that have one.
  abbrev pub canonicals : List PathBuf → List PathBuf
  canonicals [] = []
  canonicals (p ∷ ps) = elim (tree.canonicalize p) [
    | none ↦ canonicals ps
    | some c ↦ c ∷ canonicals ps
  ]

  abbrev pub IsDistinct : List PathBuf → Type 0
  IsDistinct [] = Unit
  IsDistinct (c ∷ cs) = (contains ⦃o = order⦄ c cs ≡ false) × IsDistinct cs

  -- A path with a canonical path has it among `seen`.
  abbrev pub IsCovered : List PathBuf → PathBuf → Type 0
  IsCovered seen p =
      (c : PathBuf) → tree.canonicalize p ≡ some c → contains ⦃o = order⦄ c seen ≡ true

  IsDistinct-snoc :
      (cs : List PathBuf) (c : PathBuf)
      → IsDistinct cs
      → contains ⦃o = order⦄ c cs ≡ false
      → IsDistinct (cs ++ c ∷ [])
  unfolding contains
  IsDistinct-snoc [] c d h = (refl, tt)
  IsDistinct-snoc (x ∷ cs) c (n, d) h = (
    rw (contains-append ⦃o = order⦄ x cs (c ∷ [])) (ground arith),
    IsDistinct-snoc cs c d (ground arith),
  )

  -- What the loop gives, from a stack and the directories visited so far.
  abbrev IsSearch : List PathBuf → List PathBuf → Option (List PathBuf × List PathBuf) → Type 0
  IsSearch pending visited none = Unit
  IsSearch pending visited (some (paths, seen)) =
      (seen ≡ visited ++ canonicals paths)
      × All (IsCovered seen) pending
      × All (λ p. All (IsCovered seen) (children L tree p)) paths
      × (IsDistinct visited → IsDistinct seen)

  All-first : (P : PathBuf → Type 0) (xs ys : List PathBuf) → All P (xs ++ ys) → All P xs
  All-first P [] ys h = tt
  All-first P (x ∷ xs) ys (p, h) = (p, All-first P xs ys h)

  All-second : (P : PathBuf → Type 0) (xs ys : List PathBuf) → All P (xs ++ ys) → All P ys
  All-second P [] ys h = h
  All-second P (x ∷ xs) ys (p, h) = All-second P xs ys h

  canonicals-cons :
      (p c : PathBuf) (ps : List PathBuf)
      → tree.canonicalize p ≡ some c
      → canonicals (p ∷ ps) ≡ c ∷ canonicals ps
  canonicals-cons p c ps h = rw (h, canonicals) refl

  IsCovered-some :
      (p c : PathBuf) (seen : List PathBuf)
      → tree.canonicalize p ≡ some c
      → contains ⦃o = order⦄ c seen ≡ true
      → IsCovered seen p
  IsCovered-some p c seen h k d g = cc

  abbrev with_first :
      PathBuf → Option (List PathBuf × List PathBuf) → Option (List PathBuf × List PathBuf)
  with_first directory none = none
  with_first directory (some (paths, seen)) = some (directory ∷ paths, seen)

  new-IsSearch :
      (directory canonical : PathBuf) (pending visited : List PathBuf)
      (rest : Option (List PathBuf × List PathBuf))
      → tree.canonicalize directory ≡ some canonical
      → contains ⦃o = order⦄ canonical visited ≡ false
      → IsSearch (children L tree directory ++ pending) (visited ++ canonical ∷ []) rest
      → IsSearch (directory ∷ pending) visited (with_first directory rest)
  unfolding contains
  new-IsSearch directory canonical pending visited none h k g = tt
  new-IsSearch directory canonical pending visited (some (paths, seen)) h k g = (
    g.0
        ∙ append_assoc visited (canonical ∷ []) (canonicals paths)
        ∙ ap (λ cs. visited ++ cs) (sym (canonicals-cons directory canonical paths h)),
    (
      IsCovered-some directory canonical seen h (
          rw
            (
              g.0,
              contains-append ⦃o = order⦄ canonical (visited ++ canonical ∷ []) (canonicals paths),
              contains-append ⦃o = order⦄ canonical visited (canonical ∷ []),
            )
            (ground (arith, le_self ⦃o = order⦄ canonical))),
      All-second (IsCovered seen) (children L tree directory) pending g.1,
    ),
    (All-first (IsCovered seen) (children L tree directory) pending g.1, g.2),
    λ d. g.3 (IsDistinct-snoc visited canonical d k),
  )

  old-IsSearch :
      (directory : PathBuf) (pending visited : List PathBuf)
      (rest : Option (List PathBuf × List PathBuf))
      → IsCovered visited directory
      → IsSearch pending visited rest
      → IsSearch (directory ∷ pending) visited rest
  old-IsSearch directory pending visited none h g = tt
  old-IsSearch directory pending visited (some (paths, seen)) h g = (
    g.0,
    (λ c k. rw (g.0, contains-append ⦃o = order⦄ c visited (canonicals paths), h c k) refl, g.1),
    g.2,
    g.3,
  )

  search-IsSearch :
      (fuel : ℕ) (pending visited : List PathBuf)
      → IsSearch pending visited (search L tree fuel pending visited)
  unfolding search
  search-IsSearch zero pending visited = tt
  search-IsSearch (suc fuel) [] visited = (sym (append-nil visited), tt, tt, λ d. d)
  search-IsSearch (suc fuel) (directory ∷ pending) visited =
      elim (Option-cases (tree.canonicalize directory)) [
        | inl h ↦
            rw (h, search)
              (old-IsSearch directory pending visited _ (λ c k. cc)
                (search-IsSearch fuel pending visited))
        | inr (canonical, h) ↦ elim (Bool-cases (contains ⦃o = order⦄ canonical visited)) [
          | inl k ↦
              rw (h, k, search)
                (old-IsSearch directory pending visited _
                  (IsCovered-some directory canonical visited h k)
                  (search-IsSearch fuel pending visited))
          | inr k ↦
              rw (h, k, search)
                (new-IsSearch directory canonical pending visited _ h k (
                  search-IsSearch fuel (children L tree directory ++ pending)
                    (visited ++ canonical ∷ [])))
        ]
      ]

  abbrev pub IsComplete : PathBuf → List PathBuf → Type 0
  IsComplete directory paths =
      IsDistinct (canonicals paths)
      × IsCovered (canonicals paths) directory
      × All (λ p. All (IsCovered (canonicals paths)) (children L tree p)) paths

  -- The search takes up no directory twice, by canonical paths; it takes up the directory that it
  -- is given, and with every directory all those that it adds, if they have a canonical path.
  pub collect_recursive_search_paths-IsComplete :
      (fuel : ℕ) (directory : PathBuf) (paths : List PathBuf)
      → collect_recursive_search_paths L tree fuel directory ≡ some paths
      → IsComplete directory paths
  unfolding collect_recursive_search_paths
  collect_recursive_search_paths-IsComplete fuel directory paths h =
      go (search L tree fuel (directory ∷ []) []) (search-IsSearch fuel (directory ∷ []) []) h
    where
      go :
          (r : Option (List PathBuf × List PathBuf))
          → IsSearch (directory ∷ []) [] r
          → (elim r as (λ _. Option (List PathBuf)) [
            | none ↦ none
            | some (found, seen) ↦ some found
          ])
            ≡ some paths
          → IsComplete directory paths
      go none g k = cc
      go (some (found, seen)) g k =
          let e : found ≡ paths = cc in
          subst (IsComplete directory) e (rw (sym g.0) (g.3 tt, g.1.0, g.2))
