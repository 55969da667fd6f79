-- ===== src/Glob/Expansion/Plain.antt =====
-- Brace expansion leaves no group, and always gives a result.
use r_environment_tools.Base.{
  not, ℕ, zero, suc, ◌≡◌, ◌≤◌, ◌<◌, refl, inl, inr, List, [], ◌∷◌, ◌++◌, none, some, Text, length,
  take, length-take, All, All-append, All-imp, count, nat_eq, arith, Bool-cases,
}
use r_environment_tools.Glob.{
  is_glob_pattern, expand_glob_pattern, expand_glob_patterns, split, close_brace, comma,
  first_group, max_brace_expansions, expand_braces,
}
use r_environment_tools.Glob.Expansion.Groups.{Group-cases, alternatives-count}
use r_environment_tools.Glob.Expansion.{
  each, expansions, expansions-none, expansions-some, expand_braces-IsFull,
}

All-each :
    (P : Text → Type 0) (expand : Text → List Text) (prefix suffix : Text) (alts : List Text)
    → All (λ alt. All P (expand (prefix ++ (alt ++ suffix)))) alts
    → All P (each expand prefix suffix alts)
All-each P expand prefix suffix [] h = tt
All-each P expand prefix suffix (alt ∷ alts) (h, hs) =
    All-append _ (expand (prefix ++ (alt ++ suffix))) _ h (All-each P expand prefix suffix alts hs)

-- No text of a full expansion, on fuel above the number of closing braces, has a brace group left.
pub expansions-IsPlain :
    (fuel : ℕ) (p : Text)
    → count close_brace p < fuel
    → All (λ t. first_group t ≡ none) (expansions fuel p)
expansions-IsPlain zero p h = absurd (omega arith)
expansions-IsPlain (suc fuel) p h = elim (Group-cases p) [
  | inl g ↦ rw (expansions-none fuel p g) (g, tt)
  | inr (prefix, inner, suffix, g) ↦ rw (expansions-some fuel p prefix inner suffix g) (
      All-each (λ t. first_group t ≡ none) (expansions fuel) prefix suffix (split comma inner)
        (All-imp _ _ (split comma inner)
          (λ alt k. expansions-IsPlain fuel (prefix ++ (alt ++ suffix)) (omega (arith, k, h)))
          (alternatives-count p prefix inner suffix g)))
]

All-take {ℓ κ} : {A : Type ℓ} (P : A → Type κ) (n : ℕ) (xs : List A) → All P xs → All P (take n xs)
All-take P zero xs h = tt
All-take P (suc n) [] h = tt
All-take P (suc n) (x ∷ xs) (h, hs) = (h, All-take P n xs hs)

-- Brace expansion always gives a result: at most 1024 texts, none with a brace group left.
pub expand_braces-IsPlain :
    (p : Text)
    → (ts : List Text) × (expand_braces p ≡ some ts)
      × (length ts ≤ 1024)
      × All (λ t. first_group t ≡ none) ts
expand_braces-IsPlain p = (
  take max_brace_expansions (full p),
  expand_braces-IsFull p,
  omega (arith, length-take max_brace_expansions (full p)),
  All-take _ max_brace_expansions (full p)
      (expansions-IsPlain (suc (count close_brace p)) p (omega arith)),
)
  where
    full : Text → List Text
    full q = expansions (suc (count close_brace q)) q

module _ {PathBuf : Type 0} (path_of : Text → PathBuf) (glob : Text → List PathBuf) where
  expand_glob_pattern_total :
      (p : Text) → (ps : List PathBuf) × (expand_glob_pattern path_of glob p ≡ some ps)
  unfolding expand_glob_pattern
  expand_glob_pattern_total p = elim (Bool-cases (not (is_glob_pattern p))) [
    | inl t ↦ rw (t) (path_of p ∷ [], refl)
    | inr t ↦ rw (t, expand_braces-IsFull p) (_, refl)
  ]

  -- Expanding any list of patterns gives a result, whatever the file system matches.
  pub expand_glob_patterns_total :
      (ts : List Text) → (ps : List PathBuf) × (expand_glob_patterns path_of glob ts ≡ some ps)
  unfolding expand_glob_patterns
  expand_glob_patterns_total [] = ([], refl)
  expand_glob_patterns_total (t ∷ ts) = (
    (expand_glob_pattern_total t).0 ++ (expand_glob_patterns_total ts).0,
    rw ((expand_glob_pattern_total t).1, (expand_glob_patterns_total ts).1, expand_glob_patterns)
        refl,
  )
