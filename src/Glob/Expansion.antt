-- ===== src/Glob/Expansion.antt =====
-- Brace expansion against a description of it: the full expansion, cut at the bound.
pub mod Groups
pub mod Plain
use r_environment_tools.Base.{
  not, ℕ, zero, suc, ◌+◌, ◌-◌, ◌≡◌, ◌≤◌, ◌<◌, refl, sym, ap, ◌∙◌, ◌⊎◌, inl, inr, true, false, List,
  [], ◌∷◌, ◌++◌, append_assoc, append-nil, Option, none, some, Text, leb, ◌==◌, ==_iff, length,
  take, length-append, length-take, All, All-append, All-imp, count, count-append, nat_eq,
  if◌then◌else◌, arith, Bool-cases, Option-cases, subst,
}
use r_environment_tools.Glob.{
  is_glob_pattern, expand_glob_pattern, expand_glob_patterns, split, open_brace, close_brace, comma,
  first_group, expand_braces_inner, expand_alternatives, max_brace_expansions, expand_braces,
}
use r_environment_tools.Strings.{split_once, with_head, extend_first}
use r_environment_tools.Glob.Expansion.Groups.{Group-cases, alternatives-count}

take-same {ℓ} : {A : Type ℓ} (n m : ℕ) (xs : List A) → n ≡ m → take n xs ≡ take m xs
take-same n m xs e = ap (λ k. take k xs) e

take-append {ℓ} :
    {A : Type ℓ} (n : ℕ) (xs ys : List A) → take n (xs ++ ys) ≡ take n xs ++ take (n - length xs) ys
take-append zero [] ys = take-same 0 (0 - 0) ys (omega arith)
take-append (suc n) [] ys = take-same (suc n) (suc n - 0) ys (omega arith)
take-append zero (x ∷ xs) ys = take-same 0 (0 - suc (length xs)) ys (omega arith)
take-append (suc n) (x ∷ xs) ys =
    ap (λ r. x ∷ r)
      (take-append n xs ys
        ∙ ap (λ r. take n xs ++ r)
            (take-same (n - length xs) (suc n - suc (length xs)) ys (omega arith)))

-- The full expansion, on fuel: that of each alternative of the first group, in order.
abbrev pub each : (Text → List Text) → Text → Text → List Text → List Text
each expand prefix suffix [] = []
each expand prefix suffix (alt ∷ alts) =
    expand (prefix ++ (alt ++ suffix)) ++ each expand prefix suffix alts

unfoldable pub expansions : ℕ → Text → List Text
unfolding split
expansions zero pattern = []
expansions (suc fuel) pattern = elim (first_group pattern) [
  | none ↦ pattern ∷ []
  | some (prefix, alternatives, suffix) ↦
      each (expansions fuel) prefix suffix (split comma alternatives)
]

-- What an expansion within the bound appends.
abbrev within : ℕ → List Text → List Text → List Text
within limit results more = results ++ take (limit - length results) more

within-append :
    (limit : ℕ) (results xs ys : List Text)
    → within limit (within limit results xs) ys ≡ within limit results (xs ++ ys)
within-append limit results xs ys =
    append_assoc results (take room xs) _
    ∙ ap (λ r. results ++ (take room xs ++ r))
        (take-same (limit - length (within limit results xs)) (room - length xs) ys
          (omega (arith, length-append results (take room xs), length-take room xs)))
    ∙ ap (λ r. results ++ r) (sym (take-append room xs ys))
  where
    room : ℕ
    room = limit - length results

within-full :
    (limit : ℕ) (results xs : List Text)
    → leb limit (length results) ≡ true
    → results ≡ within limit results xs
within-full limit results xs h =
    sym (append-nil results)
    ∙ ap (λ r. results ++ r) (take-same 0 (limit - length results) xs (ground arith))

take-one : (n : ℕ) (x : Text) → 1 ≤ n → x ∷ [] ≡ take n (x ∷ [])
take-one zero x h = absurd (omega arith)
take-one (suc zero) x h = refl
take-one (suc (suc n)) x h = refl

within-one :
    (limit : ℕ) (results : List Text) (x : Text)
    → leb limit (length results) ≡ false
    → results ++ x ∷ [] ≡ within limit results (x ∷ [])
within-one limit results x h =
    ap (λ r. results ++ r) (take-one (limit - length results) x (ground arith))

-- What a call makes of one text, and what the loop then makes of the alternatives.
module _ (limit : ℕ) (expand : Text → List Text → Option (List Text)) (full : Text → List Text)
    (prefix suffix : Text) where
  expand_alternatives_lem :
      (alts : List Text) (results : List Text)
      → All
          (λ alt.
            (rs : List Text)
            → expand (prefix ++ (alt ++ suffix)) rs
              ≡ some (within limit rs (full (prefix ++ (alt ++ suffix)))))
          alts
      → expand_alternatives limit expand prefix suffix alts results
        ≡ some (within limit results (each full prefix suffix alts))
  unfolding expand_alternatives
  expand_alternatives_lem [] results h = ap some (sym (take-none results))
    where
      take-none : (rs : List Text) → within limit rs [] ≡ rs
      take-none rs = go (limit - length rs)
        where
          go : (n : ℕ) → rs ++ take n [] ≡ rs
          go zero = append-nil rs
          go (suc n) = append-nil rs
  expand_alternatives_lem (alt ∷ alts) results (h, hs) =
      elim (Bool-cases (leb limit (length results))) [
        | inl t ↦ rw (t) (ap some (within-full limit results _ t))
        | inr t ↦
            rw (t, h results)
              (expand_alternatives_lem alts
                  (within limit results (full (prefix ++ (alt ++ suffix)))) hs
                ∙ ap some (
                    within-append limit results (full (prefix ++ (alt ++ suffix)))
                      (each full prefix suffix alts)))
      ]

pub expansions-none :
    (fuel : ℕ) (p : Text) → first_group p ≡ none → expansions (suc fuel) p ≡ p ∷ []
unfolding expansions
expansions-none fuel p g = rw (g, expansions) refl

pub expansions-some :
    (fuel : ℕ) (p prefix inner suffix : Text)
    → first_group p ≡ some (prefix, inner, suffix)
    → expansions (suc fuel) p ≡ each (expansions fuel) prefix suffix (split comma inner)
unfolding expansions
expansions-some fuel p prefix inner suffix g = rw (g, expansions) refl

-- With more fuel than the text has closing braces, the code returns what it was given with the
-- full expansion appended, cut off where the limit is reached.
pub expand_braces_inner_lem :
    (limit fuel : ℕ) (p : Text) (results : List Text)
    → count close_brace p < fuel
    → expand_braces_inner limit fuel p results ≡ some (within limit results (expansions fuel p))
unfolding expand_braces_inner
expand_braces_inner_lem limit zero p results h = absurd (omega arith)
expand_braces_inner_lem limit (suc fuel) p results h =
    elim (Bool-cases (leb limit (length results))) [
      | inl t ↦ rw (t) (ap some (within-full limit results _ t))
      | inr t ↦ rw (t) (elim (Group-cases p) [
        | inl g ↦ rw (g, expansions-none fuel p g) (ap some (within-one limit results p t))
        | inr (prefix, inner, suffix, g) ↦
            rw (g, expansions-some fuel p prefix inner suffix g)
              (expand_alternatives_lem limit (expand_braces_inner limit fuel) (expansions fuel)
                prefix suffix (split comma inner) results
                (All-imp _ _ (split comma inner)
                  (λ alt k rs.
                    expand_braces_inner_lem limit fuel (prefix ++ (alt ++ suffix)) rs
                      (omega (arith, k, h)))
                  (alternatives-count p prefix inner suffix g)))
      ])
    ]

-- Brace expansion always ends; it gives the first 1024 texts of the full expansion.
pub expand_braces-IsFull :
    (p : Text)
    → expand_braces p ≡ some (take max_brace_expansions (expansions (suc (count close_brace p)) p))
unfolding expand_braces
expand_braces-IsFull p =
    expand_braces_inner_lem max_brace_expansions (suc (count close_brace p)) p [] (omega arith)
