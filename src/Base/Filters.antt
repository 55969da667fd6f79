-- ===== src/Base/Filters.antt =====
-- `filter`, `find`, `sort` and `Option.map` against `All`, `contains` and `is_some`.
use r_environment_tools.Base.{
  ◌≡◌, refl, sym, ◌∙◌, ◌⊎◌, inl, inr, Bool, true, false, not, ◌&&◌, ◌||◌, List, [], ◌∷◌, Option,
  none, some, Ord, All, filter, find, insert, sort, contains, same, same_self, is_some, Bool-cases,
  arith,
}
use mathlib.Core.Option

module _ {A : Type 0} (p : A → Bool) where
  pub All-filter : (xs : List A) → All (λ x. p x ≡ true) (filter p xs)
  All-filter [] = tt
  All-filter (x ∷ xs) = elim (Bool-cases (p x)) [
    | inl h ↦ rw (h) (h, All-filter xs)
    | inr h ↦ rw (h) (All-filter xs)
  ]

  pub find-none : (xs : List A) → find p xs ≡ none → All (λ x. p x ≡ false) xs
  find-none [] h = tt
  find-none (x ∷ xs) h = elim (Bool-cases (p x)) [
    | inl k ↦ ground arith
    | inr k ↦ (k, find-none xs (ground arith))
  ]

  pub find-some : (xs : List A) (x : A) → find p xs ≡ some x → p x ≡ true
  find-some [] x h = cc
  find-some (y ∷ xs) x h = elim (Bool-cases (p y)) [
    | inl k ↦ ground arith
    | inr k ↦ find-some xs x (ground arith)
  ]

module _ {A : Type 0} ⦃o : Ord A⦄ (P : A → Type 0) where
  pub All-insert : (x : A) (ys : List A) → P x → All P ys → All P (insert x ys)
  unfolding insert
  All-insert x [] h k = (h, tt)
  All-insert x (y ∷ ys) h k = elim (Bool-cases (o.le x y)) [
    | inl l ↦ rw (l) (h, k)
    | inr l ↦ rw (l) (k.0, All-insert x ys h k.1)
  ]

  pub All-sort : (xs : List A) → All P xs → All P (sort xs)
  unfolding sort
  All-sort [] h = tt
  All-sort (x ∷ xs) h = All-insert x (sort xs) h.0 (All-sort xs h.1)

module _ {A : Type 0} ⦃o : Ord A⦄ where
  contains-insert : (a x : A) (ys : List A) → contains a (insert x ys) ≡ (same a x || contains a ys)
  unfolding contains insert
  contains-insert a x [] = refl
  contains-insert a x (y ∷ ys) = elim (Bool-cases (o.le x y)) [
    | inl l ↦ rw (l) refl
    | inr l ↦ rw (l) (ground (arith, contains-insert a x ys))
  ]

  pub contains-sort : (a : A) (xs : List A) → contains a (sort xs) ≡ contains a xs
  unfolding contains sort
  contains-sort a [] = refl
  contains-sort a (x ∷ xs) = ground (arith, contains-insert a x (sort xs), contains-sort a xs)

  -- Each element that passes a test is in a list that has what the filter keeps.
  pub contains-filter :
      (p : A → Bool) (xs ys : List A)
      → ((a : A) → contains a (filter p xs) ≡ true → contains a ys ≡ true)
      → All (λ x. (not (p x) || contains x ys) ≡ true) xs
  unfolding contains
  contains-filter p [] ys h = tt
  contains-filter p (x ∷ xs) ys h = (
    elim (Bool-cases (p x)) [
      | inl k ↦
          let first : contains x (filter p (x ∷ xs)) ≡ true = ground (arith, same_self x) in
          ground (arith, h x first)
      | inr k ↦ ground arith
    ],
    contains-filter p xs ys
        (λ a k. h a (elim (Bool-cases (p x)) [ inl l ↦ rw (l) (ground arith) | inr l ↦ rw (l) k ])),
  )

pub map-some :
    {A B : Type 0} (f : A → B) (o : Option A) (b : B)
    → Option.map f o ≡ some b
    → (a : A) × (b ≡ f a)
map-some f none b h = cc
map-some f (some a) b h = (a, cc)

pub or_parts : (a b : Bool) → (a || b) ≡ true → (a ≡ true) ⊎ (b ≡ true)
or_parts true b h = inl refl
or_parts false b h = inr h

module _ {A : Type 0} (p : A → Bool) (x : A) (rest : List A) (r : A) where
  pub find-hit : p x ≡ true → find p (x ∷ rest) ≡ some r → x ≡ r
  find-hit k h = let e : find p (x ∷ rest) ≡ some x = rw (k) refl in cc

  pub find-miss : p x ≡ false → find p (x ∷ rest) ≡ some r → find p rest ≡ some r
  find-miss k h = let e : find p (x ∷ rest) ≡ find p rest = rw (k) refl in sym e ∙ h

pub both_false : (a b : Bool) → (not a && not b) ≡ true → (a ≡ false) × (b ≡ false)
both_false false false h = (refl, refl)
both_false false true h = cc
both_false true b h = cc

pub not_some : {A : Type 0} (o : Option A) → is_some o ≡ false → o ≡ none
not_some none h = refl
not_some (some a) h = cc

pub is_some-map : {A B : Type 0} (f : A → B) (o : Option A) → is_some (Option.map f o) ≡ is_some o
is_some-map f none = refl
is_some-map f (some a) = refl
