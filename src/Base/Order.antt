-- ===== src/Base/Order.antt =====
-- `Ord`, and `sort` followed by `dedup`. Equality of Rust values is `Ordering::Equal`, so two
-- equal values of the source may be different values here (`a//b` and `a/b` are one path).
pub mod Absorb
pub mod Lexicographic
use mathlib.Core.Path.{◌≡◌, refl}
use mathlib.Core.Logic.{◌⊎◌, inl, inr}
use mathlib.Core.Bool.{Bool, true, false, ◌&&◌, ◌||◌}
use mathlib.Core.List.{List, [], ◌∷◌, ◌++◌}
use native.Mathlib.Omega.{arith}
use r_environment_tools.Base.Tests.{if◌then◌else◌, Bool-cases}
use r_environment_tools.Base.Lists.{All}

pub record Ord {ℓ} (A : Type ℓ) : Type ℓ where
  pub le : A → A → Bool
  pub total : (a b : A) → (le a b ≡ true) ⊎ (le b a ≡ true)
  pub trans : (a b c : A) → le a b ≡ true → le b c ≡ true → le a c ≡ true

module _ {ℓ} {A : Type ℓ} ⦃o : Ord A⦄ where
  abbrev pub same : A → A → Bool
  same a b = o.le a b && o.le b a

  unfoldable pub insert : A → List A → List A
  insert x [] = x ∷ []
  insert x (y ∷ ys) = if o.le x y then x ∷ y ∷ ys else y ∷ insert x ys

  -- The stable sort: an element goes in front of the later elements that equal it.
  unfoldable pub sort : List A → List A
  unfolding insert
  sort [] = []
  sort (x ∷ xs) = insert x (sort xs)

  unfoldable pub dedup_from : A → List A → List A
  dedup_from x [] = []
  dedup_from x (y ∷ ys) =
      let kept = y ∷ dedup_from y ys in
      let dropped = dedup_from x ys in if same x y then dropped else kept

  unfoldable pub dedup : List A → List A
  unfolding dedup_from
  dedup [] = []
  dedup (x ∷ xs) = x ∷ dedup_from x xs

  -- `v.sort(); v.dedup();`
  unfoldable pub sort_dedup : List A → List A
  unfolding sort dedup
  sort_dedup xs = dedup (sort xs)

  unfoldable pub contains : A → List A → Bool
  contains a [] = false
  contains a (x ∷ xs) = same a x || contains a xs

  abbrev pub Below : A → List A → Type 0
  Below x ys = All (λ y. o.le y x ≡ false) ys

  -- Strictly increasing: sorted, and no two elements are equal.
  abbrev pub IsStrict : List A → Type 0
  IsStrict [] = Unit
  IsStrict (x ∷ xs) = Below x xs × IsStrict xs

  pub le_self : (a : A) → o.le a a ≡ true
  le_self a = elim (o.total a a) [ inl h ↦ h | inr h ↦ h ]

  pub le_of_not : (a b : A) → o.le a b ≡ false → o.le b a ≡ true
  le_of_not a b h = elim (o.total a b) [ inl k ↦ cc | inr k ↦ k ]

  pub lt_of_le_lt : (a b c : A) → o.le a b ≡ true → o.le c b ≡ false → o.le c a ≡ false
  lt_of_le_lt a b c h k = elim (Bool-cases (o.le c a)) [
    | inl p ↦ cc (o.trans c a b p h)
    | inr p ↦ p
  ]

  pub lt_of_lt_le : (a b c : A) → o.le b a ≡ false → o.le b c ≡ true → o.le c a ≡ false
  lt_of_lt_le a b c h k = elim (Bool-cases (o.le c a)) [
    | inl p ↦ cc (o.trans b c a k p)
    | inr p ↦ p
  ]

  Below-of_le : (a b : A) (ys : List A) → o.le a b ≡ true → Below b ys → Below a ys
  Below-of_le a b [] h k = tt
  Below-of_le a b (y ∷ ys) h (p, k) = (lt_of_le_lt a b y h p, Below-of_le a b ys h k)

  -- An insertion that replaces an equal element, on strictly increasing lists.
  put : A → List A → List A
  put x [] = x ∷ []
  put x (y ∷ ys) = if o.le x y then (if o.le y x then x ∷ ys else x ∷ y ∷ ys) else y ∷ put x ys

  same_of_same : (a x y : A) → same x y ≡ true → same a x ≡ same a y
  same_of_same a x y h = grind (arith, o.trans a x y, o.trans y x a, o.trans a y x, o.trans x y a)

  dedup_from-same : (x y : A) (ys : List A) → same x y ≡ true → dedup_from x ys ≡ dedup_from y ys
  unfolding dedup_from
  dedup_from-same x y [] h = refl
  dedup_from-same x y (z ∷ zs) h =
      grind (
        arith,
        dedup_from-same x y zs h,
        o.trans x y z,
        o.trans z x y,
        o.trans y x z,
        o.trans z y x,
      )

  dedup_from-insert :
      (x y : A) (ys : List A)
      → o.le x y ≡ false
      → dedup_from y (insert x ys) ≡ put x (dedup_from y ys)
  unfolding dedup_from insert put
  dedup_from-insert x y [] h = ground arith
  dedup_from-insert x y (z ∷ zs) h = ground (
    arith,
    dedup_from-same x z zs,
    lt_of_lt_le y x z,
    dedup_from-insert x y zs,
    dedup_from-insert x z zs,
  )

  dedup-insert : (x : A) (ys : List A) → dedup (insert x ys) ≡ put x (dedup ys)
  unfolding dedup insert put
  dedup-insert x [] = refl
  dedup-insert x (y ∷ ys) = ground (arith, dedup_from-same x y ys, dedup_from-insert x y ys)

  sort_dedup-cons : (x : A) (xs : List A) → sort_dedup (x ∷ xs) ≡ put x (sort_dedup xs)
  unfolding sort_dedup sort
  sort_dedup-cons x xs = dedup-insert x (sort xs)

  Below-put : (x y : A) (ys : List A) → o.le x y ≡ false → Below y ys → Below y (put x ys)
  unfolding put
  Below-put x y [] h k = (h, tt)
  Below-put x y (z ∷ zs) h (p, k) = ground (arith, Below-put x y zs h k)

  put-IsStrict : (x : A) (ys : List A) → IsStrict ys → IsStrict (put x ys)
  unfolding put
  put-IsStrict x [] k = (tt, tt)
  put-IsStrict x (y ∷ ys) (b, k) =
      ground (arith, Below-of_le x y ys, Below-put x y ys, put-IsStrict x ys k)

  -- The result is strictly increasing.
  pub sort_dedup-IsStrict : (xs : List A) → IsStrict (sort_dedup xs)
  unfolding sort_dedup sort dedup
  sort_dedup-IsStrict [] = tt
  sort_dedup-IsStrict (x ∷ xs) =
      rw (sort_dedup-cons x xs) (put-IsStrict x _ (sort_dedup-IsStrict xs))

  contains-put : (a x : A) (ys : List A) → contains a (put x ys) ≡ (same a x || contains a ys)
  unfolding contains put
  contains-put a x [] = refl
  contains-put a x (y ∷ ys) = ground (arith, contains-put a x ys, same_of_same a x y)

  -- The result has the elements of the list, up to the order's equality.
  pub contains-sort_dedup : (a : A) (xs : List A) → contains a (sort_dedup xs) ≡ contains a xs
  unfolding sort_dedup sort dedup contains
  contains-sort_dedup a [] = refl
  contains-sort_dedup a (x ∷ xs) =
      rw (sort_dedup-cons x xs, contains-put a x (sort_dedup xs), contains-sort_dedup a xs)

  pub contains-same : (x y : A) (zs : List A) → same x y ≡ true → contains x zs ≡ contains y zs
  unfolding contains
  contains-same x y [] h = refl
  contains-same x y (z ∷ zs) h = ground (arith, contains-same x y zs h, same_of_same z x y h)

  pub contains-append :
      (a : A) (xs ys : List A) → contains a (xs ++ ys) ≡ (contains a xs || contains a ys)
  unfolding contains
  contains-append a [] ys = refl
  contains-append a (x ∷ xs) ys = ground (arith, contains-append a xs ys)

  pub same_self : (a : A) → same a a ≡ true
  same_self a = rw (le_self a)
