-- ===== src/Base/Order/Absorb.antt =====
-- When sorting and deduplicating adds nothing: the list was strictly increasing, and what is
-- appended to it is equal to elements that it has.
use mathlib.Core.Path.{◌≡◌, refl, ◌∙◌}
use mathlib.Core.Logic.{inl, inr}
use mathlib.Core.Bool.{true, false}
use mathlib.Core.List.{List, [], ◌∷◌, ◌++◌}
use native.Mathlib.Omega.{arith}
use r_environment_tools.Base.Tests.{Bool-cases}
use r_environment_tools.Base.Lists.{All}
use r_environment_tools.Base.Order.{
  Ord, same, sort, dedup, sort_dedup, sort_dedup-cons, contains, Below, IsStrict, put, lt_of_lt_le,
  lt_of_le_lt, le_of_not, same_self, sort_dedup-IsStrict,
}

module _ {ℓ} {A : Type ℓ} ⦃o : Ord A⦄ where
  put_all : List A → List A → List A
  put_all [] zs = zs
  put_all (x ∷ xs) zs = put x (put_all xs zs)

  -- Every element of `zs` equals one of `xs`.
  abbrev pub Within : List A → List A → Type 0
  Within xs zs = All (λ z. contains z xs ≡ true) zs

  sort_dedup-append : (xs zs : List A) → sort_dedup (xs ++ zs) ≡ put_all xs (sort_dedup zs)
  unfolding put_all
  sort_dedup-append [] zs = refl
  sort_dedup-append (x ∷ xs) zs = sort_dedup-cons x (xs ++ zs) ∙ rw (sort_dedup-append xs zs)

  put-Below : (x : A) (ys : List A) → Below x ys → put x ys ≡ x ∷ ys
  unfolding put
  put-Below x [] k = refl
  put-Below x (y ∷ ys) (p, k) = rw (le_of_not y x p, p)

  put_all-nil : (xs : List A) → IsStrict xs → put_all xs [] ≡ xs
  unfolding put_all
  put_all-nil [] k = refl
  put_all-nil (x ∷ xs) (b, k) = rw (put_all-nil xs k) (put-Below x xs b)

  -- A strictly increasing list is unchanged.
  pub sort_dedup-fixed : (xs : List A) → IsStrict xs → sort_dedup xs ≡ xs
  unfolding put_all sort_dedup sort dedup
  sort_dedup-fixed [] k = refl
  sort_dedup-fixed (x ∷ xs) (b, k) =
      sort_dedup-cons x xs ∙ rw (sort_dedup-fixed xs k) (put-Below x xs b)

  put_all-cons : (z : A) (xs zs : List A) → Below z xs → put_all xs (z ∷ zs) ≡ z ∷ put_all xs zs
  unfolding put_all put
  put_all-cons z [] zs k = refl
  put_all-cons z (x ∷ xs) zs (p, k) = rw (put_all-cons z xs zs k, p)

  Below-contains : (x z : A) (xs : List A) → Below x xs → contains z xs ≡ true → o.le z x ≡ false
  unfolding contains
  Below-contains x z [] b c = cc
  Below-contains x z (y ∷ ys) (p, b) c = elim (Bool-cases (same z y)) [
    | inl e ↦ lt_of_lt_le x y z p (ground arith)
    | inr e ↦ Below-contains x z ys b (ground arith)
  ]

  Within-drop : (x : A) (xs zs : List A) → Below x zs → Within (x ∷ xs) zs → Within xs zs
  unfolding contains
  Within-drop x xs [] b w = tt
  Within-drop x xs (z ∷ zs) (p, b) (c, w) = (ground arith, Within-drop x xs zs b w)

  Below-of_same : (x z : A) (ys : List A) → o.le x z ≡ true → Below z ys → Below x ys
  Below-of_same x z [] h b = tt
  Below-of_same x z (y ∷ ys) h (p, b) = (lt_of_le_lt x z y h p, Below-of_same x z ys h b)

  not-contains-nil : (z : A) → contains z [] ≡ true → ⊥
  unfolding contains
  not-contains-nil z c = cc

  contains-tail :
      (x z : A) (xs : List A) → contains z (x ∷ xs) ≡ true → same z x ≡ false → contains z xs ≡ true
  unfolding contains
  contains-tail x z xs c e = ground arith

  put_all-first :
      (x z : A) (xs zs : List A)
      → Below x xs
      → Below z zs
      → same z x ≡ true
      → put_all xs zs ≡ xs
      → put x (put_all xs (z ∷ zs)) ≡ x ∷ xs
  unfolding put
  put_all-first x z xs zs b bz e ih =
      rw (put_all-cons z xs zs (Below-of_same z x xs (ground arith) b), ih) (ground arith)

  put_all-later :
      (x z : A) (xs zs : List A)
      → Below x xs
      → same z x ≡ false
      → contains z xs ≡ true
      → (o.le z x ≡ false → put_all xs (z ∷ zs) ≡ xs)
      → put x (put_all xs (z ∷ zs)) ≡ x ∷ xs
  put_all-later x z xs zs b e c ih = rw (ih (Below-contains x z xs b c)) (put-Below x xs b)

  put_all-Within : (xs zs : List A) → IsStrict xs → IsStrict zs → Within xs zs → put_all xs zs ≡ xs
  unfolding put_all
  put_all-Within xs [] k l w = put_all-nil xs k
  put_all-Within [] (z ∷ zs) k l (c, w) = absurd (not-contains-nil z c)
  put_all-Within (x ∷ xs) (z ∷ zs) (b, k) (bz, l) (c, w) = elim (Bool-cases (same z x)) [
    | inl e ↦
        put_all-first x z xs zs b bz e (
          put_all-Within xs zs k l (Within-drop x xs zs (Below-of_same x z zs (ground arith) bz) w))
    | inr e ↦ put_all-later x z xs zs b e (contains-tail x z xs c e) (λ below.
        put_all-Within xs (z ∷ zs) k (bz, l)
          (
            contains-tail x z xs c e,
            Within-drop x xs zs (Below-of_same x z zs (le_of_not z x below) bz) w,
          ))
  ]

  All-put {κ} : (P : A → Type κ) (x : A) (ys : List A) → P x → All P ys → All P (put x ys)
  unfolding put
  All-put P x [] p k = (p, tt)
  All-put P x (y ∷ ys) p (q, k) = ground (arith, All-put P x ys p k)

  All-sort_dedup {κ} : (P : A → Type κ) (xs : List A) → All P xs → All P (sort_dedup xs)
  unfolding sort_dedup sort dedup
  All-sort_dedup P [] k = tt
  All-sort_dedup P (x ∷ xs) (p, k) =
      rw (sort_dedup-cons x xs) (All-put P x (sort_dedup xs) p (All-sort_dedup P xs k))

  -- Appending nothing new and sorting again gives the list back.
  pub sort_dedup-absorb : (xs zs : List A) → IsStrict xs → Within xs zs → sort_dedup (xs ++ zs) ≡ xs
  sort_dedup-absorb xs zs k w =
      sort_dedup-append xs zs
      ∙ put_all-Within xs (sort_dedup zs) k (sort_dedup-IsStrict zs) (All-sort_dedup _ zs w)

  Within-cons : (x : A) (xs zs : List A) → Within xs zs → Within (x ∷ xs) zs
  unfolding contains
  Within-cons x xs [] w = tt
  Within-cons x xs (z ∷ zs) (c, w) = (ground arith, Within-cons x xs zs w)

  pub Within-self : (xs : List A) → Within xs xs
  unfolding contains
  Within-self [] = tt
  Within-self (x ∷ xs) = (ground (arith, same_self x), Within-cons x xs xs (Within-self xs))
