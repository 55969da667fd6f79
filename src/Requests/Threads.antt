-- ===== src/Requests/Threads.antt =====
-- Threads that report to one reporter: `find_r_installations_in_paths` of crates/ret/src/find.rs.
use r_environment_tools.Base.{◌≡◌, refl, ◌||◌, List, [], ◌∷◌, ◌++◌, Ord, any, contains, arith}
use r_environment_tools.Search.Bounded.{concat}

-- A list takes the elements of two, each in its order.
pub data Merges {A : Type 0} : List A → List A → List A → Type 0 where
  both_ended : Merges [] [] []
  first_goes : {x : A} {xs ys zs : List A} → Merges xs ys zs → Merges (x ∷ xs) ys (x ∷ zs)
  second_goes : {y : A} {xs ys zs : List A} → Merges xs ys zs → Merges xs (y ∷ ys) (y ∷ zs)

-- What threads do one after the other, given what each of them does.
pub data Interleaves {A : Type 0} : List (List A) → List A → Type 0 where
  no_threads : Interleaves [] []
  with_thread :
      {xs : List A} {xss : List (List A)} {ys zs : List A}
      → Interleaves xss ys
      → Merges xs ys zs
      → Interleaves (xs ∷ xss) zs

module _ {A : Type 0} where
  Merges-append : (xs ys : List A) → Merges xs ys (xs ++ ys)
  Merges-append [] [] = both_ended
  Merges-append [] (y ∷ ys) = second_goes (Merges-append [] ys)
  Merges-append (x ∷ xs) ys = first_goes (Merges-append xs ys)

  -- Threads may run one after the other.
  pub Interleaves-concat : (xss : List (List A)) → Interleaves xss (concat xss)
  Interleaves-concat [] = no_threads
  Interleaves-concat (xs ∷ xss) =
      with_thread (Interleaves-concat xss) (Merges-append xs (concat xss))

module _ {A : Type 0} ⦃o : Ord A⦄ where
  contains-Merges :
      (a : A) {xs ys zs : List A}
      → Merges xs ys zs
      → contains a zs ≡ (contains a xs || contains a ys)
  unfolding contains
  contains-Merges a both_ended = refl
  contains-Merges a (first_goes m) = ground (arith, contains-Merges a m)
  contains-Merges a (second_goes m) = ground (arith, contains-Merges a m)

  -- Nothing of a thread is lost, and nothing else is there.
  pub contains-Interleaves :
      (a : A) {xss : List (List A)} {zs : List A}
      → Interleaves xss zs
      → contains a zs ≡ any (λ xs. contains a xs) xss
  unfolding contains
  contains-Interleaves a no_threads = refl
  contains-Interleaves a (with_thread i m) =
      ground (arith, contains-Merges a m, contains-Interleaves a i)
