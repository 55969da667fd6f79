-- ===== src/Base/Equality.antt =====
-- `PartialEq` and `Eq`: a Boolean test that decides equality.
use Prim.Native.Nat.{ℕ, ◌+◌}
use mathlib.Core.Path.{◌≡◌, refl}
use mathlib.Core.Logic.{◌↔◌}
use mathlib.Core.Bool.{Bool, true, false, ◌&&◌}
use mathlib.Core.Option.{Option, none, some}
use mathlib.Core.List.{List, [], ◌∷◌, ◌++◌}
use native.Mathlib.Omega.{arith}
use r_environment_tools.Base.Tests.{if◌then◌else◌, ◌==◌, ==_iff}
use r_environment_tools.Base.Texts.{Text, same_text, same_text_iff}

pub record Eq {ℓ} (A : Type ℓ) : Type ℓ where
  pub beq : A → A → Bool
  pub beq_iff : (a b : A) → (beq a b ≡ true) ↔ (a ≡ b)

instance abbrev pub nat_eq : Eq ℕ
nat_eq = record { beq = ◌==◌; beq_iff = ==_iff }

abbrev pub text_eq : Eq Text
text_eq = record { beq = same_text; beq_iff = same_text_iff }

module _ {ℓ} {A : Type ℓ} ⦃e : Eq A⦄ where
  pub beq_self : (a : A) → e.beq a a ≡ true
  beq_self a = (e.beq_iff a a).1 refl

  -- How often an element occurs.
  abbrev pub count : A → List A → ℕ
  count a [] = 0
  count a (x ∷ xs) = (if e.beq a x then 1 else 0) + count a xs

  pub count-append : (a : A) (xs ys : List A) → count a (xs ++ ys) ≡ count a xs + count a ys
  count-append a [] ys = omega arith
  count-append a (x ∷ xs) ys = omega (arith, count-append a xs ys)

  pub count-middle :
      (a x : A) (xs ys : List A)
      → count a (xs ++ x ∷ ys) ≡ (if e.beq a x then 1 else 0) + count a (xs ++ ys)
  count-middle a x [] ys = refl
  count-middle a x (y ∷ xs) ys = omega (arith, count-middle a x xs ys)

  abbrev pub same_list : List A → List A → Bool
  same_list [] [] = true
  same_list (a ∷ s) (b ∷ t) = e.beq a b && same_list s t
  same_list _ _ = false

  pub same_list_iff : (s t : List A) → (same_list s t ≡ true) ↔ (s ≡ t)
  same_list_iff [] [] = (λ _. refl, λ _. refl)
  same_list_iff [] (b ∷ t) = (λ h. cc, λ h. cc)
  same_list_iff (a ∷ s) [] = (λ h. cc, λ h. cc)
  same_list_iff (a ∷ s) (b ∷ t) = ground (arith, same_list_iff s t, e.beq_iff a b)

  abbrev pub same_option : Option A → Option A → Bool
  same_option none none = true
  same_option (some a) (some b) = e.beq a b
  same_option _ _ = false

  pub same_option_iff : (s t : Option A) → (same_option s t ≡ true) ↔ (s ≡ t)
  same_option_iff none none = (λ _. refl, λ _. refl)
  same_option_iff none (some b) = (λ h. cc, λ h. cc)
  same_option_iff (some a) none = (λ h. cc, λ h. cc)
  same_option_iff (some a) (some b) = ground (arith, e.beq_iff a b)

instance abbrev pub list_eq {ℓ} : {A : Type ℓ} ⦃e : Eq A⦄ → Eq (List A)
list_eq = record { beq = same_list; beq_iff = same_list_iff }

instance abbrev pub option_eq {ℓ} : {A : Type ℓ} ⦃e : Eq A⦄ → Eq (Option A)
option_eq = record { beq = same_option; beq_iff = same_option_iff }
