-- ===== src/Base/Order/Lexicographic.antt =====
-- The derived order of tuples, for a value with two times of which the second may be missing.
use Prim.Native.Nat.{ℕ}
use mathlib.Core.Path.{◌≡◌, refl}
use mathlib.Core.Logic.{◌⊎◌, inl, inr}
use mathlib.Core.Bool.{Bool, true, false}
use mathlib.Core.Option.{Option, none, some}
use native.Mathlib.Omega.{arith}
use r_environment_tools.Base.Tests.{if◌then◌else◌, Bool-cases, ltb, leb, ◌==◌}
use r_environment_tools.Base.Order.{Ord, same}

-- `none` comes first.
abbrev pub option_le : Option ℕ → Option ℕ → Bool
option_le none d = true
option_le (some a) none = false
option_le (some a) (some b) = leb a b

option_total : (c d : Option ℕ) → (option_le c d ≡ true) ⊎ (option_le d c ≡ true)
option_total none d = inl refl
option_total (some a) none = inr refl
option_total (some a) (some b) = elim (Bool-cases (leb a b)) [
  | inl h ↦ inl h
  | inr h ↦ inr (ground arith)
]

option_trans :
    (a b c : Option ℕ) → option_le a b ≡ true → option_le b c ≡ true → option_le a c ≡ true
option_trans none b c h k = refl
option_trans (some x) none c h k = cc
option_trans (some x) (some y) none h k = cc
option_trans (some x) (some y) (some z) h k = ground arith

module _ {ℓ} {A : Type ℓ} ⦃o : Ord A⦄ where
  abbrev pub triple_le : A × ℕ × Option ℕ → A × ℕ × Option ℕ → Bool
  triple_le (p, m, c) (q, n, d) =
      if same p q then (if m == n then option_le c d else ltb m n) else o.le p q

  pub triple_total : (s t : A × ℕ × Option ℕ) → (triple_le s t ≡ true) ⊎ (triple_le t s ≡ true)
  triple_total (p, m, c) (q, n, d) = elim (Bool-cases (triple_le (p, m, c) (q, n, d))) [
    | inl h ↦ inl h
    | inr h ↦ inr (elim (option_total c d) [
      | inl k ↦ elim (o.total p q) [ inl l ↦ ground arith | inr l ↦ ground arith ]
      | inr k ↦ elim (o.total p q) [ inl l ↦ ground arith | inr l ↦ ground arith ]
    ])
  ]

  pub triple_trans :
      (s t u : A × ℕ × Option ℕ)
      → triple_le s t ≡ true
      → triple_le t u ≡ true
      → triple_le s u ≡ true
  triple_trans (p, m, c) (q, n, d) (r, k, f) h g = ground (
    arith,
    o.trans p q r,
    o.trans r p q,
    o.trans q r p,
    o.trans r q p,
    o.trans q p r,
    option_trans c d f,
  )

  instance abbrev pub triple_order : Ord (A × ℕ × Option ℕ)
  triple_order = record { le = triple_le; total = triple_total; trans = triple_trans }
