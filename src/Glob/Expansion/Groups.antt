-- ===== src/Glob/Expansion/Groups.antt =====
-- The brace groups of crates/ret-fs/src/glob.rs, and the braces in their parts.
use r_environment_tools.Base.{
  ℕ, suc, ◌+◌, ◌≡◌, ◌≤◌, ◌<◌, refl, ap, ◌⊎◌, inl, inr, false, List, [], ◌∷◌, ◌++◌, Option, none,
  some, Text, ◌==◌, ==_iff, All, All-imp, count, count-append, nat_eq, if◌then◌else◌, arith,
  Bool-cases, Option-cases, subst,
}
use r_environment_tools.Glob.{split, open_brace, close_brace, comma, first_group}
use r_environment_tools.Strings.{split_once, with_head, extend_first}

-- What it means to split a text at the first occurrence of a character.
Splits : ℕ → Text → Option (Text × Text) → Type 0
Splits c p none = count c p ≡ 0
Splits c p (some (a, b)) = (p ≡ a ++ c ∷ b) × (count c a ≡ 0)

with_head-Splits :
    (c d : ℕ) (p : Text) (o : Option (Text × Text))
    → d == c ≡ false
    → Splits c p o
    → Splits c (d ∷ p) (with_head d o)
unfolding Splits
with_head-Splits c d p none t h = ground (arith)
with_head-Splits c d p (some (a, b)) t (e, h) = (ap (λ r. d ∷ r) e, ground (arith))

split_once-Splits : (c : ℕ) (p : Text) → Splits c p (split_once c p)
unfolding split_once Splits
split_once-Splits c [] = refl
split_once-Splits c (d ∷ p) = elim (Bool-cases (d == c)) [
  | inl t ↦ rw (t) (ap (λ x. x ∷ p) ((==_iff d c).0 t), refl)
  | inr t ↦ rw (t) (with_head-Splits c d p (split_once c p) t (split_once-Splits c p))
]

-- The closing braces of a part are among those of the whole.
extend_first-count :
    (c d m : ℕ) (parts : List Text)
    → All (λ part. count c part ≤ m) parts
    → All (λ part. count c part ≤ (if c == d then 1 else 0) + m) (extend_first d parts)
extend_first-count c d m [] h = (omega arith, tt)
extend_first-count c d m (part ∷ parts) (h, hs) =
    (omega arith, All-imp _ _ parts (λ x k. omega arith) hs)

split-count : (c d : ℕ) (p : Text) → All (λ part. count c part ≤ count c p) (split d p)
unfolding split
split-count c d [] = (omega arith, tt)
split-count c d (x ∷ p) = elim (Bool-cases (x == d)) [
  | inl t ↦ rw (t) (omega arith, All-imp _ _ (split d p) (λ y k. omega arith) (split-count c d p))
  | inr t ↦ rw (t) (extend_first-count c x (count c p) (split d p) (split-count c d p))
]

-- A group, and the closing braces of its parts.
IsGroup : Text → Option (Text × Text × Text) → Type 0
IsGroup p none = Unit
IsGroup p (some (prefix, inner, suffix)) =
    (count close_brace inner ≡ 0)
    × (count close_brace p ≡ suc (count close_brace prefix + count close_brace suffix))

first_group-IsGroup : (p : Text) → IsGroup p (first_group p)
unfolding first_group IsGroup Splits
first_group-IsGroup p = outer (split_once open_brace p) (split_once-Splits open_brace p)
  where
    inside :
        (a b : Text) (o : Option (Text × Text))
        → p ≡ a ++ open_brace ∷ b
        → Splits close_brace b o
        → IsGroup p (elim o [ none ↦ none | some inner ↦ some (a, inner.0, inner.1) ])
    inside a b none e s = tt
    inside a b (some (i, r)) e (f, z) = (
      z,
      rw
          (
            e,
            f,
            count-append close_brace a (open_brace ∷ (i ++ close_brace ∷ r)),
            count-append close_brace i (close_brace ∷ r),
            z,
          )
          (omega arith),
    )

    outer :
        (o : Option (Text × Text))
        → Splits open_brace p o
        → IsGroup p (elim o [
          | none ↦ none
          | some outer ↦ elim (split_once close_brace outer.1) [
            | none ↦ none
            | some inner ↦ some (outer.0, inner.0, inner.1)
          ]
        ])
    outer none s = tt
    outer (some (a, b)) s =
        inside a b (split_once close_brace b) s.0 (split_once-Splits close_brace b)

pub Group-cases :
    (p : Text)
    → (first_group p ≡ none)
      ⊎ ((prefix : Text) × (inner : Text) × (suffix : Text) × (first_group p
            ≡ some (prefix, inner, suffix)))
Group-cases p = elim (Option-cases (first_group p)) [
  | inl h ↦ inl h
  | inr (g, h) ↦ inr (g.0, g.1, g.2, h)
]

-- Every alternative of the first group leaves fewer closing braces than there were.
pub alternatives-count :
    (p prefix inner suffix : Text)
    → first_group p ≡ some (prefix, inner, suffix)
    → All
        (λ alt. count close_brace (prefix ++ (alt ++ suffix)) < count close_brace p)
        (split comma inner)
unfolding IsGroup
alternatives-count p prefix inner suffix h =
    All-imp _ _ (split comma inner)
      (λ alt k. fewer alt k (subst (IsGroup p) h (first_group-IsGroup p)))
      (split-count close_brace comma inner)
  where
    fewer :
        (alt : Text)
        → count close_brace alt ≤ count close_brace inner
        → IsGroup p (some (prefix, inner, suffix))
        → count close_brace (prefix ++ (alt ++ suffix)) < count close_brace p
    fewer alt k (z, e) = omega (
      arith,
      count-append close_brace prefix (alt ++ suffix),
      count-append close_brace alt suffix,
      z,
      e,
      k,
    )
