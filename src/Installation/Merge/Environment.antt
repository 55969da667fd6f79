-- ===== src/Installation/Merge/Environment.antt =====
-- The environment variables of a merge.
use r_environment_tools.Base.{
  ◌≡◌, refl, ◌∙◌, ◌⊎◌, inl, inr, true, false, [], ◌∷◌, Option, none, some, Text, same_text,
  same_text_iff, or_else, if◌then◌else◌, arith, Bool-cases,
}
use r_environment_tools.Installation.{Variables}
use r_environment_tools.Installation.Merge.{insert_variable, extend, merge_environment_variables}

abbrev pub lookup : Text → Variables → Option Text
lookup a [] = none
lookup a ((k, v) ∷ vs) = if same_text a k then some v else lookup a vs

-- A map has one value for a key.
abbrev pub IsMap : Variables → Type 0
IsMap [] = Unit
IsMap ((k, v) ∷ vs) = (lookup k vs ≡ none) × IsMap vs

or_else-none {ℓ} : {A : Type ℓ} (o : Option A) → o ≡ or_else o none
or_else-none none = refl
or_else-none (some x) = refl

lookup-insert_variable :
    (a k v : Text) (vs : Variables)
    → lookup a (insert_variable k v vs) ≡ (if same_text a k then some v else lookup a vs)
unfolding insert_variable
lookup-insert_variable a k v [] = refl
lookup-insert_variable a k v ((l, w) ∷ vs) = ground (
  arith,
  lookup-insert_variable a k v vs,
  same_text_iff k l,
  same_text_iff a l,
  same_text_iff a k,
)

-- The entries that extend a map win over its own.
lookup-extend :
    (a : Text) (vs ps : Variables)
    → IsMap ps
    → lookup a (extend vs ps) ≡ or_else (lookup a ps) (lookup a vs)
unfolding extend
lookup-extend a vs [] h = refl
lookup-extend a vs ((k, v) ∷ ps) (d, h) =
    lookup-extend a (insert_variable k v vs) ps h
    ∙ rw (lookup-insert_variable a k v vs) (go (Bool-cases (same_text a k)))
  where
    go :
        (same_text a k ≡ true) ⊎ (same_text a k ≡ false)
        → or_else (lookup a ps) (if same_text a k then some v else lookup a vs)
          ≡ or_else (if same_text a k then some v else lookup a ps) (lookup a vs)
    go (inl e) = rw (e, (same_text_iff a k).0 e, d) refl
    go (inr e) = rw (e) refl

insert_variable-IsMap : (k v : Text) (vs : Variables) → IsMap vs → IsMap (insert_variable k v vs)
unfolding insert_variable
insert_variable-IsMap k v [] h = (refl, tt)
insert_variable-IsMap k v ((l, w) ∷ vs) (d, h) = elim (Bool-cases (same_text k l)) [
  | inl e ↦ rw (e, (same_text_iff k l).0 e) (d, h)
  | inr e ↦ rw (e) (
    ground (arith, lookup-insert_variable l k v vs, same_text_iff k l, same_text_iff l k),
    insert_variable-IsMap k v vs h,
  )
]

extend-IsMap : (vs ps : Variables) → IsMap vs → IsMap (extend vs ps)
unfolding extend
extend-IsMap vs [] h = h
extend-IsMap vs ((k, v) ∷ ps) h =
    extend-IsMap (insert_variable k v vs) ps (insert_variable-IsMap k v vs h)

abbrev pub lookup_in : Text → Option Variables → Option Text
lookup_in a none = none
lookup_in a (some vs) = lookup a vs

abbrev pub IsOptionMap : Option Variables → Type 0
IsOptionMap none = Unit
IsOptionMap (some vs) = IsMap vs

-- Where the preferred installation's variables have one value for a key, a merged variable has
-- the preferred installation's value if that has one, and the other installation's otherwise.
pub merge_environment_variables-lookup :
    (a : Text) (primary secondary : Option Variables)
    → IsOptionMap primary
    → lookup_in a (merge_environment_variables primary secondary)
      ≡ or_else (lookup_in a primary) (lookup_in a secondary)
unfolding merge_environment_variables
merge_environment_variables-lookup a none none h = refl
merge_environment_variables-lookup a none (some vs) h = refl
merge_environment_variables-lookup a (some ps) none h = or_else-none (lookup a ps)
merge_environment_variables-lookup a (some ps) (some vs) h = lookup-extend a vs ps h

-- Where both have one value for a key, so has the merge.
pub merge_environment_variables-IsMap :
    (primary secondary : Option Variables)
    → IsOptionMap primary
    → IsOptionMap secondary
    → IsOptionMap (merge_environment_variables primary secondary)
unfolding merge_environment_variables
merge_environment_variables-IsMap none none h k = tt
merge_environment_variables-IsMap none (some vs) h k = k
merge_environment_variables-IsMap (some ps) none h k = h
merge_environment_variables-IsMap (some ps) (some vs) h k = extend-IsMap vs ps k
