-- ===== src/Tables.antt =====
-- `HashMap` of the standard library, as a list of pairs with one for a key.
pub mod Laws
use r_environment_tools.Base.{
  ◌≡◌, refl, sym, ap, subst, any, length, ◌∙◌, ◌⊎◌, inl, inr, ℕ, ◌+◌, Bool, true, false, ◌||◌, List,
  [], ◌∷◌, ◌++◌, Option, none, some, is_some, Eq, same_option, option_eq, beq_self, if◌then◌else◌,
  arith, Bool-cases, Option-cases,
}

abbrev pub Table : Type 0 → Type 0 → Type 0
Table Key Value = List (Key × Value)

module _ {Key Value : Type 0} ⦃e : Eq Key⦄ where
  unfoldable pub lookup : Key → Table Key Value → Option Value
  lookup k [] = none
  lookup k ((l, v) ∷ table) = if e.beq k l then some v else lookup k table

  -- `HashMap::insert`, or an assignment through `get_mut`.
  unfoldable pub store : Key → Value → Table Key Value → Table Key Value
  store k v [] = (k, v) ∷ []
  store k v ((l, w) ∷ table) =
      let rest = store k v table in if e.beq k l then (k, v) ∷ table else (l, w) ∷ rest

abbrev pub values : {Key Value : Type 0} → Table Key Value → List Value
values [] = []
values ((k, v) ∷ table) = v ∷ values table
