-- ===== src/Tables/Laws.antt =====
-- The laws of hash maps.
use r_environment_tools.Base.{
  ◌≡◌, refl, ap, any, inl, inr, List, [], ◌∷◌, ◌++◌, Option, none, some, is_some, Eq, same_option,
  option_eq, if◌then◌else◌, arith, Bool-cases,
}
use r_environment_tools.Tables.{Table, lookup, store, values}

module _ {Key Value : Type 0} ⦃e : Eq Key⦄ where
  pub lookup-store :
      (k l : Key) (v : Value) (table : Table Key Value)
      → lookup k (store l v table) ≡ (if e.beq k l then some v else lookup k table)
  unfolding lookup store
  lookup-store k l v [] = refl
  lookup-store k l v ((m, w) ∷ table) =
      ground (arith, lookup-store k l v table, e.beq_iff k l, e.beq_iff l m, e.beq_iff k m)

  abbrev pub keys_of : Table Key Value → List (Option Key)
  keys_of [] = []
  keys_of ((k, v) ∷ table) = some k ∷ keys_of table

  abbrev pub IsDistinct : Table Key Value → Type 0
  IsDistinct [] = Unit
  IsDistinct ((k, v) ∷ table) = (lookup k table ≡ none) × IsDistinct table

  pub store-IsDistinct :
      (k : Key) (v : Value) (table : Table Key Value)
      → IsDistinct table
      → IsDistinct (store k v table)
  unfolding store lookup
  store-IsDistinct k v [] h = (refl, tt)
  store-IsDistinct k v ((l, w) ∷ table) (d, h) = elim (Bool-cases (e.beq k l)) [
    | inl t ↦ rw (t, (e.beq_iff k l).0 t) (d, h)
    | inr t ↦ rw (t) (
      ground (arith, lookup-store l k v table, e.beq_iff k l, e.beq_iff l k),
      store-IsDistinct k v table h,
    )
  ]

  pub keys_of-store_new :
      (k : Key) (v : Value) (table : Table Key Value)
      → lookup k table ≡ none
      → keys_of (store k v table) ≡ keys_of table ++ some k ∷ []
  unfolding store lookup
  keys_of-store_new k v [] h = refl
  keys_of-store_new k v ((l, w) ∷ table) h = elim (Bool-cases (e.beq k l)) [
    | inl t ↦ ground (arith)
    | inr t ↦ rw (t) (ap (λ r. some l ∷ r) (keys_of-store_new k v table (ground arith)))
  ]

  pub keys_of-store_known :
      (k : Key) (v w : Value) (table : Table Key Value)
      → lookup k table ≡ some w
      → keys_of table ≡ keys_of (store k v table)
  unfolding store lookup
  keys_of-store_known k v w [] h = cc
  keys_of-store_known k v w ((l, x) ∷ table) h = elim (Bool-cases (e.beq k l)) [
    | inl t ↦ rw (t, (e.beq_iff k l).0 t) refl
    | inr t ↦ rw (t) (ap (λ r. some l ∷ r) (keys_of-store_known k v w table (ground arith)))
  ]

  pub any-keys_of :
      (k : Key) (table : Table Key Value)
      → any (same_option (some k)) (keys_of table) ≡ is_some (lookup k table)
  unfolding lookup
  any-keys_of k [] = refl
  any-keys_of k ((l, v) ∷ table) = ground (arith, any-keys_of k table)

pub values-store_new :
    {Key Value : Type 0} ⦃e : Eq Key⦄ (k : Key) (v : Value) (table : Table Key Value)
    → lookup k table ≡ none
    → values (store k v table) ≡ values table ++ v ∷ []
unfolding store lookup
values-store_new k v [] h = refl
values-store_new ⦃e⦄ k v ((l, w) ∷ table) h = elim (Bool-cases (e.beq k l)) [
  | inl t ↦ ground arith
  | inr t ↦ rw (t) (ap (λ r. w ∷ r) (values-store_new k v table (ground arith)))
]
