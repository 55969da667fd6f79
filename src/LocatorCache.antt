-- ===== src/LocatorCache.antt =====
-- `LocatorCache` of crates/ret-core/src/cache.rs: a map behind a read-write lock. Each function is
-- one critical section; `get_or_insert_with` has two, with its closure run between them.
pub mod Agreement
pub mod Refinement
use r_environment_tools.Base.{
  ℕ, ◌≡◌, Bool, true, false, List, [], ◌∷◌, ◌++◌, Option, none, some, is_some, is_empty, length, Eq,
}
use r_environment_tools.Tables.{Table, lookup, store, values}

pub record LocatorCache (Key Value : Type 0) : Type 0 where
  pub cache : Table Key Value

abbrev pub new : {Key Value : Type 0} → LocatorCache Key Value
new = record { cache = [] }

-- A call of `get_or_insert_with`, by what it does next, with its key; or its result.
pub data Call (Key Value : Type 0) : Type 0 where
  checking : Key → Call Key Value
  computing : Key → Call Key Value
  inserting : Key → Value → Call Key Value
  returned : Key → Option Value → Call Key Value

module _ {Key Value : Type 0} ⦃e : Eq Key⦄ where
  unfoldable pub get : Key → LocatorCache Key Value → Option Value
  unfolding lookup
  get key self = lookup key self.cache

  unfoldable pub contains_key : Key → LocatorCache Key Value → Bool
  unfolding lookup
  contains_key key self = is_some (lookup key self.cache)

  -- The cache after it, and the value from before.
  unfoldable pub insert :
      Key → Value → LocatorCache Key Value → Option Value × LocatorCache Key Value
  unfolding lookup store
  insert key value self = (lookup key self.cache, record { cache = store key value self.cache })

  unfoldable pub insert_many : List (Key × Value) → LocatorCache Key Value → LocatorCache Key Value
  unfolding insert
  insert_many [] self = self
  insert_many ((key, value) ∷ entries) self = insert_many entries (insert key value self).1

  -- One critical section, or the closure, which gives `computed`.
  unfoldable pub step :
      Option Value
      → LocatorCache Key Value
      → Call Key Value
      → LocatorCache Key Value × Call Key Value
  unfolding lookup store
  step computed self (checking key) = elim (lookup key self.cache) [
    | some value ↦ (self, returned key (some value))
    | none ↦ (self, computing key)
  ]
  step (some value) self (computing key) = (self, inserting key value)
  step none self (computing key) = (self, returned key none)
  step computed self (inserting key value) = elim (lookup key self.cache) [
    | some existing ↦ (self, returned key (some existing))
    | none ↦ (record { cache = store key value self.cache }, returned key (some value))
  ]
  step computed self (returned key result) = (self, returned key result)

  unfoldable pub result_of : Call Key Value → Option Value
  result_of (returned key result) = result
  result_of other = none

  -- The steps after the first, and what the caller gets.
  unfoldable pub finish :
      Option Value → LocatorCache Key Value × Call Key Value → Option Value × LocatorCache Key Value
  unfolding step result_of
  finish computed checked =
      let ran = step computed checked.0 checked.1 in
      let done = step computed ran.0 ran.1 in (result_of done.1, done.0)

  -- The three steps with no other thread between them.
  unfoldable pub get_or_insert_with :
      Key → Option Value → LocatorCache Key Value → Option Value × LocatorCache Key Value
  unfolding step finish
  get_or_insert_with key computed self = finish computed (step computed self (checking key))

module _ {Key Value : Type 0} where
  unfoldable pub clear : LocatorCache Key Value → LocatorCache Key Value
  clear self = record { cache = [] }

  unfoldable pub all_values : LocatorCache Key Value → List Value
  all_values self = values self.cache

  unfoldable pub len : LocatorCache Key Value → ℕ
  len self = length self.cache

  unfoldable pub no_entries : LocatorCache Key Value → Bool
  no_entries self = is_empty self.cache
