-- ===== src/LocatorCache/Refinement.antt =====
-- A client's view of a cache: that of a function from keys to values.
use r_environment_tools.Base.{
  ◌≡◌, refl, sym, ap, ap₂, ◌∙◌, inl, inr, Bool, List, [], ◌∷◌, Option, none, some, is_some, or_else,
  Eq, Option-cases, if◌then◌else◌,
}
use r_environment_tools.Tables.{lookup, store}
use r_environment_tools.Tables.Laws.{lookup-store}
use r_environment_tools.LocatorCache.{
  LocatorCache, get, contains_key, insert, insert_many, get_or_insert_with, step, clear, checking,
  computing, inserting, returned, finish, result_of,
}

pub data Operation (Key Value : Type 0) : Type 0 where
  asks : Key → Operation Key Value
  tests : Key → Operation Key Value
  puts : Key → Value → Operation Key Value
  puts_many : List (Key × Value) → Operation Key Value
  fetches : Key → Option Value → Operation Key Value
  clears : Operation Key Value

-- What an operation tells its caller.
pub data Answer (Value : Type 0) : Type 0 where
  found : Option Value → Answer Value
  known : Bool → Answer Value
  quiet : Answer Value

module _ {Key Value : Type 0} ⦃e : Eq Key⦄ where
  apply : Operation Key Value → LocatorCache Key Value → Answer Value × LocatorCache Key Value
  unfolding get contains_key insert insert_many get_or_insert_with clear
  apply (asks k) m = (found (get k m), m)
  apply (tests k) m = (known (contains_key k m), m)
  apply (puts k v) m = (found (insert k v m).0, (insert k v m).1)
  apply (puts_many kvs) m = (quiet, insert_many kvs m)
  apply (fetches k computed) m =
      (found (get_or_insert_with k computed m).0, (get_or_insert_with k computed m).1)
  apply clears m = (quiet, clear m)

  pub run : List (Operation Key Value) → LocatorCache Key Value → List (Answer Value)
  unfolding apply
  run [] m = []
  run (op ∷ ops) m = (apply op m).0 ∷ run ops (apply op m).1

  -- The abstract map.
  abbrev update : Key → Value → (Key → Option Value) → Key → Option Value
  update k v f j = if e.beq j k then some v else f j

  update_many : List (Key × Value) → (Key → Option Value) → Key → Option Value
  update_many [] f = f
  update_many ((k, v) ∷ kvs) f = update_many kvs (update k v f)

  -- The first value of a key stays.
  keep_first : Key → Option Value → Option Value → (Key → Option Value) → Key → Option Value
  keep_first k (some old) computed f = f
  keep_first k none none f = f
  keep_first k none (some v) f = update k v f

  pub replay : List (Operation Key Value) → (Key → Option Value) → List (Answer Value)
  unfolding update_many keep_first
  replay [] f = []
  replay (asks k ∷ ops) f = found (f k) ∷ replay ops f
  replay (tests k ∷ ops) f = known (is_some (f k)) ∷ replay ops f
  replay (puts k v ∷ ops) f = found (f k) ∷ replay ops (update k v f)
  replay (puts_many kvs ∷ ops) f = quiet ∷ replay ops (update_many kvs f)
  replay (fetches k computed ∷ ops) f =
      found (or_else (f k) computed) ∷ replay ops (keep_first k (f k) computed f)
  replay (clears ∷ ops) f = quiet ∷ replay ops (λ _. none)

  -- The cache and the function agree.
  abbrev Reads : LocatorCache Key Value → (Key → Option Value) → Type 0
  Reads m f = (j : Key) → lookup j m.cache ≡ f j

  store-Reads :
      (k : Key) (v : Value) (m : LocatorCache Key Value) (f : Key → Option Value)
      → Reads m f
      → Reads (record { cache = store k v m.cache }) (update k v f)
  store-Reads k v m f h j =
      lookup-store j k v m.cache ∙ ap (λ o. if e.beq j k then some v else o) (h j)

  insert_many-Reads :
      (kvs : List (Key × Value)) (m : LocatorCache Key Value) (f : Key → Option Value)
      → Reads m f
      → Reads (insert_many kvs m) (update_many kvs f)
  unfolding insert_many update_many
  insert_many-Reads [] m f h = h
  insert_many-Reads ((k, v) ∷ kvs) m f h =
      insert_many-Reads kvs (insert k v m).1 (update k v f) (store-Reads k v m f h)

  checking-known :
      (k : Key) (computed : Option Value) (m : LocatorCache Key Value) (v : Value)
      → lookup k m.cache ≡ some v
      → step computed m (checking k) ≡ (m, returned k (some v))
  unfolding step
  checking-known k computed m v h = rw (h, step) refl

  checking-new :
      (k : Key) (computed : Option Value) (m : LocatorCache Key Value)
      → lookup k m.cache ≡ none
      → step computed m (checking k) ≡ (m, computing k)
  unfolding step
  checking-new k computed m h = rw (h, step) refl

  inserting-new :
      (k : Key) (v : Value) (computed : Option Value) (m : LocatorCache Key Value)
      → lookup k m.cache ≡ none
      → step computed m (inserting k v)
        ≡ (record { cache = store k v m.cache }, returned k (some v))
  unfolding step
  inserting-new k v computed m h = rw (h, step) refl

  fetch-known :
      (k : Key) (computed : Option Value) (m : LocatorCache Key Value) (v : Value)
      → lookup k m.cache ≡ some v
      → get_or_insert_with k computed m ≡ (some v, m)
  unfolding get_or_insert_with finish step result_of
  fetch-known k computed m v h = ap (finish computed) (checking-known k computed m v h)

  fetch-new :
      (k : Key) (v : Value) (m : LocatorCache Key Value)
      → lookup k m.cache ≡ none
      → get_or_insert_with k (some v) m ≡ (some v, record { cache = store k v m.cache })
  unfolding get_or_insert_with finish step result_of
  fetch-new k v m h =
      ap (finish (some v)) (checking-new k (some v) m h)
      ∙ ap (λ done. (result_of done.1, done.0)) (inserting-new k v (some v) m h)

  fetch-none :
      (k : Key) (m : LocatorCache Key Value)
      → lookup k m.cache ≡ none
      → get_or_insert_with k none m ≡ (none, m)
  unfolding get_or_insert_with finish step result_of
  fetch-none k m h = ap (finish none) (checking-new k none m h)

  fetch-answer :
      (k : Key) (computed : Option Value) (m : LocatorCache Key Value)
      → (get_or_insert_with k computed m).0 ≡ or_else (get k m) computed
  unfolding get
  fetch-answer k computed m = elim (Option-cases (lookup k m.cache)) [
    | inr (v, h) ↦
        ap (λ r. r.0) (fetch-known k computed m v h) ∙ sym (ap (λ o. or_else o computed) h)
    | inl h ↦ elim (Option-cases computed) [
      | inl c ↦ rw (c, h) (ap (λ r. r.0) (fetch-none k m h))
      | inr (v, c) ↦ rw (c, h) (ap (λ r. r.0) (fetch-new k v m h))
    ]
  ]

  fetch-Reads :
      (k : Key) (computed : Option Value) (m : LocatorCache Key Value) (f : Key → Option Value)
      → Reads m f
      → Reads (get_or_insert_with k computed m).1 (keep_first k (f k) computed f)
  unfolding keep_first
  fetch-Reads k computed m f g = elim (Option-cases (lookup k m.cache)) [
    | inr (v, h) ↦ rw (fetch-known k computed m v h, sym (g k), h) g
    | inl h ↦ elim (Option-cases computed) [
      | inl c ↦ rw (c, fetch-none k m h, sym (g k), h) g
      | inr (v, c) ↦ rw (c, fetch-new k v m h, sym (g k), h) (store-Reads k v m f g)
    ]
  ]

  -- Run from a cache that reads as a function, operations of one thread answer as their replay on
  -- that function does, where `get_or_insert_with` keeps the first value and asks its closure for
  -- a key without one.
  pub run-replay :
      (ops : List (Operation Key Value)) (m : LocatorCache Key Value) (f : Key → Option Value)
      → Reads m f
      → run ops m ≡ replay ops f
  unfolding run replay apply get contains_key insert clear
  run-replay [] m f h = refl
  run-replay (asks k ∷ ops) m f h = ap₂ (λ o rest. found o ∷ rest) (h k) (run-replay ops m f h)
  run-replay (tests k ∷ ops) m f h =
      ap₂ (λ o rest. known (is_some o) ∷ rest) (h k) (run-replay ops m f h)
  run-replay (puts k v ∷ ops) m f h =
      ap₂ (λ o rest. found o ∷ rest) (h k)
        (run-replay ops (insert k v m).1 (update k v f) (store-Reads k v m f h))
  run-replay (puts_many kvs ∷ ops) m f h =
      ap (λ rest. quiet ∷ rest)
        (run-replay ops (insert_many kvs m) (update_many kvs f) (insert_many-Reads kvs m f h))
  run-replay (fetches k computed ∷ ops) m f h =
      ap₂ (λ o rest. found o ∷ rest)
        (fetch-answer k computed m ∙ ap (λ o. or_else o computed) (h k))
        (run-replay ops (get_or_insert_with k computed m).1 (keep_first k (f k) computed f)
          (fetch-Reads k computed m f h))
  run-replay (clears ∷ ops) m f h =
      ap (λ rest. quiet ∷ rest) (run-replay ops (clear m) (λ _. none) (λ _. refl))
