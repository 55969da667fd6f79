-- ===== src/LocatorCache/Agreement.antt =====
-- Threads that call `get_or_insert_with` on one cache, in any interleaving.
use r_environment_tools.Base.{
  ◌≡◌, refl, inl, inr, List, [], ◌∷◌, ◌++◌, Option, none, some, Eq, All, All-imp, arith,
  Option-cases, subst,
}
use r_environment_tools.Tables.{lookup, store}
use r_environment_tools.Tables.Laws.{lookup-store}
use r_environment_tools.LocatorCache.{
  LocatorCache, Call, checking, computing, inserting, returned, get, step,
}

pub record Threads (Key Value : Type 0) : Type 0 where
  pub shared : LocatorCache Key Value
  pub calls : List (Call Key Value)

abbrev pub after :
    {Key Value : Type 0}
    → List (Call Key Value)
    → List (Call Key Value)
    → LocatorCache Key Value × Call Key Value
    → Threads Key Value
after xs ys (m, c) = record { shared = m; calls = xs ++ c ∷ ys }

module _ {Key Value : Type 0} ⦃e : Eq Key⦄ where
  pub data Step (s : Threads Key Value) : Threads Key Value → Type 0 where
    spawns : (key : Key) → Step s (record s { calls = checking key ∷ s.calls })
    advances :
        (computed : Option Value) (c : Call Key Value) (xs ys : List (Call Key Value))
        → s.calls ≡ xs ++ c ∷ ys
        → Step s (after xs ys (step computed s.shared c))

  pub data Reach : Threads Key Value → Type 0 where
    here : (m : LocatorCache Key Value) → Reach (record { shared = m; calls = [] })
    next : {s t : Threads Key Value} → Reach s → Step s t → Reach t

  -- A value that a call returned is the one that the cache has.
  abbrev pub Agrees : LocatorCache Key Value → Call Key Value → Type 0
  Agrees m (returned key (some value)) = get key m ≡ some value
  Agrees m _ = Unit

  store-keeps :
      (k l : Key) (v w : Value) (m : LocatorCache Key Value)
      → lookup l m.cache ≡ none
      → get k m ≡ some v
      → get k (record { cache = store l w m.cache }) ≡ some v
  unfolding get
  store-keeps k l v w m h g = rw (lookup-store k l w m.cache) (ground (arith, e.beq_iff k l))

  step-keeps :
      (computed : Option Value) (m : LocatorCache Key Value) (c : Call Key Value) (k : Key)
      (v : Value)
      → get k m ≡ some v
      → get k (step computed m c).0 ≡ some v
  unfolding step
  step-keeps computed m (checking l) k v g = elim (Option-cases (lookup l m.cache)) [
    | inl h ↦ rw (h, step) g
    | inr (w, h) ↦ rw (h, step) g
  ]
  step-keeps none m (computing l) k v g = g
  step-keeps (some w) m (computing l) k v g = g
  step-keeps computed m (inserting l w) k v g = elim (Option-cases (lookup l m.cache)) [
    | inl h ↦ rw (h, step) (store-keeps k l v w m h g)
    | inr (x, h) ↦ rw (h, step) g
  ]
  step-keeps computed m (returned l r) k v g = g

  step-Agrees :
      (computed : Option Value) (m : LocatorCache Key Value) (c : Call Key Value)
      → Agrees m c
      → Agrees (step computed m c).0 (step computed m c).1
  unfolding step get
  step-Agrees computed m (checking l) g = elim (Option-cases (lookup l m.cache)) [
    | inl h ↦ rw (h, step) tt
    | inr (w, h) ↦ rw (h, step) h
  ]
  step-Agrees none m (computing l) g = tt
  step-Agrees (some w) m (computing l) g = tt
  step-Agrees computed m (inserting l w) g = elim (Option-cases (lookup l m.cache)) [
    | inl h ↦ rw (h, step, lookup-store l l w m.cache, (e.beq_iff l l).1 refl) refl
    | inr (x, h) ↦ rw (h, step) h
  ]
  step-Agrees computed m (returned l r) g = g

  keeps-Agrees :
      (computed : Option Value) (m : LocatorCache Key Value) (c d : Call Key Value)
      → Agrees m d
      → Agrees (step computed m c).0 d
  keeps-Agrees computed m c (returned l (some v)) g = step-keeps computed m c l v g
  keeps-Agrees computed m c (returned l none) g = tt
  keeps-Agrees computed m c (checking l) g = tt
  keeps-Agrees computed m c (computing l) g = tt
  keeps-Agrees computed m c (inserting l w) g = tt

  middle :
      (computed : Option Value) (m : LocatorCache Key Value) (c : Call Key Value)
      (xs ys : List (Call Key Value))
      → All (Agrees m) (xs ++ c ∷ ys)
      → All (Agrees (step computed m c).0) (xs ++ (step computed m c).1 ∷ ys)
  middle computed m c [] ys (g, h) =
      (step-Agrees computed m c g, All-imp _ _ ys (keeps-Agrees computed m c) h)
  middle computed m c (x ∷ xs) ys (g, h) =
      (keeps-Agrees computed m c x g, middle computed m c xs ys h)

  -- However threads interleave in `get_or_insert_with`, and whatever their closures give, every
  -- value that a call has returned is the one that the cache has for its key: calls with one key
  -- never return different values.
  pub Reach-Agrees : {s : Threads Key Value} → Reach s → All (Agrees s.shared) s.calls
  Reach-Agrees (here m) = tt
  Reach-Agrees (next r (spawns key)) = (tt, Reach-Agrees r)
  Reach-Agrees (next {s} r (advances computed c xs ys h)) =
      middle computed s.shared c xs ys (subst (All (Agrees s.shared)) h (Reach-Agrees r))
