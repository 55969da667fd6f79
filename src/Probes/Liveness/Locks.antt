-- ===== src/Probes/Liveness/Locks.antt =====
-- Who holds a child's mutex, in crates/ret-r-utils/src/process.rs.
use r_environment_tools.Base.{
  ℕ, ◌≡◌, refl, Bool, true, false, not, ◌&&◌, ◌||◌, [], ◌∷◌, and_parts, arith,
}
use r_environment_tools.Probes.{
  Owner, Probe, Progress, not_called, terminating, reaping, returned, System, Spawned, new_child,
  is_owned, is_reaping, is_dropping, put, spawn_probe, stop_registry, exit_child, terminate,
  next_child, lock_child, unlock_child, release, drop_child, Step, spawns, exits, locks, unlocks,
  releases, drops, stops, continues, Reach, here, next,
}
use r_environment_tools.Probes.Guarded.{put-holds, if-holds}

-- Only its owner locks a child's mutex while the shutdown does not have it.
abbrev pub is_lock_owned : Probe → Bool
is_lock_owned probe = not probe.locked || is_owned probe

abbrev pub AreLocksOwned : System → Type 0
AreLocksOwned s = (i : ℕ) → is_lock_owned (s.probes i) ≡ true

terminate-is_lock_owned :
    (probe : Probe) → is_lock_owned probe ≡ true → is_lock_owned ((terminate probe).1) ≡ true
unfolding terminate
terminate-is_lock_owned probe h = go probe.owner probe.running probe.killed probe.locked h
  where
    go :
        (o : Owner) (r k l : Bool)
        → let probe : Probe = record { owner = o; running = r; killed = k; locked = l } in
          is_lock_owned probe ≡ true → is_lock_owned ((terminate probe).1) ≡ true
    go o false k l h = h
    go o true false l h = h
    go o true true l h = h

-- A child in its destructor is not locked.
dropped-is_lock_owned :
    (probe : Probe) (owner : Owner)
    → is_dropping probe ≡ true
    → is_lock_owned probe ≡ true
    → is_lock_owned (record ((terminate probe).1) { owner = owner }) ≡ true
unfolding terminate
dropped-is_lock_owned probe owner d h = go (terminate probe).1.locked (
    let free : not (terminate probe).1.locked ≡ true =
      unlocked probe.owner probe.running probe.killed probe.locked d h in
    free)
  where
    unlocked :
        (o : Owner) (r k l : Bool)
        → let probe : Probe = record { owner = o; running = r; killed = k; locked = l } in
          is_dropping probe ≡ true
          → is_lock_owned probe ≡ true
          → not (terminate probe).1.locked ≡ true
    unlocked o false k l d h = ground arith
    unlocked o true false l d h = ground arith
    unlocked o true true l d h = ground arith

    go : (l : Bool) → not l ≡ true → (not l || is_owned (record new_child { owner = owner })) ≡ true
    go false k = refl
    go true k = cc

put-AreLocksOwned :
    (i : ℕ) (probe : Probe) (s : System)
    → is_lock_owned probe ≡ true
    → AreLocksOwned s
    → AreLocksOwned (record s { probes = put i probe s.probes })
put-AreLocksOwned i probe s h g =
    put-holds (λ j q. is_lock_owned q ≡ true) i probe s.probes h (λ j _. g j)

next_child-AreLocksOwned : (s : System) → AreLocksOwned s → AreLocksOwned (next_child s)
unfolding next_child
next_child-AreLocksOwned s g = go s.shutdown
  where
    go : (p : Progress) → AreLocksOwned (next_child (record s { shutdown = p }))
    go not_called = g
    go returned = g
    go (terminating []) = g
    go (terminating (i ∷ is)) = if-holds AreLocksOwned (s.probes i).locked _ _ (λ _. g) (λ _. g)
    go (reaping i is) = put-AreLocksOwned i _ s (terminate-is_lock_owned (s.probes i) (g i)) g

Step-AreLocksOwned : {s t : System} → Step s t → AreLocksOwned s → AreLocksOwned t
unfolding spawn_probe stop_registry exit_child lock_child unlock_child release drop_child
Step-AreLocksOwned {s} (spawns starts) g =
    if-holds (λ (r : Spawned × System). AreLocksOwned r.1) s.registry.stopped _ _ (λ _. g)
      (λ _.
        if-holds (λ (r : Spawned × System). AreLocksOwned r.1) (not starts) _ _ (λ _. g)
          (λ _. put-AreLocksOwned s.next new_child s refl g))
Step-AreLocksOwned {s} (exits i) g = put-AreLocksOwned i _ s (g i) g
Step-AreLocksOwned {s} (locks i) g =
    if-holds AreLocksOwned
      (is_owned (s.probes i) && not ((s.probes i).locked || is_reaping i s.shutdown)) _ _
      (λ k. put-AreLocksOwned i _ s (and_parts _ _ k).0 g) (λ _. g)
Step-AreLocksOwned {s} (unlocks i) g = put-AreLocksOwned i _ s refl g
Step-AreLocksOwned {s} (releases i) g =
    if-holds AreLocksOwned (is_owned (s.probes i) && not (s.probes i).locked) _ _
      (λ k.
        put-AreLocksOwned i _ s
          (ground (arith, (and_parts (is_owned (s.probes i)) (not (s.probes i).locked) k).1)) g)
      (λ _. g)
Step-AreLocksOwned {s} (drops i) g =
    if-holds AreLocksOwned (is_dropping (s.probes i)) _ _
      (λ k. put-AreLocksOwned i _ s (dropped-is_lock_owned (s.probes i) _ k (g i)) g) (λ _. g)
Step-AreLocksOwned {s} (stops h) g = g
Step-AreLocksOwned {s} continues g = next_child-AreLocksOwned s g

pub Reach-AreLocksOwned : {s : System} → Reach s → AreLocksOwned s
Reach-AreLocksOwned here = λ i. refl
Reach-AreLocksOwned (next r step) = Step-AreLocksOwned step (Reach-AreLocksOwned r)
