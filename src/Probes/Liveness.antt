-- ===== src/Probes/Liveness.antt =====
-- That `shutdown_probes` of crates/ret-r-utils/src/process.rs waits for nothing but a short lock and
-- a killed process.
pub mod Turns
pub mod Locks
use r_environment_tools.Base.{
  ℕ, suc, ◌+◌, ◌*◌, ◌≤◌, ◌<◌, ◌≡◌, refl, ap, ◌∙◌, inl, inr, ◌⊎◌, Bool, true, false, not, ◌&&◌, ◌||◌,
  List, [], ◌∷◌, length, ==_iff, and_parts, Bool-cases, arith, if◌then◌else◌,
}
use r_environment_tools.Probes.{
  Owner, Probe, Progress, not_called, terminating, reaping, returned, System, Spawned, new_child,
  is_owned, is_reaping, is_dropping, put, spawn_probe, stop_registry, exit_child, terminate,
  next_child, lock_child, unlock_child, release, drop_child, Step, spawns, exits, locks, unlocks,
  releases, drops, stops, continues, Reach, here, next,
}
use r_environment_tools.Probes.Guarded.{
  is_called, IsGuarded, Reach-IsGuarded, put-holds, if-holds, terminate_lem,
}
use r_environment_tools.Probes.Liveness.Turns.{
  pending, turns_left, put_self, put-turns_left, pending_bound, terminate-pending, after_reaping,
  exited-after_reaping, after_reaping-cases, left,
}
use r_environment_tools.Probes.Liveness.Locks.{AreLocksOwned, Reach-AreLocksOwned}

next_child-left : (s : System) → left (next_child s) ≤ left s
unfolding next_child
next_child-left s = go s.shutdown
  where
    go :
        (p : Progress)
        → left (next_child (record s { shutdown = p })) ≤ left (record s { shutdown = p })
    go not_called = omega arith
    go returned = omega arith
    go (terminating []) = omega arith
    go (terminating (i ∷ is)) =
        if-holds (λ t. left t ≤ suc (4 * length (i ∷ is))) (s.probes i).locked _ _
          (λ _. omega arith) (λ _. omega (arith, pending_bound (s.probes i)))
    go (reaping i is) = elim (terminate_lem (s.probes i)) [
      | inl (e, p, r) ↦ omega (arith, exited-after_reaping i is (s.probes i) s.probes r)
      | inr (e, p) ↦ rw (e) (
          put-turns_left (reaping i is) i ((terminate (s.probes i)).1) s.probes
            (terminate-pending (s.probes i)))
    ]

Step-left : {s t : System} → IsGuarded s → is_called s.shutdown ≡ true → Step s t → left t ≤ left s
unfolding spawn_probe exit_child lock_child unlock_child release drop_child
Step-left {s} g h (spawns starts) =
    if-holds (λ (r : Spawned × System). left r.1 ≤ left s) s.registry.stopped _ _ (λ _. omega arith)
      (λ k. cc (g.stopped_when_called ∙ h))
Step-left {s} g h (exits i) = put-turns_left s.shutdown i _ s.probes (omega arith)
Step-left {s} g h (locks i) =
    if-holds (λ t. left t ≤ left s)
      (is_owned (s.probes i) && not ((s.probes i).locked || is_reaping i s.shutdown)) _ _
      (λ _. put-turns_left s.shutdown i _ s.probes (omega arith)) (λ _. omega arith)
Step-left {s} g h (unlocks i) = put-turns_left s.shutdown i _ s.probes (omega arith)
Step-left {s} g h (releases i) =
    if-holds (λ t. left t ≤ left s) (is_owned (s.probes i) && not (s.probes i).locked) _ _
      (λ _. put-turns_left s.shutdown i _ s.probes (omega arith)) (λ _. omega arith)
Step-left {s} g h (drops i) =
    if-holds (λ t. left t ≤ left s) (is_dropping (s.probes i)) _ _
      (λ _. put-turns_left s.shutdown i _ s.probes (terminate-pending (s.probes i)))
      (λ _. omega arith)
Step-left {s} g h (stops k) = cc (ap is_called k)
Step-left {s} g h continues = next_child-left s

-- The shutdown waits for a child's mutex, which the owner holds while it asks whether the process
-- has exited, and gets on once it is unlocked.
abbrev IsWaitingForLock : System → Type 0
IsWaitingForLock s =
    (i : ℕ) × (is : List ℕ) × (s.shutdown ≡ terminating (i ∷ is))
    × ((s.probes i).locked ≡ true)
    × (is_owned (s.probes i) ≡ true)
    × (left (next_child (unlock_child i s)) < left s)

-- The shutdown waits for a process that was killed, and gets on once it exits.
abbrev IsWaitingForExit : System → Type 0
IsWaitingForExit s =
    (i : ℕ) × (is : List ℕ) × (s.shutdown ≡ reaping i is)
    × ((s.probes i).running ≡ true)
    × ((s.probes i).killed ≡ true)
    × (left (next_child (exit_child i s)) < left s)

abbrev pub GetsOn : System → Type 0
GetsOn s =
    (s.shutdown ≡ returned)
    ⊎ ((left (next_child s) < left s) ⊎ (IsWaitingForLock s ⊎ IsWaitingForExit s))

taken :
    (s : System) (i : ℕ) (is : List ℕ)
    → (s.probes i).locked ≡ false
    → left (next_child (record s { shutdown = terminating (i ∷ is) })) < suc (4 * length (i ∷ is))
unfolding next_child
taken s i is h =
    if-holds (λ t. left t < suc (4 * length (i ∷ is))) (s.probes i).locked _ _ (λ k. cc)
      (λ _. omega (arith, pending_bound (s.probes i)))

exited :
    (s : System) (i : ℕ) (is : List ℕ)
    → left (next_child (exit_child i (record s { shutdown = reaping i is })))
      < suc (suc (4 * length is + pending (s.probes i)))
unfolding next_child exit_child
exited s i is =
    let gone : Probe = record (s.probes i) { running = false } in
    let probes = put i gone s.probes in
    omega (
      arith,
      exited-after_reaping i is (probes i) probes
          (ap (λ (q : Probe). q.running) (put_self i gone s.probes)),
    )

called-GetsOn : (s : System) → is_called s.shutdown ≡ true → AreLocksOwned s → GetsOn s
unfolding next_child unlock_child exit_child
called-GetsOn s h g = go s.shutdown h
  where
    go : (p : Progress) → is_called p ≡ true → GetsOn (record s { shutdown = p })
    go not_called h = cc
    go returned h = inl refl
    go (terminating []) h = inr (inl (omega arith))
    go (terminating (i ∷ is)) h = elim (Bool-cases (s.probes i).locked) [
      | inl k ↦
          let free : Probe = record (s.probes i) { locked = false } in
          inr (
            inr (
              inl (
                i,
                is,
                refl,
                k,
                ground (arith, g i),
                taken (unlock_child i s) i is
                    (ap (λ (q : Probe). q.locked) (put_self i free s.probes)),
              )))
      | inr k ↦ inr (inl (taken s i is k))
    ]
    go (reaping i is) h = elim (after_reaping-cases i is (s.probes i) s.probes) [
      | inl k ↦ inr (inl k)
      | inr (r, k) ↦ inr (inr (inr (i, is, refl, r, k, exited s i is)))
    ]

-- In every reachable state in which a shutdown was called, no step of any thread adds to the turns
-- that it has left; and the shutdown has returned, or its next turn leaves it fewer, or it waits for
-- a child's mutex, which the child's owner holds and can give back, or for a process that it killed;
-- once the mutex is free or the process has exited, its next turn leaves it fewer.
pub Reach-GetsOn :
    {s t : System} → Reach s → is_called s.shutdown ≡ true → Step s t → (left t ≤ left s) × GetsOn s
Reach-GetsOn {s} r h step =
    (Step-left (Reach-IsGuarded r) h step, called-GetsOn s h (Reach-AreLocksOwned r))
