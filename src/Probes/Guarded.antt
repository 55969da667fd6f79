-- ===== src/Probes/Guarded.antt =====
-- Which children of crates/ret-r-utils/src/process.rs may run, while threads probe and shut down.
use r_environment_tools.Base.{
  ℕ, ◌≡◌, refl, sym, ap, subst, ◌∙◌, inl, inr, Bool, true, false, not, ◌&&◌, ◌||◌, List, [], ◌∷◌,
  ◌++◌, filter, ◌==◌, ==_iff, and_parts, ◌⊎◌, Bool-cases, arith, if◌then◌else◌,
}
use r_environment_tools.Probes.{
  Progress, not_called, terminating, reaping, returned, Probe, Owner, new_child, is_reaping,
  exit_child, lock_child, unlock_child, locks, unlocks, dropping, gone, System, Spawned, is_owned,
  is_dropping, member, held, is_strong, put, spawn_probe, stop_registry, terminate, next_child,
  release, drop_child, Step, spawns, exits, releases, drops, stops, continues, Reach, here, next,
}

abbrev pub is_called : Progress → Bool
is_called not_called = false
is_called (terminating _) = true
is_called (reaping _ _) = true
is_called returned = true

-- The registry has the child and it can be upgraded, or the shutdown has a reference to it.
abbrev pub is_covered : Progress → List ℕ → ℕ → Probe → Bool
is_covered not_called children i probe = is_owned probe && member i children
is_covered (terminating is) children i probe = member i is
is_covered (reaping j is) children i probe = member i (j ∷ is)
is_covered returned children i probe = false

-- A child that is not running, or is in its destructor, or is covered.
abbrev pub is_guarded : Progress → List ℕ → ℕ → Probe → Bool
is_guarded shutdown children i probe =
    not probe.running || (is_dropping probe || is_covered shutdown children i probe)

pub record IsGuarded (s : System) : Type 0 where
  pub guarded : (i : ℕ) → is_guarded s.shutdown s.registry.children i (s.probes i) ≡ true
  pub stopped_when_called : s.registry.stopped ≡ is_called s.shutdown

member-filter : (p : ℕ → Bool) (i : ℕ) (is : List ℕ) → member i (filter p is) ≡ (member i is && p i)
member-filter p i [] = refl
member-filter p i (j ∷ is) = elim (Bool-cases (i == j)) [
  | inl h ↦ elim (Bool-cases (p j)) [
    | inl k ↦ ground (arith, ap p ((==_iff i j).0 h), member-filter p i is)
    | inr k ↦ ground (arith, ap p ((==_iff i j).0 h), member-filter p i is)
  ]
  | inr h ↦ ground (arith, member-filter p i is)
]

member-append : (i : ℕ) (is js : List ℕ) → member i (is ++ js) ≡ (member i is || member i js)
member-append i [] js = refl
member-append i (j ∷ is) js = ground (arith, member-append i is js)

pub put-holds :
    (P : ℕ → Probe → Type 0) (i : ℕ) (probe : Probe) (probes : ℕ → Probe)
    → P i probe
    → ((j : ℕ) → (j == i) ≡ false → P j (probes j))
    → (j : ℕ) → P j (put i probe probes j)
put-holds P i probe probes h k j = elim (Bool-cases (j == i)) [
  | inl e ↦ rw (e) (subst (λ x. P x probe) (sym ((==_iff j i).0 e)) h)
  | inr e ↦ rw (e) (k j e)
]

exit_child-IsGuarded : (i : ℕ) (s : System) → IsGuarded s → IsGuarded (exit_child i s)
unfolding exit_child
exit_child-IsGuarded i s g = record {
  guarded =
      put-holds (λ j probe. is_guarded s.shutdown s.registry.children j probe ≡ true) i
        (record (s.probes i) { running = false }) s.probes refl (λ j _. g.guarded j);
  stopped_when_called = g.stopped_when_called;
}

pub if-holds :
    {A : Type 0} (P : A → Type 0) (b : Bool) (x y : A)
    → (b ≡ true → P x)
    → (b ≡ false → P y)
    → P (if b then x else y)
if-holds P true x y h k = h refl
if-holds P false x y h k = k refl

relocked :
    (shutdown : Progress) (children : List ℕ) (i : ℕ) (probe : Probe) (locked : Bool)
    → is_guarded shutdown children i probe ≡ true
    → is_guarded shutdown children i (record probe { locked = locked }) ≡ true
relocked not_called children i probe locked h = h
relocked (terminating _) children i probe locked h = h
relocked (reaping _ _) children i probe locked h = h
relocked returned children i probe locked h = h

-- The owner's turns of the mutex change nothing here.
relocked-IsGuarded :
    (i : ℕ) (locked : Bool) (s : System)
    → IsGuarded s
    → IsGuarded (record s { probes = put i (record (s.probes i) { locked = locked }) s.probes })
relocked-IsGuarded i locked s g = record {
  guarded =
      put-holds (λ j probe. is_guarded s.shutdown s.registry.children j probe ≡ true) i
        (record (s.probes i) { locked = locked }) s.probes
        (relocked s.shutdown s.registry.children i (s.probes i) locked (g.guarded i))
        (λ j _. g.guarded j);
  stopped_when_called = g.stopped_when_called;
}

-- What `terminate` leaves: it returns only when the process is no more.
pub terminate_lem :
    (probe : Probe)
    → (((terminate probe).0 ≡ true) × ((terminate probe).1 ≡ probe) × (probe.running ≡ false))
      ⊎ (((terminate probe).0 ≡ false) × ((terminate probe).1 ≡ record probe { killed = true }))
unfolding terminate
terminate_lem probe = go probe.owner probe.running probe.killed probe.locked
  where
    go :
        (o : Owner) (r k l : Bool)
        → let probe : Probe = record { owner = o; running = r; killed = k; locked = l } in
          (((terminate probe).0 ≡ true) × ((terminate probe).1 ≡ probe) × (probe.running ≡ false))
          ⊎ (((terminate probe).0 ≡ false) × ((terminate probe).1 ≡ record probe { killed = true }))
    go o false k l = inl (refl, refl, refl)
    go o true false l = inr (refl, refl)
    go o true true l = inr (refl, refl)

dropped :
    (shutdown : Progress) (children : List ℕ) (i : ℕ) (probe : Probe)
    → is_guarded shutdown children i
        (record ((terminate probe).1) { owner = if (terminate probe).0 then gone else dropping })
      ≡ true
dropped shutdown children i probe = elim (terminate_lem probe) [
  | inl (e, p, r) ↦ rw (e, p, r) refl
  | inr (e, p) ↦ rw (e, p) (ground arith)
]

drop_child-IsGuarded : (i : ℕ) (s : System) → IsGuarded s → IsGuarded (drop_child i s)
unfolding drop_child
drop_child-IsGuarded i s g =
    if-holds IsGuarded (is_dropping (s.probes i)) _ _
      (λ _. record {
        guarded =
            put-holds (λ j probe. is_guarded s.shutdown s.registry.children j probe ≡ true) i _
              s.probes (dropped s.shutdown s.registry.children i (s.probes i)) (λ j _. g.guarded j);
        stopped_when_called = g.stopped_when_called;
      })
      (λ _. g)

released :
    (shutdown : Progress) (children : List ℕ) (i : ℕ) (probe : Probe)
    → is_owned probe ≡ true
    → is_guarded shutdown children i probe ≡ true
    → is_guarded shutdown children i
        (record probe { owner = if member i (held shutdown) then gone else dropping })
      ≡ true
released not_called children i probe h g = ground arith
released (terminating is) children i probe h g = elim (Bool-cases (member i is)) [
  | inl m ↦ rw (m) (ground arith)
  | inr m ↦ rw (m) (ground arith)
]
released (reaping j is) children i probe h g = elim (Bool-cases (member i (j ∷ is))) [
  | inl m ↦ rw (m) (ground arith)
  | inr m ↦ rw (m) (ground arith)
]
released returned children i probe h g = ground arith

release-IsGuarded : (i : ℕ) (s : System) → IsGuarded s → IsGuarded (release i s)
unfolding release
release-IsGuarded i s g =
    if-holds IsGuarded (is_owned (s.probes i) && not (s.probes i).locked) _ _
      (λ k. record {
        guarded =
            put-holds (λ j probe. is_guarded s.shutdown s.registry.children j probe ≡ true) i _
              s.probes
              (released s.shutdown s.registry.children i (s.probes i) (and_parts _ _ k).0
                (g.guarded i))
              (λ j _. g.guarded j);
        stopped_when_called = g.stopped_when_called;
      })
      (λ _. g)

-- The registry after a spawn covers what it covered, and so do the shutdown's references.
filtered :
    (shutdown : Progress) (children is : List ℕ) (keep : ℕ → Bool) (j : ℕ) (probe : Probe)
    → is_called shutdown ≡ false
    → (is_owned probe ≡ true → keep j ≡ true)
    → is_guarded shutdown children j probe ≡ true
    → (is_guarded shutdown (filter keep children ++ is) j probe ≡ true)
      × (is_guarded (terminating (filter keep children)) [] j probe ≡ true)
filtered not_called children is keep j probe h k g = (
  ground (arith, member-append j (filter keep children) is, member-filter keep j children),
  ground (arith, member-filter keep j children),
)
filtered (terminating _) children is keep j probe h k g = cc
filtered (reaping _ _) children is keep j probe h k g = cc
filtered returned children is keep j probe h k g = cc

not_called_of : (shutdown : Progress) → is_called shutdown ≡ false → shutdown ≡ not_called
not_called_of not_called h = refl
not_called_of (terminating _) h = cc
not_called_of (reaping _ _) h = cc
not_called_of returned h = cc

strong_of_owned : (s : System) (j : ℕ) → is_owned (s.probes j) ≡ true → is_strong s j ≡ true
strong_of_owned s j h = ground arith

new_child-covered :
    (shutdown : Progress) (children : List ℕ) (i : ℕ)
    → is_called shutdown ≡ false
    → is_guarded shutdown (children ++ i ∷ []) i new_child ≡ true
new_child-covered not_called children i h = ground (arith, member-append i children (i ∷ []))
new_child-covered (terminating _) children i h = cc
new_child-covered (reaping _ _) children i h = cc
new_child-covered returned children i h = cc

spawn_probe-IsGuarded :
    (starts : Bool) (s : System) → IsGuarded s → IsGuarded ((spawn_probe starts s).1)
unfolding spawn_probe
spawn_probe-IsGuarded starts s g =
    if-holds (λ (r : Spawned × System). IsGuarded r.1) s.registry.stopped _ _ (λ _. g)
      (λ h.
        if-holds (λ (r : Spawned × System). IsGuarded r.1) (not starts) _ _ (λ _. g)
          (λ _.
            let idle = sym g.stopped_when_called ∙ h in
            let kept = filter (is_strong s) s.registry.children in
            record {
              guarded =
                  put-holds (λ j probe. is_guarded s.shutdown (kept ++ s.next ∷ []) j probe ≡ true)
                    s.next new_child s.probes (new_child-covered s.shutdown kept s.next idle)
                    (λ j _.
                      (filtered s.shutdown s.registry.children (s.next ∷ []) (is_strong s) j
                        (s.probes j) idle (strong_of_owned s j) (g.guarded j)).0);
              stopped_when_called = g.stopped_when_called;
            }))

stop_registry-IsGuarded :
    (s : System) → s.shutdown ≡ not_called → IsGuarded s → IsGuarded (stop_registry s)
unfolding stop_registry
stop_registry-IsGuarded s h g = record {
  guarded = λ j.
      (filtered s.shutdown s.registry.children [] (is_strong s) j (s.probes j) (ap is_called h)
        (strong_of_owned s j) (g.guarded j)).1;
  stopped_when_called = refl;
}

reaped :
    (children : List ℕ) (i : ℕ) (is : List ℕ) (probes : ℕ → Probe)
    → ((j : ℕ) → is_guarded (reaping i is) children j (probes j) ≡ true)
    → (j : ℕ)
    → is_guarded
        (if (terminate (probes i)).0 then terminating is else reaping i is)
        children
        j
        (put i ((terminate (probes i)).1) probes j)
      ≡ true
reaped children i is probes g = elim (terminate_lem (probes i)) [
  | inl (e, p, r) ↦
      rw (e, p)
        (put-holds (λ j probe. is_guarded (terminating is) children j probe ≡ true) i (probes i)
          probes (rw (r) refl) (λ j k. ground (arith, g j)))
  | inr (e, p) ↦
      rw (e, p)
        (put-holds (λ j probe. is_guarded (reaping i is) children j probe ≡ true) i
          (record (probes i) { killed = true }) probes (g i) (λ j _. g j))
]

called_while :
    (i : ℕ) (is : List ℕ) (ended : Bool)
    → is_called (if ended then terminating is else reaping i is) ≡ true
called_while i is true = refl
called_while i is false = refl

next_child-IsGuarded : (s : System) → IsGuarded s → IsGuarded (next_child s)
unfolding next_child terminate
next_child-IsGuarded s g = go s.shutdown g
  where
    go :
        (p : Progress)
        → IsGuarded (record s { shutdown = p })
        → IsGuarded (next_child (record s { shutdown = p }))
    go not_called h = h
    go returned h = h
    go (terminating []) h = record {
      guarded = h.guarded;
      stopped_when_called = h.stopped_when_called;
    }
    go (terminating (i ∷ is)) h =
        if-holds IsGuarded (s.probes i).locked _ _ (λ _. h)
          (λ _. record { guarded = h.guarded; stopped_when_called = h.stopped_when_called })
    go (reaping i is) h = record {
      guarded = reaped s.registry.children i is s.probes h.guarded;
      stopped_when_called =
          h.stopped_when_called ∙ sym (called_while i is (terminate (s.probes i)).0);
    }

Step-IsGuarded : {s t : System} → Step s t → IsGuarded s → IsGuarded t
unfolding lock_child unlock_child
Step-IsGuarded {s} (spawns starts) g = spawn_probe-IsGuarded starts s g
Step-IsGuarded {s} (exits i) g = exit_child-IsGuarded i s g
Step-IsGuarded {s} (locks i) g =
    if-holds IsGuarded
      (is_owned (s.probes i) && not ((s.probes i).locked || is_reaping i s.shutdown)) _ _
      (λ _. relocked-IsGuarded i true s g) (λ _. g)
Step-IsGuarded {s} (unlocks i) g = relocked-IsGuarded i false s g
Step-IsGuarded {s} (releases i) g = release-IsGuarded i s g
Step-IsGuarded {s} (drops i) g = drop_child-IsGuarded i s g
Step-IsGuarded {s} (stops h) g = stop_registry-IsGuarded s h g
Step-IsGuarded {s} continues g = next_child-IsGuarded s g

pub Reach-IsGuarded : {s : System} → Reach s → IsGuarded s
Reach-IsGuarded here = record { guarded = λ i. refl; stopped_when_called = refl }
Reach-IsGuarded (next r step) = Step-IsGuarded step (Reach-IsGuarded r)
