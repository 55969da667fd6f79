-- ===== src/Probes.antt =====
-- The processes that probe R: crates/ret-r-utils/src/process.rs. Each step is one critical section
-- under the registry's mutex, one locking or unlocking of a child's mutex, one turn of `terminate`,
-- or one event of the operating system. A step that waits for a mutex or a process changes nothing.
pub mod Guarded
pub mod Shutdown
pub mod Liveness
pub mod Output
use r_environment_tools.Base.{
  ℕ, suc, ◌≡◌, Bool, true, false, not, ◌&&◌, ◌||◌, List, [], ◌∷◌, ◌++◌, any, filter, ◌==◌,
  if◌then◌else◌,
}

pub record ProbeRegistry : Type 0 where
  pub stopped : Bool
  -- The weak references, by the numbers of the children.
  pub children : List ℕ

-- What the thread that spawned a child does with its strong reference: there is no child yet, it
-- has the reference, it dropped the last one and the child's destructor runs, or it is done.
pub data Owner : Type 0 where
  absent owned dropping gone : Owner

pub record Probe : Type 0 where
  pub owner : Owner
  pub running : Bool
  -- SIGKILL was sent.
  pub killed : Bool
  -- The owner holds the child's mutex, to ask whether the process has exited.
  pub locked : Bool

-- `shutdown_probes`: not called, about to lock the next of the children that it has references to,
-- in `terminate` with the mutex of one, or over.
pub data Progress : Type 0 where
  not_called : Progress
  terminating : List ℕ → Progress
  reaping : ℕ → List ℕ → Progress
  returned : Progress

pub record System : Type 0 where
  pub registry : ProbeRegistry
  pub probes : ℕ → Probe
  pub next : ℕ
  pub shutdown : Progress

abbrev pub is_owned : Probe → Bool
is_owned probe = elim probe.owner [
  | absent ↦ false
  | owned ↦ true
  | dropping ↦ false
  | gone ↦ false
]

abbrev pub is_dropping : Probe → Bool
is_dropping probe = elim probe.owner [
  | absent ↦ false
  | owned ↦ false
  | dropping ↦ true
  | gone ↦ false
]

abbrev pub member : ℕ → List ℕ → Bool
member i is = any (λ j. i == j) is

-- The children that `shutdown_probes` has references to.
abbrev pub held : Progress → List ℕ
held not_called = []
held (terminating is) = is
held (reaping i is) = i ∷ is
held returned = []

abbrev pub is_reaping : ℕ → Progress → Bool
is_reaping i not_called = false
is_reaping i (terminating is) = false
is_reaping i (reaping j is) = i == j
is_reaping i returned = false

-- `strong_count() > 0`
abbrev pub is_strong : System → ℕ → Bool
is_strong s i = is_owned (s.probes i) || member i (held s.shutdown)

abbrev pub put : ℕ → Probe → (ℕ → Probe) → ℕ → Probe
put i probe probes j = if j == i then probe else probes j

pub data Spawned : Type 0 where
  stopping : Spawned
  failed : Spawned
  child : ℕ → Spawned

abbrev pub new_child : Probe
new_child = record { owner = owned; running = true; killed = false; locked = false }

-- `spawn_probe`, where `spawns` is whether the system starts the process.
unfoldable pub spawn_probe : Bool → System → Spawned × System
spawn_probe spawns s =
    if s.registry.stopped then (stopping, s) else if not spawns then (failed, s) else (
      child s.next,
      record s {
        registry = record s.registry {
          children = filter (is_strong s) s.registry.children ++ s.next ∷ [];
        };
        probes = put s.next new_child s.probes;
        next = suc s.next;
      },
    )

-- The first part of `shutdown_probes`: the references that can be upgraded are kept.
unfoldable pub stop_registry : System → System
stop_registry s = record s {
  registry = record { stopped = true; children = [] };
  shutdown = terminating (filter (is_strong s) s.registry.children);
}

-- The process exits.
unfoldable pub exit_child : ℕ → System → System
exit_child i s = record s { probes = put i (record (s.probes i) { running = false }) s.probes }

-- A turn of `terminate`, and whether it returns: it does when the process has exited; otherwise it
-- kills the process, and waits for it from then on.
unfoldable pub terminate : Probe → Bool × Probe
terminate probe =
    if not probe.running
    then (true, probe)
    else if probe.killed
    then (false, probe)
    else (false, record probe { killed = true })

-- A turn of the loop of `shutdown_probes`: it waits for the next child's mutex, and then for
-- `terminate`.
unfoldable pub next_child : System → System
unfolding terminate
next_child s = elim s.shutdown [
  | not_called ↦ s
  | terminating [] ↦ record s { shutdown = returned }
  | terminating (i ∷ is) ↦ if (s.probes i).locked then s else record s { shutdown = reaping i is }
  | reaping i is ↦ record s {
    probes = put i ((terminate (s.probes i)).1) s.probes;
    shutdown = if (terminate (s.probes i)).0 then terminating is else reaping i is;
  }
  | returned ↦ s
]

-- The owner locks the child's mutex around `try_wait`, and unlocks it.
unfoldable pub lock_child : ℕ → System → System
lock_child i s =
    if is_owned (s.probes i) && not ((s.probes i).locked || is_reaping i s.shutdown)
    then record s { probes = put i (record (s.probes i) { locked = true }) s.probes }
    else s

unfoldable pub unlock_child : ℕ → System → System
unlock_child i s = record s { probes = put i (record (s.probes i) { locked = false }) s.probes }

-- The owner drops its reference; the destructor runs if it is the last one.
unfoldable pub release : ℕ → System → System
release i s =
    if is_owned (s.probes i) && not (s.probes i).locked
    then record s {
      probes =
          put i
            (record (s.probes i) { owner = if member i (held s.shutdown) then gone else dropping })
            s.probes;
    }
    else s

-- A turn of the destructor, `ProbeChild::drop`.
unfoldable pub drop_child : ℕ → System → System
unfolding terminate
drop_child i s =
    if is_dropping (s.probes i)
    then record s {
      probes =
          put i
            (record ((terminate (s.probes i)).1) {
              owner = if (terminate (s.probes i)).0 then gone else dropping;
            })
            s.probes;
    }
    else s

abbrev pub start : System
start = record {
  registry = record { stopped = false; children = [] };
  probes = λ _. record { owner = absent; running = false; killed = false; locked = false };
  next = 0;
  shutdown = not_called;
}

-- Any threads that probe, and one that shuts down, once.
pub data Step (s : System) : System → Type 0 where
  spawns : (starts : Bool) → Step s ((spawn_probe starts s).1)
  exits : (i : ℕ) → Step s (exit_child i s)
  locks : (i : ℕ) → Step s (lock_child i s)
  unlocks : (i : ℕ) → Step s (unlock_child i s)
  releases : (i : ℕ) → Step s (release i s)
  drops : (i : ℕ) → Step s (drop_child i s)
  stops : s.shutdown ≡ not_called → Step s (stop_registry s)
  continues : Step s (next_child s)

pub data Reach : System → Type 0 where
  here : Reach start
  next : {s t : System} → Reach s → Step s t → Reach t
