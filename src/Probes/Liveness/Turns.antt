-- ===== src/Probes/Liveness/Turns.antt =====
-- The turns that `shutdown_probes` of crates/ret-r-utils/src/process.rs has left.
use r_environment_tools.Base.{
  ℕ, suc, ◌+◌, ◌*◌, ◌≤◌, ◌<◌, ◌≡◌, refl, ap, inl, inr, ◌⊎◌, Bool, true, false, not, ◌&&◌, List,
  length, ==_iff, arith, if◌then◌else◌,
}
use r_environment_tools.Probes.{
  Owner, Probe, Progress, not_called, terminating, reaping, returned, System, put, terminate,
}
use r_environment_tools.Probes.Guarded.{put-holds}

-- One if the process is still to be killed.
abbrev pub pending : Probe → ℕ
pending probe = if probe.running && not probe.killed then 1 else 0

-- A bound on the turns that the shutdown still takes where it does not wait.
abbrev pub turns_left : Progress → (ℕ → Probe) → ℕ
turns_left not_called probes = 0
turns_left (terminating is) probes = suc (4 * length is)
turns_left (reaping i is) probes = suc (suc (4 * length is + pending (probes i)))
turns_left returned probes = 0

abbrev pub left : System → ℕ
left s = turns_left s.shutdown s.probes

pub put_self : (i : ℕ) (probe : Probe) (probes : ℕ → Probe) → put i probe probes i ≡ probe
put_self i probe probes = rw ((==_iff i i).1 refl) refl

pub put-turns_left :
    (p : Progress) (i : ℕ) (probe : Probe) (probes : ℕ → Probe)
    → pending probe ≤ pending (probes i)
    → turns_left p (put i probe probes) ≤ turns_left p probes
put-turns_left not_called i probe probes h = omega arith
put-turns_left (terminating is) i probe probes h = omega arith
put-turns_left returned i probe probes h = omega arith
put-turns_left (reaping j is) i probe probes h =
    let k : pending (put i probe probes j) ≤ pending (probes j) =
      put-holds (λ j q. pending q ≤ pending (probes j)) i probe probes h (λ j _. omega arith) j in
    omega (arith, k)

pub pending_bound : (probe : Probe) → pending probe ≤ 1
pending_bound probe = go (probe.running && not probe.killed)
  where
    go : (b : Bool) → (if b then 1 else 0) ≤ 1
    go true = omega arith
    go false = omega arith

pub terminate-pending : (probe : Probe) → pending ((terminate probe).1) ≤ pending probe
unfolding terminate
terminate-pending probe = go probe.owner probe.running probe.killed probe.locked
  where
    go :
        (o : Owner) (r k l : Bool)
        → let probe : Probe = record { owner = o; running = r; killed = k; locked = l } in
          pending ((terminate probe).1) ≤ pending probe
    go o false k l = omega arith
    go o true false l = omega arith
    go o true true l = omega arith

-- Where the shutdown is after a turn of `terminate`.
abbrev pub after_reaping : ℕ → List ℕ → Probe → (ℕ → Probe) → ℕ
after_reaping i is probe probes =
    turns_left (if (terminate probe).0 then terminating is else reaping i is)
      (put i ((terminate probe).1) probes)

pub exited-after_reaping :
    (i : ℕ) (is : List ℕ) (probe : Probe) (probes : ℕ → Probe)
    → probe.running ≡ false
    → after_reaping i is probe probes ≡ suc (4 * length is)
unfolding terminate
exited-after_reaping i is probe probes h = go probe.owner probe.running probe.killed probe.locked h
  where
    go :
        (o : Owner) (r k l : Bool)
        → r ≡ false
        → after_reaping i is (record { owner = o; running = r; killed = k; locked = l }) probes
          ≡ suc (4 * length is)
    go o false k l h = refl
    go o true k l h = cc

-- A turn of `terminate` gets on, or the process was killed and still runs.
pub after_reaping-cases :
    (i : ℕ) (is : List ℕ) (probe : Probe) (probes : ℕ → Probe)
    → (after_reaping i is probe probes < suc (suc (4 * length is + pending probe)))
      ⊎ ((probe.running ≡ true) × (probe.killed ≡ true))
unfolding terminate
after_reaping-cases i is probe probes = go probe.owner probe.running probe.killed probe.locked
  where
    go :
        (o : Owner) (r k l : Bool)
        → let probe : Probe = record { owner = o; running = r; killed = k; locked = l } in
          (after_reaping i is probe probes < suc (suc (4 * length is + pending probe)))
          ⊎ ((probe.running ≡ true) × (probe.killed ≡ true))
    go o false k l = inl (omega arith)
    go o true false l =
        let q : Probe = record { owner = o; running = true; killed = true; locked = l } in
        inl (omega (arith, ap pending (put_self i q probes)))
    go o true true l = inr (refl, refl)
