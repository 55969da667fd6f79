-- ===== src/Probes/Shutdown.antt =====
-- What `shutdown_probes` of crates/ret-r-utils/src/process.rs leaves behind.
use r_environment_tools.Base.{ℕ, ◌≡◌, refl, sym, ap, ◌∙◌, Bool, true, false, arith, if◌then◌else◌}
use r_environment_tools.Probes.{returned, System, stopping, is_dropping, spawn_probe, Reach}
use r_environment_tools.Probes.Guarded.{is_called, is_guarded, IsGuarded, Reach-IsGuarded}

if-true : {A : Type 0} (b : Bool) (x y : A) → b ≡ true → (if b then x else y) ≡ x
if-true true x y h = refl
if-true false x y h = cc

returned-IsStopped :
    (s : System)
    → s.shutdown ≡ returned
    → IsGuarded s
    → ((starts : Bool) → spawn_probe starts s ≡ (stopping, s))
      × ((i : ℕ) → (s.probes i).running ≡ true → is_dropping (s.probes i) ≡ true)
unfolding spawn_probe
returned-IsStopped s h g = (
  λ starts. if-true s.registry.stopped _ _ (g.stopped_when_called ∙ ap is_called h),
  λ i k.
      let covered : is_guarded returned s.registry.children i (s.probes i) ≡ true =
        ap (λ p. is_guarded p s.registry.children i (s.probes i)) (sym h) ∙ g.guarded i in
      ground arith,
)

-- Once `shutdown_probes` has returned, whatever the threads did before and in whatever order,
-- `spawn_probe` refuses to start a process, and of the processes that still run each is being
-- ended by its own thread, in the destructor.
pub Reach-IsStopped :
    {s : System}
    → Reach s
    → s.shutdown ≡ returned
    → ((starts : Bool) → spawn_probe starts s ≡ (stopping, s))
      × ((i : ℕ) → (s.probes i).running ≡ true → is_dropping (s.probes i) ≡ true)
Reach-IsStopped {s} r h = returned-IsStopped s h (Reach-IsGuarded r)
