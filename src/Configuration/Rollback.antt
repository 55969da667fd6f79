-- ===== src/Configuration/Rollback.antt =====
-- What applying a configuration leaves, where it fails too.
use r_environment_tools.Base.{
  ℕ, ◌+◌, ◌%◌, ◌<◌, ◌≡◌, refl, inl, inr, Bool, true, false, List, [], ◌∷◌, All, arith, Bool-cases,
}
use r_environment_tools.Configuration.{
  Configuration, ConfigureOptions, Context, Applied, applied, failed, crashed, configure_all,
  configured, next_config, finish, apply_configuration, report_if_current, generation_mod,
  after_configure, set_option,
}

module _ {PathBuf Locator Cache : Type 0}
    (configure : Configuration PathBuf → Locator → Bool × Locator)
    (set_cache_directory : PathBuf → Cache → Bool × Cache) where
  -- A result, by how it ended: the next generation with the new configuration, of which no
  -- report of the generation before is passed on; or the state from before.
  abbrev pub IsApplied :
      ConfigureOptions PathBuf
      → Context PathBuf Locator Cache
      → Applied (Context PathBuf Locator Cache)
      → Type 0
  IsApplied options context (applied c) =
      (c.configuration.config
        ≡ next_config configure set_cache_directory options context.configuration.config)
      × (configure_all configure set_cache_directory c.configuration.config context.locators
          ≡ (false, c.locators))
      × ((report : ℕ) (sent : List ℕ)
          → report_if_current c.configuration context.configuration.generation report sent ≡ sent)
  IsApplied options context (failed c) = c.configuration ≡ context.configuration
  IsApplied options context (crashed c) = c.configuration ≡ context.configuration

  stale :
      (g : ℕ) (config : Configuration PathBuf) (report : ℕ) (sent : List ℕ)
      → g < generation_mod
      → report_if_current
          (record { generation = (g + 1) % generation_mod; config = config })
          g
          report
          sent
        ≡ sent
  unfolding report_if_current
  stale g config report sent h = ground arith

  back-IsApplied :
      (options : ConfigureOptions PathBuf) (context : Context PathBuf Locator Cache)
      (next : Configuration PathBuf) (ls : List Locator) (cache : Cache)
      → IsApplied options context
          (finish configure set_cache_directory next context (true, ls, cache))
  unfolding finish
  back-IsApplied options context next ls cache =
      elim (Bool-cases
        (configure_all configure set_cache_directory context.configuration.config ls).0) [
          | inl t ↦ rw (t) refl
          | inr t ↦ rw (t) refl
        ]

  finish-IsApplied :
      (options : ConfigureOptions PathBuf) (context : Context PathBuf Locator Cache)
      (r : Bool × List Locator)
      → context.configuration.generation < generation_mod
      → configure_all configure set_cache_directory
          (next_config configure set_cache_directory options context.configuration.config)
          context.locators
        ≡ r
      → IsApplied options context (
          finish configure set_cache_directory
            (next_config configure set_cache_directory options context.configuration.config)
            context
            (configured configure set_cache_directory options.cache_directory context.cache r))
  unfolding finish configured
  finish-IsApplied options context (true, ls) g h =
      back-IsApplied options context
        (next_config configure set_cache_directory options context.configuration.config) ls
        context.cache
  finish-IsApplied options context (false, ls) g h =
      go (set_option configure set_cache_directory options.cache_directory context.cache)
    where
      next : Configuration PathBuf
      next = next_config configure set_cache_directory options context.configuration.config

      go :
          (s : Bool × Cache)
          → IsApplied options context
              (finish configure set_cache_directory next context (s.0, ls, s.1))
      go (true, cache) = back-IsApplied options context next ls cache
      go (false, cache) =
          (refl, h, λ report sent. stale context.configuration.generation next report sent g)

  -- A configuration that is applied is the new one, every locator has been configured with it, and
  -- no report of the generation before is passed on any more; one that fails, also by a panic of
  -- the roll back, leaves the configuration and its generation. The generation is a machine word.
  pub apply_configuration-IsApplied :
      (options : ConfigureOptions PathBuf) (context : Context PathBuf Locator Cache)
      → context.configuration.generation < generation_mod
      → IsApplied options context
          (apply_configuration configure set_cache_directory options context)
  unfolding apply_configuration
  apply_configuration-IsApplied options context g = finish-IsApplied options context _ g refl

  -- Configured with it again, a locator is the same.
  abbrev pub IsConfigured : Configuration PathBuf → Locator → Type 0
  IsConfigured config l = configure config l ≡ (false, l)

  -- Whatever another configuration made of a locator, its own brings it back.
  abbrev pub IsReversible : Configuration PathBuf → Locator → Type 0
  IsReversible config l =
      IsConfigured config l
      × ((next : Configuration PathBuf) → configure config (configure next l).1 ≡ (false, l))

  steady :
      (config : Configuration PathBuf) (ls : List Locator)
      → All (IsReversible config) ls
      → configure_all configure set_cache_directory config ls ≡ (false, ls)
  unfolding configure_all
  steady config [] h = refl
  steady config (l ∷ ls) ((k, _), h) = rw (k, steady config ls h) refl

  configure_all-back :
      (config next : Configuration PathBuf) (ls : List Locator)
      → All (IsReversible config) ls
      → configure_all configure set_cache_directory config
          (configure_all configure set_cache_directory next ls).1
        ≡ (false, ls)
  unfolding configure_all
  configure_all-back config next [] h = refl
  configure_all-back config next (l ∷ ls) ((_, k), h) =
      go (configure next l) (k next) (configure_all-back config next ls h)
    where
      go :
          (r : Bool × Locator)
          → configure config r.1 ≡ (false, l)
          → configure_all configure set_cache_directory config
              (configure_all configure set_cache_directory next ls).1
            ≡ (false, ls)
          → configure_all configure set_cache_directory config
              (after_configure configure set_cache_directory
                (configure_all configure set_cache_directory next ls)
                ls
                r).1
            ≡ (false, l ∷ ls)
      go (true, m) e b = rw (e, steady config ls h) refl
      go (false, m) e b = rw (e, b) refl

  -- The locators and the configuration are those from before, unless the new one was applied.
  abbrev pub IsRolledBack :
      Context PathBuf Locator Cache → Applied (Context PathBuf Locator Cache) → Type 0
  IsRolledBack context (applied c) = Unit
  IsRolledBack context (failed c) =
      (c.locators ≡ context.locators) × (c.configuration ≡ context.configuration)
  IsRolledBack context (crashed c) = ⊥

  -- Where every locator can go back to the configuration in force, a failed configuration does
  -- not crash the server, and leaves all locators and the configuration as they were.
  pub apply_configuration-IsRolledBack :
      (options : ConfigureOptions PathBuf) (context : Context PathBuf Locator Cache)
      → All (IsReversible context.configuration.config) context.locators
      → IsRolledBack context (apply_configuration configure set_cache_directory options context)
  unfolding apply_configuration
  apply_configuration-IsRolledBack options context h =
      go (configure_all configure set_cache_directory next context.locators)
        (configure_all-back context.configuration.config next context.locators h)
    where
      next : Configuration PathBuf
      next = next_config configure set_cache_directory options context.configuration.config

      back :
          (ls : List Locator) (cache : Cache)
          → configure_all configure set_cache_directory context.configuration.config ls
            ≡ (false, context.locators)
          → IsRolledBack context
              (finish configure set_cache_directory next context (true, ls, cache))
      back ls cache e = rw (e, finish) (refl, refl)

      set :
          (ls : List Locator) (s : Bool × Cache)
          → configure_all configure set_cache_directory context.configuration.config ls
            ≡ (false, context.locators)
          → IsRolledBack context (finish configure set_cache_directory next context (s.0, ls, s.1))
      set ls (true, cache) e = back ls cache e
      set ls (false, cache) e = tt

      go :
          (r : Bool × List Locator)
          → configure_all configure set_cache_directory context.configuration.config r.1
            ≡ (false, context.locators)
          → IsRolledBack context (
              finish configure set_cache_directory next context
                (configured configure set_cache_directory options.cache_directory context.cache r))
      go (true, ls) e = back ls context.cache e
      go (false, ls) e =
          set ls (set_option configure set_cache_directory options.cache_directory context.cache) e
