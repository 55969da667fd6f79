-- ===== src/Reporter/Managers.antt =====
-- What the cache holds of managers.
use r_environment_tools.Base.{
  ◌≡◌, sym, ap, ◌∙◌, inl, inr, List, [], ◌∷◌, ◌++◌, map, map-append, Option, some, Eq, Option-cases,
}
use r_environment_tools.Installation.{EnvManager}
use r_environment_tools.Reporter.{CacheReporter, report_manager, report_managers}
use r_environment_tools.Tables.{lookup, values}
use r_environment_tools.Tables.Laws.{
  IsDistinct, keys_of, store-IsDistinct, keys_of-store_new, values-store_new,
}

abbrev pub executable_of : {PathBuf : Type 0} → EnvManager PathBuf → Option PathBuf
executable_of m = some m.executable

module _ {PathBuf Key : Type 0} ⦃d : Eq PathBuf⦄ where
  -- The table has one manager for an executable, each under its own, and its managers are those
  -- that were passed on, in order.
  abbrev pub IsManaged : CacheReporter PathBuf Key → Type 0
  IsManaged self =
      IsDistinct self.reported_managers
      × (values self.reported_managers ≡ self.managers_sent)
      × (keys_of self.reported_managers ≡ map executable_of self.managers_sent)

  report_manager-IsManaged :
      (m : EnvManager PathBuf) (self : CacheReporter PathBuf Key)
      → IsManaged self
      → IsManaged (report_manager m self)
  unfolding report_manager
  report_manager-IsManaged m self (h, v, k) =
      elim (Option-cases (lookup m.executable self.reported_managers)) [
        | inl q ↦
            rw (q, report_manager)
              (
                store-IsDistinct m.executable m self.reported_managers h,
                values-store_new m.executable m self.reported_managers q ∙ ap (λ r. r ++ m ∷ []) v,
                keys_of-store_new m.executable m self.reported_managers q
                    ∙ rw (k) (sym (map-append executable_of self.managers_sent (m ∷ []))),
              )
        | inr (w, q) ↦ rw (q, report_manager) (h, v, k)
      ]

  -- After any managers were reported to a cache, of which this holds before, its table has one
  -- manager for an executable, each under its own, and its managers are those passed on, in order.
  pub report_managers-IsManaged :
      (ms : List (EnvManager PathBuf)) (self : CacheReporter PathBuf Key)
      → IsManaged self
      → IsManaged (report_managers ms self)
  unfolding report_managers
  report_managers-IsManaged [] self h = h
  report_managers-IsManaged (m ∷ ms) self h =
      report_managers-IsManaged ms (report_manager m self) (report_manager-IsManaged m self h)
