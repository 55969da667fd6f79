-- ===== src/ProbeCache/Registry/Current.antt =====
-- Each entry of the table of crates/ret-r-utils/src/cache.rs is for its executable and for the
-- current directory, if one thread uses it.
use r_environment_tools.Base.{
  ℕ, zero, suc, ◌≡◌, refl, sym, ◌∙◌, inl, inr, List, [], ◌∷◌, ◌++◌, Option, none, some, Eq,
  same_option, same_option_iff, beq_self, length, arith, Bool-cases, Option-cases, subst,
}
use r_environment_tools.Tables.{lookup, store}
use r_environment_tools.Tables.Laws.{lookup-store}
use r_environment_tools.ProbeCache.{CacheEntryImpl, create}
use r_environment_tools.ProbeCache.Registry.{
  CacheImpl, Call, creating, locking, created, setting, clearing, finished, step, create_cache,
  set_cache_directory,
}

abbrev pub get_elem? {ℓ} : {A : Type ℓ} → ℕ → List A → Option A
get_elem? n [] = none
get_elem? zero (x ∷ xs) = some x
get_elem? (suc n) (x ∷ xs) = get_elem? n xs

module _ {ℓ} {A : Type ℓ} where
  get_elem-last : (xs : List A) (y : A) → get_elem? (length xs) (xs ++ y ∷ []) ≡ some y
  get_elem-last [] y = refl
  get_elem-last (x ∷ xs) y = get_elem-last xs y

  get_elem-append :
      (n : ℕ) (xs ys : List A) (x : A) → get_elem? n xs ≡ some x → get_elem? n (xs ++ ys) ≡ some x
  get_elem-append n [] ys x h = cc
  get_elem-append zero (y ∷ xs) ys x h = h
  get_elem-append (suc n) (y ∷ xs) ys x h = get_elem-append n xs ys x h

module _ {PathBuf : Type 0} ⦃e : Eq PathBuf⦄ where
  -- The place has an entry for the executable and the directory.
  abbrev pub IsEntry : Option PathBuf → List (CacheEntryImpl PathBuf) → PathBuf → ℕ → Type 0
  IsEntry cache_dir entries executable lock =
      (entry : CacheEntryImpl PathBuf) × (get_elem? lock entries ≡ some entry)
      × (entry.executable ≡ executable)
      × (entry.cache_directory ≡ cache_dir)

  abbrev pub IsCurrent : CacheImpl PathBuf → Type 0
  IsCurrent self =
      (executable : PathBuf) (lock : ℕ)
      → lookup executable self.locks ≡ some lock
      → IsEntry self.cache_dir self.entries executable lock

  abbrev IsCreated : PathBuf → Call PathBuf × CacheImpl PathBuf → Type 0
  IsCreated executable (created lock, self) =
      (lookup executable self.locks ≡ some lock) × IsCurrent self
  IsCreated executable (_, self) = ⊥

  create_cache-IsCreated :
      (executable : PathBuf) (self : CacheImpl PathBuf)
      → IsCurrent self
      → IsCreated executable (create_cache executable self)
  unfolding create_cache step
  create_cache-IsCreated executable self h = elim (Option-cases (lookup executable self.locks)) [
    | inr (lock, k) ↦ rw (k, create_cache, step) (k, h)
    | inl k ↦
        rw (k, create_cache, step)
          (
            rw (lookup-store executable executable (length self.entries) self.locks)
                (rw (beq_self executable) refl),
            λ other lock l. elim (Bool-cases (e.beq other executable)) [
              | inl m ↦
                  let stored : lookup other (store executable (length self.entries) self.locks)
                      ≡ some (length self.entries) =
                    lookup-store other executable (length self.entries) self.locks ∙ ground arith in
                  let place : length self.entries ≡ lock = cc in
                  (
                    create self.cache_dir executable,
                    subst
                        (λ n.
                          get_elem? n (self.entries ++ create self.cache_dir executable ∷ [])
                          ≡ some (create self.cache_dir executable))
                        place (get_elem-last self.entries (create self.cache_dir executable)),
                    sym ((e.beq_iff other executable).0 m),
                    refl,
                  )
              | inr m ↦
                  let known : lookup other (store executable (length self.entries) self.locks)
                      ≡ lookup other self.locks =
                    lookup-store other executable (length self.entries) self.locks ∙ ground arith in
                  let entry = h other lock (sym known ∙ l) in
                  (
                    entry.0,
                    get_elem-append lock self.entries (create self.cache_dir executable ∷ [])
                        entry.0 entry.1,
                    entry.2,
                    entry.3,
                  )
            ],
          )
  ]

  create_cache-known :
      (executable : PathBuf) (lock : ℕ) (self : CacheImpl PathBuf)
      → lookup executable self.locks ≡ some lock
      → create_cache executable self ≡ (created lock, self)
  unfolding create_cache step
  create_cache-known executable lock self k = rw (k, create_cache, step) refl

  create_cache-cache_dir :
      (executable : PathBuf) (self : CacheImpl PathBuf)
      → (create_cache executable self).1.cache_dir ≡ self.cache_dir
  unfolding create_cache step
  create_cache-cache_dir executable self = elim (Option-cases (lookup executable self.locks)) [
    | inl k ↦ rw (k, create_cache, step) refl
    | inr (lock, k) ↦ rw (k, create_cache, step) refl
  ]

  -- The entry is for the executable and the current directory, a second call gives the same entry,
  -- and each entry of the table stays for its executable and the current directory.
  pub create_cache-IsCurrent :
      (executable : PathBuf) (self : CacheImpl PathBuf)
      → IsCurrent self
      → (lock : ℕ) × ((create_cache executable self).0 ≡ created lock)
        × IsEntry self.cache_dir ((create_cache executable self).1).entries executable lock
        × ((create_cache executable (create_cache executable self).1)
            ≡ create_cache executable self)
        × IsCurrent (create_cache executable self).1
  create_cache-IsCurrent executable self h =
      go (create_cache executable self) (create_cache-IsCreated executable self h)
        (create_cache-cache_dir executable self)
    where
      go :
          (r : Call PathBuf × CacheImpl PathBuf)
          → IsCreated executable r
          → r.1.cache_dir ≡ self.cache_dir
          → (lock : ℕ) × (r.0 ≡ created lock)
            × IsEntry self.cache_dir r.1.entries executable lock
            × (create_cache executable r.1 ≡ r)
            × IsCurrent r.1
      go (created lock, s) (k, g) d =
          let entry = g executable lock k in
          (
            lock,
            refl,
            (entry.0, entry.1, entry.2, entry.3 ∙ d),
            create_cache-known executable lock s k,
            g,
          )
      go (creating _, s) k d = absurd k
      go (locking _ _, s) k d = absurd k
      go (setting _, s) k d = absurd k
      go (clearing, s) k d = absurd k
      go (finished, s) k d = absurd k

  -- After a directory was set, each entry of the table is for its executable and that directory.
  pub set_cache_directory-IsCurrent :
      (cache_dir : PathBuf) (self : CacheImpl PathBuf)
      → IsCurrent self
      → IsCurrent (set_cache_directory cache_dir self)
        × ((set_cache_directory cache_dir self).cache_dir ≡ some cache_dir)
  unfolding set_cache_directory step lookup
  set_cache_directory-IsCurrent cache_dir self h =
      elim (Bool-cases (same_option self.cache_dir (some cache_dir))) [
        | inl k ↦
            rw (k, set_cache_directory)
              (
                λ executable lock l.
                    let entry = h executable lock l in
                    (
                      entry.0,
                      entry.1,
                      entry.2,
                      entry.3 ∙ (same_option_iff self.cache_dir (some cache_dir)).0 k,
                    ),
                refl,
              )
        | inr k ↦ rw (k, set_cache_directory) (λ executable lock l. cc, refl)
      ]
