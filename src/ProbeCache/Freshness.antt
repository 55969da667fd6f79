-- ===== src/ProbeCache/Freshness.antt =====
-- What `get` of crates/ret-r-utils/src/cache.rs gives, when files changed since `store`.
use r_environment_tools.Base.{
  ◌≡◌, refl, ap, ◌∙◌, ◌⊎◌, inl, inr, true, false, not, ◌&&◌, List, [], ◌∷◌, Option, none, some, Ord,
  Eq, any, contains, unwrap_or, nat_eq, beq_self, Bool-cases, Option-cases, arith, if◌then◌else◌,
}
use mathlib.Core.Option
use r_environment_tools.ProbeCache.{
  ResolvedRInstallation, FilePathWithMTimeCTime, CacheFile, complete, Files, Disk, CacheEntryImpl,
  create, is_file, is_stale, is_fresh, all, put_file, delete_cache_file, get_cache_from_file,
  store_cache_in_file, must_drop, verify_in_memory_cache, adopt, get_verified, get, tracked, store,
}

module _ {PathBuf : Type 0} (files : Files PathBuf) where
  -- The two checks of a file's times, of cache.rs and of fs_cache.rs, are one.
  pub is_stale-is_fresh :
      (s : FilePathWithMTimeCTime PathBuf) → is_stale files s ≡ not (is_fresh files s)
  unfolding is_stale is_fresh
  is_stale-is_fresh (path, modified, none) = elim (Option-cases (files.metadata path)) [
    | inl h ↦ rw (h, is_stale, is_fresh) refl
    | inr (m, h) ↦ rw (h, is_stale, is_fresh) (ground arith)
  ]
  is_stale-is_fresh (path, modified, some time) = elim (Option-cases (files.metadata path)) [
    | inl h ↦ rw (h, is_stale, is_fresh) refl
    | inr (m, h) ↦ rw (h, is_stale, is_fresh) (ground arith)
  ]

  any-is_stale :
      (xs : List (FilePathWithMTimeCTime PathBuf))
      → any (is_stale files) xs ≡ not (all (is_fresh files) xs)
  any-is_stale [] = refl
  any-is_stale (x ∷ xs) = ground (arith, is_stale-is_fresh x, any-is_stale xs)

module _ {PathBuf File : Type 0} ⦃o : Ord PathBuf⦄ ⦃e : Eq File⦄
    (cache_file : PathBuf → PathBuf → File) where
  -- The disk after an entry was dropped.
  abbrev dropped : Files PathBuf → CacheEntryImpl PathBuf → Disk PathBuf File → Disk PathBuf File
  dropped files self disk = elim self.cache_directory [
    | none ↦ disk
    | some directory ↦ delete_cache_file cache_file files directory self.executable disk
  ]

  verify-must_drop :
      (files : Files PathBuf) (self : CacheEntryImpl PathBuf) (disk : Disk PathBuf File)
      → must_drop cache_file files self ≡ true
      → verify_in_memory_cache cache_file files self disk
        ≡ (record self { installation = none }, dropped files self disk)
  unfolding verify_in_memory_cache
  verify-must_drop files self disk h = rw (h) refl

  verify-keep :
      (files : Files PathBuf) (self : CacheEntryImpl PathBuf) (disk : Disk PathBuf File)
      → must_drop cache_file files self ≡ false
      → verify_in_memory_cache cache_file files self disk ≡ (self, disk)
  unfolding verify_in_memory_cache
  verify-keep files self disk h = rw (h) refl

  -- An installation that is given is remembered, and all that it was tracked with is fresh.
  abbrev pub IsServed :
      Files PathBuf → Option (ResolvedRInstallation PathBuf) → CacheEntryImpl PathBuf → Type 0
  IsServed files none self = Unit
  IsServed files (some installation) self =
      (self.installation ≡ some installation) × (all (is_fresh files) self.executables ≡ true)

  -- A cache file that is read is for the executable and fresh.
  abbrev IsValid : Files PathBuf → PathBuf → Option (CacheFile PathBuf) → Type 0
  IsValid files executable none = Unit
  IsValid files executable (some cache) =
      (contains executable (unwrap_or cache.installation.known_executables []) ≡ true)
      × (all (is_fresh files) cache.executables ≡ true)

  get_cache_from_file-IsValid :
      (files : Files PathBuf) (directory executable : PathBuf) (disk : Disk PathBuf File)
      → IsValid files executable (get_cache_from_file cache_file files directory executable disk).0
  unfolding get_cache_from_file
  get_cache_from_file-IsValid files directory executable disk =
      elim (Option-cases (disk (cache_file directory executable))) [
        | inl h ↦ rw (h, get_cache_from_file, IsValid) tt
        | inr (cache, h) ↦
            elim (Bool-cases
              (contains executable (unwrap_or cache.installation.known_executables []))) [
                | inr k ↦ rw (h, get_cache_from_file, k, IsValid) tt
                | inl k ↦ elim (Bool-cases (all (is_fresh files) cache.executables)) [
                  | inl l ↦ rw (h, get_cache_from_file, k, l, IsValid) (k, l)
                  | inr l ↦ rw (h, get_cache_from_file, k, l, IsValid) tt
                ]
              ]
      ]

  adopt-IsServed :
      (files : Files PathBuf) (self : CacheEntryImpl PathBuf)
      (read : Option (CacheFile PathBuf) × Disk PathBuf File)
      → IsValid files self.executable read.0
      → IsServed files (adopt cache_file self read).0 (adopt cache_file self read).1
  unfolding adopt
  adopt-IsServed files self (none, disk) v = tt
  adopt-IsServed files self (some cache, disk) v = (refl, v.1)

  verified-IsServed :
      (files : Files PathBuf) (self : CacheEntryImpl PathBuf) (disk : Disk PathBuf File)
      → (self.installation ≡ none) ⊎ (all (is_fresh files) self.executables ≡ true)
      → IsServed files
          (get_verified cache_file files (self, disk)).0
          (get_verified cache_file files (self, disk)).1
  unfolding get_verified
  verified-IsServed files self disk h = elim (Option-cases self.installation) [
    | inr (i, k) ↦ elim h [ inl n ↦ cc | inr f ↦ rw (k, get_verified) (k, f) ]
    | inl k ↦ elim (Option-cases self.cache_directory) [
      | inl l ↦ rw (k, l, get_verified) tt
      | inr (directory, l) ↦
          rw (k, l, get_verified)
            (adopt-IsServed files self
              (get_cache_from_file cache_file files directory self.executable disk)
              (get_cache_from_file-IsValid files directory self.executable disk))
    ]
  ]

  kept_fresh :
      (files : Files PathBuf) (self : CacheEntryImpl PathBuf)
      → must_drop cache_file files self ≡ false
      → all (is_fresh files) self.executables ≡ true
  unfolding must_drop
  kept_fresh files self h = ground (arith, any-is_stale files self.executables)

  -- Whatever the entry and the cache files hold, and whichever of them could be deleted: when
  -- `get` gives an installation, the entry remembers it, and every file that the entry tracks is
  -- a file with its tracked times.
  pub get-IsServed :
      (files : Files PathBuf) (self : CacheEntryImpl PathBuf) (disk : Disk PathBuf File)
      → IsServed files (get cache_file files self disk).0 (get cache_file files self disk).1
  unfolding get
  get-IsServed files self disk = elim (Bool-cases (must_drop cache_file files self)) [
    | inl h ↦ rw (verify-must_drop files self disk h) (
        verified-IsServed files (record self { installation = none }) (dropped files self disk)
          (inl refl))
    | inr h ↦
        rw (verify-keep files self disk h)
          (verified-IsServed files self disk (inr (kept_fresh files self h)))
  ]

  deleted-none :
      (files : Files PathBuf) (directory executable : PathBuf) (disk : Disk PathBuf File)
      → files.removes ≡ true
      → delete_cache_file cache_file files directory executable disk
          (cache_file directory executable)
        ≡ none
  unfolding delete_cache_file put_file
  deleted-none files directory executable disk r =
      rw (r, beq_self (cache_file directory executable)) refl

  absent-none :
      (files : Files PathBuf) (directory executable : PathBuf) (disk : Disk PathBuf File)
      → disk (cache_file directory executable) ≡ none
      → get_cache_from_file cache_file files directory executable disk ≡ (none, disk)
  unfolding get_cache_from_file
  absent-none files directory executable disk h = rw (h, get_cache_from_file) refl

  -- With its file gone, an entry that was dropped gives nothing.
  dropped-none :
      (files : Files PathBuf) (self : CacheEntryImpl PathBuf) (disk : Disk PathBuf File)
      → files.removes ≡ true
      → (get_verified cache_file files
          (record self { installation = none }, dropped files self disk)).0
        ≡ none
  unfolding get_verified adopt
  dropped-none files self disk r = go self.cache_directory
    where
      go :
          (c : Option PathBuf)
          → let entry = record self { cache_directory = c; installation = none } in
            (get_verified cache_file files (entry, dropped files entry disk)).0 ≡ none
      go none = refl
      go (some directory) =
          ap
            (λ read.
              (adopt cache_file
                (record self { cache_directory = some directory; installation = none }) read).0)
            (absent-none files directory self.executable
              (delete_cache_file cache_file files directory self.executable disk)
              (deleted-none files directory self.executable disk r))

  -- After `store`, `get` gives the installation when every tracked file still has its times and
  -- the executable is a file, and nothing otherwise, if the cache file could be deleted then.
  pub get-store :
      (files later : Files PathBuf) (installation : ResolvedRInstallation PathBuf)
      (self : CacheEntryImpl PathBuf) (disk : Disk PathBuf File)
      → later.removes ≡ true
      → let stored = store cache_file files installation self disk in
        (get cache_file later stored.0 stored.1).0 ≡ (
          if all (is_fresh later) (tracked files installation) && is_file later self.executable
          then some installation
          else none)
  unfolding store get must_drop get_verified
  get-store files later installation self disk r =
      let stored = store cache_file files installation self disk in
      elim (Bool-cases (must_drop cache_file later stored.0)) [
        | inl h ↦
            ap (λ v. (get_verified cache_file later v).0)
              (verify-must_drop later stored.0 stored.1 h)
            ∙ dropped-none later stored.0 stored.1 r
            ∙ ground (arith, any-is_stale later (tracked files installation))
        | inr h ↦
            ap (λ v. (get_verified cache_file later v).0) (verify-keep later stored.0 stored.1 h)
            ∙ ground (arith, any-is_stale later (tracked files installation))
      ]

  present :
      (files : Files PathBuf) (directory executable : PathBuf) (disk : Disk PathBuf File)
      (cache : CacheFile PathBuf)
      → disk (cache_file directory executable) ≡ some cache
      → (get_cache_from_file cache_file files directory executable disk).0 ≡ (
          if contains executable (unwrap_or cache.installation.known_executables [])
            && all (is_fresh files) cache.executables
          then some cache
          else none)
  unfolding get_cache_from_file
  present files directory executable disk cache h =
      rw (h, get_cache_from_file)
        (elim (Bool-cases
          (contains executable (unwrap_or cache.installation.known_executables []))) [
            | inl k ↦ elim (Bool-cases (all (is_fresh files) cache.executables)) [
              | inl l ↦ rw (k, l) refl
              | inr l ↦ rw (k, l) refl
            ]
            | inr k ↦ rw (k) refl
          ])

  store-file :
      (files : Files PathBuf) (installation : ResolvedRInstallation PathBuf)
      (self : CacheEntryImpl PathBuf) (directory : PathBuf) (disk : Disk PathBuf File)
      → self.cache_directory ≡ some directory
      → files.writes ≡ complete
      → (store cache_file files installation self disk).1 (cache_file directory self.executable)
        ≡ some (record { installation = installation; executables = tracked files installation })
  unfolding store store_cache_in_file put_file
  store-file files installation self directory disk c w =
      rw (c, w, beq_self (cache_file directory self.executable)) refl

  given :
      (self : CacheEntryImpl PathBuf) (read : Option (CacheFile PathBuf) × Disk PathBuf File)
      → (adopt cache_file self read).0 ≡ Option.map (λ cache. cache.installation) read.0
  unfolding adopt
  given self (none, disk) = refl
  given self (some cache, disk) = refl

  -- After `store` in one process wrote its file, `get` in the next process, with the same cache
  -- directory, gives the installation when its known executables have the executable, that is a
  -- file, and every tracked file has its times; and nothing otherwise, if the cache file could be
  -- deleted then.
  pub get-create-store :
      (files later : Files PathBuf) (installation : ResolvedRInstallation PathBuf)
      (self : CacheEntryImpl PathBuf) (directory : PathBuf) (disk : Disk PathBuf File)
      → self.cache_directory ≡ some directory
      → files.writes ≡ complete
      → later.removes ≡ true
      → (get cache_file later
          (create (some directory) self.executable)
          (store cache_file files installation self disk).1).0
        ≡ (if is_file later self.executable
              && (contains self.executable (unwrap_or installation.known_executables [])
                  && all (is_fresh later) (tracked files installation))
            then some installation
            else none)
  unfolding get must_drop get_verified
  get-create-store files later installation self directory disk c w r =
      let entry = create (some directory) self.executable in
      let stored = (store cache_file files installation self disk).1 in
      elim (Bool-cases (is_file later self.executable)) [
        | inr h ↦
            ap (λ v. (get_verified cache_file later v).0)
              (verify-must_drop later entry stored (ground arith))
            ∙ dropped-none later entry stored r
            ∙ ground arith
        | inl h ↦
            ap (λ v. (get_verified cache_file later v).0)
              (verify-keep later entry stored (ground arith))
            ∙ given entry (get_cache_from_file cache_file later directory self.executable stored)
            ∙ ap (Option.map (λ cache. cache.installation)) (
                present later directory self.executable stored _
                  (store-file files installation self directory disk c w))
            ∙ ground arith
      ]
