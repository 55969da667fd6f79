-- ===== src/ProbeCache/Registry.antt =====
-- The table of cache entries, `CacheImpl` of crates/ret-r-utils/src/cache.rs. Its two mutexes are
-- taken one after the other, so a call is a sequence of critical sections. An `Arc` of an entry is
-- the entry's place in `entries`.
pub mod Current
use r_environment_tools.Base.{
  ℕ, zero, suc, Bool, true, false, List, [], ◌∷◌, ◌++◌, Option, none, some, Eq, same_option, length,
  if◌then◌else◌,
}
use r_environment_tools.Tables.{Table, lookup, store}
use r_environment_tools.ProbeCache.{CacheEntryImpl, create}

pub record CacheImpl (PathBuf : Type 0) : Type 0 where
  pub cache_dir : Option PathBuf
  pub locks : Table PathBuf ℕ
  pub entries : List (CacheEntryImpl PathBuf)

-- `CacheImpl::new`
abbrev pub new : {PathBuf : Type 0} → Option PathBuf → CacheImpl PathBuf
new cache_dir = record { cache_dir = cache_dir; locks = []; entries = [] }

-- A call, by what it does next.
pub data Call (PathBuf : Type 0) : Type 0 where
  creating : PathBuf → Call PathBuf
  locking : Option PathBuf → PathBuf → Call PathBuf
  created : ℕ → Call PathBuf
  setting : PathBuf → Call PathBuf
  clearing : Call PathBuf
  finished : Call PathBuf

module _ {PathBuf : Type 0} ⦃e : Eq PathBuf⦄ where
  -- One critical section.
  unfoldable pub step : Call PathBuf → CacheImpl PathBuf → Call PathBuf × CacheImpl PathBuf
  unfolding lookup store
  step (creating executable) self = (locking self.cache_dir executable, self)
  step (locking cache_directory executable) self = elim (lookup executable self.locks) [
    | some lock ↦ (created lock, self)
    | none ↦ (
      created (length self.entries),
      record self {
        locks = store executable (length self.entries) self.locks;
        entries = self.entries ++ create cache_directory executable ∷ [];
      },
    )
  ]
  step (setting cache_dir) self = (
    if same_option self.cache_dir (some cache_dir) then finished else clearing,
    record self { cache_dir = some cache_dir },
  )
  step clearing self = (finished, record self { locks = [] })
  step (created lock) self = (created lock, self)
  step finished self = (finished, self)

  -- The calls with no other thread between their sections.
  unfoldable pub create_cache : PathBuf → CacheImpl PathBuf → Call PathBuf × CacheImpl PathBuf
  unfolding step
  create_cache executable self = step (locking self.cache_dir executable) self

  unfoldable pub set_cache_directory : PathBuf → CacheImpl PathBuf → CacheImpl PathBuf
  unfolding step
  set_cache_directory cache_dir self =
      let replaced = step (setting cache_dir) self in (step replaced.0 replaced.1).1

module _ {PathBuf : Type 0} where
  unfoldable pub get_cache_directory : CacheImpl PathBuf → Option PathBuf
  get_cache_directory self = self.cache_dir

  -- The table after it, and the directory that is removed, if there is one.
  unfoldable pub clear : CacheImpl PathBuf → CacheImpl PathBuf × Option PathBuf
  clear self = (record self { locks = [] }, self.cache_dir)
