-- ===== src/ProbeCache.antt =====
-- The cache of what R probes gave, for one executable: `CacheEntryImpl` of
-- crates/ret-r-utils/src/cache.rs and its file, of crates/ret-r-utils/src/fs_cache.rs. What the
-- file system says is an argument of each operation, since files change between them; the cache
-- files are a function from their names, and a name's hash is an argument.
pub mod Freshness
pub mod Registry
use r_environment_tools.Base.{
  ℕ, ◌≡◌, Bool, true, false, not, ◌&&◌, ◌||◌, List, [], ◌∷◌, ◌++◌, Option, none, some, Text, Ord,
  Eq, nat_eq, same_option, any, filter, sort_dedup, contains, unwrap_or, and_then, ◌==◌,
  if◌then◌else◌, map, triple_order,
}
use mathlib.Core.Option
use r_environment_tools.Installation.{Architecture}

pub record ResolvedRInstallation (PathBuf : Type 0) : Type 0 where
  pub executable : PathBuf
  pub home : PathBuf
  pub version : Text
  pub arch : Architecture
  pub known_executables : Option (List PathBuf)
  pub symlinks : Option (List PathBuf)
  pub orthogonal : Option Bool
  pub metadata_files : List PathBuf

-- What the program reads of `std::fs::Metadata`. A time is a number.
pub record Metadata : Type 0 where
  pub is_file : Bool
  pub modified : Option ℕ
  pub created : Option ℕ

-- A path with its times of modification and creation.
abbrev pub FilePathWithMTimeCTime : Type 0 → Type 0
FilePathWithMTimeCTime PathBuf = PathBuf × ℕ × Option ℕ

-- The `CacheEntry` of a cache file.
pub record CacheFile (PathBuf : Type 0) : Type 0 where
  pub installation : ResolvedRInstallation PathBuf
  pub executables : List (FilePathWithMTimeCTime PathBuf)

-- How writing a cache file ends: no file is created, it is cut short, or it is complete.
pub data Written : Type 0 where
  refused broken complete : Written

-- The file system as an operation finds it: the metadata of paths, whether it deletes a cache
-- file, and how it writes one.
pub record Files (PathBuf : Type 0) : Type 0 where
  pub metadata : PathBuf → Option Metadata
  pub removes : Bool
  pub writes : Written

-- The cache files that can be read.
abbrev pub Disk : Type 0 → Type 0 → Type 0
Disk PathBuf File = File → Option (CacheFile PathBuf)

pub record CacheEntryImpl (PathBuf : Type 0) : Type 0 where
  pub cache_directory : Option PathBuf
  pub executable : PathBuf
  pub installation : Option (ResolvedRInstallation PathBuf)
  pub executables : List (FilePathWithMTimeCTime PathBuf)

abbrev pub create : {PathBuf : Type 0} → Option PathBuf → PathBuf → CacheEntryImpl PathBuf
create cache_directory executable = record {
  cache_directory = cache_directory;
  executable = executable;
  installation = none;
  executables = [];
}

module _ {PathBuf : Type 0} (files : Files PathBuf) where
  -- `Path::is_file`
  unfoldable pub is_file : PathBuf → Bool
  is_file path = elim (files.metadata path) [ none ↦ false | some metadata ↦ metadata.is_file ]

  -- The closure of `verify_in_memory_cache`.
  unfoldable pub is_stale : FilePathWithMTimeCTime PathBuf → Bool
  is_stale (path, modified, created) = elim (files.metadata path) [
    | none ↦ true
    | some metadata ↦
        not metadata.is_file
        || (not (same_option metadata.modified (some modified)) || elim created [
          | none ↦ false
          | some time ↦ not (same_option metadata.created (some time))
        ])
  ]

  -- The closure of `get_cache_from_file`.
  unfoldable pub is_fresh : FilePathWithMTimeCTime PathBuf → Bool
  is_fresh (path, modified, created) = elim (files.metadata path) [
    | none ↦ false
    | some metadata ↦
        let mtime_valid = same_option metadata.modified (some modified) in
        metadata.is_file
        && (mtime_valid
            && elim created [ none ↦ true | some time ↦ same_option metadata.created (some time) ])
  ]

  -- A path with the times that it has now, if it has a time of modification.
  unfoldable pub stamp : PathBuf → Option (FilePathWithMTimeCTime PathBuf)
  stamp path =
      and_then (files.metadata path) (λ metadata.
        and_then metadata.modified (λ modified. some (path, modified, metadata.created)))

  unfoldable pub stamps : List PathBuf → List (FilePathWithMTimeCTime PathBuf)
  unfolding stamp
  stamps [] = []
  stamps (path ∷ paths) = elim (stamp path) [
    | none ↦ stamps paths
    | some time ↦ time ∷ stamps paths
  ]

abbrev pub all {ℓ} : {A : Type ℓ} → (A → Bool) → List A → Bool
all p [] = true
all p (x ∷ xs) = p x && all p xs

module _ {PathBuf : Type 0} ⦃o : Ord PathBuf⦄ where
  -- `known_executables` and then `metadata_files`.
  abbrev pub watched : ResolvedRInstallation PathBuf → List PathBuf
  watched installation = unwrap_or installation.known_executables [] ++ installation.metadata_files

  -- The files that `store` makes an installation depend on, with their times.
  unfoldable pub tracked :
      Files PathBuf → ResolvedRInstallation PathBuf → List (FilePathWithMTimeCTime PathBuf)
  unfolding stamps
  tracked files installation = sort_dedup (stamps files (watched installation))

module _ {PathBuf File : Type 0} ⦃o : Ord PathBuf⦄ ⦃e : Eq File⦄
    (cache_file : PathBuf → PathBuf → File) where
  -- The disk with one file changed.
  unfoldable pub put_file :
      File → Option (CacheFile PathBuf) → Disk PathBuf File → Disk PathBuf File
  put_file file content disk other = if e.beq file other then content else disk other

  unfoldable pub delete_cache_file :
      Files PathBuf → PathBuf → PathBuf → Disk PathBuf File → Disk PathBuf File
  unfolding put_file
  delete_cache_file files directory executable disk =
      if files.removes then put_file (cache_file directory executable) none disk else disk

  -- What the file gives, and the disk after it.
  unfoldable pub get_cache_from_file :
      Files PathBuf
      → PathBuf
      → PathBuf
      → Disk PathBuf File
      → Option (CacheFile PathBuf) × Disk PathBuf File
  unfolding is_fresh delete_cache_file
  get_cache_from_file files directory executable disk =
      elim (disk (cache_file directory executable)) [
        | none ↦ (none, disk)
        | some cache ↦
            if contains executable (unwrap_or cache.installation.known_executables [])
            then if all (is_fresh files) cache.executables
              then (some cache, disk)
              else (none, delete_cache_file files directory executable disk)
            else (none, disk)
      ]

  unfoldable pub store_cache_in_file :
      Files PathBuf → PathBuf → PathBuf → CacheFile PathBuf → Disk PathBuf File → Disk PathBuf File
  unfolding put_file
  store_cache_in_file files directory executable cache disk = elim files.writes [
    | refused ↦ disk
    | broken ↦ put_file (cache_file directory executable) none disk
    | complete ↦ put_file (cache_file directory executable) (some cache) disk
  ]

  unfoldable pub must_drop : Files PathBuf → CacheEntryImpl PathBuf → Bool
  unfolding is_stale is_file
  must_drop files self =
      any (is_stale files) self.executables || not (is_file files self.executable)

  -- `self` and the disk after it.
  unfoldable pub verify_in_memory_cache :
      Files PathBuf
      → CacheEntryImpl PathBuf
      → Disk PathBuf File
      → CacheEntryImpl PathBuf × Disk PathBuf File
  unfolding must_drop delete_cache_file
  verify_in_memory_cache files self disk =
      if must_drop files self
      then (
        record self { installation = none },
        elim self.cache_directory [
          | none ↦ disk
          | some directory ↦ delete_cache_file files directory self.executable disk
        ],
      )
      else (self, disk)

  -- The entry with what a cache file gave, if it gave something.
  unfoldable pub adopt :
      CacheEntryImpl PathBuf
      → Option (CacheFile PathBuf) × Disk PathBuf File
      → Option (ResolvedRInstallation PathBuf) × CacheEntryImpl PathBuf × Disk PathBuf File
  adopt self (none, disk) = (none, self, disk)
  adopt self (some cache, disk) = (
    some cache.installation,
    record self { installation = some cache.installation; executables = cache.executables },
    disk,
  )

  unfoldable pub get_verified :
      Files PathBuf
      → CacheEntryImpl PathBuf × Disk PathBuf File
      → Option (ResolvedRInstallation PathBuf) × CacheEntryImpl PathBuf × Disk PathBuf File
  unfolding get_cache_from_file adopt
  get_verified files (self, disk) = elim self.installation [
    | some installation ↦ (some installation, self, disk)
    | none ↦ elim self.cache_directory [
      | none ↦ (none, self, disk)
      | some directory ↦ adopt self (get_cache_from_file files directory self.executable disk)
    ]
  ]

  unfoldable pub get :
      Files PathBuf
      → CacheEntryImpl PathBuf
      → Disk PathBuf File
      → Option (ResolvedRInstallation PathBuf) × CacheEntryImpl PathBuf × Disk PathBuf File
  unfolding verify_in_memory_cache get_verified
  get files self disk = get_verified files (verify_in_memory_cache files self disk)

  unfoldable pub store :
      Files PathBuf
      → ResolvedRInstallation PathBuf
      → CacheEntryImpl PathBuf
      → Disk PathBuf File
      → CacheEntryImpl PathBuf × Disk PathBuf File
  unfolding tracked store_cache_in_file
  store files installation self disk =
      let executables = tracked files installation in
      (
        record self { installation = some installation; executables = executables },
        elim self.cache_directory [
          | none ↦ disk
          | some directory ↦
              store_cache_in_file files directory self.executable
                (record { installation = installation; executables = executables }) disk
        ],
      )

  unfoldable pub track_executables :
      Files PathBuf
      → List PathBuf
      → CacheEntryImpl PathBuf
      → Disk PathBuf File
      → CacheEntryImpl PathBuf × Disk PathBuf File
  unfolding verify_in_memory_cache stamps
  track_executables files executables self disk =
      let verified = verify_in_memory_cache files self disk in
      let known = map (λ x. x.0) verified.0.executables in
      let untracked = filter (λ path. not (contains path known)) executables in
      (
        record verified.0 { executables = verified.0.executables ++ stamps files untracked },
        verified.1,
      )
