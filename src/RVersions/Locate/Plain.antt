-- ===== src/RVersions/Locate/Plain.antt =====
-- Which r-versions entries identify an executable, in crates/ret-rversions/src/lib.rs.
use r_environment_tools.Base.{
  ◌≡◌, refl, sym, ap, subst, and_parts, ◌∙◌, inl, inr, Bool, true, false, not, ◌&&◌, ◌⊎◌, same,
  contains, unwrap_or, All, All-imp, arith, List, [], ◌∷◌, ◌++◌, Option, none, some, Text, find,
  is_some, and_then, Bool-cases, if◌then◌else◌,
}
use mathlib.Core.Option
use r_environment_tools.Base.Filters.{
  map-some, find-hit, find-miss, both_false, not_some, is_some-map, or_parts,
}
use r_environment_tools.Paths.{PathLib, norm_case}
use r_environment_tools.Installation.{RInstallation}
use r_environment_tools.Installation.Builder.{build, keep_non_empty}
use r_environment_tools.Installation.Builder.Normal.{IsNormal, build-IsNormal}
use r_environment_tools.ProbeCache.{ResolvedRInstallation}
use r_environment_tools.Identify.{REnv}
use r_environment_tools.RVersions.{RVersionsEntry, combine_startup_command}
use r_environment_tools.RVersions.Locate.{
  ResolvedRVersionsEntry, r_libs, module_command, entry_executable, resolve_found, resolve_entry,
  load_entries, build_installation_from_env, is_plain, matches, try_from,
}

module _ (L : PathLib) where
  open L use {PathBuf, order}

  -- An entry that sets nothing up.
  abbrev pub NeedsNothing : RVersionsEntry PathBuf → Type 0
  NeedsNothing entry = (entry.named_module ≡ none) × (entry.script ≡ none) × (entry.library ≡ none)

  module _ (modulecmd : Option PathBuf) (find_executable : PathBuf → Option PathBuf)
      (resolve : PathBuf → Option (ResolvedRInstallation PathBuf))
      (resolve_with_startup : Option PathBuf → Text → Option (ResolvedRInstallation PathBuf)) where
    plain_script :
        (command script : Option Text)
        → combine_startup_command command script ≡ none
        → (command ≡ none) × (script ≡ none)
    unfolding combine_startup_command
    plain_script none none h = (refl, refl)
    plain_script none (some s) h = cc
    plain_script (some c) none h = cc
    plain_script (some c) (some s) h = cc

    found-plain :
        (entry : RVersionsEntry PathBuf) (command : Option Text) (executable : Option PathBuf)
        (r : ResolvedRVersionsEntry PathBuf)
        → resolve_found L resolve resolve_with_startup entry command executable ≡ some r
        → is_plain L r ≡ true
        → (command ≡ none) × (entry.script ≡ none) × (entry.library ≡ none)
    unfolding resolve_found is_plain
    found-plain entry command executable r h p =
        let made = map-some _ _ r h in
        let plain =
          both_false (is_some (combine_startup_command command entry.script))
            (is_some (Option.map r_libs entry.library)) (ap (is_plain L) (sym made.1) ∙ p) in
        let scripts =
          plain_script command entry.script
            (not_some (combine_startup_command command entry.script) plain.0) in
        (
          scripts.0,
          scripts.1,
          not_some entry.library (sym (is_some-map r_libs entry.library) ∙ plain.1),
        )

    resolve_entry-NeedsNothing :
        (entry : RVersionsEntry PathBuf) (r : ResolvedRVersionsEntry PathBuf)
        → resolve_entry L modulecmd find_executable resolve resolve_with_startup entry ≡ some r
        → is_plain L r ≡ true
        → NeedsNothing entry
    unfolding resolve_entry
    resolve_entry-NeedsNothing entry r h p =
        go entry.named_module (module_command L modulecmd entry.named_module)
          (entry_executable L find_executable entry.path) h
      where
        go :
            (named command : Option Text) (o : Option (Option PathBuf))
            → (if is_some named && not (is_some command)
                then none
                else and_then o (resolve_found L resolve resolve_with_startup entry command))
              ≡ some r
            → (named ≡ none) × (entry.script ≡ none) × (entry.library ≡ none)
        go none command none k = cc
        go (some name) none o k = cc
        go (some name) (some command) none k = cc
        go none command (some executable) k =
            let rest = found-plain entry command executable r k p in (refl, rest.1, rest.2)
        go (some name) (some command) (some executable) k =
            cc ((found-plain entry (some command) executable r k p).0)

    -- Nothing that an entry resolves to passes the test.
    abbrev Misses : (ResolvedRVersionsEntry PathBuf → Bool) → RVersionsEntry PathBuf → Type 0
    Misses p entry =
        (x : ResolvedRVersionsEntry PathBuf)
        → resolve_entry L modulecmd find_executable resolve resolve_with_startup entry ≡ some x
        → p x ≡ false

    -- The first entry of the list that resolves to something that passes the test.
    abbrev Comes :
        (ResolvedRVersionsEntry PathBuf → Bool)
        → List (RVersionsEntry PathBuf)
        → ResolvedRVersionsEntry PathBuf
        → Type 0
    Comes p entries r =
        (entry : RVersionsEntry PathBuf) × (before : List (RVersionsEntry PathBuf)) × (after : List
          (RVersionsEntry PathBuf))
        × (entries ≡ before ++ entry ∷ after)
        × (resolve_entry L modulecmd find_executable resolve resolve_with_startup entry ≡ some r)
        × All (Misses p) before

    later-Comes :
        (p : ResolvedRVersionsEntry PathBuf → Bool) (entry : RVersionsEntry PathBuf)
        (entries : List (RVersionsEntry PathBuf)) (r : ResolvedRVersionsEntry PathBuf)
        → Misses p entry
        → Comes p entries r × (p r ≡ true)
        → Comes p (entry ∷ entries) r × (p r ≡ true)
    later-Comes p entry entries r m (c, k) =
        ((c.0, entry ∷ c.1, c.2, ap (λ es. entry ∷ es) c.3, c.4, (m, c.5)), k)

    step-Comes :
        (p : ResolvedRVersionsEntry PathBuf → Bool) (entry : RVersionsEntry PathBuf)
        (entries : List (RVersionsEntry PathBuf)) (rest : List (ResolvedRVersionsEntry PathBuf))
        (r : ResolvedRVersionsEntry PathBuf) (o : Option (ResolvedRVersionsEntry PathBuf))
        → (find p rest ≡ some r → Comes p entries r × (p r ≡ true))
        → resolve_entry L modulecmd find_executable resolve resolve_with_startup entry ≡ o
        → find p (elim o as (λ _. List (ResolvedRVersionsEntry PathBuf)) [
          | none ↦ rest
          | some x ↦ x ∷ rest
        ])
          ≡ some r
        → Comes p (entry ∷ entries) r × (p r ≡ true)
    step-Comes p entry entries rest r none ih n h = later-Comes p entry entries r (λ x k. cc) (ih h)
    step-Comes p entry entries rest r (some x) ih n h = elim (Bool-cases (p x)) [
      | inl k ↦
          let e : x ≡ r = find-hit p x rest r k h in
          ((entry, [], entries, refl, n ∙ ap some e, tt), ap p (sym e) ∙ k)
      | inr k ↦
          later-Comes p entry entries r (λ y m. let e : x ≡ y = cc in ap p (sym e) ∙ k)
            (ih (find-miss p x rest r k h))
    ]

    find-Comes :
        (p : ResolvedRVersionsEntry PathBuf → Bool) (entries : List (RVersionsEntry PathBuf))
        (r : ResolvedRVersionsEntry PathBuf)
        → find p (
            load_entries L
              (resolve_entry L modulecmd find_executable resolve resolve_with_startup)
              entries)
          ≡ some r
        → Comes p entries r × (p r ≡ true)
    unfolding load_entries
    find-Comes p [] r h = cc
    find-Comes p (entry ∷ entries) r h =
        step-Comes p entry entries
          (load_entries L (resolve_entry L modulecmd find_executable resolve resolve_with_startup)
            entries)
          r (resolve_entry L modulecmd find_executable resolve resolve_with_startup entry)
          (find-Comes p entries r) refl h

    module _ (looks_like_module_path : PathBuf → Bool) where
      plain-fields :
          (env : REnv PathBuf) (r : ResolvedRVersionsEntry PathBuf)
          → is_plain L r ≡ true
          → let installation = build_installation_from_env L looks_like_module_path env r in
            (installation.startup_command ≡ none)
            × (installation.environment_variables ≡ none)
            × (installation.executable ≡ some env.executable)
      unfolding build_installation_from_env build is_plain norm_case
      plain-fields env r p =
          let plain = both_false (is_some r.startup_command) (is_some r.environment_variables) p in
          (
            not_some r.startup_command plain.0,
            ap keep_non_empty (not_some r.environment_variables plain.1),
            refl,
          )

      built-IsNormal :
          (env : REnv PathBuf) (r : ResolvedRVersionsEntry PathBuf)
          → IsNormal L (build_installation_from_env L looks_like_module_path env r)
      unfolding build_installation_from_env
      built-IsNormal env r = build-IsNormal L _

      -- An entry that R was found for, which sets nothing up and whose executable, or one of whose
      -- known executables, is the given one.
      abbrev IsFor : REnv PathBuf → ResolvedRVersionsEntry PathBuf → Type 0
      IsFor env r =
          (r.startup_command ≡ none)
          × (r.environment_variables ≡ none)
          × ((same ⦃o = order⦄ r.resolved.executable env.executable ≡ true)
              ⊎ (contains ⦃o = order⦄ env.executable (unwrap_or r.resolved.known_executables [])
                  ≡ true))

      -- What the locator makes of the first such entry, and that there is none before it.
      abbrev pub IsPlain :
          List (RVersionsEntry PathBuf) → REnv PathBuf → RInstallation PathBuf → Type 0
      IsPlain entries env installation =
          (entry : RVersionsEntry PathBuf) × (before : List (RVersionsEntry PathBuf))
          × (after : List (RVersionsEntry PathBuf)) × (r : ResolvedRVersionsEntry PathBuf)
          × (entries ≡ before ++ entry ∷ after)
          × (resolve_entry L modulecmd find_executable resolve resolve_with_startup entry ≡ some r)
          × IsFor env r
          × All
              (λ other.
                (x : ResolvedRVersionsEntry PathBuf)
                → resolve_entry L modulecmd find_executable resolve resolve_with_startup other
                  ≡ some x
                → ¬ IsFor env x)
              before
          × (installation ≡ build_installation_from_env L looks_like_module_path env r)
          × NeedsNothing entry
          × (installation.startup_command ≡ none)
          × (installation.environment_variables ≡ none)
          × (installation.executable ≡ some env.executable)
          × IsNormal L installation

      matches-IsFor :
          (env : REnv PathBuf) (r : ResolvedRVersionsEntry PathBuf)
          → matches L looks_like_module_path env r ≡ true
          → IsFor env r
      unfolding matches is_plain
      matches-IsFor env r m =
          let parts = and_parts (is_plain L r) _ m in
          let plain =
            both_false (is_some r.startup_command) (is_some r.environment_variables) parts.0 in
          (
            not_some r.startup_command plain.0,
            not_some r.environment_variables plain.1,
            or_parts _ _ parts.1,
          )

      misses-IsFor :
          (env : REnv PathBuf) (r : ResolvedRVersionsEntry PathBuf)
          → matches L looks_like_module_path env r ≡ false
          → ¬ IsFor env r
      unfolding matches is_plain
      misses-IsFor env r m (c, v, inl k) = ground (arith, ap is_some c, ap is_some v)
      misses-IsFor env r m (c, v, inr k) = ground (arith, ap is_some c, ap is_some v)

      matched-IsPlain :
          (entries : List (RVersionsEntry PathBuf)) (env : REnv PathBuf)
          (r : ResolvedRVersionsEntry PathBuf)
          → Comes (matches L looks_like_module_path env) entries r
            × (matches L looks_like_module_path env r ≡ true)
          → IsPlain entries env (build_installation_from_env L looks_like_module_path env r)
      unfolding matches
      matched-IsPlain entries env r (c, m) =
          let plain = (and_parts (is_plain L r) _ m).0 in
          let fields = plain-fields env r plain in
          (
            c.0,
            c.1,
            c.2,
            r,
            c.3,
            c.4,
            matches-IsFor env r m,
            All-imp _ _ c.1 (λ other n x e. misses-IsFor env x (n x e)) c.5,
            refl,
            resolve_entry-NeedsNothing c.0 r c.4 plain,
            fields.0,
            fields.1,
            fields.2,
            built-IsNormal env r,
          )

      -- An installation that the locator gives for an executable is what it makes of the first
      -- entry of the r-versions file whose R is the executable, or has it among its known
      -- executables, and needs no startup command and no environment variables; no entry before it
      -- is such. The entry has no module, no script and no library; the installation is normal,
      -- has the executable, and neither a startup command nor environment variables.
      pub try_from-IsPlain :
          (entries : List (RVersionsEntry PathBuf)) (env : REnv PathBuf)
          (installation : RInstallation PathBuf)
          → try_from L looks_like_module_path
              (load_entries L
                (resolve_entry L modulecmd find_executable resolve resolve_with_startup)
                entries)
              env
            ≡ some installation
          → IsPlain entries env installation
      unfolding try_from
      try_from-IsPlain entries env installation h =
          go
            (find (matches L looks_like_module_path env) (
              load_entries L
                (resolve_entry L modulecmd find_executable resolve resolve_with_startup) entries))
            (find-Comes (matches L looks_like_module_path env) entries) h
        where
          go :
              (o : Option (ResolvedRVersionsEntry PathBuf))
              → ((r : ResolvedRVersionsEntry PathBuf)
                  → o ≡ some r
                  → Comes (matches L looks_like_module_path env) entries r
                    × (matches L looks_like_module_path env r ≡ true))
              → Option.map (build_installation_from_env L looks_like_module_path env) o
                ≡ some installation
              → IsPlain entries env installation
          go none c k = cc
          go (some r) c k =
              let e : build_installation_from_env L looks_like_module_path env r ≡ installation =
                cc in
              subst (IsPlain entries env) e (matched-IsPlain entries env r (c r refl))
