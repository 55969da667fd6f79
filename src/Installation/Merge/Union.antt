-- ===== src/Installation/Merge/Union.antt =====
-- What a merge keeps of the two reports, and which of them it prefers.
use r_environment_tools.Base.{
  ℕ, ◌+◌, ◌*◌, ◌≤◌, ◌≡◌, refl, ap, subst, ◌∙◌, inl, inr, Bool, true, false, ◌&&◌, ◌||◌, List, [],
  ◌∷◌, ◌++◌, Option, none, some, Ord, same, ◌⊎◌, arith, ltb, ◌==◌, filter, length, contains,
  contains-append, contains-sort_dedup, sort, dedup, sort_dedup, sort_dedup-fixed,
  sort_dedup-IsStrict, or_else, unwrap_or, if◌then◌else◌, arith, Bool-cases,
}
use mathlib.Core.Option
use r_environment_tools.Paths.{PathLib, norm_case, normalize_paths}
use r_environment_tools.Installation.{
  RInstallation, RInstallationKind, DiscoverySource, LocatorMetadata, priority, source_order,
}
use r_environment_tools.Installation.Builder.{build, push_option, default_sources, non_empty}
use r_environment_tools.Installation.Builder.Normal.{
  IsNormal, build-IsNormal, known_lem, symlinks_lem, normalize_paths_lem,
}
use r_environment_tools.Installation.Merge.{
  installation_priority, kind_rank, kind_specificity, installation_completeness, present_fields,
  preferred_installation, select_locator_metadata, merged_builder, merge_installations,
}

length-filter_le : (bs : List Bool) → length (filter (λ present. present) bs) ≤ length bs
length-filter_le [] = omega arith
length-filter_le (true ∷ bs) = omega (arith, length-filter_le bs)
length-filter_le (false ∷ bs) = omega (arith, length-filter_le bs)

kind_rank_le : (k : Option RInstallationKind) → kind_rank k ≤ 4
kind_rank_le none = omega arith
kind_rank_le (some RInstallationKind.global_paths) = omega arith
kind_rank_le (some RInstallationKind.linux_global) = omega arith
kind_rank_le (some RInstallationKind.environment_module) = omega arith
kind_rank_le (some RInstallationKind.chocolatey) = omega arith
kind_rank_le (some RInstallationKind.conda) = omega arith
kind_rank_le (some RInstallationKind.guix) = omega arith
kind_rank_le (some RInstallationKind.homebrew) = omega arith
kind_rank_le (some RInstallationKind.mac_framework) = omega arith
kind_rank_le (some RInstallationKind.mac_ports) = omega arith
kind_rank_le (some RInstallationKind.nix) = omega arith
kind_rank_le (some RInstallationKind.pixi) = omega arith
kind_rank_le (some RInstallationKind.rig) = omega arith
kind_rank_le (some RInstallationKind.scoop) = omega arith
kind_rank_le (some RInstallationKind.spack) = omega arith
kind_rank_le (some RInstallationKind.windows_hq) = omega arith
kind_rank_le (some RInstallationKind.windows_registry) = omega arith

lexicographic :
    (p q k l c d : ℕ)
    → k ≤ 4
    → l ≤ 4
    → c ≤ 17
    → d ≤ 17
    → (ltb p q || ((q == p) && ltb k l) || ((q == p) && (l == k) && ltb c d))
      ≡ ltb (p * 90 + k * 18 + c) (q * 90 + l * 18 + d)
lexicographic p q k l c d = ground arith

ltb_le : (a b : ℕ) → ltb a b ≡ true → a ≤ b
ltb_le a b h = ground arith

ltb_ge : (a b : ℕ) → ltb a b ≡ false → b ≤ a
ltb_ge a b h = ground arith

module _ {PathBuf : Type 0} where
  -- One number for the three that the source compares in turn.
  abbrev pub rank : RInstallation PathBuf → ℕ
  rank r = installation_priority r * 90 + kind_specificity r * 18 + installation_completeness r

  -- The preferred installation is the one of larger rank (of a number made of its metadata's
  -- priority, then its kind's specificity, then its completeness), the existing one on a tie, and
  -- the other is the second.
  pub preferred_installation-IsLargest :
      (existing new : RInstallation PathBuf)
      → preferred_installation existing new
        ≡ (if ltb (rank existing) (rank new) then (new, existing) else (existing, new))
  unfolding preferred_installation
  preferred_installation-IsLargest existing new =
      ap (λ t. if t then (new, existing) else (existing, new))
        (lexicographic _ _ _ _ _ _ (kind_rank_le existing.kind) (kind_rank_le new.kind)
          (length-filter_le (present_fields existing)) (length-filter_le (present_fields new)))

  abbrev pub metadata_priority : Option (LocatorMetadata PathBuf) → ℕ
  metadata_priority m = unwrap_or (Option.map priority m) 0

  -- The metadata that a merge selects is one of the two and has the larger priority of both.
  pub select_locator_metadata-IsLargest :
      (existing new : Option (LocatorMetadata PathBuf))
      → ((select_locator_metadata existing new ≡ existing)
          ⊎ (select_locator_metadata existing new ≡ new))
        × (metadata_priority existing ≤ metadata_priority (select_locator_metadata existing new))
        × (metadata_priority new ≤ metadata_priority (select_locator_metadata existing new))
  unfolding select_locator_metadata
  select_locator_metadata-IsLargest none none = (inl refl, omega arith, omega arith)
  select_locator_metadata-IsLargest none (some new) = (inr refl, omega arith, omega arith)
  select_locator_metadata-IsLargest (some existing) none = (inl refl, omega arith, omega arith)
  select_locator_metadata-IsLargest (some existing) (some new) =
      elim (Bool-cases (ltb (priority existing) (priority new))) [
        | inl h ↦ rw (h) (inr refl, ltb_le (priority existing) (priority new) h, omega arith)
        | inr h ↦ rw (h) (inl refl, omega arith, ltb_ge (priority existing) (priority new) h)
      ]

module _ {A : Type 0} ⦃o : Ord A⦄ where
  same-contains :
      (a b : A) (xs : List A) → same a b ≡ true → contains b xs ≡ true → contains a xs ≡ true
  unfolding contains
  same-contains a b [] h k = cc
  same-contains a b (x ∷ xs) h k =
      ground (arith, same-contains a b xs h, o.trans a b x, o.trans x b a)

  contains-again :
      (a x : A) (xs : List A)
      → contains x xs ≡ true
      → (contains a xs || contains a (x ∷ [])) ≡ contains a xs
  unfolding contains
  contains-again a x xs k = ground (arith, same-contains a x xs, k)

  -- An element that is there already is not new when it is pushed.
  contains-push_option :
      (a : A) (xs : List A) (e : Option A)
      → ((x : A) → e ≡ some x → contains x xs ≡ true)
      → contains a (push_option xs e) ≡ contains a xs
  contains-push_option a xs none h = refl
  contains-push_option a xs (some x) h =
      rw (contains-append a xs (x ∷ [])) (contains-again a x xs (h x refl))

  normalized_known :
      (xs : List A)
      → unwrap_or (Option.map normalize_paths (non_empty (sort_dedup xs))) [] ≡ sort_dedup xs
  unfolding normalize_paths sort_dedup sort dedup
  normalized_known xs = go (sort_dedup xs) (sort_dedup-fixed _ (sort_dedup-IsStrict xs))
    where
      go :
          (l : List A)
          → sort_dedup l ≡ l
          → unwrap_or (Option.map normalize_paths (non_empty l)) [] ≡ l
      go [] e = refl
      go (x ∷ l) e = normalize_paths_lem (x ∷ l) ∙ e

default_sources-contains :
    (s : DiscoverySource) (k : Option RInstallationKind) (ds : List DiscoverySource)
    → contains s ds ≡ true
    → contains s (default_sources k ds) ≡ true
unfolding default_sources contains
default_sources-contains s k [] h = cc
default_sources-contains s k (d ∷ ds) h = rw (contains-sort_dedup s (d ∷ ds)) h

swap {ℓ} : {A B : Type ℓ} → A ⊎ B → B ⊎ A
swap (inl a) = inr a
swap (inr b) = inl b

module _ (L : PathLib) where
  open L use {PathBuf, order}

  -- What a merge of two normal installations has: the executables and the symlinks of both and no
  -- others, and every discovery source of both.
  pub record IsUnion (existing new merged : RInstallation PathBuf) : Type 0 where
    pub executables :
        (p : PathBuf)
        → contains ⦃o = order⦄ p (unwrap_or merged.known_executables []) ≡ (
            contains ⦃o = order⦄ p (unwrap_or existing.known_executables [])
            || contains ⦃o = order⦄ p (unwrap_or new.known_executables []))
    pub links :
        (p : PathBuf)
        → contains ⦃o = order⦄ p (unwrap_or merged.symlinks []) ≡ (
            contains ⦃o = order⦄ p (unwrap_or existing.symlinks [])
            || contains ⦃o = order⦄ p (unwrap_or new.symlinks []))
    pub sources :
        (s : DiscoverySource)
        → (contains s existing.discovered_by || contains s new.discovered_by) ≡ true
        → contains s merged.discovered_by ≡ true

  abbrev all_executables : RInstallation PathBuf → RInstallation PathBuf → List PathBuf
  all_executables existing new =
      unwrap_or existing.known_executables [] ++ unwrap_or new.known_executables []

  merged_known :
      (existing new : RInstallation PathBuf)
      → unwrap_or (merged_builder L existing new).known_executables []
        ≡ sort_dedup ⦃o = order⦄ (all_executables existing new)
  unfolding merged_builder
  merged_known existing new = normalized_known ⦃o = order⦄ (all_executables existing new)

  merged_links :
      (existing new : RInstallation PathBuf)
      → unwrap_or (merged_builder L existing new).symlinks []
        ≡ sort_dedup ⦃o = order⦄ (unwrap_or existing.symlinks [] ++ unwrap_or new.symlinks [])
  unfolding merged_builder
  merged_links existing new =
      normalized_known ⦃o = order⦄ (unwrap_or existing.symlinks [] ++ unwrap_or new.symlinks [])

  contains-merged_known :
      (p : PathBuf) (existing new : RInstallation PathBuf)
      → contains ⦃o = order⦄ p (unwrap_or (merged_builder L existing new).known_executables []) ≡ (
          contains ⦃o = order⦄ p (unwrap_or existing.known_executables [])
          || contains ⦃o = order⦄ p (unwrap_or new.known_executables []))
  contains-merged_known p existing new =
      rw
        (
          merged_known existing new,
          contains-sort_dedup ⦃o = order⦄ p (all_executables existing new),
        )
        (contains-append ⦃o = order⦄ p _ _)

  -- The merged installation's own executable is one of the two installations'.
  either_executable :
      (x : PathBuf) (a b : Option PathBuf)
      → Option.map norm_case (or_else a b) ≡ some x
      → (a ≡ some x) ⊎ (b ≡ some x)
  unfolding norm_case
  either_executable x none none h = cc
  either_executable x none (some b) h = inr h
  either_executable x (some a) b h = inl h

  merged_executable :
      (x : PathBuf) (existing new : RInstallation PathBuf)
      → (merged_builder L existing new).executable ≡ some x
      → (existing.executable ≡ some x) ⊎ (new.executable ≡ some x)
  unfolding merged_builder preferred_installation
  merged_executable x existing new h = elim (Bool-cases (ltb (rank existing) (rank new))) [
    | inl t ↦ swap (
        either_executable x new.executable existing.executable (
          subst (λ c. Option.map norm_case (or_else c.0.executable c.1.executable) ≡ some x)
            (chosen t) h))
    | inr t ↦ either_executable x existing.executable new.executable (
        subst (λ c. Option.map norm_case (or_else c.0.executable c.1.executable) ≡ some x)
          (chosen t) h)
  ]
    where
      chosen :
          {t : Bool}
          → ltb (rank existing) (rank new) ≡ t
          → preferred_installation existing new ≡ (if t then (new, existing) else (existing, new))
      chosen t =
          preferred_installation-IsLargest existing new
          ∙ ap (λ b. if b then (new, existing) else (existing, new)) t

  merged_discovered :
      (existing new : RInstallation PathBuf)
      → (merged_builder L existing new).discovered_by
        ≡ sort_dedup (existing.discovered_by ++ new.discovered_by)
  unfolding merged_builder
  merged_discovered existing new =
      sort_dedup-fixed _ (sort_dedup-IsStrict (existing.discovered_by ++ new.discovered_by))

  built_sources :
      (b : RInstallation PathBuf)
      → (build L b).discovered_by ≡ default_sources b.kind b.discovered_by
  unfolding build
  built_sources b = refl

  merged_sources :
      (s : DiscoverySource) (existing new : RInstallation PathBuf)
      → (contains s existing.discovered_by || contains s new.discovered_by) ≡ true
      → contains s (merged_builder L existing new).discovered_by ≡ true
  merged_sources s existing new h =
      rw
        (
          merged_discovered existing new,
          contains-sort_dedup s (existing.discovered_by ++ new.discovered_by),
          contains-append s existing.discovered_by new.discovered_by,
        )
        h

  -- A merged installation is normal, and has the executables and the symlinks of both
  -- installations and no others, and every discovery source of both, where both are normal.
  pub merge_installations-IsUnion :
      (existing new : RInstallation PathBuf)
      → IsNormal L existing
      → IsNormal L new
      → IsNormal L (merge_installations L existing new)
        × IsUnion existing new (merge_installations L existing new)
  unfolding merge_installations
  merge_installations-IsUnion existing new n m = (
    build-IsNormal L (merged_builder L existing new),
    record {
      executables = λ p.
          rw (known_lem L (merged_builder L existing new), contains-sort_dedup ⦃o = order⦄ p _)
            (contains-push_option ⦃o = order⦄ p _ _
                (λ x h. own x (merged_executable x existing new h))
              ∙ contains-merged_known p existing new);
      links = λ p.
          rw
            (
              symlinks_lem L (merged_builder L existing new),
              contains-sort_dedup ⦃o = order⦄ p _,
              merged_links existing new,
              contains-sort_dedup ⦃o = order⦄ p _,
            )
            (contains-append ⦃o = order⦄ p _ _);
      sources = λ s h. rw (built_sources (merged_builder L existing new)) (
          default_sources-contains s (merged_builder L existing new).kind _
            (merged_sources s existing new h));
    },
  )
    where
      own :
          (x : PathBuf)
          → (existing.executable ≡ some x) ⊎ (new.executable ≡ some x)
          → contains ⦃o = order⦄ x (unwrap_or (merged_builder L existing new).known_executables [])
            ≡ true
      own x (inl e) = rw (contains-merged_known x existing new, n.executable_known x e) refl
      own x (inr e) =
          rw (contains-merged_known x existing new, m.executable_known x e) (ground arith)
