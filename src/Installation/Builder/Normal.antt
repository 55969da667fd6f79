-- ===== src/Installation/Builder/Normal.antt =====
-- What `build` makes of any builder, and that building again changes nothing.
use r_environment_tools.Base.{
  ◌≡◌, ◌≢◌, refl, ap, ◌∙◌, inl, inr, true, false, List, [], ◌∷◌, ◌++◌, map, Option, none, some,
  Text, Ord, sort_dedup, contains, IsStrict, sort_dedup-IsStrict, sort_dedup-fixed,
  sort_dedup-absorb, contains-sort_dedup, contains-append, same_self, is_empty, or_else, unwrap_or,
  arith, Bool-cases,
}
use mathlib.Core.Option
use r_environment_tools.Paths.{PathLib, norm_case, normalize_paths}
use r_environment_tools.Installation.{
  RInstallationKind, DiscoverySource, source_order, locator, RInstallation,
}
use r_environment_tools.Installation.Builder.{
  RInstallationBuilder, build, non_empty, keep_non_empty, push_option, default_sources, is_located,
  overlay_label, infer_script_path, infer_orthogonal, generated_manager_display_name,
}

map-norm_case : {PathBuf : Type 0} (ps : List PathBuf) → map norm_case ps ≡ ps
unfolding norm_case
map-norm_case [] = refl
map-norm_case (p ∷ ps) = ap (λ r. p ∷ r) (map-norm_case ps)

pub normalize_paths_lem :
    {PathBuf : Type 0} ⦃o : Ord PathBuf⦄ (ps : List PathBuf) → normalize_paths ps ≡ sort_dedup ps
unfolding normalize_paths
normalize_paths_lem ps = ap sort_dedup (map-norm_case ps)

pub unwrap-non_empty {ℓ} : {A : Type ℓ} (xs : List A) → unwrap_or (non_empty xs) [] ≡ xs
unwrap-non_empty [] = refl
unwrap-non_empty (x ∷ xs) = refl

or_else_again {ℓ} : {A : Type ℓ} (a b : Option A) → or_else a (or_else a b) ≡ or_else a b
or_else_again none b = refl
or_else_again (some a) b = refl

or_else_twice {ℓ} : {A : Type ℓ} (a b : Option A) → or_else (or_else a b) b ≡ or_else a b
or_else_twice none none = refl
or_else_twice none (some b) = refl
or_else_twice (some a) b = refl

keep_non_empty_again {ℓ} :
    {A : Type ℓ} (v : Option (List A)) → keep_non_empty (keep_non_empty v) ≡ keep_non_empty v
keep_non_empty_again none = refl
keep_non_empty_again (some []) = refl
keep_non_empty_again (some (x ∷ xs)) = refl

pub non_empty-ne {ℓ} : {A : Type ℓ} (xs : List A) → non_empty xs ≢ some []
non_empty-ne [] = cc
non_empty-ne (x ∷ xs) = cc

keep_non_empty-ne {ℓ} : {A : Type ℓ} (v : Option (List A)) → keep_non_empty v ≢ some []
keep_non_empty-ne none = cc
keep_non_empty-ne (some xs) = non_empty-ne xs

norm_case_lem : {PathBuf : Type 0} (p : Option PathBuf) → Option.map norm_case p ≡ p
unfolding norm_case
norm_case_lem none = refl
norm_case_lem (some p) = refl

script_again :
    {PathBuf : Type 0} (s i : Option PathBuf)
    → Option.map norm_case (or_else (Option.map norm_case (or_else s i)) i)
      ≡ Option.map norm_case (or_else s i)
script_again s i =
    rw (norm_case_lem (or_else s i))
      (ap (Option.map norm_case) (or_else_twice s i) ∙ norm_case_lem _)

module _ {ℓ} {A : Type ℓ} ⦃o : Ord A⦄ where
  pub is_empty-sort_dedup : (x : A) (xs : List A) → is_empty (sort_dedup (x ∷ xs)) ≡ false
  unfolding contains
  is_empty-sort_dedup x xs = go (sort_dedup (x ∷ xs)) (contains-sort_dedup x (x ∷ xs))
    where
      go : (l : List A) → contains x l ≡ contains x (x ∷ xs) → is_empty l ≡ false
      go [] e = ground (arith, same_self x)
      go (y ∷ l) e = refl

  contains-push : (e : A) (xs : List A) → contains e (sort_dedup (xs ++ e ∷ [])) ≡ true
  unfolding contains
  contains-push e xs =
      rw (contains-sort_dedup e (xs ++ e ∷ []), contains-append e xs (e ∷ []))
        (ground (arith, same_self e))

  push_again :
      (xs : List A) (e : Option A)
      → sort_dedup (push_option (sort_dedup (push_option xs e)) e) ≡ sort_dedup (push_option xs e)
  push_again xs none = sort_dedup-fixed _ (sort_dedup-IsStrict xs)
  push_again xs (some e) =
      sort_dedup-absorb (sort_dedup (xs ++ e ∷ [])) (e ∷ []) (sort_dedup-IsStrict _)
        (contains-push e xs, tt)

module _ {PathBuf : Type 0} ⦃o : Ord PathBuf⦄ where
  known_again :
      (xs : List PathBuf) (e : Option PathBuf)
      → normalize_paths
          (push_option (unwrap_or (non_empty (normalize_paths (push_option xs e))) []) e)
        ≡ normalize_paths (push_option xs e)
  known_again xs e = simp (normalize_paths_lem, unwrap-non_empty) (push_again xs e)

  symlinks_again :
      (xs : List PathBuf)
      → normalize_paths (unwrap_or (non_empty (normalize_paths xs)) []) ≡ normalize_paths xs
  symlinks_again xs =
      simp (normalize_paths_lem, unwrap-non_empty) (sort_dedup-fixed _ (sort_dedup-IsStrict xs))

default_sources-IsStrict :
    (k : Option RInstallationKind) (ds : List DiscoverySource) → IsStrict (default_sources k ds)
unfolding default_sources
default_sources-IsStrict k ds = sort_dedup-IsStrict _

default_sources_again :
    (k : Option RInstallationKind) (ds : List DiscoverySource)
    → default_sources k (default_sources k ds) ≡ default_sources k ds
unfolding default_sources sort_dedup
default_sources_again k [] = elim (Bool-cases (is_located k)) [
  | inl h ↦ rw (h, default_sources) refl
  | inr h ↦ rw (h, default_sources) refl
]
default_sources_again k (x ∷ xs) =
    rw (is_empty-sort_dedup x xs) (sort_dedup-fixed _ (sort_dedup-IsStrict (x ∷ xs)))

located_sources :
    (k : Option RInstallationKind) → is_located k ≡ true → default_sources k [] ≡ locator ∷ []
unfolding default_sources sort_dedup
located_sources k h = rw (h, default_sources)

default_sources-ne :
    (k : Option RInstallationKind) (ds : List DiscoverySource)
    → is_located k ≡ true
    → default_sources k ds ≢ []
unfolding default_sources
default_sources-ne k [] h = λ e. cc (located_sources k h, e)
default_sources-ne k (x ∷ xs) h = λ e. cc (is_empty-sort_dedup x xs)

module _ (L : PathLib) where
  open L use {PathBuf, order}

  -- What every built installation has.
  pub record IsNormal (r : RInstallation PathBuf) : Type 0 where
    pub known_sorted : IsStrict ⦃o = order⦄ (unwrap_or r.known_executables [])
    pub known_some : r.known_executables ≢ some []
    pub executable_known :
        (e : PathBuf)
        → r.executable ≡ some e
        → contains ⦃o = order⦄ e (unwrap_or r.known_executables []) ≡ true
    pub symlinks_sorted : IsStrict ⦃o = order⦄ (unwrap_or r.symlinks [])
    pub symlinks_some : r.symlinks ≢ some []
    pub sources_sorted : IsStrict r.discovered_by
    pub sources_default : is_located r.kind ≡ true → r.discovered_by ≢ []
    pub variables_some : r.environment_variables ≢ some []
    pub labelled : (l : Text) → overlay_label r.rversions_overlay ≡ some l → r.display_name ≡ some l

  abbrev known : RInstallationBuilder PathBuf → List PathBuf
  known b = push_option (unwrap_or b.known_executables []) b.executable

  pub known_lem :
      (b : RInstallationBuilder PathBuf)
      → unwrap_or (build L b).known_executables [] ≡ sort_dedup ⦃o = order⦄ (known b)
  unfolding build
  known_lem b = unwrap-non_empty _ ∙ normalize_paths_lem ⦃o = order⦄ (known b)

  pub symlinks_lem :
      (b : RInstallationBuilder PathBuf)
      → unwrap_or (build L b).symlinks [] ≡ sort_dedup ⦃o = order⦄ (unwrap_or b.symlinks [])
  unfolding build
  symlinks_lem b = unwrap-non_empty _ ∙ normalize_paths_lem ⦃o = order⦄ (unwrap_or b.symlinks [])

  -- Building what was built gives it back.
  pub build_idempotent : (b : RInstallationBuilder PathBuf) → build L (build L b) ≡ build L b
  unfolding build
  build_idempotent b = λ i. record (build L b) {
    display_name =
        or_else_again
          (or_else (overlay_label b.rversions_overlay)
            (generated_manager_display_name b.kind b.version b.name))
          b.display_name i;
    known_executables =
        non_empty (known_again ⦃o = order⦄ (unwrap_or b.known_executables []) b.executable i);
    symlinks = non_empty (symlinks_again ⦃o = order⦄ (unwrap_or b.symlinks []) i);
    discovered_by = default_sources_again b.kind b.discovered_by i;
    script_path = script_again b.script_path (infer_script_path L b.executable b.home) i;
    environment_variables = keep_non_empty_again b.environment_variables i;
    orthogonal = or_else_twice b.orthogonal (infer_orthogonal L b.home) i;
  }

  -- A built installation is normal: its executables and symlinks are strictly increasing and its
  -- own executable is among them, none of its lists is present and empty, its sources are sorted,
  -- with at least one where its kind is known and not the global paths, and an overlay's label is
  -- its name.
  pub build-IsNormal : (b : RInstallationBuilder PathBuf) → IsNormal (build L b)
  unfolding build
  build-IsNormal b = record {
    known_sorted = rw (known_lem b) (sort_dedup-IsStrict ⦃o = order⦄ (known b));
    known_some = non_empty-ne _;
    executable_known = λ e h. rw (known_lem b, h) (contains-push ⦃o = order⦄ e _);
    symlinks_sorted = rw (symlinks_lem b) (sort_dedup-IsStrict ⦃o = order⦄ _);
    symlinks_some = non_empty-ne _;
    sources_sorted = default_sources-IsStrict b.kind b.discovered_by;
    sources_default = default_sources-ne b.kind b.discovered_by;
    variables_some = keep_non_empty-ne b.environment_variables;
    labelled = λ l h. rw h;
  }
