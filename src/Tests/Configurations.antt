-- ===== src/Tests/Configurations.antt =====
-- A configuration of two locators that panic on one executable.
use r_environment_tools.Base.{
  Text, ℕ, zero, suc, ◌≡◌, refl, ◌⊎◌, inl, inr, Bool, true, false, List, [], ◌∷◌, Option, none,
  some, Ord, leb, arith, Bool-cases,
}
use r_environment_tools.Configuration.{Configuration, Context, apply_configuration, expand, failed}
use r_environment_tools.Configuration.Rollback.{
  IsApplied, apply_configuration-IsApplied, IsRolledBack, apply_configuration-IsRolledBack,
}

-- A locator keeps the executable that it is given, and panics on 0.
abbrev keep : Option ℕ → Bool × Option ℕ
keep none = (false, none)
keep (some zero) = (true, some zero)
keep (some (suc n)) = (false, some (suc n))

abbrev configure : Configuration ℕ → Option ℕ → Bool × Option ℕ
configure config l = keep config.conda_executable

abbrev set_cache_directory : ℕ → ℕ → Bool × ℕ
set_cache_directory directory cache = (false, directory)

abbrev no_options : Configuration ℕ
no_options = record {
  workspace_directories = none;
  environment_directories = none;
  search_directories = none;
  executables = none;
  cache_directory = none;
  conda_executable = none;
  rig_executable = none;
}

abbrev bad_options : Configuration ℕ
bad_options = record no_options { conda_executable = some 0 }

abbrev context : Context ℕ (Option ℕ) ℕ
context = record {
  configuration = record { generation = 4; config = no_options };
  locators = none ∷ none ∷ [];
  cache = 9;
}

bad_options_fail :
    apply_configuration configure set_cache_directory bad_options context ≡ failed context
unfolding apply_configuration
bad_options_fail = refl

apply_configuration-IsApplied_example :
    IsApplied configure set_cache_directory no_options context
      (apply_configuration configure set_cache_directory no_options context)
apply_configuration-IsApplied_example =
    apply_configuration-IsApplied configure set_cache_directory no_options context (omega arith)

apply_configuration-IsRolledBack_example :
    IsRolledBack configure set_cache_directory context
      (apply_configuration configure set_cache_directory bad_options context)
apply_configuration-IsRolledBack_example =
    apply_configuration-IsRolledBack configure set_cache_directory bad_options context
      ((refl, λ next. refl), ((refl, λ next. refl), tt))

pub nat_total : (a b : ℕ) → (leb a b ≡ true) ⊎ (leb b a ≡ true)
nat_total a b = elim (Bool-cases (leb a b)) [ inl h ↦ inl h | inr h ↦ inr (ground arith) ]

pub nat_trans : (a b c : ℕ) → leb a b ≡ true → leb b c ≡ true → leb a c ≡ true
nat_trans a b c h k = ground arith

instance abbrev pub nat_order : Ord ℕ
nat_order = record { le = leb; total = nat_total; trans = nat_trans }

-- Paths are one character; the pattern 42, an asterisk, matches 43 and 44.
abbrev to_text : ℕ → Text
to_text c = c ∷ []

abbrev path_of : Text → ℕ
path_of [] = 0
path_of (c ∷ _) = c

abbrev glob : Text → List ℕ
glob _ = 43 ∷ 44 ∷ []

star_expands : expand to_text path_of glob (leb 3) (leb 3) (42 ∷ 2 ∷ []) ≡ 43 ∷ 44 ∷ 2 ∷ []
unfolding expand
star_expands = refl
