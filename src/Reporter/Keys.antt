-- ===== src/Reporter/Keys.antt =====
-- Equality of `InstallationKey`, which is derived in crates/ret-reporter/src/installation.rs.
use r_environment_tools.Base.{
  ◌≡◌, refl, ap, subst, ◌↔◌, Bool, true, ◌&&◌, Text, Eq, text_eq, option_eq, list_eq, same_text,
  same_option, same_option_iff, same_list, same_list_iff, and_parts, arith, same_text_iff,
}
use r_environment_tools.Reporter.{InstallationKey}

instance abbrev text_equality : Eq Text
text_equality = text_eq

same_pair : Text × Text → Text × Text → Bool
same_pair a b = same_text a.0 b.0 && same_text a.1 b.1

same_pair_iff : (a b : Text × Text) → (same_pair a b ≡ true) ↔ (a ≡ b)
unfolding same_pair
same_pair_iff (a, b) (c, d) = (
  λ h. λ i.
      ((same_text_iff a c).0 (and_parts _ _ h).0 i, (same_text_iff b d).0 (and_parts _ _ h).1 i),
  λ h.
      ground
        (arith, (same_text_iff a c).1 (ap (λ p. p.0) h), (same_text_iff b d).1 (ap (λ p. p.1) h)),
)

instance abbrev pair_eq : Eq (Text × Text)
pair_eq = record { beq = same_pair; beq_iff = same_pair_iff }

module _ {PathBuf : Type 0} ⦃d : Eq PathBuf⦄ where
  pub same_key : InstallationKey PathBuf → InstallationKey PathBuf → Bool
  same_key a b =
      same_option a.home b.home
      && (same_option a.launch_directory b.launch_directory
          && (same_option a.launcher_name b.launcher_name
              && (same_option a.architecture b.architecture
                  && (same_option a.startup b.startup && same_list a.environment b.environment))))

  pub same_key_iff : (a b : InstallationKey PathBuf) → (same_key a b ≡ true) ↔ (a ≡ b)
  unfolding same_key
  same_key_iff a b = (
    λ h.
        let p = and_parts _ _ h in
        let q = and_parts _ _ p.1 in
        let r = and_parts _ _ q.1 in
        let s = and_parts _ _ r.1 in
        let t = and_parts _ _ s.1 in
        λ i. record {
          home = (same_option_iff a.home b.home).0 p.0 i;
          launch_directory = (same_option_iff a.launch_directory b.launch_directory).0 q.0 i;
          launcher_name = (same_option_iff a.launcher_name b.launcher_name).0 r.0 i;
          architecture = (same_option_iff a.architecture b.architecture).0 s.0 i;
          startup = (same_option_iff a.startup b.startup).0 t.0 i;
          environment = (same_list_iff a.environment b.environment).0 t.1 i;
        },
    λ h.
        subst (λ c. same_key a c ≡ true) h
          (ground (
            arith,
            (same_option_iff a.home a.home).1 refl,
            (same_option_iff a.launch_directory a.launch_directory).1 refl,
            (same_option_iff a.launcher_name a.launcher_name).1 refl,
            (same_option_iff a.architecture a.architecture).1 refl,
            (same_option_iff a.startup a.startup).1 refl,
            (same_list_iff a.environment a.environment).1 refl,
          )),
  )

  instance abbrev pub key_eq : Eq (InstallationKey PathBuf)
  key_eq = record { beq = same_key; beq_iff = same_key_iff }
