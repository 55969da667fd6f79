-- ===== src/Reporter/Cache.antt =====
-- What the cache holds and what it passes on, after any sequence of reports.
use r_environment_tools.Base.{
  ◌≡◌, refl, sym, ap, subst, any, ◌∙◌, ◌⊎◌, inl, inr, Bool, true, false, ◌||◌, List, [], ◌∷◌, ◌++◌,
  map, map-append, append_assoc, Option, none, some, filter, Eq, same_option, option_eq, beq_self,
  if◌then◌else◌, arith, Bool-cases, Option-cases, append-nil,
}
use r_environment_tools.Installation.{RInstallation}
use r_environment_tools.Tables.{Table, lookup, store}
use r_environment_tools.Tables.Laws.{
  lookup-store, keys_of, IsDistinct, store-IsDistinct, keys_of-store_new, keys_of-store_known,
  any-keys_of,
}
use r_environment_tools.Reporter.{CacheReporter, report_under, report_installation, report_all}

module _ {PathBuf Key : Type 0} ⦃e : Eq Key⦄ (key_of : RInstallation PathBuf → Option Key)
    (merge : RInstallation PathBuf → RInstallation PathBuf → RInstallation PathBuf) where
  -- The merge of a sequence of reports, from the left.
  abbrev pub merged :
      Option (RInstallation PathBuf) → List (RInstallation PathBuf) → Option (RInstallation PathBuf)
  merged known [] = known
  merged none (r ∷ rs) = merged (some r) rs
  merged (some known) (r ∷ rs) = merged (some (merge known r)) rs

  abbrev pub has_key : Key → RInstallation PathBuf → Bool
  has_key k r = same_option (key_of r) (some k)

  -- One report: its merge is what its key has, and no other key changes.
  settle :
      (k l : Key) (r x : RInstallation PathBuf) (table : Table Key (RInstallation PathBuf))
      → merged (lookup l table) (r ∷ []) ≡ some x
      → (if e.beq k l then some x else lookup k table)
        ≡ (if e.beq l k then merged (lookup k table) (r ∷ []) else lookup k table)
  settle k l r x table h = elim (Bool-cases (e.beq k l)) [
    | inl t ↦
        rw (t, ap (λ m. e.beq m k) (sym ((e.beq_iff k l).0 t)) ∙ beq_self k)
          (sym
            (subst (λ m. merged (lookup m table) (r ∷ []) ≡ some x) (sym ((e.beq_iff k l).0 t)) h))
    | inr t ↦ rw (t, unequal t) refl
  ]
    where
      unequal : e.beq k l ≡ false → e.beq l k ≡ false
      unequal t = ground (arith, e.beq_iff k l, e.beq_iff l k)

  lookup-report_under :
      (k : Key) (o : Option Key) (r : RInstallation PathBuf) (self : CacheReporter PathBuf Key)
      → lookup k (report_under key_of merge o r self).reported_installations ≡ (
          if same_option o (some k)
          then merged (lookup k self.reported_installations) (r ∷ [])
          else lookup k self.reported_installations)
  unfolding report_under
  lookup-report_under k none r self = refl
  lookup-report_under k (some l) r self =
      elim (Option-cases (lookup l self.reported_installations)) [
        | inl h ↦
            rw (h, report_under, lookup-store k l r self.reported_installations)
              (settle k l r r self.reported_installations (rw (h, merged) refl))
        | inr (v, h) ↦
            rw (h, report_under, lookup-store k l (merge v r) self.reported_installations)
              (settle k l r (merge v r) self.reported_installations (rw (h, merged) refl))
      ]

  merged-cons :
      (o : Option (RInstallation PathBuf)) (r : RInstallation PathBuf)
      (rs : List (RInstallation PathBuf))
      → merged (merged o (r ∷ [])) rs ≡ merged o (r ∷ rs)
  merged-cons none r rs = refl
  merged-cons (some v) r rs = refl

  -- For every key, the cache holds the merge, in the order of the reports, of what it held before
  -- and of the reports that have that key; it holds nothing where there is none.
  pub report_all-lookup :
      (k : Key) (rs : List (RInstallation PathBuf)) (self : CacheReporter PathBuf Key)
      → lookup k (report_all key_of merge rs self).reported_installations
        ≡ merged (lookup k self.reported_installations) (filter (has_key k) rs)
  unfolding report_all report_installation
  report_all-lookup k [] self = refl
  report_all-lookup k (r ∷ rs) self =
      report_all-lookup k rs (report_installation key_of merge r self)
      ∙ rw (lookup-report_under k (key_of r) r self) (go (Bool-cases (has_key k r)))
    where
      go :
          (has_key k r ≡ true) ⊎ (has_key k r ≡ false)
          → merged
              (if has_key k r
                then merged (lookup k self.reported_installations) (r ∷ [])
                else lookup k self.reported_installations)
              (filter (has_key k) rs)
            ≡ merged
                (lookup k self.reported_installations)
                (if has_key k r then r ∷ filter (has_key k) rs else filter (has_key k) rs)
      go (inl t) =
          rw (t) (merged-cons (lookup k self.reported_installations) r (filter (has_key k) rs))
      go (inr t) = rw (t) refl

  -- The table has one entry for a key, and the installations that were passed on have its keys,
  -- in order: one for each.
  abbrev pub IsCached : CacheReporter PathBuf Key → Type 0
  IsCached self =
      IsDistinct self.reported_installations
      × (map key_of self.installations_sent ≡ keys_of self.reported_installations)

  report_under-IsCached :
      (o : Option Key) (r : RInstallation PathBuf) (self : CacheReporter PathBuf Key)
      → key_of r ≡ o
      → IsCached self
      → IsCached (report_under key_of merge o r self)
  unfolding report_under
  report_under-IsCached none r self p h = h
  report_under-IsCached (some l) r self p (d, h) =
      elim (Option-cases (lookup l self.reported_installations)) [
        | inl q ↦
            rw (q, report_under)
              (
                store-IsDistinct l r self.reported_installations d,
                map-append key_of self.installations_sent (r ∷ [])
                    ∙ rw (h, p) (sym (keys_of-store_new l r self.reported_installations q)),
              )
        | inr (v, q) ↦
            rw (q, report_under)
              (
                store-IsDistinct l (merge v r) self.reported_installations d,
                h ∙ keys_of-store_known l (merge v r) v self.reported_installations q,
              )
      ]

  -- Where a cache has one entry for a key, and has passed on installations of exactly its keys, in
  -- order, so it has after any reports: each key is passed on once.
  pub report_all-IsCached :
      (rs : List (RInstallation PathBuf)) (self : CacheReporter PathBuf Key)
      → IsCached self
      → IsCached (report_all key_of merge rs self)
  unfolding report_all report_installation
  report_all-IsCached [] self h = h
  report_all-IsCached (r ∷ rs) self h =
      report_all-IsCached rs _ (report_under-IsCached (key_of r) r self refl h)

  -- The table after a report, from the table before.
  abbrev pub table_after :
      Option Key
      → RInstallation PathBuf
      → Table Key (RInstallation PathBuf)
      → Table Key (RInstallation PathBuf)
  table_after none r table = table
  table_after (some k) r table = elim (lookup k table) [
    | some existing ↦ store k (merge existing r) table
    | none ↦ store k r table
  ]

  pub report_installation-table :
      (r : RInstallation PathBuf) (self : CacheReporter PathBuf Key)
      → (report_installation key_of merge r self).reported_installations
        ≡ table_after (key_of r) r self.reported_installations
  unfolding report_installation
  report_installation-table r self = go (key_of r)
    where
      go :
          (o : Option Key)
          → (report_under key_of merge o r self).reported_installations
            ≡ table_after o r self.reported_installations
      go none = refl
      go (some k) = elim (Option-cases (lookup k self.reported_installations)) [
        | inl h ↦ rw (h, report_under, table_after) refl
        | inr (x, h) ↦ rw (h, report_under, table_after) refl
      ]

  -- The first reports of their keys, where `seen` are the keys from before.
  abbrev pub firsts :
      List (Option Key) → List (RInstallation PathBuf) → List (RInstallation PathBuf)
  firsts seen [] = []
  firsts seen (r ∷ rs) =
      if same_option (key_of r) none || any (same_option (key_of r)) seen
      then firsts seen rs
      else r ∷ firsts (seen ++ key_of r ∷ []) rs

  report_under-firsts :
      (o : Option Key) (r : RInstallation PathBuf) (rs : List (RInstallation PathBuf))
      (self : CacheReporter PathBuf Key)
      → (report_under key_of merge o r self).installations_sent
          ++ firsts (keys_of (report_under key_of merge o r self).reported_installations) rs
        ≡ self.installations_sent
          ++ (if same_option o none || any (same_option o) (keys_of self.reported_installations)
              then firsts (keys_of self.reported_installations) rs
              else r ∷ firsts (keys_of self.reported_installations ++ o ∷ []) rs)
  unfolding report_under
  report_under-firsts none r rs self = refl
  report_under-firsts (some l) r rs self =
      rw (any-keys_of l self.reported_installations)
        (elim (Option-cases (lookup l self.reported_installations)) [
          | inl q ↦
              rw (q, report_under, keys_of-store_new l r self.reported_installations q)
                (append_assoc self.installations_sent (r ∷ []) (firsts _ rs))
          | inr (v, q) ↦
              rw
                (
                  q,
                  report_under,
                  sym (keys_of-store_known l (merge v r) v self.reported_installations q),
                )
                refl
        ])

  -- The installations passed on are those from before, and then the reports that are the first of
  -- a key that the cache did not hold, in order.
  pub report_all-firsts :
      (rs : List (RInstallation PathBuf)) (self : CacheReporter PathBuf Key)
      → (report_all key_of merge rs self).installations_sent
        ≡ self.installations_sent ++ firsts (keys_of self.reported_installations) rs
  unfolding report_all report_installation
  report_all-firsts [] self = sym (append-nil self.installations_sent)
  report_all-firsts (r ∷ rs) self =
      report_all-firsts rs (report_installation key_of merge r self)
      ∙ report_under-firsts (key_of r) r rs self
