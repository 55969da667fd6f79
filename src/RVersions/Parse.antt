-- ===== src/RVersions/Parse.antt =====
-- What the parser of r-versions files and the search for one give.
use r_environment_tools.Base.{
  ◌≡◌, refl, sym, ap, ◌∙◌, inl, inr, true, false, ◌||◌, List, [], ◌∷◌, ◌++◌, Option, none, some,
  Text, All, All-append, append_assoc, append-nil, is_some, is_empty, starts_with, codes, arith,
  Bool-cases,
}
use r_environment_tools.Strings.{trim, split_once, lines}
use r_environment_tools.RVersions.{
  RVersionsEntry, Parser, default_entry, finish_entry, field_line, parse_line, parse_lines,
  parse_rversions_file, has_any_fields, bare_entry,
}

module _ {PathBuf : Type 0} where
  -- An entry that says where its R is.
  abbrev pub IsEntry : RVersionsEntry PathBuf → Type 0
  IsEntry entry = (is_some entry.path || is_some entry.named_module) ≡ true

  finish_entry-IsEntry :
      (s : Parser PathBuf) → All IsEntry s.entries → All IsEntry (finish_entry s).entries
  unfolding finish_entry
  finish_entry-IsEntry s h =
      elim (Bool-cases (is_some s.current.path || is_some s.current.named_module)) [
        | inl t ↦ rw (t) (All-append IsEntry s.entries _ h (t, tt))
        | inr f ↦
            rw (f)
              (elim (Bool-cases (has_any_fields s.current)) [ inl t ↦ rw (t) h | inr g ↦ rw (g) h ])
      ]

  -- The same parser, with entries from before.
  abbrev shift : List (RVersionsEntry PathBuf) → Parser PathBuf → Parser PathBuf
  shift es s = record s { entries = es ++ s.entries }

  finish_entry-shift :
      (es : List (RVersionsEntry PathBuf)) (s : Parser PathBuf)
      → finish_entry (shift es s) ≡ shift es (finish_entry s)
  unfolding finish_entry
  finish_entry-shift es s =
      elim (Bool-cases (is_some s.current.path || is_some s.current.named_module)) [
        | inl t ↦ rw (t) (λ i. record {
          current = default_entry;
          entries = append_assoc es s.entries (s.current ∷ []) i;
        })
        | inr f ↦ rw (f) (elim (Bool-cases (has_any_fields s.current)) [
          | inl t ↦ rw (t) refl
          | inr g ↦ rw (g) refl
        ])
      ]

  -- No entry is left half read.
  finish_entry-default : (s : Parser PathBuf) → (finish_entry s).current ≡ default_entry
  unfolding finish_entry
  finish_entry-default s =
      elim (Bool-cases (is_some s.current.path || is_some s.current.named_module)) [
        | inl t ↦ rw (t) refl
        | inr f ↦ rw (f) (elim (Bool-cases (has_any_fields s.current)) [
          | inl t ↦ rw (t) refl
          | inr g ↦ rw (g) (all_none s.current g)
        ])
      ]
    where
      absent : {A : Type 0} (o : Option A) → is_some o ≡ false → o ≡ none
      absent none h = refl
      absent (some a) h = cc

      all_none : (c : RVersionsEntry PathBuf) → has_any_fields c ≡ false → c ≡ default_entry
      all_none c h = λ i. record {
        path = absent c.path (ground (arith)) i;
        label = absent c.label (ground (arith)) i;
        named_module = absent c.named_module (ground (arith)) i;
        script = absent c.script (ground (arith)) i;
        repo = absent c.repo (ground (arith)) i;
        library = absent c.library (ground (arith)) i;
      }

module _ {PathBuf : Type 0} (path_of : Text → PathBuf) where
  field_line-IsEntry :
      (line : Text) (o : Option (Text × Text)) (s : Parser PathBuf)
      → All IsEntry s.entries
      → All IsEntry (field_line path_of line o s).entries
  unfolding field_line
  field_line-IsEntry line none s h = All-append IsEntry _ _ (finish_entry-IsEntry s h) (refl, tt)
  field_line-IsEntry line (some (key, value)) s h = h

  parse_line-IsEntry :
      (line : Text) (s : Parser PathBuf)
      → All IsEntry s.entries
      → All IsEntry (parse_line path_of line s).entries
  unfolding parse_line
  parse_line-IsEntry line s h = elim (Bool-cases (is_empty (trim line))) [
    | inl t ↦ rw (t) (finish_entry-IsEntry s h)
    | inr f ↦ rw (f) (elim (Bool-cases (starts_with (codes "#") (trim line))) [
      | inl t ↦ rw (t) h
      | inr g ↦ rw (g) (field_line-IsEntry (trim line) (split_once 58 (trim line)) s h)
    ])
  ]

  parse_lines-IsEntry :
      (ls : List Text) (s : Parser PathBuf)
      → All IsEntry s.entries
      → All IsEntry (parse_lines path_of ls s).entries
  unfolding parse_lines
  parse_lines-IsEntry [] s h = h
  parse_lines-IsEntry (l ∷ ls) s h = parse_lines-IsEntry ls _ (parse_line-IsEntry l s h)

  -- Every entry of any file names a path or a module.
  pub parse_rversions_file-IsEntry :
      (content : Text) → All IsEntry (parse_rversions_file path_of content)
  unfolding parse_rversions_file
  parse_rversions_file-IsEntry content = parse_lines-IsEntry (lines content ++ [] ∷ []) _ tt

  field_line-shift :
      (es : List (RVersionsEntry PathBuf)) (line : Text) (o : Option (Text × Text))
      (s : Parser PathBuf)
      → field_line path_of line o (shift es s) ≡ shift es (field_line path_of line o s)
  unfolding field_line
  field_line-shift es line none s = rw (finish_entry-shift es s) (λ i. record (finish_entry s) {
    entries = append_assoc es (finish_entry s).entries (bare_entry path_of line ∷ []) i;
  })
  field_line-shift es line (some (key, value)) s = refl

  parse_line-shift :
      (es : List (RVersionsEntry PathBuf)) (line : Text) (s : Parser PathBuf)
      → parse_line path_of line (shift es s) ≡ shift es (parse_line path_of line s)
  unfolding parse_line
  parse_line-shift es line s = elim (Bool-cases (is_empty (trim line))) [
    | inl t ↦ rw (t) (finish_entry-shift es s)
    | inr f ↦ rw (f) (elim (Bool-cases (starts_with (codes "#") (trim line))) [
      | inl t ↦ rw (t) refl
      | inr g ↦ rw (g) (field_line-shift es (trim line) (split_once 58 (trim line)) s)
    ])
  ]

  parse_lines-shift :
      (es : List (RVersionsEntry PathBuf)) (ls : List Text) (s : Parser PathBuf)
      → parse_lines path_of ls (shift es s) ≡ shift es (parse_lines path_of ls s)
  unfolding parse_lines
  parse_lines-shift es [] s = refl
  parse_lines-shift es (l ∷ ls) s =
      rw (parse_line-shift es l s) (parse_lines-shift es ls (parse_line path_of l s))

  parse_lines-append :
      (ls ms : List Text) (s : Parser PathBuf)
      → parse_lines path_of (ls ++ ms) s ≡ parse_lines path_of ms (parse_lines path_of ls s)
  unfolding parse_lines
  parse_lines-append [] ms s = refl
  parse_lines-append (l ∷ ls) ms s = parse_lines-append ls ms (parse_line path_of l s)

  abbrev pub fresh : Parser PathBuf
  fresh = record { current = default_entry; entries = [] }

  -- A blank line separates: the lines before it and those after it are read independently.
  pub parse_lines-separated :
      (ls ms : List Text)
      → (parse_lines path_of (ls ++ [] ∷ ms) fresh).entries
        ≡ (parse_lines path_of (ls ++ [] ∷ []) fresh).entries
          ++ (parse_lines path_of ms fresh).entries
  unfolding parse_line parse_lines trim
  parse_lines-separated ls ms =
      rw (parse_lines-append ls ([] ∷ ms) fresh, parse_lines-append ls ([] ∷ []) fresh)
        (go (parse_lines path_of ls fresh))
    where
      state : (s : Parser PathBuf) → finish_entry s ≡ shift (finish_entry s).entries fresh
      state s = λ i. record {
        current = finish_entry-default s i;
        entries = sym (append-nil (finish_entry s).entries) i;
      }

      go :
          (s : Parser PathBuf)
          → (parse_lines path_of ms (finish_entry s)).entries
            ≡ (finish_entry s).entries ++ (parse_lines path_of ms fresh).entries
      go s =
          ap (λ t. (parse_lines path_of ms t).entries) (state s)
          ∙ ap (λ t. t.entries) (parse_lines-shift (finish_entry s).entries ms fresh)
