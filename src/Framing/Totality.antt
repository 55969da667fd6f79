-- ===== src/Framing/Totality.antt =====
-- `read_message` ends: the model's fuel is never used up.
use r_environment_tools.Base.{
  ℕ, zero, suc, ◌+◌, ◌-◌, ◌≤◌, ◌<◌, ◌≡◌, ◌≢◌, refl, List, [], ◌∷◌, ◌++◌, Option, none, some, Text,
  arith, length, ltb, Option-cases, inl, inr, ap, ◌==◌, sym, ◌∙◌, subst, take-append-drop,
  length-take, codes, same_text, to_ascii_lowercase, append_assoc, length-append, Bool-cases,
  ==_iff,
}
use r_environment_tools.Framing.{
  Result, ok, err, out_of_fuel, read_line, content_length, header_line, Loop, after_header,
  trimmed_line, decoded_line, raw_line, read_header, read_body, read_message, max_header_bytes,
  max_message_bytes,
}
use r_environment_tools.Strings.{trim, split_once}
use r_environment_tools.Strings.Decimal.{parse_usize}
use r_environment_tools.Strings.Utf8.{from_utf8}

-- A line is a prefix of the input, within the limit.
pub read_line-append : (n : ℕ) (s : List ℕ) → (read_line n s).0 ++ (read_line n s).1 ≡ s
unfolding read_line
read_line-append zero s = refl
read_line-append (suc n) [] = refl
read_line-append (suc n) (c ∷ s) = ground (arith, read_line-append n s)

pub length-read_line :
    (n : ℕ) (s : List ℕ) → length (read_line n s).0 + length (read_line n s).1 ≡ length s
unfolding read_line
length-read_line zero s = omega arith
length-read_line (suc n) [] = omega arith
length-read_line (suc n) (c ∷ s) = ground (arith, length-read_line n s)

read_line-nil : (n : ℕ) (s : List ℕ) → 0 < n → (read_line n s).0 ≡ [] → (read_line n s).1 ≡ []
unfolding read_line
read_line-nil zero s p h = absurd (omega arith)
read_line-nil (suc n) [] p h = refl
read_line-nil (suc n) (c ∷ s) p h = ground arith

abbrev Fits : Option ℕ → Type 0
Fits none = Unit
Fits (some n) = n ≤ max_message_bytes

-- What a header read from `bytes`, after `header_bytes` earlier ones, may come to.
abbrev HeaderOf : ℕ → List ℕ → Result (Option (ℕ × List ℕ)) → Type 0
HeaderOf header_bytes bytes (err e) = e ≢ out_of_fuel
HeaderOf header_bytes bytes (ok none) = (header_bytes ≡ 0) × (bytes ≡ [])
HeaderOf header_bytes bytes (ok (some (n, rest))) =
    (header : List ℕ) × (bytes ≡ header ++ rest)
    × (1 ≤ header_bytes + length header)
    × (header_bytes + length header ≤ max_header_bytes)
    × (n ≤ max_message_bytes)

HeaderOf-append :
    (before c : ℕ) (line rest : List ℕ) (r : Result (Option (ℕ × List ℕ)))
    → HeaderOf (before + length (c ∷ line)) rest r
    → HeaderOf before ((c ∷ line) ++ rest) r
HeaderOf-append before c line rest (err e) h = h
HeaderOf-append before c line rest (ok none) h = absurd (omega arith)
HeaderOf-append before c line rest (ok (some (n, rest'))) (header, whole, some_byte, short, small) =
    (
      (c ∷ line) ++ header,
      rw whole (sym (append_assoc (c ∷ line) header rest')),
      omega (arith, length-append (c ∷ line) header),
      omega (arith, length-append (c ∷ line) header),
      small,
    )

abbrev FitsResult : Result (Option ℕ) → Type 0
FitsResult (ok known) = Fits known
FitsResult (err e) = e ≢ out_of_fuel

content_length-Fits :
    (name : Text) (known : Option ℕ) (value : Text) → FitsResult (content_length name known value)
unfolding content_length
content_length-Fits name (some n) value = cc
content_length-Fits name none value = elim (Option-cases (parse_usize (trim value))) [
  | inl e ↦ rw (e, FitsResult) (cc)
  | inr (n, e) ↦
      rw (e, FitsResult)
        (elim (Bool-cases (ltb max_message_bytes n)) [
          | inl z ↦ rw (z, FitsResult) (cc)
          | inr z ↦ rw (z, FitsResult) (ground arith)
        ])
]

header_line-Fits : (known : Option ℕ) (t : Text) → Fits known → FitsResult (header_line known t)
unfolding header_line
header_line-Fits known t h = elim (Option-cases (split_once b':' t)) [
  | inl e ↦ rw (e, FitsResult) (cc)
  | inr (p, e) ↦
      rw (e, FitsResult)
        (elim (Bool-cases (same_text (to_ascii_lowercase p.0) (codes "content-length"))) [
          | inl z ↦ rw (z, FitsResult) (content_length-Fits p.0 known p.1)
          | inr z ↦ rw (z, FitsResult) h
        ])
]

module _ (loop : Loop) (fuel : ℕ)
    (ih : (bytes : List ℕ) (before : ℕ) (known : Option ℕ)
      → length bytes < fuel
      → before ≤ max_header_bytes
      → Fits known
      → HeaderOf before bytes (loop bytes before known)) where
  after_header-HeaderOf :
      (total : ℕ) (rest : List ℕ) (r : Result (Option ℕ))
      → length rest < fuel
      → total ≤ max_header_bytes
      → FitsResult r
      → HeaderOf total rest (after_header loop total rest r)
  unfolding after_header
  after_header-HeaderOf total rest (ok known) l h f = ih rest total known l h f
  after_header-HeaderOf total rest (err e) l h f = f

  trimmed_line-HeaderOf :
      (total : ℕ) (known : Option ℕ) (rest : List ℕ) (t : Text)
      → length rest < fuel
      → 1 ≤ total
      → total ≤ max_header_bytes
      → Fits known
      → HeaderOf total rest (trimmed_line loop total known rest t)
  unfolding trimmed_line
  trimmed_line-HeaderOf total none rest [] l p h f = cc
  trimmed_line-HeaderOf total (some n) rest [] l p h f = ([], refl, omega arith, omega arith, f)
  trimmed_line-HeaderOf total known rest (c ∷ t) l p h f =
      after_header-HeaderOf total rest _ l h (header_line-Fits known (c ∷ t) f)

  decoded_line-HeaderOf :
      (total : ℕ) (known : Option ℕ) (rest : List ℕ) (t : Option Text)
      → length rest < fuel
      → 1 ≤ total
      → total ≤ max_header_bytes
      → Fits known
      → HeaderOf total rest (decoded_line loop total known rest t)
  unfolding decoded_line
  decoded_line-HeaderOf total known rest none l p h f = cc
  decoded_line-HeaderOf total known rest (some t) l p h f =
      trimmed_line-HeaderOf total known rest (trim t) l p h f

  raw_line-HeaderOf :
      (before : ℕ) (known : Option ℕ) (line rest : List ℕ)
      → length line + length rest ≤ fuel
      → (line ≡ [] → rest ≡ [])
      → before ≤ max_header_bytes
      → Fits known
      → HeaderOf before (line ++ rest) (raw_line loop before known (line, rest))
  unfolding raw_line
  raw_line-HeaderOf before known [] rest l e h f = elim (Bool-cases (before == 0)) [
    | inl z ↦ rw z ((==_iff before 0).0 z, e refl)
    | inr z ↦ rw z (cc)
  ]
  raw_line-HeaderOf before known (c ∷ line) rest l e h f =
      elim (Bool-cases (ltb max_header_bytes (before + length (c ∷ line)))) [
        | inl z ↦ rw z (cc)
        | inr z ↦ rw z (
            HeaderOf-append before c line rest _ (
              decoded_line-HeaderOf (before + length (c ∷ line)) known rest (from_utf8 (c ∷ line))
                (omega arith) (omega arith) (ground arith) f))
      ]

read_header-HeaderOf :
    (fuel : ℕ) (bytes : List ℕ) (before : ℕ) (known : Option ℕ)
    → length bytes < fuel
    → before ≤ max_header_bytes
    → Fits known
    → HeaderOf before bytes (read_header fuel bytes before known)
unfolding read_header
read_header-HeaderOf zero bytes before known l h f = absurd (omega arith)
read_header-HeaderOf (suc fuel) bytes before known l h f =
    let limit : ℕ = max_header_bytes - before + 1 in
    subst
      (λ b. HeaderOf before b (raw_line (read_header fuel) before known (read_line limit bytes)))
      (read_line-append limit bytes)
      (raw_line-HeaderOf (read_header fuel) fuel (read_header-HeaderOf fuel) before known
        (read_line limit bytes).0 (read_line limit bytes).1
        (omega (arith, length-read_line limit bytes)) (read_line-nil limit bytes (omega arith)) h f)

-- What `read_message` comes to: an error of the source; the end of the input, where no byte was
-- left; or a body and the bytes after it, which with a header are the input.
abbrev pub MessageOf : List ℕ → Result (Option (List ℕ × List ℕ)) → Type 0
MessageOf bytes (err e) = e ≢ out_of_fuel
MessageOf bytes (ok none) = bytes ≡ []
MessageOf bytes (ok (some (body, rest))) =
    (header : List ℕ) × (bytes ≡ header ++ (body ++ rest))
    × (1 ≤ length header)
    × (length header ≤ max_header_bytes)
    × (length body ≤ max_message_bytes)

read_body-MessageOf :
    (bytes : List ℕ) (r : Result (Option (ℕ × List ℕ)))
    → HeaderOf 0 bytes r
    → MessageOf bytes (read_body r)
unfolding read_body
read_body-MessageOf bytes (err e) h = h
read_body-MessageOf bytes (ok none) h = h.1
read_body-MessageOf bytes (ok (some (n, rest))) (header, whole, some_byte, short, small) =
    elim (Bool-cases (ltb (length rest) n)) [
      | inl z ↦ rw z (cc)
      | inr z ↦ rw z (
        header,
        whole ∙ ap (λ r. header ++ r) (sym (take-append-drop n rest)),
        omega arith,
        omega arith,
        omega (arith, length-take n rest),
      )
    ]

-- Reading a message never runs out of the model's fuel, and consumes exactly a header of 1 byte
-- to 16 KiB and a body of at most 16 MiB; it reports the end of the input only where nothing is left.
pub read_message-MessageOf : (bytes : List ℕ) → MessageOf bytes (read_message bytes)
unfolding read_message
read_message-MessageOf bytes =
    read_body-MessageOf bytes _
      (read_header-HeaderOf (suc (length bytes)) bytes 0 none (omega arith) (omega arith) tt)
