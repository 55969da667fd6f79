-- ===== src/Framing/RoundTrip.antt =====
-- A message that is written is read back, whatever follows it on the wire.
use r_environment_tools.Base.{
  ℕ, zero, suc, ◌+◌, ◌-◌, ◌≤◌, ◌<◌, ◌≡◌, ◌≢◌, refl, sym, ◌∙◌, ap, List, [], ◌∷◌, ◌++◌, Option, none,
  some, Text, codes, All, All-append, arith, length, length-append, ltb, Bool-cases, inl, inr,
  append_assoc, take-append_length, drop-append_length, same_text, to_ascii_lowercase,
}
use r_environment_tools.Strings.{trim, split_once, is_whitespace}
use r_environment_tools.Strings.Trim.{trim-line, trim-word, IsInk}
use r_environment_tools.Strings.Utf8.{from_utf8-ascii, IsAscii}
use r_environment_tools.Strings.Decimal.{
  print_usize, print_usize-All, length-print_usize, parse-print_usize, IsDigit,
}
use r_environment_tools.Framing.{
  ok, read_line, content_length, header_line, Loop, after_header, end_header, trimmed_line,
  decoded_line, raw_line, read_header, read_body, read_message, write_message, max_header_bytes,
  max_message_bytes, crlf, content_type_line,
}

abbrev NoNewline : List ℕ → Type 0
NoNewline l = All (λ c. c ≢ 10) l

read_line-line :
    (n : ℕ) (l r : List ℕ)
    → NoNewline l
    → length l < n
    → read_line n (l ++ 10 ∷ r) ≡ (l ++ 10 ∷ [], r)
unfolding read_line
read_line-line zero l r h k = absurd (omega arith)
read_line-line (suc n) [] r h k = refl
read_line-line (suc n) (c ∷ l) r (p, h) k = ground (arith, read_line-line n l r h)

raw_line-cons :
    (loop : Loop) (before : ℕ) (known : Option ℕ) (line rest : List ℕ)
    → 1 ≤ length line
    → before + length line ≤ max_header_bytes
    → IsAscii line
    → raw_line loop before known (line, rest)
      ≡ trimmed_line loop (before + length line) known rest (trim line)
unfolding raw_line decoded_line
raw_line-cons loop before known [] rest k s h = absurd (omega arith)
raw_line-cons loop before known (c ∷ line) rest k s h =
    elim (Bool-cases (ltb max_header_bytes (before + length (c ∷ line)))) [
      | inl z ↦ absurd (ground arith)
      | inr z ↦ rw z (rw (from_utf8-ascii (c ∷ line) h))
    ]

-- One round of the loop on a line `l` that ends in a newline.
read_header-line :
    (fuel before : ℕ) (known : Option ℕ) (l r : List ℕ)
    → NoNewline l
    → IsAscii l
    → before + length l + 1 ≤ max_header_bytes
    → read_header (suc fuel) (l ++ 10 ∷ r) before known
      ≡ trimmed_line (read_header fuel) (before + (length l + 1)) known r (trim (l ++ 10 ∷ []))
unfolding read_header
read_header-line fuel before known l r h a s =
    rw (read_line-line (max_header_bytes - before + 1) l r h (omega arith)) (
      raw_line-cons (read_header fuel) before known (l ++ 10 ∷ []) r
        (omega (arith, length-append l (10 ∷ []))) (omega (arith, length-append l (10 ∷ [])))
        (All-append _ l (10 ∷ []) a (omega arith))
      ∙ ap (λ m. trimmed_line (read_header fuel) (before + m) known r (trim (l ++ 10 ∷ [])))
          (length-append l (10 ∷ [])))

abbrev length_name : Text
length_name = codes "Content-Length: "

digit-IsInk : (c : ℕ) → IsDigit c → IsInk c
unfolding is_whitespace
digit-IsInk c h = ground arith

trim-digits : (s : Text) → All IsInk s → 1 ≤ length s → trim (32 ∷ s) ≡ s
unfolding is_whitespace
trim-digits [] h k = absurd (omega arith)
trim-digits (d ∷ s) h k = trim-word 32 d s refl h

content_length-print :
    (n : ℕ) (name : Text)
    → n ≤ max_message_bytes
    → content_length name none (32 ∷ print_usize n) ≡ ok (some n)
unfolding content_length
content_length-print n name h =
    let digits =
      trim-digits (print_usize n) (print_usize-All IsInk n digit-IsInk) (length-print_usize n).0 in
    rw (digits, content_length) (rw (parse-print_usize n (omega arith)) (ground arith))

header_line-length :
    (n : ℕ) → n ≤ max_message_bytes → header_line none (length_name ++ print_usize n) ≡ ok (some n)
unfolding header_line split_once same_text to_ascii_lowercase
header_line-length n h = content_length-print n (codes "Content-Length") h

header_line-type : (n : ℕ) → header_line (some n) content_type_line ≡ ok (some n)
unfolding header_line split_once same_text to_ascii_lowercase
header_line-type n = refl

trim-type : trim (content_type_line ++ crlf) ≡ content_type_line
unfolding trim
trim-type = refl

-- The first line up to its newline.
abbrev length_line : ℕ → Text
length_line n = length_name ++ (print_usize n ++ 13 ∷ [])

trim-length : (n : ℕ) → trim (length_line n ++ 10 ∷ []) ≡ length_name ++ print_usize n
unfolding is_whitespace
trim-length n =
    ap {B = Text} trim (
      append_assoc length_name (print_usize n ++ 13 ∷ []) (10 ∷ [])
      ∙ ap {B = Text} (λ t. length_name ++ t) (append_assoc (print_usize n) (13 ∷ []) (10 ∷ [])))
    ∙ ap {B = Text} trim (sym (append_assoc length_name (print_usize n) crlf))
    ∙ trim-line b'C' (codes "ontent-Length: ") (print_usize n) crlf refl
        (print_usize-All IsInk n digit-IsInk) (length-print_usize n).0 (refl, (refl, tt))

length_line-All :
    (P : ℕ → Type 0) (n : ℕ)
    → All P length_name
    → ((c : ℕ) → IsDigit c → P c)
    → P 13
    → All P (length_line n)
length_line-All P n h d p =
    All-append P length_name _ h
      (All-append P (print_usize n) (13 ∷ []) (print_usize-All P n d) (p, tt))

length-length_line : (n : ℕ) → length (length_line n) ≤ 37
length-length_line n = omega (arith, length-append (print_usize n) (13 ∷ []), length-print_usize n)

first_line :
    (fuel n : ℕ) (r : List ℕ)
    → n ≤ max_message_bytes
    → read_header (suc fuel) (length_line n ++ 10 ∷ r) 0 none
      ≡ read_header fuel r (0 + (length (length_line n) + 1)) (some n)
unfolding trimmed_line after_header
first_line fuel n r h =
    read_header-line fuel 0 none (length_line n) r
      (length_line-All _ n (omega arith) (λ c d. omega arith) (omega arith))
      (length_line-All _ n (omega arith) (λ c d. omega arith) (omega arith))
      (omega (arith, length-length_line n))
    ∙ rw (trim-length n) (rw (header_line-length n h))

second_line :
    (fuel before n : ℕ) (r : List ℕ)
    → before ≤ 100
    → read_header (suc fuel) ((content_type_line ++ 13 ∷ []) ++ 10 ∷ r) before (some n)
      ≡ read_header fuel r (before + 57) (some n)
unfolding trimmed_line after_header trim header_line split_once same_text to_ascii_lowercase
second_line fuel before n r h =
    read_header-line fuel before (some n) (content_type_line ++ 13 ∷ []) r (omega arith)
      (omega arith) (omega arith)

last_line :
    (fuel before n : ℕ) (r : List ℕ)
    → before ≤ 200
    → read_header (suc fuel) (13 ∷ 10 ∷ r) before (some n) ≡ ok (some (n, r))
unfolding trimmed_line end_header trim
last_line fuel before n r h =
    read_header-line fuel before (some n) (13 ∷ []) r (omega arith) (omega arith) (omega arith)

-- What is on the wire after the first line.
abbrev after_length : List ℕ → List ℕ
after_length r = content_type_line ++ (crlf ++ (crlf ++ r))

write_message-append :
    (message rest : List ℕ)
    → write_message message ++ rest
      ≡ length_line (length message) ++ 10 ∷ after_length (message ++ rest)
unfolding write_message
write_message-append message rest = simp (append_assoc)

read_header-write :
    (fuel : ℕ) (message rest : List ℕ)
    → length message ≤ max_message_bytes
    → read_header (suc (suc (suc fuel))) (write_message message ++ rest) 0 none
      ≡ ok (some (length message, message ++ rest))
read_header-write fuel message rest h =
    let n : ℕ = length message in
    rw (write_message-append message rest) (
      first_line (suc (suc fuel)) n (after_length (message ++ rest)) h
      ∙ second_line (suc fuel) (0 + (length (length_line n) + 1)) n (crlf ++ (message ++ rest))
          (omega (arith, length-length_line n))
      ∙ last_line fuel _ n (message ++ rest) (omega (arith, length-length_line n)))

read_header-enough :
    (fuel : ℕ) (message rest : List ℕ)
    → 3 ≤ fuel
    → length message ≤ max_message_bytes
    → read_header fuel (write_message message ++ rest) 0 none
      ≡ ok (some (length message, message ++ rest))
read_header-enough zero message rest f h = absurd (omega arith)
read_header-enough (suc zero) message rest f h = absurd (omega arith)
read_header-enough (suc (suc zero)) message rest f h = absurd (omega arith)
read_header-enough (suc (suc (suc fuel))) message rest f h = read_header-write fuel message rest h

pub length-write_message : (message rest : List ℕ) → 2 ≤ length (write_message message ++ rest)
length-write_message message rest = omega (arith, ap length (write_message-append message rest))

read_body-append :
    (message rest : List ℕ)
    → read_body (ok (some (length message, message ++ rest))) ≡ ok (some (message, rest))
unfolding read_body
read_body-append message rest =
    elim (Bool-cases (ltb (length (message ++ rest)) (length message))) [
      | inl z ↦ absurd (ground (arith, length-append message rest))
      | inr z ↦ rw (z, take-append_length message rest, drop-append_length message rest)
    ]

-- Every message of at most 16 MiB that is written is read back, and the bytes after it are left to
-- the reader.
pub read-write_message :
    (message rest : List ℕ)
    → length message ≤ max_message_bytes
    → read_message (write_message message ++ rest) ≡ ok (some (message, rest))
unfolding read_message
read-write_message message rest h =
    rw
      (read_header-enough (suc (length (write_message message ++ rest))) message rest
        (omega (arith, length-write_message message rest)) h)
      (read_body-append message rest)
