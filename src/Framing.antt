-- ===== src/Framing.antt =====
-- The wire format of crates/ret-jsonrpc: `read_message` of src/server.rs, over the bytes that the
-- reader still has, and `write_message` of src/lib.rs. The reader itself reports no error.
pub mod Totality
pub mod RoundTrip
use r_environment_tools.Base.{
  ℕ, zero, suc, ◌+◌, ◌-◌, ◌*◌, Bool, true, false, List, [], ◌∷◌, ◌++◌, Option, none, some, Text,
  codes, same_text, to_ascii_lowercase, ltb, ◌==◌, if◌then◌else◌, length, take, drop,
}
use r_environment_tools.Strings.{trim, split_once}
use r_environment_tools.Strings.Utf8.{from_utf8}
use r_environment_tools.Strings.Decimal.{print_usize, parse_usize}

abbrev pub max_header_bytes : ℕ
max_header_bytes = 16 * 1024

abbrev pub max_message_bytes : ℕ
max_message_bytes = 16 * 1024 * 1024

-- The errors of `read_message`; `out_of_fuel` belongs to the model only.
pub data FrameError : Type 0 where
  incomplete_header header_too_long header_not_utf8 malformed_header duplicate_length : FrameError
  invalid_length message_too_long missing_length incomplete_body out_of_fuel : FrameError

pub data Result {ℓ} (A : Type ℓ) : Type ℓ where
  ok : A → Result A
  err : FrameError → Result A

-- `take(limit).read_until(b'\n')`: the line with its newline, and what is left.
abbrev with_byte : ℕ → List ℕ × List ℕ → List ℕ × List ℕ
with_byte c (l, r) = (c ∷ l, r)

unfoldable pub read_line : ℕ → List ℕ → List ℕ × List ℕ
read_line zero s = ([], s)
read_line (suc n) [] = ([], [])
read_line (suc n) (c ∷ s) =
    let more = with_byte c (read_line n s) in if c == 10 then (c ∷ [], s) else more

-- `Content-Length`, compared without case.
content_length : Text → Option ℕ → Text → Result (Option ℕ)
content_length name (some n) value = err duplicate_length
content_length name none value = elim (parse_usize (trim value)) [
  | none ↦ err invalid_length
  | some n ↦ if ltb max_message_bytes n then err message_too_long else ok (some n)
]

-- One header line that is not empty: the length known after it.
header_line : Option ℕ → Text → Result (Option ℕ)
unfolding content_length
header_line known line = elim (split_once b':' line) [
  | none ↦ err malformed_header
  | some (name, value) ↦
      if same_text (to_ascii_lowercase name) (codes "content-length")
      then content_length name known value
      else ok known
]

-- The rest of the loop, as a function of the bytes, the header bytes read, and the length.
abbrev Loop : Type 0
Loop = List ℕ → ℕ → Option ℕ → Result (Option (ℕ × List ℕ))

after_header : Loop → ℕ → List ℕ → Result (Option ℕ) → Result (Option (ℕ × List ℕ))
after_header loop total rest (ok known) = loop rest total known
after_header loop total rest (err e) = err e

end_header : Option ℕ → List ℕ → Result (Option (ℕ × List ℕ))
end_header none rest = err missing_length
end_header (some n) rest = ok (some (n, rest))

trimmed_line : Loop → ℕ → Option ℕ → List ℕ → Text → Result (Option (ℕ × List ℕ))
unfolding end_header after_header header_line
trimmed_line loop total known rest [] = end_header known rest
trimmed_line loop total known rest (c ∷ t) =
    after_header loop total rest (header_line known (c ∷ t))

decoded_line : Loop → ℕ → Option ℕ → List ℕ → Option Text → Result (Option (ℕ × List ℕ))
unfolding trimmed_line
decoded_line loop total known rest none = err header_not_utf8
decoded_line loop total known rest (some t) = trimmed_line loop total known rest (trim t)

raw_line : Loop → ℕ → Option ℕ → List ℕ × List ℕ → Result (Option (ℕ × List ℕ))
unfolding decoded_line
raw_line loop header_bytes known ([], rest) =
    if header_bytes == 0 then ok none else err incomplete_header
raw_line loop header_bytes known (c ∷ line, rest) =
    if ltb max_header_bytes (header_bytes + length (c ∷ line))
    then err header_too_long
    else decoded_line loop (header_bytes + length (c ∷ line)) known rest (from_utf8 (c ∷ line))

-- The loop over the header's lines: the body's length and the bytes after the header, or `none` at
-- the end of the input.
read_header : ℕ → List ℕ → ℕ → Option ℕ → Result (Option (ℕ × List ℕ))
unfolding raw_line read_line
read_header zero bytes header_bytes known = err out_of_fuel
read_header (suc fuel) bytes header_bytes known =
    raw_line (read_header fuel) header_bytes known
      (read_line (max_header_bytes - header_bytes + 1) bytes)

-- `read_exact` of the body.
read_body : Result (Option (ℕ × List ℕ)) → Result (Option (List ℕ × List ℕ))
read_body (err e) = err e
read_body (ok none) = ok none
read_body (ok (some (n, rest))) =
    if ltb (length rest) n then err incomplete_body else ok (some (take n rest, drop n rest))

-- The body of the next frame and the bytes after it; `none` where the input ends between frames.
unfoldable pub read_message : List ℕ → Result (Option (List ℕ × List ℕ))
unfolding read_header read_body
read_message bytes = read_body (read_header (suc (length bytes)) bytes 0 none)

abbrev pub crlf : Text
crlf = 13 ∷ 10 ∷ []

abbrev pub content_type_line : Text
content_type_line = codes "Content-Type: application/vscode-jsonrpc; charset=utf-8"

-- The header that `write_message` puts before the message, whose length is counted in bytes.
unfoldable pub write_message : List ℕ → List ℕ
write_message message =
    codes "Content-Length: "
    ++ (print_usize (length message)
        ++ (crlf ++ (content_type_line ++ (crlf ++ (crlf ++ message)))))
