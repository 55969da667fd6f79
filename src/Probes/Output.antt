-- ===== src/Probes/Output.antt =====
-- `output_with_timeout` of crates/ret-r-utils/src/process.rs, from the spawned child on. Times are
-- in milliseconds; the two files of output belong to the child until it has ended, and a
-- descendant of it may write on.
use r_environment_tools.Base.{
  ℕ, ◌+◌, ◌-◌, ◌≤◌, ◌≡◌, refl, subst, inl, inr, true, false, List, [], ◌∷◌, Option, none, some, any,
  is_some, length, take, ltb, leb, ◌==◌, Bool-cases, Option-cases, arith, if◌then◌else◌,
}

abbrev pub max_output_bytes : ℕ
max_output_bytes = 16777216

-- What one turn of the loop finds: the sizes of the files, if they can be asked for, whether the
-- child ended, with its status, if that can be asked for, the time since the start, and what the
-- files hold when they are read.
pub record Poll : Type 0 where
  pub stdout_size : Option ℕ
  pub stderr_size : Option ℕ
  pub waited : Option (Option ℕ)
  pub elapsed : ℕ
  pub stdout : Option (List ℕ)
  pub stderr : Option (List ℕ)

pub data Output : Type 0 where
  output : ℕ → List ℕ → List ℕ → Output
  too_large : Output
  timed_out : Output
  io_error : Output

-- At most one byte more than the limit is read.
unfoldable pub read_output : Option (List ℕ) → (List ℕ → Output) → Output
read_output none continue = io_error
read_output (some file) continue =
    let bytes = take (max_output_bytes + 1) file in
    if ltb max_output_bytes (length bytes) then too_large else continue bytes

-- The rest of a turn, after the sizes: a result, or nothing when the loop goes on.
unfoldable pub wait_turn : ℕ → Poll → Option Output
unfolding read_output
wait_turn timeout poll = elim poll.waited [
  | none ↦ some io_error
  | some ended ↦ elim ended [
    | some status ↦ some (
        read_output poll.stdout
          (λ stdout. read_output poll.stderr (λ stderr. output status stdout stderr)))
    | none ↦ if (timeout - poll.elapsed) == 0 then some timed_out else none
  ]
]

unfoldable pub turn_of : ℕ → Poll → Option Output
unfolding wait_turn
turn_of timeout poll = elim poll.stdout_size [
  | none ↦ some io_error
  | some out ↦ if ltb max_output_bytes out then some too_large else elim poll.stderr_size [
    | none ↦ some io_error
    | some err ↦ if ltb max_output_bytes err then some too_large else wait_turn timeout poll
  ]
]

-- The loop, over what its turns find.
unfoldable pub output_with_timeout : ℕ → List Poll → Option Output
unfolding turn_of
output_with_timeout timeout [] = none
output_with_timeout timeout (poll ∷ polls) = elim (turn_of timeout poll) [
  | none ↦ output_with_timeout timeout polls
  | some result ↦ some result
]

-- Output within the limit.
abbrev pub IsBounded : Output → Type 0
IsBounded (output status stdout stderr) =
    (length stdout ≤ max_output_bytes) × (length stderr ≤ max_output_bytes)
IsBounded _ = Unit

within : (a b : ℕ) → ltb a b ≡ false → b ≤ a
within a b h = ground arith

read_output-IsBounded :
    (file : Option (List ℕ)) (continue : List ℕ → Output)
    → ((bytes : List ℕ) → length bytes ≤ max_output_bytes → IsBounded (continue bytes))
    → IsBounded (read_output file continue)
unfolding read_output
read_output-IsBounded none continue h = tt
read_output-IsBounded (some file) continue h =
    elim (Bool-cases (ltb max_output_bytes (length (take (max_output_bytes + 1) file)))) [
      | inl k ↦ rw (k) tt
      | inr k ↦ rw (k) (h (take (max_output_bytes + 1) file) (within max_output_bytes _ k))
    ]

abbrev AllBounded : Option Output → Type 0
AllBounded none = Unit
AllBounded (some result) = IsBounded result

-- What holds of every way a turn can end.
turn_of-holds :
    (P : Option Output → Type 0) (timeout : ℕ) (poll : Poll)
    → P (some io_error)
    → P (some too_large)
    → P (wait_turn timeout poll)
    → P (turn_of timeout poll)
unfolding turn_of
turn_of-holds P timeout poll p q w = elim (Option-cases poll.stdout_size) [
  | inl h ↦ rw (h, turn_of) p
  | inr (out, h) ↦ elim (Bool-cases (ltb max_output_bytes out)) [
    | inl k ↦ rw (h, turn_of, k) q
    | inr k ↦ elim (Option-cases poll.stderr_size) [
      | inl l ↦ rw (h, turn_of, k, l) p
      | inr (err, l) ↦ elim (Bool-cases (ltb max_output_bytes err)) [
        | inl m ↦ rw (h, turn_of, k, l, m) q
        | inr m ↦ rw (h, turn_of, k, l, m) w
      ]
    ]
  ]
]

both-IsBounded :
    (status : ℕ) (a b : Option (List ℕ))
    → IsBounded (read_output a (λ stdout. read_output b (λ stderr. output status stdout stderr)))
both-IsBounded status a b = read_output-IsBounded a _ (λ stdout h.
    read_output-IsBounded b (λ stderr. output status stdout stderr) (λ stderr k. (h, k)))

wait_turn-AllBounded : (timeout : ℕ) (poll : Poll) → AllBounded (wait_turn timeout poll)
unfolding wait_turn
wait_turn-AllBounded timeout poll = elim (Option-cases poll.waited) [
  | inl h ↦ rw (h, wait_turn) tt
  | inr (none, h) ↦ elim (Bool-cases ((timeout - poll.elapsed) == 0)) [
    | inl k ↦ rw (h, wait_turn, k) tt
    | inr k ↦ rw (h, wait_turn, k) tt
  ]
  | inr (some status, h) ↦ rw (h, wait_turn) (both-IsBounded status poll.stdout poll.stderr)
]

wait_turn-ends :
    (timeout : ℕ) (poll : Poll)
    → leb timeout poll.elapsed ≡ true
    → is_some (wait_turn timeout poll) ≡ true
unfolding wait_turn
wait_turn-ends timeout poll g = elim (Option-cases poll.waited) [
  | inl h ↦ rw (h, wait_turn) refl
  | inr (none, h) ↦
      let over : ((timeout - poll.elapsed) == 0) ≡ true = ground arith in
      rw (h, wait_turn, over) refl
  | inr (some status, h) ↦ rw (h, wait_turn) refl
]

turn_of-ends :
    (timeout : ℕ) (poll : Poll)
    → leb timeout poll.elapsed ≡ true
    → is_some (turn_of timeout poll) ≡ true
turn_of-ends timeout poll g =
    turn_of-holds (λ o. is_some o ≡ true) timeout poll refl refl (wait_turn-ends timeout poll g)

-- If a turn of the loop comes at the time of the timeout or after it, then the loop ends, by that
-- turn or before; and of each stream that it returns there are at most 16 MiB.
pub output_with_timeout-IsBounded :
    (timeout : ℕ) (polls : List Poll)
    → any (λ poll. leb timeout poll.elapsed) polls ≡ true
    → (result : Output) × (output_with_timeout timeout polls ≡ some result) × IsBounded result
unfolding output_with_timeout
output_with_timeout-IsBounded timeout [] h = cc
output_with_timeout-IsBounded timeout (poll ∷ polls) h =
    elim (Option-cases (turn_of timeout poll)) [
      | inr (result, k) ↦ (
        result,
        rw (k, output_with_timeout) refl,
        subst AllBounded k
            (turn_of-holds AllBounded timeout poll tt tt (wait_turn-AllBounded timeout poll)),
      )
      | inl k ↦
          rw (k, output_with_timeout)
            (output_with_timeout-IsBounded timeout polls
              (elim (Bool-cases (leb timeout poll.elapsed)) [
                | inl g ↦ cc (turn_of-ends timeout poll g)
                | inr g ↦ ground arith
              ]))
    ]
