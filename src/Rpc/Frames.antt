-- ===== src/Rpc/Frames.antt =====
-- The server's loop over the frames of its input.
use r_environment_tools.Base.{
  ℕ, zero, suc, ◌≤◌, ◌<◌, ◌≡◌, ◌≢◌, refl, ap, List, [], ◌∷◌, ◌++◌, map, Option, none, some, arith,
  length, length-append, All,
}
use r_environment_tools.Framing.{
  Result, ok, err, out_of_fuel, read_message, write_message, max_message_bytes,
}
use r_environment_tools.Framing.Totality.{MessageOf, read_message-MessageOf}
use r_environment_tools.Framing.RoundTrip.{read-write_message, length-write_message}
use r_environment_tools.Rpc.{Value, Handlers, Event, event_of, on_frame, serve_loop, serve}

abbrev pub write_all : List (List ℕ) → List ℕ
write_all [] = []
write_all (m ∷ ms) = write_message m ++ write_all ms

length-write_all : (ms : List (List ℕ)) → length ms ≤ length (write_all ms)
length-write_all [] = omega arith
length-write_all (m ∷ ms) = omega (
  arith,
  length-write_message m [],
  length-append (write_message m) [],
  length-append (write_message m) (write_all ms),
  length-write_all ms,
)

read_message-nil : read_message [] ≡ ok none
unfolding read_message
read_message-nil = refl

module _ (parse : List ℕ → Option Value) (h : Handlers) where
  serve_loop-write :
      (fuel : ℕ) (ms : List (List ℕ))
      → length ms < fuel
      → All (λ m. length m ≤ max_message_bytes) ms
      → serve_loop parse h fuel (write_all ms) ≡ (map (λ m. event_of h (parse m)) ms, ok tt)
  unfolding serve_loop
  serve_loop-write zero ms f k = absurd (omega arith)
  serve_loop-write (suc fuel) [] f k = rw read_message-nil
  serve_loop-write (suc fuel) (m ∷ ms) f (p, k) =
      rw (read-write_message m (write_all ms) p) (rw (serve_loop-write fuel ms (omega arith) k))

  -- Messages of at most 16 MiB that are written one after the other are handled once each, in order, and then the server ends.
  pub serve-write_all :
      (ms : List (List ℕ))
      → All (λ m. length m ≤ max_message_bytes) ms
      → serve parse h (write_all ms) ≡ (map (λ m. event_of h (parse m)) ms, ok tt)
  unfolding serve
  serve-write_all ms k =
      serve_loop-write (suc (length (write_all ms))) ms (omega (arith, length-write_all ms)) k

  on_frame-total :
      (loop : List ℕ → List Event × Result (Unit {0})) (bytes : List ℕ)
      (r : Result (Option (List ℕ × List ℕ)))
      → MessageOf bytes r
      → ((rest : List ℕ) → length rest < length bytes → (loop rest).1 ≢ err out_of_fuel)
      → (on_frame parse h loop r).1 ≢ err out_of_fuel
  on_frame-total loop bytes (err e) m k = λ q. m (cc)
  on_frame-total loop bytes (ok none) m k = cc
  on_frame-total loop bytes (ok (some (body, rest))) (header, whole, some_byte, s, l) k =
      k rest (
        omega
          (arith, ap length whole, length-append header (body ++ rest), length-append body rest))

  serve_loop-total :
      (fuel : ℕ) (bytes : List ℕ)
      → length bytes < fuel
      → (serve_loop parse h fuel bytes).1 ≢ err out_of_fuel
  unfolding serve_loop
  serve_loop-total zero bytes f = absurd (omega arith)
  serve_loop-total (suc fuel) bytes f =
      on_frame-total (serve_loop parse h fuel) bytes _ (read_message-MessageOf bytes)
        (λ rest s. serve_loop-total fuel rest (omega arith))

  -- The server's loop ends on every input: the model's fuel is never used up.
  pub serve_total : (bytes : List ℕ) → (serve parse h bytes).1 ≢ err out_of_fuel
  unfolding serve
  serve_total bytes = serve_loop-total (suc (length bytes)) bytes (omega arith)
