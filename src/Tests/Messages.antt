-- ===== src/Tests/Messages.antt =====
-- Frames and calls.
use r_environment_tools.Base.{
  ℕ, zero, suc, ◌≡◌, ◌≢◌, List, [], ◌∷◌, ◌++◌, Option, none, some, codes, arith,
}
use r_environment_tools.Framing.{ok, err, read_message, write_message, out_of_fuel}
use r_environment_tools.Framing.Totality.{MessageOf, read_message-MessageOf}
use r_environment_tools.Framing.RoundTrip.{read-write_message}
use r_environment_tools.Rpc.{
  Value, null, string, number, object, member, no_members, Handlers, handle_request, serve,
  event_of, parse_error,
}
use r_environment_tools.Rpc.Sound.{Sound, handle_request-Sound}
use r_environment_tools.Rpc.Frames.{write_all, serve-write_all, serve_total}

abbrev refresh_call : Value
refresh_call = object (
    member (codes "jsonrpc") (string (codes "2.0")) (
      member (codes "method") (string (codes "refresh"))
        (member (codes "id") (number (codes "1")) (member (codes "params") null no_members))))

abbrev handlers : Handlers
handlers = record { requests = codes "refresh" ∷ []; notifications = codes "exit" ∷ [] }

-- One body is the call, all others are no JSON.
abbrev parser : List ℕ → Option Value
parser (suc zero ∷ []) = some refresh_call
parser _ = none

read-write_message_example :
    read_message (write_message (1 ∷ 2 ∷ []) ++ 3 ∷ []) ≡ ok (some (1 ∷ 2 ∷ [], 3 ∷ []))
read-write_message_example = read-write_message (1 ∷ 2 ∷ []) (3 ∷ []) (omega arith)

read_message-MessageOf_example : MessageOf (codes "a") (read_message (codes "a"))
read_message-MessageOf_example = read_message-MessageOf (codes "a")

handle_request-Sound_example : Sound handlers refresh_call (handle_request handlers refresh_call)
handle_request-Sound_example = handle_request-Sound handlers refresh_call

serve-write_all_example :
    serve parser handlers (write_all ((1 ∷ []) ∷ (2 ∷ []) ∷ []))
    ≡ (event_of handlers (some refresh_call) ∷ parse_error ∷ [], ok tt)
serve-write_all_example =
    serve-write_all parser handlers ((1 ∷ []) ∷ (2 ∷ []) ∷ []) (omega arith, (omega arith, tt))

serve_total_example : (serve parser handlers (codes "a")).1 ≢ err out_of_fuel
serve_total_example = serve_total parser handlers (codes "a")
