-- ===== src/Rpc.antt =====
-- Dispatch of requests in crates/ret-jsonrpc/src/server.rs: `handle_request` and `serve`. The
-- parser of serde_json is a parameter.
pub mod Sound
pub mod Frames
use r_environment_tools.Base.{
  ℕ, zero, suc, Bool, true, false, not, ◌&&◌, ◌||◌, List, [], ◌∷◌, Option, none, some, Text, codes,
  same_text, any, if◌then◌else◌, is_some, and_then, unwrap_or, length,
}
use r_environment_tools.Framing.{Result, ok, err, FrameError, out_of_fuel, read_message}

-- `serde_json::Value`; a number is kept as its text.
mutual
  pub data Value : Type 0 where
    null : Value
    boolean : Bool → Value
    number : Text → Value
    string : Text → Value
    array : Items → Value
    object : Members → Value

  pub data Items : Type 0 where
    no_items : Items
    item : Value → Items → Items

  pub data Members : Type 0 where
    no_members : Members
    member : Text → Value → Members → Members

abbrev find_member : Text → Members → Option Value
find_member k no_members = none
find_member k (member j v ms) = if same_text j k then some v else find_member k ms

-- `Value::get` with a text; `none` for what is no object.
abbrev pub get : Text → Value → Option Value
get k (object ms) = find_member k ms
get k _ = none

abbrev pub as_str : Value → Option Text
as_str (string s) = some s
as_str _ = none

abbrev pub is_id : Value → Bool
is_id null = true
is_id (string s) = true
is_id (number n) = true
is_id _ = false

abbrev pub is_params : Value → Bool
is_params null = true
is_params (object ms) = true
is_params (array vs) = true
is_params _ = false

-- -32600, -32602, -32601
pub data ErrorCode : Type 0 where
  invalid_request invalid_params method_not_found : ErrorCode

pub record RequestError : Type 0 where
  pub id : Option Value
  pub code : ErrorCode

-- The methods that have a handler.
pub record Handlers : Type 0 where
  pub requests : List Text
  pub notifications : List Text

-- What `handle_request` does: the handler that it calls, nothing, or the error that it returns.
pub data Dispatch : Type 0 where
  request : Text → Value → Value → Dispatch
  notification : Text → Value → Dispatch
  ignored : Dispatch
  rejected : RequestError → Dispatch

abbrev has_method : Text → List Text → Bool
has_method m ms = any (same_text m) ms

abbrev reject : Option Value → ErrorCode → Dispatch
reject id code = rejected (record { id = id; code = code })

abbrev pub is_version : Option Text → Bool
is_version none = false
is_version (some v) = same_text v (codes "2.0")

abbrev pub is_none_or_id : Option Value → Bool
is_none_or_id none = true
is_none_or_id (some v) = is_id v

-- The dispatch of a valid envelope.
call : Handlers → Text → Option Value → Value → Dispatch
call h method none params =
    if not (is_params params)
    then ignored
    else if has_method method h.notifications
    then notification method params
    else ignored
call h method (some id) params =
    if not (is_params params)
    then reject (some id) invalid_params
    else if has_method method h.requests
    then request method id params
    else reject (some id) method_not_found

abbrev with_method : Handlers → Value → Option Text → Dispatch
with_method h message none = reject none invalid_request
with_method h message (some method) =
    if is_version (and_then (get (codes "jsonrpc") message) as_str)
      && is_none_or_id (get (codes "id") message)
    then call h method (get (codes "id") message) (unwrap_or (get (codes "params") message) null)
    else reject none invalid_request

unfoldable pub handle_request : Handlers → Value → Dispatch
unfolding call
handle_request h message = with_method h message (and_then (get (codes "method") message) as_str)

-- What one frame leads to: a dispatch, or the reply -32700 to a body that does not parse.
pub data Event : Type 0 where
  dispatched : Dispatch → Event
  parse_error : Event

abbrev pub event_of : Handlers → Option Value → Event
event_of h (some message) = dispatched (handle_request h message)
event_of h none = parse_error

module _ (parse : List ℕ → Option Value) (h : Handlers) where
  -- The rest of the loop.
  abbrev Served : Type 0
  Served = List Event × Result (Unit {0})

  abbrev after_event : Event → Served → Served
  after_event e (es, r) = (e ∷ es, r)

  abbrev on_frame : (List ℕ → Served) → Result (Option (List ℕ × List ℕ)) → Served
  on_frame loop (err e) = ([], err e)
  on_frame loop (ok none) = ([], ok tt)
  on_frame loop (ok (some (body, rest))) = after_event (event_of h (parse body)) (loop rest)

  serve_loop : ℕ → List ℕ → Served
  serve_loop zero bytes = ([], err out_of_fuel)
  serve_loop (suc fuel) bytes = on_frame (serve_loop fuel) (read_message bytes)

  -- The events of the frames in the input, and how the server ended.
  unfoldable pub serve : List ℕ → Served
  unfolding serve_loop
  serve bytes = serve_loop (suc (length bytes)) bytes
