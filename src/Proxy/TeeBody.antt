-- ===== src/Proxy/TeeBody.antt =====
-- tee_body.rs and tee_body_sse.rs: a body that passes its frames on to the client and tells a logging
-- task of them over a channel of 100 places.
pub mod Told
pub mod Complete
pub mod Metered
use reveries_network.Common.{
  ℕ, suc, ◌≤◌, ◌<◌, ◌≡◌, refl, Bool, true, false, ◌||◌, Option, none, some, List, [], ◌∷◌, ◌++◌,
  leb, length, if◌then◌else◌, String,
}
use reveries_network.Types.{Bytes}
use reveries_network.Proxy.Usage.{SseChunk}
use reveries_network.Proxy.Sse.{process_chunk}

-- What polling a body answers: a frame with data or with trailers, an error, the end, or nothing yet.
-- `E` are the errors of bodies, `hudsucker::Error`.
pub data Polled (E : Type 0) : Type 0 where
  data_frame : Bytes → Polled E
  trailers : List (String × String) → Polled E
  error : E → Polled E
  ended pending : Polled E

-- what the client gets for it, where errors are mapped
abbrev pub passed_on : {E : Type 0} → (E → E) → Polled E → Polled E
passed_on map_err (error e) = error (map_err e)
passed_on map_err p = p

abbrev pub channel_size : ℕ
channel_size = 100

-- The body with its parser's buffer `state`, the channel, and what has come out at the two ends.
pub record Tee (E S A : Type 0) : Type 0 where
  pub state : S
  pub queue : List A
  pub closed : Bool
  pub passed : List (Polled E)
  pub received : List A

-- one turn of the schedule: the client polls the body, the logging task takes from the channel, or it
-- goes away
pub data Act (E : Type 0) : Type 0 where
  poll : Polled E → Act E
  recv close : Act E

module _ {E S A : Type 0} where
  unfoldable pub try_send : A → Tee E S A → Tee E S A
  try_send a t =
      if t.closed || leb channel_size (length t.queue)
      then t
      else record t { queue = t.queue ++ (a ∷ []) }

  unfoldable pub try_send_all : List A → Tee E S A → Tee E S A
  unfolding try_send
  try_send_all [] t = t
  try_send_all (a ∷ updates) t = try_send_all updates (try_send a t)

  take_one : List A → Tee E S A → Tee E S A
  take_one [] t = t
  take_one (a ∷ rest) t = record t { queue = rest; received = t.received ++ (a ∷ []) }

-- `on_data` is what a frame with data makes of the parser's buffer, and what it sends.
-- `map_err` is what the body that the client gets makes of an error.
module _ {E S A : Type 0} (map_err : E → E) (on_data : Bytes → S → List A × S) where
  unfoldable pub poll_frame : Polled E → Tee E S A → Tee E S A
  unfolding try_send_all
  poll_frame (data_frame bytes) t =
      let made = on_data bytes t.state in
      let told = try_send_all made.0 (record t { state = made.1 }) in
      record told { passed = told.passed ++ (data_frame bytes ∷ []) }
  poll_frame p t = record t { passed = t.passed ++ (passed_on map_err p ∷ []) }

  unfoldable pub act : Act E → Tee E S A → Tee E S A
  unfolding poll_frame take_one
  act (poll p) t = poll_frame p t
  act recv t = take_one t.queue t
  act close t = record t { closed = true }

  unfoldable pub run : List (Act E) → Tee E S A → Tee E S A
  unfolding act
  run [] t = t
  run (a ∷ acts) t = run acts (act a t)

unfoldable pub new : {E S A : Type 0} → S → Tee E S A
new s = record { state = s; queue = []; closed = false; passed = []; received = [] }

-- `tee_body` hands errors on as they are. `tee_body_sse` makes of each an error of I/O with its text:
-- `to_string` and `io` are the text of an error and `hudsucker::Error::Io` of a text.
unfoldable pub same_error : {E : Type 0} → E → E
same_error e = e

unfoldable pub io_error : {E : Type 0} → (E → String) → (String → E) → E → E
io_error to_string io e = io (to_string e)

-- `TeeBody`: the logging task of a whole answer gets the data, and never an error.
unfoldable pub on_data : Bytes → Unit {0} → List (Option Bytes) × Unit {0}
on_data bytes u = (some bytes ∷ [], u)

-- `TeeBodySSE`: the data goes through the parser.
unfoldable pub on_sse_data : (Bytes → List SseChunk) → Bytes → Bytes → List SseChunk × Bytes
unfolding process_chunk
on_sse_data parse_sse_event bytes buffer = process_chunk parse_sse_event bytes buffer
