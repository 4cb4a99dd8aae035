-- ===== src/RequestLimit.antt =====
-- app/core/request_limits.py: the limit on the size of a request's body. The application behind the
-- middleware returns after any sequence of what it receives and sends; a body is its number of bytes, and
-- `int` of a text is a parameter.
pub mod Replies
pub mod Delivered
mod Tests
use finshield_ai.Base.{
  Parsed, no_integer, negative, number, ℕ, ◌+◌, String, Bool, true, false, not, ◌&&◌, ◌||◌, Option,
  none, some, List, [], ◌∷◌, ◌++◌, ltb, ◌==◌, Result, ok, err, if◌then◌else◌,
}
use finshield_ai.OfficialSources.{string_eq}

-- The causes of `RequestLimitConfigurationError`.
pub data LimitError : Type 0 where
  not_an_integer out_of_bounds : LimitError

-- `int(raw_value)` within the bounds
unfoldable pub bounded : Parsed → Result LimitError ℕ
bounded no_integer = err not_an_integer
bounded negative = err out_of_bounds
bounded (number value) =
    if ltb value 4096 || ltb 10485760 value then err out_of_bounds else ok value

unfoldable pub or_default_bytes : Option String → String
or_default_bytes none = "131072"
or_default_bytes (some raw_value) = raw_value

-- `read_max_request_bytes`; `to_int` is `int(_.strip())`.
unfoldable pub read_max_request_bytes : (String → Parsed) → Option String → Result LimitError ℕ
unfolding bounded or_default_bytes
read_max_request_bytes to_int setting = bounded (to_int (or_default_bytes setting))

-- What a server gives to an application, and what an application sends.
pub data Incoming : Type 0 where
  request : ℕ → Incoming
  disconnect : Incoming

pub data Outgoing : Type 0 where
  response_start : Outgoing
  response_body : String → Outgoing

-- A step of the application.
pub data Event : Type 0 where
  receives : Incoming → Event
  sends : Outgoing → Event

-- What the client gets: a message of the application, or the whole response 413.
pub data Reply : Type 0 where
  passed : Outgoing → Reply
  too_large : Reply

-- The variables that `counting_receive` and `limiting_send` share.
pub record Limits : Type 0 where
  pub received : ℕ
  pub exceeded : Bool
  pub response_started : Bool
  pub rejected : Bool

abbrev pub is_start : Outgoing → Bool
is_start response_start = true
is_start (response_body _) = false

-- `_declared_length`: the first header of that name; `to_int` is `int(_)`, and `none` stands
-- for a ValueError and for a number below zero, which is over no limit.
unfoldable pub declared_length : (String → Option ℕ) → List (String × String) → Option ℕ
declared_length to_int [] = none
declared_length to_int ((key, value) ∷ headers) =
    let rest = declared_length to_int headers in
    if key == "content-length" then to_int value else rest

unfoldable pub is_over : ℕ → Option ℕ → Bool
is_over max_bytes none = false
is_over max_bytes (some declared) = ltb max_bytes declared

-- `len(message.get("body", b""))` of what the application is given.
abbrev pub bytes_of : Incoming → ℕ
bytes_of (request size) = size
bytes_of disconnect = 0

module _ (max_bytes : ℕ) where
  -- `counting_receive`
  unfoldable pub counting_receive : Incoming → Limits → Incoming × Limits
  counting_receive disconnect limits = (disconnect, limits)
  counting_receive (request size) limits =
      if ltb max_bytes (limits.received + size)
      then (
        disconnect,
        record {
          received = limits.received + size;
          exceeded = true;
          response_started = limits.response_started;
          rejected = limits.rejected;
        },
      )
      else (
        request size,
        record {
          received = limits.received + size;
          exceeded = limits.exceeded;
          response_started = limits.response_started;
          rejected = limits.rejected;
        },
      )

  -- `limiting_send`, with what goes out.
  unfoldable pub limiting_send : Outgoing → Limits → List Reply × Limits
  limiting_send message limits =
      if limits.exceeded && not limits.response_started
      then (
        (if not limits.rejected then too_large ∷ [] else []),
        record {
          received = limits.received;
          exceeded = limits.exceeded;
          response_started = limits.response_started;
          rejected = true;
        },
      )
      else (
        passed message ∷ [],
        record {
          received = limits.received;
          exceeded = limits.exceeded;
          response_started = is_start message || limits.response_started;
          rejected = limits.rejected;
        },
      )

  -- After the application has returned.
  unfoldable pub finish : Limits → List Reply
  finish limits =
      if limits.exceeded && not limits.response_started && not limits.rejected
      then too_large ∷ []
      else []

  -- What goes out of a run of the application.
  unfoldable pub run : List Event → Limits → List Reply
  run [] limits = finish limits
  run (receives message ∷ events) limits =
      let (given, after) = counting_receive message limits in run events after
  run (sends message ∷ events) limits =
      let (replies, after) = limiting_send message limits in replies ++ run events after

  -- The bytes that the application is given in a run.
  unfoldable pub delivered : List Event → Limits → ℕ
  delivered [] limits = 0
  delivered (receives message ∷ events) limits =
      let (given, after) = counting_receive message limits in
      bytes_of given + delivered events after
  delivered (sends message ∷ events) limits =
      let (replies, after) = limiting_send message limits in delivered events after

-- The variables at the start.
abbrev pub no_limits : Limits
no_limits = record { received = 0; exceeded = false; response_started = false; rejected = false }

-- The messages of a run without the middleware.
unfoldable pub unlimited : List Event → List Reply
unlimited [] = []
unlimited (receives message ∷ events) = unlimited events
unlimited (sends message ∷ events) = passed message ∷ unlimited events

-- `__call__`, by whether the scope is that of a request and by its declared length.
unfoldable pub call : Bool → Option ℕ → ℕ → List Event → List Reply
unfolding run is_over unlimited
call is_http declared max_bytes events =
    if not is_http
    then unlimited events
    else if is_over max_bytes declared
    then too_large ∷ []
    else run max_bytes events no_limits
