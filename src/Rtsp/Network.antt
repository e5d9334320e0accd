-- ===== src/Rtsp/Network.antt =====
-- rtsp_server of src/streaming_lib/rtsp_lib/src/rtsp_server.cpp: the TCP connections and the datagrams
-- that carry requests to the server state, and the responses back.
pub mod Exchange
mod Tests
use Prim.Native.String.{String}
use Prim.Native.String
use text.Mathlib.TextBridge.{of_list}
use rtsp.Common.{
  ℕ, ◌+◌, ◌-◌, ◌*◌, ◌^◌, Bool, true, false, not, Option, none, some, List, [], ◌∷◌, ◌++◌, length,
  drop, ltb, ◌==◌, if◌then◌else◌,
}
use rtsp.Rtsp.Definitions.{Request, Response, Address}
use rtsp.Rtsp.Text.{Text, chars, is_space, drop_while, Numbers}
use rtsp.Rtsp.Message.{phrase_parse, rtsp_request_grammar, generate_response}
use rtsp.Rtsp.Methods.{Answer, replies}
use rtsp.Rtsp.Methods.Setup.{Platform, Draws}
use rtsp.Rtsp.Server.{ServerState, handle_incoming_request, handle_timeout_of_host}

-- `tcp_connection`. Times are counts of the steady clock, in nanoseconds. `expiry` is that of the timeout
-- timer; `reading` and `waiting` say that a read and a wait for the timer are pending; `sends` are
-- the buffers of the sends that are not completed.
pub record Connection : Type 0 where
  pub last_response_string : Text
  pub last_request_time_point : ℕ
  pub expiry : ℕ
  pub is_open : Bool
  pub reading : Bool
  pub waiting : Bool
  pub sends : List Text

-- `timeout_period_`, 240 seconds.
abbrev pub timeout_period : ℕ
timeout_period = 240 * 10 ^ 9

-- The errors that the handlers tell apart.
pub data ErrorCode : Type 0 where
  success eof connection_reset other : ErrorCode

-- What a handler of a connection leaves: both states, or an exception with them, or what C++ does not
-- define.
pub data Handled : Type 0 where
  handled : Connection → ServerState → Handled
  throws : Connection → ServerState → Handled
  is_undefined : Handled

-- What a datagram leaves, with the text that is sent back.
pub data Answered : Type 0 where
  answers : ServerState → Text → Answered
  throws : ServerState → Answered
  is_undefined : Answered

-- `rtsp::response{rtsp_major_version, rtsp_minor_version, 400, reason}`
abbrev pub bad_request : String → Response
bad_request reason = record {
  rtsp_version_major = 1;
  rtsp_version_minor = 0;
  status_code = 400;
  reason_phrase = reason;
  headers = [];
}

-- `start()`
unfoldable pub start : ℕ → Connection → Connection
start now c = record c {
  last_request_time_point = now;
  reading = true;
  expiry = now + timeout_period;
  waiting = true;
}

-- `response_sent(error, bytes_transferred)` of the first send that is not completed; whether it throws.
unfoldable pub response_sent : ErrorCode → ℕ → Connection → Bool × Connection
response_sent error bytes_transferred c =
    let completed = record c { sends = drop 1 c.sends } in
    elim error [
      | success ↦
          if bytes_transferred == length c.last_response_string
          then (false, record completed { last_response_string = [] })
          else (true, completed)
      | _ ↦ (true, completed)
    ]

-- `timeout_check(error)`, for a wait that is no longer pending.
unfoldable pub timeout_check : ErrorCode → ℕ → Address → Connection → ServerState → Handled
timeout_check error now host c state = elim error [
  | success ↦
      if ltb timeout_period (now - c.last_request_time_point)
      then elim (handle_timeout_of_host host state) [
        | none ↦ is_undefined
        | some state' ↦ handled (record c { is_open = false; waiting = false }) state'
      ]
      else handled (record c { expiry = c.expiry + timeout_period; waiting = true }) state
  | _ ↦ throws (record c { waiting = false }) state
]

module _ (numbers : Numbers) (platform : Platform) where
  -- The end of `header_read`: the response joins the text that is not yet sent, which is sent again as
  -- a whole, and the next read starts.
  abbrev pub send_response : Connection → ServerState → Response → Handled
  send_response c state response =
      let text = c.last_response_string ++ generate_response numbers response in
      handled
        (record c { last_response_string = text; sends = c.sends ++ (text ∷ []); reading = true })
        state

  -- How the answer of the server state ends `header_read`.
  abbrev pub finish_read : Connection → ServerState × Answer → Handled
  finish_read c (state, replies response) = send_response c state response
  finish_read c (state, Answer.throws) = throws c state
  finish_read c (state, Answer.dereferences_null) = is_undefined

  -- The branch of `header_read` without an error, for the text that the stream holds.
  unfoldable pub read_request : Draws → ℕ → Address → Text → Connection → ServerState → Handled
  read_request draws now requester text c state =
      let c' = record c { reading = false; last_request_time_point = now } in
      elim (phrase_parse (rtsp_request_grammar numbers) text) [
        | none ↦ send_response c' state (bad_request "Bad Request")
        | some (request, rest) ↦
            finish_read c' (handle_incoming_request platform draws state request requester)
      ]

  -- `header_read(error, bytes_transferred)`
  unfoldable pub header_read :
      ErrorCode → Draws → ℕ → Address → Text → Connection → ServerState → Handled
  header_read success draws now requester text c state =
      read_request draws now requester text c state
  header_read eof draws now requester text c state = handled (record c { reading = false }) state
  header_read connection_reset draws now requester text c state =
      handled (record c { reading = false }) state
  header_read other draws now requester text c state = throws (record c { reading = false }) state

  -- How the answer of the server state ends `handle_new_incoming_message`.
  abbrev pub finish_message : ServerState × Answer → Answered
  finish_message (state, replies response) = answers state (generate_response numbers response)
  finish_message (state, Answer.throws) = throws state
  finish_message (state, Answer.dereferences_null) = is_undefined

  -- `"Bad Request, could not parse after \"" + …`; space in front of the request is passed over by then.
  abbrev pub could_not_parse : Text → String
  could_not_parse message =
      of_list (
        chars "Bad Request, could not parse after \""
        ++ (drop_while is_space message ++ chars "\""))

  -- `handle_new_incoming_message(message, …)`
  unfoldable pub handle_new_incoming_message : Draws → Address → Text → ServerState → Answered
  handle_new_incoming_message draws requester message state =
      elim (phrase_parse (rtsp_request_grammar numbers) message) [
        | none ↦ answers state (generate_response numbers (bad_request (could_not_parse message)))
        | some (request, rest) ↦
            finish_message (handle_incoming_request platform draws state request requester)
      ]
