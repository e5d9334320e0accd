-- ===== src/Rtsp/Client.antt =====
-- rtsp_client of src/streaming_lib/rtsp_lib/src/rtsp_client.cpp on an open socket: the requests that
-- wait for a response, and the state of the session.
pub mod Offer
pub mod Responses
pub mod Url
mod Tests
use Prim.Native.String.{String}
use rtsp.Common.{
  ℕ, ◌+◌, ◌%◌, ◌^◌, Bool, true, false, not, ◌||◌, Option, none, some, List, [], ◌∷◌, ltb, leb, ◌==◌,
  value_or, if◌then◌else◌,
}
use rtsp.Rtsp.Definitions.{Request, Response, NormalizedHeaders}
use rtsp.Rtsp.Headers.{lookup, normalize_headers}
use rtsp.Rtsp.Transport.{TransportSpec, TransportAnswer, uses, process_server_transport}
use rtsp.Rtsp.Methods.{SessionState, init, ready, playing}

-- The lambdas that the methods of the client pass to `send_request`.
pub data Handler : Type 0 where
  on_setup on_play on_pause on_teardown on_option on_describe : Handler

-- `rtp_receiver` holds the port and the SSRC of the receiver; `reading` says that a read for
-- `header_read` is pending.
pub record Client : Type 0 where
  pub state : SessionState
  pub session_identifier : String
  pub next_cseq : ℕ
  pub outstanding_requests : List (ℕ × Handler)
  pub original_url : String
  pub rtp_receiver : Option (ℕ × ℕ)
  pub reading : Bool

unfoldable pub find_request : ℕ → List (ℕ × Handler) → Option Handler
find_request cseq [] = none
find_request cseq ((n, handler) ∷ requests) =
    if n == cseq then some handler else find_request cseq requests

-- `outstanding_requests_[cseq] = …`
unfoldable pub put_request : ℕ → Handler → List (ℕ × Handler) → List (ℕ × Handler)
put_request cseq handler [] = (cseq, handler) ∷ []
put_request cseq handler ((n, h) ∷ requests) =
    if n == cseq then (n, handler) ∷ requests else (n, h) ∷ put_request cseq handler requests

-- `erase`, of the one entry under the key.
unfoldable pub erase_request : ℕ → List (ℕ × Handler) → List (ℕ × Handler)
erase_request cseq [] = []
erase_request cseq ((n, h) ∷ requests) =
    if n == cseq then erase_request cseq requests else (n, h) ∷ erase_request cseq requests

-- The texts that are read and written by code of other files or of third parties: `to_lower_copy`,
-- `std::to_string`, the number at the start of a CSeq, the transport grammar, and the binding of a port.
pub record Environment : Type 0 where
  pub to_lower_copy : String → String
  pub to_string : ℕ → String
  pub read_cseq : String → Option ℕ
  pub read_transport : String → Option (List TransportSpec)
  pub binds : ℕ → Bool

module _ (environment : Environment) where
  -- `next_cseq` has 64 bits, and the keys of the map 32.
  unfoldable pub send_request : Client → Request → Handler → Client × Request
  send_request c request handler = (
    record c {
      next_cseq = (c.next_cseq + 1) % 2 ^ 64;
      outstanding_requests = put_request (c.next_cseq % 2 ^ 32) handler c.outstanding_requests;
    },
    record request { headers = ("CSeq", environment.to_string c.next_cseq) ∷ request.headers },
  )

  -- A request for the URL of the client, version 1.0.
  abbrev pub request_for : Client → String → List (String × String) → Request
  request_for c method headers = record {
    method_or_extension = method;
    uri = c.original_url;
    rtsp_version_major = 1;
    rtsp_version_minor = 0;
    headers = headers;
  }

  abbrev pub in_session : Client → String → Handler → Client × Request
  in_session c method handler =
      send_request c (request_for c method (("session", c.session_identifier) ∷ [])) handler

  -- The methods of the client; `none` is an exception. `setup` gets the headers that it generates.
  unfoldable pub setup : Client → List (String × String) → Option (Client × Request)
  setup c headers = elim c.state [
    | init ↦ some (send_request c (request_for c "SETUP" headers) on_setup)
    | _ ↦ none
  ]

  unfoldable pub play : Client → Option (Client × Request)
  play c = elim c.state [
    | ready ↦ some (in_session c "PLAY" on_play)
    | playing ↦ some (in_session c "PLAY" on_play)
    | _ ↦ none
  ]

  unfoldable pub pause : Client → Option (Client × Request)
  pause c = elim c.state [ playing ↦ some (in_session c "PAUSE" on_pause) | _ ↦ none ]

  unfoldable pub teardown : Client → Client × Request
  teardown c = in_session c "TEARDOWN" on_teardown

  unfoldable pub option : Client → Client × Request
  option c = send_request c (request_for c "OPTIONS" []) on_option

  unfoldable pub describe : Client → Client × Request
  describe c = send_request c (request_for c "DESCRIBE" []) on_describe

  -- The rest of the lambda of `setup` once both headers are there; the identifier is set before the
  -- transport is read.
  unfoldable pub use_transport : Client → String → String → Client × Bool
  use_transport c identifier transport =
      let named = record c { session_identifier = identifier } in
      elim (environment.read_transport transport) [
        | none ↦ (named, false)
        | some specifications ↦ elim (process_server_transport specifications) [
          | uses p s ↦
              if environment.binds p
              then (record named { rtp_receiver = some (p, s); state = ready }, true)
              else (named, false)
          | _ ↦ (named, false)
        ]
      ]

  -- The lambdas: the client after the call, and whether it returned.
  unfoldable pub handle : Handler → Client → Response → Client × Bool
  unfolding use_transport
  handle on_setup c response =
      let headers = normalize_headers environment.to_lower_copy response.headers in
      if ltb response.status_code 200 || leb 300 response.status_code
      then (c, false)
      else elim (lookup "session" headers) [
        | none ↦ (c, false)
        | some identifier ↦ elim (lookup "transport" headers) [
          | none ↦ (c, false)
          | some transport ↦ use_transport c identifier transport
        ]
      ]
  handle on_play c response = (record c { state = playing }, true)
  handle on_pause c response = (record c { state = ready }, true)
  handle on_teardown c response = (record c { state = init }, true)
  handle on_option c response = (c, true)
  handle on_describe c response = (c, true)

  -- The branch for a final response: the client, and whether the call returned. A handler that
  -- throws leaves its entry, and no read is started.
  unfoldable pub deliver : Client → ℕ → Response → Client × Bool
  unfolding handle
  deliver c cseq response = elim (find_request cseq c.outstanding_requests) [
    | none ↦ (record c { reading = true }, true)
    | some handler ↦
        let (c', returned) = handle handler c response in
        if returned
        then (
          record c' {
            outstanding_requests = erase_request cseq c'.outstanding_requests;
            reading = true;
          },
          true,
        )
        else (c', false)
  ]

  -- `header_read` on a response that was read from the socket. The number is 0 where it cannot be
  -- read, and `at` throws where there is no CSeq.
  unfoldable pub header_read : Client → Response → Client × Bool
  unfolding deliver
  header_read client response =
      let c = record client { reading = false } in
      elim (lookup "cseq" (normalize_headers environment.to_lower_copy response.headers)) [
        | none ↦ (c, false)
        | some text ↦
            if ltb response.status_code 200
            then (record c { reading = true }, true)
            else deliver c (value_or (environment.read_cseq text) 0) response
      ]
