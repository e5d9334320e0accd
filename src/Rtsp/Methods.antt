-- ===== src/Rtsp/Methods.antt =====
-- The server's session of src/streaming_lib/rtsp_lib/include/rtsp_session.hpp and the methods of
-- src/streaming_lib/rtsp_lib/src/rtsp_methods.cpp.
pub mod Setup
pub mod Refusals
pub mod Machine
pub mod Success
mod Tests
use Prim.Native.String.{String}
use rtsp.Common.{ℕ, Bool, Option, none, some, List, [], ◌∷◌, ◌++◌}
use rtsp.Rtp.Sender.{Sender, start, stop}
use rtsp.Rtsp.Definitions.{RtspHeader, Response, InternalRequest, Address}
use rtsp.Rtsp.Headers.{lookup}

pub data SessionState : Type 0 where
  init ready playing recording : SessionState

-- `rtp_session` is a `unique_ptr`: `none` is the null pointer.
pub record ServerSession : Type 0 where
  pub state : SessionState
  pub rtp_session : Option Sender
  pub last_seen_request_address : Address
  pub session_identifier : String

-- How a call ends: with a response, with an exception that leaves it, or in undefined behaviour.
pub data Answer : Type 0 where
  replies : Response → Answer
  throws : Answer
  dereferences_null : Answer

-- `response.status_code = …; response.reason_phrase = …`
abbrev pub with_status : Response → ℕ → String → Response
with_status response status_code reason_phrase = record response {
  status_code = status_code;
  reason_phrase = reason_phrase;
}

-- `response.headers.emplace_back(…)`
abbrev pub with_header : Response → RtspHeader → Response
with_header response header = record response { headers = response.headers ++ (header ∷ []) }

-- `common_response_sekeleton`, whose `at` throws if there is no CSeq.
unfoldable pub common_response_sekeleton : ServerSession → InternalRequest → Option Response
common_response_sekeleton session request = elim (lookup "cseq" request.1) [
  | none ↦ none
  | some cseq ↦ some (record {
    rtsp_version_major = 1;
    rtsp_version_minor = 0;
    status_code = 200;
    reason_phrase = "OK";
    headers = ("CSeq", cseq) ∷ ("Session", session.session_identifier) ∷ [];
  })
]

-- A body that starts from the common response.
abbrev pub with_skeleton :
    ServerSession → InternalRequest → (Response → ServerSession × Answer) → ServerSession × Answer
with_skeleton session request body = elim (common_response_sekeleton session request) [
  | none ↦ (session, throws)
  | some response ↦ body response
]

unfoldable pub teardown : ServerSession → InternalRequest → ServerSession × Answer
teardown session request = with_skeleton session request (λ response. (session, replies response))

-- `session.rtp_session->…` and the state behind it.
abbrev pub on_sender :
    ServerSession → (Sender → Sender) → SessionState → Response → ServerSession × Answer
on_sender session act state response = elim session.rtp_session [
  | none ↦ (session, dereferences_null)
  | some sender ↦
      (record session { rtp_session = some (act sender); state = state }, replies response)
]

unfoldable pub play : ServerSession → InternalRequest → ServerSession × Answer
play session request = with_skeleton session request (λ response. elim session.state [
  | playing ↦ (session, replies response)
  | ready ↦ on_sender session start playing response
  | _ ↦ (session, replies (with_status response 455 "Method Not Valid in This State"))
])

unfoldable pub pause : ServerSession → InternalRequest → ServerSession × Answer
pause session request = with_skeleton session request (λ response. elim session.state [
  | playing ↦ on_sender session stop ready response
  | _ ↦ (session, replies (with_status response 455 "Method Not Valid in This State"))
])
