-- ===== src/Rtsp/Server.antt =====
-- rtsp_server_state of src/streaming_lib/rtsp_lib/src/rtsp_server_internals.cpp.
pub mod Sessions
pub mod Answers
pub mod Invariant
pub mod Timeout
pub mod Calls
pub mod Lifetime
mod Tests
use Prim.Native.String.{String, ◌++◌}
use text.Mathlib.Text.{◌==◌}
use rtsp.Common.{
  ℕ, zero, suc, Bool, true, false, not, ◌||◌, Option, none, some, List, [], ◌∷◌, length,
  if◌then◌else◌,
}
use rtsp.Rtp.Sender.{Sender}
use rtsp.Rtsp.Definitions.{Request, Response, InternalRequest, NormalizedHeaders, Address}
use rtsp.Rtsp.Headers.{lookup, contains, normalize_headers}
use rtsp.Rtsp.Methods.{
  SessionState, init, ServerSession, Answer, replies, throws, with_status, with_header, teardown,
  play, pause,
}
use rtsp.Rtsp.Methods.Setup.{Platform, Draws, setup}

-- The two maps under the mutex, as the lists of their entries. Every call holds the mutex while it
-- reads or writes them, so a run of the server is a sequence of calls.
pub record ServerState : Type 0 where
  pub sessions : List (String × ServerSession)
  pub sessions_by_host : List (Address × String)

abbrev pub Method : Type 0
Method = ServerSession → InternalRequest → ServerSession × Answer

-- `emplace` of an `unordered_map`: an entry under the key stays.
unfoldable pub emplace :
    String → ServerSession → List (String × ServerSession) → List (String × ServerSession)
emplace key session [] = (key, session) ∷ []
emplace key session ((k, s) ∷ sessions) =
    if k == key then (k, s) ∷ sessions else (k, s) ∷ emplace key session sessions

-- `emplace` of the `multimap`: behind the entries of the same key.
unfoldable pub emplace_host : Address → String → List (Address × String) → List (Address × String)
emplace_host host identifier [] = (host, identifier) ∷ []
emplace_host host identifier (entry ∷ entries) = entry ∷ emplace_host host identifier entries

-- A write through the reference to the entry.
unfoldable pub assign :
    String → ServerSession → List (String × ServerSession) → List (String × ServerSession)
assign key session [] = []
assign key session ((k, s) ∷ sessions) =
    if k == key then (k, session) ∷ sessions else (k, s) ∷ assign key session sessions

-- `delete_session`, once the destructor of the session's sender has returned, which is `destroy` of
-- rtp_lib; the sender is gone with the session.
unfoldable pub delete_session :
    String → List (String × ServerSession) → List (String × ServerSession)
delete_session key [] = []
delete_session key ((k, s) ∷ sessions) =
    if k == key then sessions else (k, s) ∷ delete_session key sessions

-- A session as its constructor leaves it; the default address is 0.
abbrev pub new_session : String → ServerSession
new_session identifier = record {
  state = init;
  rtp_session = none;
  last_seen_request_address = 0;
  session_identifier = identifier;
}

unfoldable pub options : InternalRequest → Answer
options (request, headers) = elim (lookup "cseq" headers) [
  | none ↦ throws
  | some cseq ↦ replies (record {
    rtsp_version_major = 1;
    rtsp_version_minor = 0;
    status_code = 200;
    reason_phrase = "OK";
    headers = ("CSeq", cseq) ∷ ("Public", "SETUP, TEARDOWN, PLAY, PAUSE") ∷ [];
  })
]

-- `delete_session` after a TEARDOWN; an exception of the method leaves the handler before it.
abbrev pub after_method :
    String → String → Answer → List (String × ServerSession) → List (String × ServerSession)
after_method method identifier (replies response) sessions =
    if method == "TEARDOWN" then delete_session identifier sessions else sessions
after_method method identifier _ sessions = sessions

-- The response before any branch has changed it.
abbrev pub unchanged_response : Response
unchanged_response = record {
  rtsp_version_major = 1;
  rtsp_version_minor = 0;
  status_code = 500;
  reason_phrase = "Internal error: Response unchanged";
  headers = [];
}

-- An error response with the CSeq of the request.
abbrev pub refusal : ℕ → String → String → Answer
refusal status_code reason_phrase cseq =
    replies (with_header (with_status unchanged_response status_code reason_phrase) ("CSeq", cseq))

module _ (platform : Platform) (draws : Draws) where
  -- `methods_`
  unfoldable pub methods : String → Option Method
  unfolding options
  methods name =
      if name == "OPTIONS"
      then some (λ session request. (session, options request))
      else if name == "SETUP"
      then some (λ session request. setup platform session request draws)
      else if name == "TEARDOWN"
      then some teardown
      else if name == "PLAY"
      then some play
      else if name == "PAUSE"
      then some pause
      else none

  -- The branch of SETUP: the session is in the map, and its host in the other, before `setup` runs.
  unfoldable pub handle_setup : ServerState → InternalRequest → Address → ServerState × Answer
  unfolding emplace emplace_host assign
  handle_setup state request requester =
      let inserted = emplace draws.identifier (new_session draws.identifier) state.sessions in
      elim (lookup draws.identifier inserted) [
        | none ↦ (state, throws)
        | some found ↦
            let session = record found { last_seen_request_address = requester } in
            let (session', answer) = setup platform session request draws in
            (
              record {
                sessions = assign draws.identifier session' inserted;
                sessions_by_host =
                    emplace_host requester session.session_identifier state.sessions_by_host;
              },
              answer,
            )
      ]

  -- The branch of a method on a session.
  unfoldable pub handle_method :
      ServerState → Method → InternalRequest → String → String → Address → ServerState × Answer
  unfolding assign
  handle_method state method request identifier cseq requester =
      elim (lookup identifier state.sessions) [
        | none ↦ (state, refusal 454 "Session not found" cseq)
        | some found ↦
            let (session', answer) =
              method (record found { last_seen_request_address = requester }) request in
            let sessions' = assign identifier session' state.sessions in
            (
              record state {
                sessions = after_method request.0.method_or_extension identifier answer sessions';
              },
              answer,
            )
      ]

  -- The branches for a request with a CSeq.
  unfoldable pub handle_numbered_request :
      ServerState → Request → NormalizedHeaders → String → Address → ServerState × Answer
  unfolding options methods handle_setup handle_method
  handle_numbered_request state request headers cseq requester =
      let method = request.method_or_extension in
      let not_implemented = refusal 501 ("\"" ++ (method ++ "\" not implemented")) cseq in
      if method == "OPTIONS"
      then (state, options (request, headers))
      else if method == "DESCRIBE"
      then (state, not_implemented)
      else if method == "SETUP"
      then (if contains "session" headers
          then (state, refusal 459 "Aggregate Operation Not Allowed" cseq)
          else handle_setup state (request, headers) requester)
      else elim (lookup "session" headers) [
        | none ↦ (state, refusal 400 "Session header not found" cseq)
        | some identifier ↦ elim (methods method) [
          | none ↦ (state, not_implemented)
          | some implementation ↦
              handle_method state implementation (request, headers) identifier cseq requester
        ]
      ]

  -- `handle_incoming_request`: the state after it, and how it ends.
  unfoldable pub handle_incoming_request : ServerState → Request → Address → ServerState × Answer
  unfolding handle_numbered_request
  handle_incoming_request state request requester =
      let headers = normalize_headers platform.to_lower_copy request.headers in
      let missing = replies (with_status unchanged_response 400 "Bad Request: CSeq missing") in
      elim (lookup "cseq" headers) [
        | none ↦ (state, missing)
        | some cseq ↦
            if cseq == ""
            then (state, missing)
            else handle_numbered_request state request headers cseq requester
      ]

-- `find` of the multimap: the identifier of an entry of the host, and `erase` of that entry.
unfoldable pub find_host : Address → List (Address × String) → Option String
find_host host [] = none
find_host host ((h, identifier) ∷ entries) =
    if rtsp.Common.◌==◌ h host then some identifier else find_host host entries

unfoldable pub erase_host : Address → List (Address × String) → List (Address × String)
erase_host host [] = []
erase_host host ((h, identifier) ∷ entries) =
    if rtsp.Common.◌==◌ h host then entries else (h, identifier) ∷ erase_host host entries

-- The loop of `handle_timeout_of_host`, for at most `fuel` rounds; `none` if it still runs then.
unfoldable pub drop_sessions_of : ℕ → Address → ServerState → Option ServerState
unfolding find_host erase_host delete_session
drop_sessions_of zero host state = none
drop_sessions_of (suc fuel) host state =
    let rest : String → Option ServerState = λ identifier. drop_sessions_of fuel host (record {
      sessions = delete_session identifier state.sessions;
      sessions_by_host = erase_host host state.sessions_by_host;
    }) in
    elim (find_host host state.sessions_by_host) [
      | none ↦ some state
      | some identifier ↦ rest identifier
    ]

unfoldable pub handle_timeout_of_host : Address → ServerState → Option ServerState
unfolding drop_sessions_of
handle_timeout_of_host host state =
    drop_sessions_of (suc (length state.sessions_by_host)) host state
