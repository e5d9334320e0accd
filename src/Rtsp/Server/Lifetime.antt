-- ===== src/Rtsp/Server/Lifetime.antt =====
-- From SETUP to TEARDOWN: when the server knows a session.
use Prim.Native.String.{String}
use text.Mathlib.Text.{◌==◌}
use rtsp.Common.{◌≡◌, refl, sym, ap, ◌∙◌, subst, true, false, none, some, some_injective, arith}
use rtsp.Rtsp.Definitions.{Request, Response, NormalizedHeaders, Address}
use rtsp.Rtsp.Headers.{lookup, contains, normalize_headers}
use rtsp.Rtsp.Methods.{ServerSession, Answer, replies, teardown, play, pause}
use rtsp.Rtsp.Methods.Setup.{Platform, Draws, setup}
use rtsp.Rtsp.Methods.Machine.{
  is_consistent, Handles, answers, leaves, setup-Handles, common_response, teardown-common_response,
}
use rtsp.Rtsp.Server.{
  ServerState, Method, new_session, emplace_host, refusal, methods, handle_setup, handle_method,
  handle_numbered_request, handle_incoming_request,
}
use rtsp.Rtsp.Server.Sessions.{
  assign-Distinct, lookup-emplace_fresh, lookup-assign_same, lookup-delete_session_same,
}
use rtsp.Rtsp.Server.Answers.{handle_setup_cases, handle_method_cases}
use rtsp.Rtsp.Server.Invariant.{IsValid}

-- The methods that act on a session that exists.
pub data IsSessionMethod : String → Method → Type 0 where
  is_teardown : IsSessionMethod "TEARDOWN" teardown
  is_play : IsSessionMethod "PLAY" play
  is_pause : IsSessionMethod "PAUSE" pause

-- A request with its method replaced.
abbrev pub with_method : String → Request → Request
with_method name request = record request { method_or_extension = name }

Handles-same :
    {name cseq : String} {session : ServerSession} {result : ServerSession × Answer}
    → Handles name cseq session result
    → result.0.session_identifier ≡ session.session_identifier
Handles-same (answers same c first s) = same
Handles-same (leaves e) = refl

module _ (platform : Platform) (draws : Draws) (state : ServerState) (request : Request)
    (requester : Address) where
  abbrev headers : NormalizedHeaders
  headers = normalize_headers platform.to_lower_copy request.headers

  module _ {cseq : String}
      (numbered : lookup "cseq" (normalize_headers platform.to_lower_copy request.headers)
        ≡ some cseq)
      (given : (cseq == "") ≡ false) where
    to_setup :
        lookup "session" (normalize_headers platform.to_lower_copy request.headers) ≡ none
        → handle_incoming_request platform draws state (with_method "SETUP" request) requester
          ≡ handle_setup platform draws state
              (
                with_method "SETUP" request,
                normalize_headers platform.to_lower_copy request.headers,
              )
              requester
    unfolding handle_incoming_request handle_numbered_request contains
    to_setup s = rw (numbered, handle_incoming_request) (rw given (rw (s, contains) refl))

    to_method :
        {name : String} {method : Method} {identifier : String}
        → IsSessionMethod name method
        → lookup "session" (normalize_headers platform.to_lower_copy request.headers)
          ≡ some identifier
        → handle_incoming_request platform draws state (with_method name request) requester
          ≡ handle_method platform draws state method
              (with_method name request, normalize_headers platform.to_lower_copy request.headers)
              identifier
              cseq
              requester
    unfolding handle_incoming_request handle_numbered_request methods
    to_method is_teardown s = rw (numbered, handle_incoming_request) (rw given (rw s refl))
    to_method is_play s = rw (numbered, handle_incoming_request) (rw given (rw s refl))
    to_method is_pause s = rw (numbered, handle_incoming_request) (rw given (rw s refl))

    -- For a SETUP request with a CSeq that is not empty and without a Session header, if no session
    -- has the identifier drawn for the new one: the server knows a session under that identifier
    -- afterwards, also when the request is refused or ends in an exception, and has noted it for
    -- the host of the requester. The session and the answer are related as the state machine
    -- demands of SETUP on a session in init.
    pub handle_incoming_request-setup :
        lookup "session" (normalize_headers platform.to_lower_copy request.headers) ≡ none
        → lookup draws.identifier state.sessions ≡ none
        → let (state', answer) =
            handle_incoming_request platform draws state (with_method "SETUP" request) requester in
          (session : ServerSession) × (lookup draws.identifier state'.sessions ≡ some session)
          × (session.session_identifier ≡ draws.identifier)
          × (state'.sessions_by_host
              ≡ emplace_host requester draws.identifier state.sessions_by_host)
          × Handles "SETUP" cseq
              (record (new_session draws.identifier) { last_seen_request_address = requester })
              (session, answer)
    unfolding is_consistent
    handle_incoming_request-setup s fresh = subst Created (sym (to_setup s)) (
        handle_setup_cases platform draws Created state (with_method "SETUP" request, headers)
          requester
          (λ found at_key.
            let at_new =
              lookup-emplace_fresh draws.identifier (new_session draws.identifier) state.sessions
                fresh in
            let is_new : found ≡ new_session draws.identifier =
              some_injective (sym at_key ∙ at_new) in
            let handled : Handles "SETUP" cseq (seen found)
                (setup platform (seen found) (with_method "SETUP" request, headers) draws) =
              setup-Handles (with_method "SETUP" request, headers) numbered platform draws
                (seen found) (subst (λ f. is_consistent (seen f) ≡ true) (sym is_new) refl) in
            (
              (setup platform (seen found) (with_method "SETUP" request, headers) draws).0,
              lookup-assign_same draws.identifier _ _ at_key,
              Handles-same handled ∙ ap (λ f. f.session_identifier) is_new,
              ap (λ f. emplace_host requester f.session_identifier state.sessions_by_host) is_new,
              subst
                  (λ f.
                    Handles "SETUP" cseq (seen f)
                      (setup platform (seen found) (with_method "SETUP" request, headers) draws))
                  is_new handled,
            )))
      where
        seen : ServerSession → ServerSession
        seen s = record s { last_seen_request_address = requester }

        Created : ServerState × Answer → Type 0
        Created (state', answer) =
            (session : ServerSession) × (lookup draws.identifier state'.sessions ≡ some session)
            × (session.session_identifier ≡ draws.identifier)
            × (state'.sessions_by_host
                ≡ emplace_host requester draws.identifier state.sessions_by_host)
            × Handles "SETUP" cseq
                (record (new_session draws.identifier) { last_seen_request_address = requester })
                (session, answer)

    -- For a valid state and a TEARDOWN request with a CSeq that is not empty, whose Session header
    -- names a session that the server knows: the answer has status 200, and the server does not
    -- know the session afterwards.
    pub handle_incoming_request-teardown :
        {identifier : String} {found : ServerSession}
        → IsValid state
        → lookup "session" (normalize_headers platform.to_lower_copy request.headers)
          ≡ some identifier
        → lookup identifier state.sessions ≡ some found
        → let (state', answer) =
            handle_incoming_request platform draws state
              (with_method "TEARDOWN" request)
              requester in
          (response : Response) × (answer ≡ replies response)
          × (response.status_code ≡ 200)
          × (lookup identifier state'.sessions ≡ none)
    handle_incoming_request-teardown {identifier} {found} v s known =
        subst Removed (sym (to_method is_teardown s)) (
          handle_method_cases platform draws Removed state teardown
            (with_method "TEARDOWN" request, headers) identifier cseq requester
            (λ unknown. absurd (ground (arith, known, unknown)))
            (λ found at_key.
              rw
                (teardown-common_response (with_method "TEARDOWN" request, headers) numbered
                  (record found { last_seen_request_address = requester }))
                (
                  common_response (record found { last_seen_request_address = requester }) cseq,
                  refl,
                  refl,
                  lookup-delete_session_same identifier _
                      (assign-Distinct identifier _ state.sessions v.valid_sessions.0),
                )))
      where
        Removed : ServerState × Answer → Type 0
        Removed (state', answer) =
            (response : Response) × (answer ≡ replies response)
            × (response.status_code ≡ 200)
            × (lookup identifier state'.sessions ≡ none)

    -- A PLAY, PAUSE or TEARDOWN request with a CSeq that is not empty, whose Session header names a
    -- session that the server does not know, changes nothing, and is answered with 454.
    pub handle_incoming_request_unknown :
        {name : String} {method : Method} {identifier : String}
        → IsSessionMethod name method
        → lookup "session" (normalize_headers platform.to_lower_copy request.headers)
          ≡ some identifier
        → lookup identifier state.sessions ≡ none
        → handle_incoming_request platform draws state (with_method name request) requester
          ≡ (state, refusal 454 "Session not found" cseq)
    unfolding handle_method
    handle_incoming_request_unknown m s unknown = to_method m s ∙ rw (unknown, handle_method) refl
