-- ===== src/Rtsp/Server/Answers.antt =====
-- The branches of handle_incoming_request, and what its methods do to a session.
use Prim.Native.String.{String}
use text.Mathlib.Text.{◌==◌}
use text.Mathlib.TextEquality.{eq_iff}
use text.Mathlib.TextPositions.{eq_refl}
use rtsp.Common.{
  ◌≡◌, ◌≢◌, inl, inr, refl, sym, subst, true, Option, none, some, arith, if_cases, Option-cases,
}
use rtsp.Rtsp.Definitions.{Request, Response, InternalRequest, NormalizedHeaders, Address}
use rtsp.Rtsp.Headers.{lookup, contains, normalize_headers}
use rtsp.Rtsp.Methods.{ServerSession, Answer, replies, with_status}
use rtsp.Rtsp.Methods.Setup.{Platform, Draws, setup}
use rtsp.Rtsp.Methods.Refusals.{starts_with}
use rtsp.Rtsp.Methods.Machine.{
  is_consistent, Step, Handles, answers, lists_options, setup-Handles, teardown-Handles,
  play-Handles, pause-Handles,
}
use rtsp.Rtsp.Server.{
  ServerState, Method, options, unchanged_response, refusal, methods, handle_setup, handle_method,
  handle_numbered_request, new_session, emplace, emplace_host, assign, after_method,
  handle_incoming_request,
}
use rtsp.Rtsp.Server.Sessions.{lookup-emplace}

-- A property of the answer to OPTIONS, by its one case for a request with a CSeq.
options_cases {ℓ} :
    (P : Answer → Type ℓ) (request : InternalRequest) {cseq : String}
    → lookup "cseq" request.1 ≡ some cseq
    → ((response : Response)
        → starts_with ("CSeq", cseq) response.headers ≡ true
        → response.status_code ≡ 200
        → P (replies response))
    → P (options request)
unfolding options
options_cases P request {cseq} e h = rw (e, options) (h _ (eq_refl cseq) refl)

options-Handles :
    (session : ServerSession) (request : InternalRequest) {cseq : String}
    → lookup "cseq" request.1 ≡ some cseq
    → is_consistent session ≡ true
    → Handles "OPTIONS" cseq session (session, options request)
options-Handles session request {cseq} e c =
    options_cases (λ answer. Handles "OPTIONS" cseq session (session, answer)) request e
      (λ response first ok.
        answers refl c first
          (subst (λ n. Step "OPTIONS" session.state n session.state) (sym ok) lists_options))

module _ (platform : Platform) (draws : Draws) where
  -- Every method that the server knows is a step of the state machine: on a consistent session and a
  -- request with a CSeq, whichever method `methods_` holds under a name either answers, and then the
  -- session is the same one, still consistent, has made a move that the machine allows for that name
  -- and status code, and the response begins with the CSeq; or the call ends in an exception, which only
  -- SETUP does, and the session is unchanged.
  pub methods-Handles :
      (name : String) (request : InternalRequest) (session : ServerSession) {method : Method}
      {cseq : String}
      → methods platform draws name ≡ some method
      → lookup "cseq" request.1 ≡ some cseq
      → is_consistent session ≡ true
      → Handles name cseq session (method session request)
  unfolding methods options
  methods-Handles name request session {method} {cseq} known e c = subst Known known (
      if_cases Known (name == "OPTIONS") (at "OPTIONS" (options-Handles session request e c)) (λ _.
        if_cases Known (name == "SETUP")
          (at "SETUP" (setup-Handles request e platform draws session c))
          (λ _.
            if_cases Known (name == "TEARDOWN")
              (at "TEARDOWN" (teardown-Handles request e session c))
              (λ _.
                if_cases Known (name == "PLAY") (at "PLAY" (play-Handles request e session c)) (λ _.
                  if_cases Known (name == "PAUSE") (at "PAUSE" (pause-Handles request e session c))
                    (λ _. tt))))))
    where
      Known : Option Method → Type 0
      Known none = Unit {0}
      Known (some m) = Handles name cseq session (m session request)

      at :
          (literal : String) {result : ServerSession × Answer}
          → Handles literal cseq session result
          → (name == literal) ≡ true
          → Handles name cseq session result
      at literal {result} h hit =
          subst (λ n. Handles n cseq session result) (sym ((eq_iff name literal).0 hit)) h

  -- A property of the result holds if it holds in each branch.
  pub request_cases {ℓ} :
      (P : ServerState × Answer → Type ℓ) (state : ServerState) (request : Request)
      (requester : Address)
      → P (state, replies (with_status unchanged_response 400 "Bad Request: CSeq missing"))
      → ((cseq : String) (response : Response)
          → lookup "cseq" (normalize_headers platform.to_lower_copy request.headers) ≡ some cseq
          → starts_with ("CSeq", cseq) response.headers ≡ true
          → response.status_code ≢ 500
          → P (state, replies response))
      → ((cseq : String)
          → lookup "cseq" (normalize_headers platform.to_lower_copy request.headers) ≡ some cseq
          → request.method_or_extension ≡ "SETUP"
          → P (
              handle_setup platform draws state
                (request, normalize_headers platform.to_lower_copy request.headers)
                requester))
      → ((cseq identifier : String) (method : Method)
          → lookup "cseq" (normalize_headers platform.to_lower_copy request.headers) ≡ some cseq
          → lookup "session" (normalize_headers platform.to_lower_copy request.headers)
            ≡ some identifier
          → methods platform draws request.method_or_extension ≡ some method
          → P (
              handle_method platform draws state method
                (request, normalize_headers platform.to_lower_copy request.headers)
                identifier
                cseq
                requester))
      → P (handle_incoming_request platform draws state request requester)
  unfolding handle_incoming_request handle_numbered_request options
  request_cases P state request requester missing unchanged sets_up runs =
      elim (Option-cases (lookup "cseq" headers)) [
        | inl e ↦ rw (e, handle_incoming_request) missing
        | inr (cseq, e) ↦
            rw (e, handle_incoming_request)
              (if_cases P (cseq == "") (λ _. missing)
                (λ _.
                  if_cases P (request.method_or_extension == "OPTIONS")
                    (λ _.
                      options_cases (λ answer. P (state, answer)) (request, headers) e
                        (λ response first ok. unchanged cseq response e first (omega arith)))
                    (λ _.
                      if_cases P (request.method_or_extension == "DESCRIBE")
                        (λ _. unchanged cseq _ e (eq_refl cseq) (omega arith))
                        (λ _.
                          if_cases P (request.method_or_extension == "SETUP")
                            (λ hit.
                              if_cases P (contains "session" headers)
                                (λ _. unchanged cseq _ e (eq_refl cseq) (omega arith))
                                (λ _. sets_up cseq e ((eq_iff _ "SETUP").0 hit)))
                            (λ _. elim (Option-cases (lookup "session" headers)) [
                              | inl none_given ↦
                                  rw none_given (unchanged cseq _ e (eq_refl cseq) (omega arith))
                              | inr (identifier, given) ↦
                                  rw given
                                    (elim (Option-cases
                                      (methods platform draws request.method_or_extension)) [
                                        | inl unknown ↦
                                            rw unknown
                                              (unchanged cseq _ e (eq_refl cseq) (omega arith))
                                        | inr (method, known) ↦
                                            rw known (runs cseq identifier method e given known)
                                      ])
                            ])))))
      ]
    where
      headers : NormalizedHeaders
      headers = normalize_headers platform.to_lower_copy request.headers

  -- A property of the result of SETUP, by the session that the handler finds after its `emplace`.
  pub handle_setup_cases {ℓ} :
      (P : ServerState × Answer → Type ℓ) (state : ServerState) (request : InternalRequest)
      (requester : Address)
      → (let key = draws.identifier in
          (found : ServerSession)
          → lookup key (emplace key (new_session key) state.sessions) ≡ some found
          → let (session', answer) =
              setup platform
                (record found { last_seen_request_address = requester })
                request
                draws in
            P (
              record {
                sessions = assign key session' (emplace key (new_session key) state.sessions);
                sessions_by_host =
                    emplace_host requester found.session_identifier state.sessions_by_host;
              },
              answer,
            ))
      → P (handle_setup platform draws state request requester)
  unfolding handle_setup
  handle_setup_cases P state request requester h =
      elim (Option-cases (
        lookup draws.identifier
          (emplace draws.identifier (new_session draws.identifier) state.sessions))) [
            | inl e ↦ absurd (
                ground (
                  arith,
                  e,
                  eq_refl draws.identifier,
                  lookup-emplace draws.identifier draws.identifier (new_session draws.identifier)
                      state.sessions,
                ))
            | inr (session, e) ↦ rw (e, handle_setup) (h session e)
          ]

  -- A property of the result of a method on a session, by whether the server knows the session.
  pub handle_method_cases {ℓ} :
      (P : ServerState × Answer → Type ℓ) (state : ServerState) (method : Method)
      (request : InternalRequest) (identifier cseq : String) (requester : Address)
      → (lookup identifier state.sessions ≡ none → P (state, refusal 454 "Session not found" cseq))
      → ((found : ServerSession)
          → lookup identifier state.sessions ≡ some found
          → let (session', answer) =
              method (record found { last_seen_request_address = requester }) request in
            P (
              record state {
                sessions =
                    after_method request.0.method_or_extension identifier answer
                      (assign identifier session' state.sessions);
              },
              answer,
            ))
      → P (handle_method platform draws state method request identifier cseq requester)
  unfolding handle_method
  handle_method_cases P state method request identifier cseq requester missing found =
      elim (Option-cases (lookup identifier state.sessions)) [
        | inl e ↦ rw (e, handle_method) (missing e)
        | inr (session, e) ↦ rw (e, handle_method) (found session e)
      ]
