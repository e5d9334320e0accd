-- ===== src/Rtsp/Server/Invariant.antt =====
-- What every call keeps of the server's sessions, and what it answers.
use Prim.Native.String.{String}
use text.Mathlib.Text.{◌==◌}
use text.Mathlib.TextEquality.{eq_iff}
use text.Mathlib.TextPositions.{eq_refl}
use rtsp.Common.{
  ℕ, ◌≡◌, ◌≢◌, refl, sym, ◌∙◌, subst, true, Option, none, some, arith, value_or, if_cases,
}
use rtsp.Rtsp.Definitions.{Request, Response, NormalizedHeaders, Address}
use rtsp.Rtsp.Headers.{lookup, normalize_headers}
use rtsp.Rtsp.Methods.{SessionState, ServerSession, Answer, replies, throws, dereferences_null}
use rtsp.Rtsp.Methods.Setup.{Platform, Draws, setup}
use rtsp.Rtsp.Methods.Refusals.{starts_with}
use rtsp.Rtsp.Methods.Machine.{
  is_consistent, Step, Handles, answers, leaves, sets_up, starts_playing, plays_on, pauses,
  tears_down, lists_options, refuses, setup-Handles,
}
use rtsp.Rtsp.Server.{
  ServerState, Method, new_session, emplace, assign, after_method, delete_session, methods,
  handle_setup, handle_method, handle_incoming_request,
}
use rtsp.Rtsp.Server.Sessions.{
  Sessions, Distinct, replaced, lookup-emplace, lookup-assign, lookup-delete_session,
  emplace-Distinct, assign-Distinct, delete_session-Distinct,
}
use rtsp.Rtsp.Server.Answers.{
  methods-Handles, request_cases, handle_setup_cases, handle_method_cases,
}

-- A session of the map stands under its own identifier, and has a sender exactly when it is past init.
abbrev pub IsEntry : String → Option ServerSession → Type 0
IsEntry key none = Unit {0}
IsEntry key (some s) = (s.session_identifier ≡ key) × (is_consistent s ≡ true)

abbrev pub AreValid : Sessions → Type 0
AreValid sessions = Distinct sessions × ((key : String) → IsEntry key (lookup key sessions))

pub record IsValid (state : ServerState) : Type 0 where
  pub valid_sessions : AreValid state.sessions

-- The one of two equal keys for the other.
moved :
    (key other : String) (o : Option ServerSession)
    → (key == other) ≡ true
    → IsEntry key o
    → IsEntry other o
moved key other o hit = subst (λ k. IsEntry k o) ((eq_iff key other).0 hit)

emplaced :
    (key : String) (o : Option ServerSession)
    → IsEntry key o
    → IsEntry key (some (value_or o (new_session key)))
unfolding is_consistent
emplaced key none h = (refl, refl)
emplaced key (some s) h = h

pub emplace-AreValid :
    (key : String) (sessions : Sessions)
    → AreValid sessions
    → AreValid (emplace key (new_session key) sessions)
emplace-AreValid key sessions (d, v) = (
  emplace-Distinct key (new_session key) sessions d,
  λ other. subst (IsEntry other) (sym (lookup-emplace other key (new_session key) sessions)) (
      if_cases (IsEntry other) (key == other)
        (λ hit.
          moved key other (some (value_or (lookup key sessions) (new_session key))) hit
            (emplaced key (lookup key sessions) (v key)))
        (λ _. v other)),
)

assigned :
    (key : String) (session : ServerSession) (o : Option ServerSession)
    → IsEntry key (some session)
    → IsEntry key (replaced o session)
assigned key session none h = tt
assigned key session (some s) h = h

pub assign-AreValid :
    (key : String) (session : ServerSession) (sessions : Sessions)
    → IsEntry key (some session)
    → AreValid sessions
    → AreValid (assign key session sessions)
assign-AreValid key session sessions entry (d, v) = (
  assign-Distinct key session sessions d,
  λ other. subst (IsEntry other) (sym (lookup-assign other key session sessions)) (
      if_cases (IsEntry other) (key == other)
        (λ hit.
          moved key other (replaced (lookup key sessions) session) hit
            (assigned key session (lookup key sessions) entry))
        (λ _. v other)),
)

pub delete_session-AreValid :
    (key : String) (sessions : Sessions)
    → AreValid sessions
    → AreValid (delete_session key sessions)
delete_session-AreValid key sessions (d, v) = (
  delete_session-Distinct key sessions d,
  λ other.
      subst (IsEntry other) (sym (lookup-delete_session other key sessions d))
        (if_cases (IsEntry other) (key == other) (λ hit. tt) (λ _. v other)),
)

-- How a call ends: never in a null dereference, with an exception only in SETUP, and with a response
-- that some branch has set and that begins with the CSeq of the request, unless it has none.
pub data IsAnswered (platform : Platform) (request : Request) : Answer → Type 0 where
  without_cseq :
      {response : Response}
      → response.status_code ≡ 400
      → IsAnswered platform request (replies response)
  with_cseq :
      {cseq : String} {response : Response}
      → lookup "cseq" (normalize_headers platform.to_lower_copy request.headers) ≡ some cseq
      → starts_with ("CSeq", cseq) response.headers ≡ true
      → response.status_code ≢ 500
      → IsAnswered platform request (replies response)
  in_setup : request.method_or_extension ≡ "SETUP" → IsAnswered platform request throws

Step-status :
    {name : String} {before after : SessionState} {status_code : ℕ}
    → Step name before status_code after
    → status_code ≢ 500
Step-status sets_up = ground arith
Step-status starts_playing = ground arith
Step-status plays_on = ground arith
Step-status pauses = ground arith
Step-status tears_down = ground arith
Step-status lists_options = ground arith
Step-status (refuses h) = h.1

-- What a method's result means for the map and for the answer.
Handles-IsEntry :
    {name cseq key : String} {session : ServerSession} {result : ServerSession × Answer}
    → Handles name cseq session result
    → IsEntry key (some session)
    → IsEntry key (some result.0)
Handles-IsEntry (answers same c first s) h = (same ∙ h.0, c)
Handles-IsEntry (leaves _) h = h

Handles-IsAnswered :
    {platform : Platform} {request : Request} {cseq : String} {session : ServerSession}
    {result : ServerSession × Answer}
    → lookup "cseq" (normalize_headers platform.to_lower_copy request.headers) ≡ some cseq
    → Handles request.method_or_extension cseq session result
    → IsAnswered platform request result.1
Handles-IsAnswered e (answers same c first s) = with_cseq e first (Step-status s)
Handles-IsAnswered e (leaves setup) = in_setup setup

-- The address plays no part in the consistency of a session.
seen :
    (requester : Address) (session : ServerSession)
    → is_consistent session ≡ true
    → is_consistent (record session { last_seen_request_address = requester }) ≡ true
unfolding is_consistent
seen requester session c = c

after_method-AreValid :
    (method identifier : String) (answer : Answer) (sessions : Sessions)
    → AreValid sessions
    → AreValid (after_method method identifier answer sessions)
after_method-AreValid method identifier (replies response) sessions v =
    if_cases AreValid (method == "TEARDOWN") (λ _. delete_session-AreValid identifier sessions v)
      (λ _. v)
after_method-AreValid method identifier throws sessions v = v
after_method-AreValid method identifier dereferences_null sessions v = v

-- A call keeps the map valid and is answered.
unfoldable pub Serves : Platform → Request → ServerState × Answer → Type 0
Serves platform request (state, answer) = IsValid state × IsAnswered platform request answer

module _ (platform : Platform) (draws : Draws) (state : ServerState) (v : IsValid state) where
  handle_setup-Serves :
      (request : Request) (requester : Address) {cseq : String}
      → lookup "cseq" (normalize_headers platform.to_lower_copy request.headers) ≡ some cseq
      → request.method_or_extension ≡ "SETUP"
      → Serves platform request (
          handle_setup platform draws state
            (request, normalize_headers platform.to_lower_copy request.headers)
            requester)
  unfolding Serves
  handle_setup-Serves request requester {cseq} e is_setup =
      handle_setup_cases platform draws (Serves platform request) state (request, headers) requester
        (λ found at_key.
          let inserted = emplace-AreValid draws.identifier state.sessions v.valid_sessions in
          let entry : IsEntry draws.identifier (some found) =
            subst (IsEntry draws.identifier) at_key (inserted.1 draws.identifier) in
          let handled =
            setup-Handles (request, headers) e platform draws
              (record found { last_seen_request_address = requester })
              (seen requester found (entry.1)) in
          (
            record {
              valid_sessions =
                  assign-AreValid draws.identifier _ _
                    (Handles-IsEntry handled (entry.0, seen requester found entry.1)) inserted;
            },
            Handles-IsAnswered e (renamed is_setup handled),
          ))
    where
      headers : NormalizedHeaders
      headers = normalize_headers platform.to_lower_copy request.headers

      renamed :
          {session : ServerSession} {result : ServerSession × Answer}
          → request.method_or_extension ≡ "SETUP"
          → Handles "SETUP" cseq session result
          → Handles request.method_or_extension cseq session result
      renamed {session} {result} same = subst (λ name. Handles name cseq session result) (sym same)

  handle_method-Serves :
      (request : Request) (requester : Address) {method : Method} {cseq : String}
      (identifier : String)
      → lookup "cseq" (normalize_headers platform.to_lower_copy request.headers) ≡ some cseq
      → methods platform draws request.method_or_extension ≡ some method
      → Serves platform request (
          handle_method platform draws state method
            (request, normalize_headers platform.to_lower_copy request.headers)
            identifier
            cseq
            requester)
  unfolding Serves
  handle_method-Serves request requester {method} {cseq} identifier e known =
      handle_method_cases platform draws (Serves platform request) state method (request, headers)
        identifier cseq requester (λ _. (v, with_cseq e (eq_refl cseq) (ground arith)))
        (λ found at_key.
          let entry : IsEntry identifier (some found) =
            subst (IsEntry identifier) at_key (v.valid_sessions.1 identifier) in
          let handled =
            methods-Handles platform draws request.method_or_extension (request, headers)
              (record found { last_seen_request_address = requester }) known e
              (seen requester found entry.1) in
          (
            record {
              valid_sessions = after_method-AreValid request.method_or_extension identifier _ _ (
                  assign-AreValid identifier _ _
                    (Handles-IsEntry handled (entry.0, seen requester found entry.1))
                    v.valid_sessions);
            },
            Handles-IsAnswered e handled,
          ))
    where
      headers : NormalizedHeaders
      headers = normalize_headers platform.to_lower_copy request.headers

  pub handle_incoming_request-Serves :
      (request : Request) (requester : Address)
      → Serves platform request (handle_incoming_request platform draws state request requester)
  unfolding Serves
  handle_incoming_request-Serves request requester =
      request_cases platform draws (Serves platform request) state request requester
        (v, without_cseq refl) (λ cseq response e first ok. (v, with_cseq e first ok))
        (λ cseq e is_setup. handle_setup-Serves request requester e is_setup)
        (λ cseq identifier method e given known.
          handle_method-Serves request requester identifier e known)
