-- ===== src/Rtsp/Server/Calls.antt =====
-- Runs of the server: sequences of requests and timeouts.
use Prim.Native.String.{String}
use rtsp.Common.{◌≡◌, ◌≢◌, refl, sym, ap, ◌∙◌, subst, some, [], some_injective}
use rtsp.Rtsp.Definitions.{Request, Address}
use rtsp.Rtsp.Headers.{lookup, normalize_headers}
use rtsp.Rtsp.Methods.{Answer}
use rtsp.Rtsp.Methods.Setup.{Platform, Draws}
use rtsp.Rtsp.Server.{ServerState, handle_incoming_request, handle_timeout_of_host}
use rtsp.Rtsp.Server.Sessions.{
  Distinct, assign-Distinct, lookup-emplace_other, lookup-assign_other, lookup-after_method_other,
}
use rtsp.Rtsp.Server.Answers.{request_cases, handle_setup_cases, handle_method_cases}
use rtsp.Rtsp.Server.Invariant.{IsValid, IsAnswered, Serves, handle_incoming_request-Serves}
use rtsp.Rtsp.Server.Timeout.{handle_timeout_of_host-IsWithout}

-- For every valid state, request and requester: handling the request never follows a null pointer,
-- ends in an exception only if its method is SETUP, and otherwise gives a response that has status
-- 400, or that begins with the CSeq of the request and does not have the initial status 500.
pub handle_incoming_request-IsAnswered :
    (platform : Platform) (draws : Draws) (state : ServerState) (request : Request)
    (requester : Address)
    → IsValid state
    → IsAnswered platform request (handle_incoming_request platform draws state request requester).1
unfolding Serves
handle_incoming_request-IsAnswered platform draws state request requester v =
    (handle_incoming_request-Serves platform draws state v request requester).1

-- The states of a server from its construction on.
pub data Reachable (platform : Platform) : ServerState → Type 0 where
  constructed : Reachable platform (record { sessions = []; sessions_by_host = [] })
  requested :
      {state : ServerState}
      → Reachable platform state
      → (draws : Draws) (request : Request) (requester : Address)
      → Reachable platform (handle_incoming_request platform draws state request requester).0
  timed_out :
      {state after : ServerState}
      → Reachable platform state
      → (host : Address) → handle_timeout_of_host host state ≡ some after
      → Reachable platform after

-- In every state that requests and timeouts lead to, whichever numbers were drawn and whichever requests
-- failed: no identifier occurs twice in the map, every session stands under its own identifier, no
-- session records, and a session has a sender exactly when it is ready or playing.
pub Reachable-IsValid :
    (platform : Platform) {state : ServerState} → Reachable platform state → IsValid state
unfolding Serves lookup
Reachable-IsValid platform constructed = record { valid_sessions = (tt, λ key. tt) }
Reachable-IsValid platform (requested {state} r draws request requester) =
    (handle_incoming_request-Serves platform draws state (Reachable-IsValid platform r) request
      requester).0
Reachable-IsValid platform (timed_out {state} {after} r host e) =
    let (after', same, without, valid) =
      handle_timeout_of_host-IsWithout host state (Reachable-IsValid platform r) in
    subst IsValid (some_injective (sym same ∙ e)) valid

-- For every state without duplicate identifiers, and every request: a session that is neither named by
-- the Session header nor has the identifier drawn for a new session is the same before and after.
pub handle_incoming_request_isolated :
    (platform : Platform) (draws : Draws) (state : ServerState) (request : Request)
    (requester : Address) (key : String)
    → Distinct state.sessions
    → draws.identifier ≢ key
    → lookup "session" (normalize_headers platform.to_lower_copy request.headers) ≢ some key
    → lookup key (handle_incoming_request platform draws state request requester).0.sessions
      ≡ lookup key state.sessions
handle_incoming_request_isolated platform draws state request requester key d fresh other =
    request_cases platform draws Same state request requester refl (λ _ _ _ _ _. refl)
      (λ cseq e is_setup. handle_setup_cases platform draws Same state _ requester (λ found at_key.
        lookup-assign_other fresh _ _ ∙ lookup-emplace_other fresh _ state.sessions))
      (λ cseq identifier method e given known.
        handle_method_cases platform draws Same state method _ identifier cseq requester (λ _. refl)
          (λ found at_key.
            lookup-after_method_other (apart given) request.method_or_extension _ _
              (assign-Distinct identifier _ state.sessions d)
            ∙ lookup-assign_other (apart given) _ state.sessions))
  where
    apart :
        {identifier : String}
        → lookup "session" (normalize_headers platform.to_lower_copy request.headers)
          ≡ some identifier
        → identifier ≢ key
    apart given same = other (given ∙ ap some same)

    Same : ServerState × Answer → Type 0
    Same result = lookup key result.0.sessions ≡ lookup key state.sessions
