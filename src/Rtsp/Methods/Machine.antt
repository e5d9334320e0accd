-- ===== src/Rtsp/Methods/Machine.antt =====
-- The state machine of a session, and the methods as steps of it.
use Prim.Native.String.{String}
use text.Mathlib.TextPositions.{eq_refl}
use rtsp.Common.{ℕ, ◌≡◌, subst, sym, refl, Bool, true, false, Option, none, some, [], ◌∷◌, arith}
use rtsp.Rtp.Sender.{Sender}
use rtsp.Rtsp.Definitions.{Response, InternalRequest}
use rtsp.Rtsp.Headers.{lookup}
use rtsp.Rtsp.Transport.{TransportSpec}
use rtsp.Rtsp.Methods.Refusals.{
  IsRefusal, starts_with, EndsWell, goes_well, refuses_well, fails, prepare-EndsWell,
}
use rtsp.Rtsp.Methods.{
  SessionState, init, ready, playing, recording, ServerSession, Answer, replies, throws,
  common_response_sekeleton, with_skeleton, play, pause, teardown,
}
use rtsp.Rtsp.Methods.Setup.{Platform, Draws, Early, goes_on, ends, finish, setup}

-- A session has a sender from the first SETUP that succeeds on, and never records.
unfoldable pub is_consistent : ServerSession → Bool
is_consistent session = elim session.state [
  | init ↦ elim session.rtp_session [ none ↦ true | some sender ↦ false ]
  | recording ↦ false
  | _ ↦ elim session.rtp_session [ none ↦ false | some sender ↦ true ]
]

-- The moves that a method may make, with the status code of its response.
pub data Step : String → SessionState → ℕ → SessionState → Type 0 where
  sets_up : Step "SETUP" init 200 ready
  starts_playing : Step "PLAY" ready 200 playing
  plays_on : Step "PLAY" playing 200 playing
  pauses : Step "PAUSE" playing 200 ready
  tears_down : {state : SessionState} → Step "TEARDOWN" state 200 state
  lists_options : {state : SessionState} → Step "OPTIONS" state 200 state
  refuses :
      {name : String} {state : SessionState} {status_code : ℕ}
      → IsRefusal status_code
      → Step name state status_code state

-- What a method on a session does: the session stays the same one and consistent, and a response
-- repeats the CSeq and belongs to a step.
pub data Handles (name cseq : String) (session : ServerSession)
    : ServerSession × Answer → Type 0 where
  answers :
      {session' : ServerSession} {response : Response}
      → session'.session_identifier ≡ session.session_identifier
      → is_consistent session' ≡ true
      → starts_with ("CSeq", cseq) response.headers ≡ true
      → Step name session.state response.status_code session'.state
      → Handles name cseq session (session', replies response)
  leaves : name ≡ "SETUP" → Handles name cseq session (session, throws)

-- A property of all consistent sessions, by the cases of their state.
consistent_cases {ℓ} :
    (P : ServerSession → Type ℓ)
    → ((session : ServerSession) → P (record session { state = init; rtp_session = none }))
    → ((session : ServerSession) (sender : Sender)
        → P (record session { state = ready; rtp_session = some sender }))
    → ((session : ServerSession) (sender : Sender)
        → P (record session { state = playing; rtp_session = some sender }))
    → (session : ServerSession) → is_consistent session ≡ true
    → P session
unfolding is_consistent
consistent_cases P at_init at_ready at_playing session c = go session.state session.rtp_session c
  where
    go :
        (state : SessionState) (rtp_session : Option Sender)
        → is_consistent (record session { state = state; rtp_session = rtp_session }) ≡ true
        → P (record session { state = state; rtp_session = rtp_session })
    go init none c = at_init session
    go init (some sender) c = cc
    go ready none c = cc
    go ready (some sender) c = at_ready session sender
    go playing none c = cc
    go playing (some sender) c = at_playing session sender
    go recording rtp_session c = cc

-- The response of `common_response_sekeleton`.
abbrev pub common_response : ServerSession → String → Response
common_response session cseq = record {
  rtsp_version_major = 1;
  rtsp_version_minor = 0;
  status_code = 200;
  reason_phrase = "OK";
  headers = ("CSeq", cseq) ∷ ("Session", session.session_identifier) ∷ [];
}

module _ (request : InternalRequest) {cseq : String} (e : lookup "cseq" request.1 ≡ some cseq) where
  -- A property of a method's result holds if it holds where the body starts from the response.
  pub from_skeleton {ℓ} :
      (P : ServerSession × Answer → Type ℓ) (session : ServerSession)
      (body : Response → ServerSession × Answer)
      → P (body (common_response session cseq))
      → P (with_skeleton session request body)
  unfolding common_response_sekeleton
  from_skeleton P session body h = rw (e, with_skeleton) h

  pub teardown-common_response :
      (session : ServerSession)
      → teardown session request ≡ (session, replies (common_response session cseq))
  unfolding teardown
  teardown-common_response session =
      from_skeleton (λ result. result ≡ (session, replies (common_response session cseq))) session _
        refl

  pub teardown-Handles :
      (session : ServerSession)
      → is_consistent session ≡ true
      → Handles "TEARDOWN" cseq session (teardown session request)
  unfolding teardown
  teardown-Handles session c =
      from_skeleton (Handles "TEARDOWN" cseq session) session _
        (answers refl c (eq_refl cseq) tears_down)

  pub pause-Handles :
      (session : ServerSession)
      → is_consistent session ≡ true
      → Handles "PAUSE" cseq session (pause session request)
  unfolding pause is_consistent
  pause-Handles =
      consistent_cases (λ session. Handles "PAUSE" cseq session (pause session request))
        (λ session.
          from_skeleton (Handles "PAUSE" cseq _) _ _
            (answers refl refl (eq_refl cseq) (refuses (ground arith))))
        (λ session sender.
          from_skeleton (Handles "PAUSE" cseq _) _ _
            (answers refl refl (eq_refl cseq) (refuses (ground arith))))
        (λ session sender.
          from_skeleton (Handles "PAUSE" cseq _) _ _ (answers refl refl (eq_refl cseq) pauses))

  pub play-Handles :
      (session : ServerSession)
      → is_consistent session ≡ true
      → Handles "PLAY" cseq session (play session request)
  unfolding play is_consistent
  play-Handles =
      consistent_cases (λ session. Handles "PLAY" cseq session (play session request))
        (λ session.
          from_skeleton (Handles "PLAY" cseq _) _ _
            (answers refl refl (eq_refl cseq) (refuses (ground arith))))
        (λ session sender.
          from_skeleton (Handles "PLAY" cseq _) _ _
            (answers refl refl (eq_refl cseq) starts_playing))
        (λ session sender.
          from_skeleton (Handles "PLAY" cseq _) _ _ (answers refl refl (eq_refl cseq) plays_on))

  pub setup-Handles :
      (platform : Platform) (draws : Draws) (session : ServerSession)
      → is_consistent session ≡ true
      → Handles "SETUP" cseq session (setup platform session request draws)
  unfolding setup is_consistent
  setup-Handles platform draws session c = from_skeleton (Handles "SETUP" cseq session) session _ (
      go _ (
        prepare-EndsWell platform session request.0 request.1 draws (common_response session cseq)
          (eq_refl cseq)))
    where
      go :
          (result : Early (Sender × TransportSpec))
          → EndsWell cseq (λ _. session.state ≡ init) result
          → Handles "SETUP" cseq session
              (finish platform session (common_response session cseq) result)
      go (goes_on (sender, transport)) (goes_well e) =
          answers refl refl (eq_refl cseq)
            (subst (λ state. Step "SETUP" state 200 ready) (sym e) sets_up)
      go (ends _) (refuses_well h k) = answers refl c k (refuses h)
      go (ends _) fails = leaves refl
