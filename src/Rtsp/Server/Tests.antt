-- ===== src/Rtsp/Server/Tests.antt =====
-- A server with two sessions, and the witnesses of the theorems about its calls.
use Prim.Native.String.{String}
use text.Mathlib.Text.{◌==◌}
use text.Mathlib.TextEquality.{eq_iff}
use rtsp.Common.{
  true, false, none, some, List, [], ◌∷◌, ◌≡◌, ◌≢◌, refl, if◌then◌else◌, arith, some_injective,
}
use rtsp.Rtp.Sender.{construct}
use rtsp.Rtsp.Definitions.{Request, Response, RawHeaders}
use rtsp.Rtsp.Headers.{lookup, add_header, normalize_from, normalize_headers}
use rtsp.Rtsp.Transport.{TransportSpec, string, port, client, port_range}
use rtsp.Rtsp.Methods.{playing, ServerSession, replies}
use rtsp.Rtsp.Methods.Setup.{Platform, Draws}
use rtsp.Rtsp.Methods.Machine.{is_consistent, Handles}
use rtsp.Rtsp.Server.{
  ServerState, new_session, emplace, emplace_host, assign, refusal, handle_incoming_request,
  handle_timeout_of_host,
}
use rtsp.Rtsp.Server.Invariant.{IsValid, IsAnswered, emplace-AreValid, assign-AreValid}
use rtsp.Rtsp.Server.Timeout.{IsWithout, handle_timeout_of_host-IsWithout}
use rtsp.Rtsp.Server.Calls.{
  constructed, requested, handle_incoming_request-IsAnswered, Reachable-IsValid,
  handle_incoming_request_isolated,
}
use rtsp.Rtsp.Server.Lifetime.{
  with_method, is_play, handle_incoming_request-setup, handle_incoming_request-teardown,
  handle_incoming_request_unknown,
}

abbrev pub offered : List TransportSpec
offered =
    record {
      transport_protocol = "RTP";
      profile = "AVP";
      lower_transport = some "UDP";
      parameters = string "unicast" ∷ port client (port_range 49152 49153) ∷ [];
    }
    ∷ []

-- Names in lower case, one transport text and one resource.
abbrev pub example_platform : Platform
example_platform = record {
  to_lower_copy = λ name.
      if name == "CSeq"
      then "cseq"
      else if name == "Session"
      then "session"
      else if name == "Transport"
      then "transport"
      else name;
  parse_require = λ text. ([], text);
  parse_mkn_option_parameters = λ text. (record { bernoulli_p = 0; fec_k = 0; fec_p = 0 }, text);
  parse_transport = λ text.
      if text == "RTP/AVP;unicast;client_port=49152-49153" then (offered, "") else ([], text);
  generate_transport = λ specifications. "RTP/AVP/UDP;unicast";
  parse_file_name = λ uri. if uri == "rtsp://host/movie.mjpeg" then some "movie.mjpeg" else none;
  canonical = λ file_name. some "/srv/movie.mjpeg";
  contents = λ path. 48 ∷ [];
  binds = λ address port. true;
}

abbrev pub draws : Draws
draws = record {
  identifier = "c";
  random_port = 50000;
  random_ssrc = 77;
  random_sequence_number = 1336;
  random_fec_sequence_number = 20;
}

abbrev playing_session : ServerSession
playing_session = record {
  state = playing;
  rtp_session = some (construct (7, 49152) 49154 77 (48 ∷ []) 1336 20);
  last_seen_request_address = 7;
  session_identifier = "a";
}

abbrev serving : ServerState
serving = record {
  sessions =
      assign "a" playing_session (emplace "b" (new_session "b") (emplace "a" (new_session "a") []));
  sessions_by_host = (7, "a") ∷ (8, "b") ∷ (7, "gone") ∷ [];
}

serving-IsValid : IsValid serving
unfolding lookup is_consistent
serving-IsValid = record {
  valid_sessions =
      assign-AreValid "a" playing_session _ (refl, refl)
        (emplace-AreValid "b" _ (emplace-AreValid "a" [] (tt, λ key. tt)));
}

-- A request to a session, or without one.
abbrev request_to : RawHeaders → Request
request_to more = record {
  method_or_extension = "PLAY";
  uri = "rtsp://host/movie.mjpeg";
  rtsp_version_major = 1;
  rtsp_version_minor = 0;
  headers = ("CSeq", "5") ∷ more;
}

handle_incoming_request-IsAnswered_example :
    IsAnswered example_platform
      (request_to (("Session", "a") ∷ []))
      (handle_incoming_request example_platform draws serving
        (request_to (("Session", "a") ∷ []))
        9).1
handle_incoming_request-IsAnswered_example =
    handle_incoming_request-IsAnswered example_platform draws serving
      (request_to (("Session", "a") ∷ [])) 9 serving-IsValid

-- A SETUP on a fresh server.
abbrev first_call : ServerState
first_call =
    (handle_incoming_request example_platform draws
      (record { sessions = []; sessions_by_host = [] })
      (with_method "SETUP"
        (request_to (("Transport", "RTP/AVP;unicast;client_port=49152-49153") ∷ [])))
      9).0

Reachable-IsValid_example : IsValid first_call
Reachable-IsValid_example = Reachable-IsValid example_platform (requested constructed draws _ 9)

handle_timeout_of_host-IsWithout_example :
    (after : ServerState) × (handle_timeout_of_host 7 serving ≡ some after)
    × IsWithout 7 serving after
    × IsValid after
handle_timeout_of_host-IsWithout_example =
    handle_timeout_of_host-IsWithout 7 serving serving-IsValid

apart : (s t : String) → (s == t) ≡ false → s ≢ t
apart s t differ same = ground (arith, differ, (eq_iff s t).1 same)

handle_incoming_request_isolated_example :
    lookup "b"
      (handle_incoming_request example_platform draws serving
        (request_to (("Session", "a") ∷ []))
        9).0.sessions
    ≡ lookup "b" serving.sessions
unfolding lookup add_header normalize_from normalize_headers emplace assign
handle_incoming_request_isolated_example =
    handle_incoming_request_isolated example_platform draws serving
      (request_to (("Session", "a") ∷ [])) 9 "b" (refl, (refl, tt)) (λ e. apart "c" "b" refl e)
      (λ e. apart "a" "b" refl (some_injective e))

handle_incoming_request-setup_example :
    let (state', answer) =
      handle_incoming_request example_platform draws serving
        (with_method "SETUP" (request_to []))
        9 in
    (session : ServerSession) × (lookup "c" state'.sessions ≡ some session)
    × (session.session_identifier ≡ "c")
    × (state'.sessions_by_host ≡ emplace_host 9 "c" serving.sessions_by_host)
    × Handles "SETUP" "5"
        (record (new_session "c") { last_seen_request_address = 9 })
        (session, answer)
unfolding lookup add_header normalize_from normalize_headers emplace assign
handle_incoming_request-setup_example =
    handle_incoming_request-setup example_platform draws serving (request_to []) 9 {cseq = "5"} refl
      refl refl refl

handle_incoming_request-teardown_example :
    let (state', answer) =
      handle_incoming_request example_platform draws serving
        (with_method "TEARDOWN" (request_to (("Session", "a") ∷ [])))
        9 in
    (response : Response) × (answer ≡ replies response)
    × (response.status_code ≡ 200)
    × (lookup "a" state'.sessions ≡ none)
unfolding lookup add_header normalize_from normalize_headers emplace assign
handle_incoming_request-teardown_example =
    handle_incoming_request-teardown example_platform draws serving
      (request_to (("Session", "a") ∷ [])) 9 {cseq = "5"} refl refl {found = playing_session}
      serving-IsValid refl refl

handle_incoming_request_unknown_example :
    handle_incoming_request example_platform draws serving (request_to (("Session", "d") ∷ [])) 9
    ≡ (serving, refusal 454 "Session not found" "5")
unfolding lookup add_header normalize_from normalize_headers emplace assign
handle_incoming_request_unknown_example =
    handle_incoming_request_unknown example_platform draws serving
      (request_to (("Session", "d") ∷ [])) 9 {cseq = "5"} refl refl is_play refl refl
