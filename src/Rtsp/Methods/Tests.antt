-- ===== src/Rtsp/Methods/Tests.antt =====
-- A SETUP, and the witnesses of the theorems about the methods.
use rtsp.Common.{ℕ, true, none, some, List, [], ◌∷◌, ◌≡◌, refl}
use rtsp.Rtp.Sender.{construct}
use rtsp.Rtsp.Definitions.{Request, NormalizedHeaders}
use rtsp.Rtsp.Headers.{lookup}
use rtsp.Rtsp.Transport.{
  TransportSpec, process_server_transport, uses, string, port, client, port_range, is_acceptable,
  choose_spec,
}
use rtsp.Rtsp.Methods.{ready, ServerSession, play}
use rtsp.Rtsp.Methods.Setup.{Platform, Draws, setup, get_jpeg_stream}
use rtsp.Rtsp.Methods.Machine.{is_consistent, Handles}
use rtsp.Rtsp.Methods.Success.{asked_port, outcome, setup-outcome}
use rtsp.Rtsp.Server.{new_session, methods}
use rtsp.Rtsp.Server.Answers.{methods-Handles}

-- A client that asks for no server port.
abbrev asked_spec : TransportSpec
asked_spec = record {
  transport_protocol = "RTP";
  profile = "AVP";
  lower_transport = none;
  parameters = string "unicast" ∷ port client (port_range 49152 49153) ∷ [];
}

abbrev asked : List TransportSpec
asked = asked_spec ∷ []

abbrev platform : List TransportSpec → Platform
platform specifications = record {
  to_lower_copy = λ name. name;
  parse_require = λ text. ([], text);
  parse_mkn_option_parameters = λ text. (record { bernoulli_p = 0; fec_k = 0; fec_p = 0 }, text);
  parse_transport = λ text. (specifications, "");
  generate_transport = λ specifications. "RTP/AVP/UDP;unicast";
  parse_file_name = λ uri. some "movie.mjpeg";
  canonical = λ file_name. some "/srv/movie.mjpeg";
  contents = λ path. 48 ∷ [];
  binds = λ address port. true;
}

abbrev draws : Draws
draws = record {
  identifier = "c";
  random_port = 50000;
  random_ssrc = 77;
  random_sequence_number = 1336;
  random_fec_sequence_number = 20;
}

abbrev request : Request
request = record {
  method_or_extension = "SETUP";
  uri = "rtsp://host/movie.mjpeg";
  rtsp_version_major = 1;
  rtsp_version_minor = 0;
  headers = [];
}

abbrev headers : NormalizedHeaders
headers = ("cseq", "5") ∷ ("transport", "RTP/AVP;unicast") ∷ []

setup-outcome_example :
    (client_port source : ℕ) × (process_server_transport (choose_spec asked_spec 50000 77 ∷ [])
      ≡ uses client_port source)
    × (setup (platform asked) (new_session "c") (request, headers) draws
        ≡ outcome
            (platform asked)
            draws
            (new_session "c")
            "5"
            (48 ∷ [])
            (choose_spec asked_spec 50000 77)
            client_port
            source
            (asked_port asked_spec client_port))
unfolding lookup get_jpeg_stream is_acceptable
setup-outcome_example =
    setup-outcome (platform asked) draws (new_session "c") request headers asked_spec refl refl refl
      refl refl refl refl

abbrev ready_session : ServerSession
ready_session = record (new_session "c") {
  state = ready;
  rtp_session = some (construct (0, 49152) 49154 77 (48 ∷ []) 1336 20);
}

methods-Handles_example : Handles "PLAY" "5" ready_session (play ready_session (request, headers))
unfolding lookup methods is_consistent
methods-Handles_example =
    methods-Handles (platform asked) draws "PLAY" (request, headers) ready_session refl refl refl
