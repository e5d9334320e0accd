-- ===== src/Rtsp/Methods/Success.antt =====
-- What SETUP does with a transport that the server can choose.
use Prim.Native.String.{String}
use rtsp.Common.{
  ℕ, ◌+◌, ◌%◌, arith, if◌then◌else◌, ◌≡◌, inl, inr, refl, ap, ◌∙◌, Bool-cases, Option-cases, Option,
  none, some, List, [], ◌∷◌,
}
use rtsp.Rtp.Sender.{construct}
use rtsp.Rtsp.Definitions.{Request, Response, NormalizedHeaders}
use rtsp.Rtsp.Headers.{lookup}
use rtsp.Rtsp.Transport.{
  TransportSpec, get_acceptable_transport, get_port_number, get_ssrc, parameter_at, find_if,
  is_acceptable, is_server_port, is_client_port, choose_server_port, choose_client_port,
  choose_spec, uses, process_server_transport,
}
use rtsp.Rtsp.Transport.Acceptable.{process_server_transport-choose_spec}
use rtsp.Rtsp.Methods.{init, ready, ServerSession, Answer, replies, throws, with_header}
use rtsp.Rtsp.Methods.Setup.{
  Platform, Draws, ◌>>=◌, goes_on, or_throws, or_replies, unless_init, read_require, read_transport,
  get_jpeg_stream, make_sender, prepare, finish, setup,
}
use rtsp.Rtsp.Methods.Machine.{common_response, from_skeleton}

-- The server's port for a request, where the client's is known: none for a range.
unfoldable pub asked_port : TransportSpec → ℕ → Option ℕ
asked_port requested client_port = elim (find_if is_server_port requested.parameters) [
  | none ↦ some ((client_port + 2) % 65536)
  | some parameter ↦ get_port_number (some parameter)
]

-- The session and the answer of a SETUP that has come to the sender.
unfoldable pub outcome :
    Platform
    → Draws
    → ServerSession
    → String
    → List ℕ
    → TransportSpec
    → ℕ
    → ℕ
    → Option ℕ
    → ServerSession × Answer
outcome platform draws session cseq source_octets chosen client_port source none = (session, throws)
outcome platform draws session cseq source_octets chosen client_port source (some server_port) =
    if platform.binds session.last_seen_request_address server_port
    then (
      record session {
        rtp_session = some (
            construct (session.last_seen_request_address, client_port) server_port source
              source_octets draws.random_sequence_number draws.random_fec_sequence_number);
        state = ready;
      },
      replies (
          with_header (common_response session cseq)
            ("Transport", platform.generate_transport (chosen ∷ []))),
    )
    else (session, throws)

module _ (platform : Platform) (draws : Draws) (session : ServerSession) (request : Request)
    (headers : NormalizedHeaders) {cseq value : String} {source_octets : List ℕ}
    {specifications : List TransportSpec} {chosen : TransportSpec}
    (numbered : lookup "cseq" headers ≡ some cseq) (plain : lookup "require" headers ≡ none)
    (transport : lookup "transport" headers ≡ some value)
    (parsed : platform.parse_transport value ≡ (specifications, ""))
    (acceptable : get_acceptable_transport specifications draws.random_port draws.random_ssrc
      ≡ some chosen)
    (at_init : session.state ≡ init)
    (resource : get_jpeg_stream platform request.uri ≡ some source_octets) where
  without_require : (response : Response) → read_require platform response headers ≡ goes_on none
  unfolding read_require
  without_require response = rw (plain, read_require) refl

  with_transport :
      (response : Response) → read_transport platform response headers ≡ goes_on specifications
  unfolding read_transport
  with_transport response = rw (transport, read_transport) (rw parsed refl)

  to_sender :
      (response : Response)
      → prepare platform session request headers draws response ≡ (
          make_sender platform session chosen none source_octets draws >>= λ sender.
          goes_on (sender, chosen))
  unfolding prepare or_replies unless_init
  to_sender response = rw (without_require response) (
      rw (with_transport response)
        (rw (acceptable, or_replies) (rw (at_init, unless_init) (rw (resource, or_replies) refl))))

  setup-finish :
      setup platform session (request, headers) draws
      ≡ finish platform session (common_response session cseq) (
          make_sender platform session chosen none source_octets draws >>= λ sender.
          goes_on (sender, chosen))
  unfolding setup
  setup-finish =
      from_skeleton (request, headers) numbered
        (λ result.
          result
          ≡ finish platform session (common_response session cseq) (
              make_sender platform session chosen none source_octets draws >>= λ sender.
              goes_on (sender, chosen)))
        session
        (λ response.
          finish platform session response
            (prepare platform session request headers draws response))
        (ap (finish platform session (common_response session cseq))
          (to_sender (common_response session cseq)))

  -- The sender that is made, on the three numbers that are read in the chosen specification.
  setup-make_sender :
      (client_port source : ℕ) (server_port : Option ℕ)
      → get_port_number (parameter_at 1 chosen.parameters) ≡ some client_port
      → get_port_number (parameter_at 3 chosen.parameters) ≡ server_port
      → get_ssrc (parameter_at 2 chosen.parameters) ≡ some source
      → setup platform session (request, headers) draws
        ≡ outcome platform draws session cseq source_octets chosen client_port source server_port
  unfolding make_sender or_throws outcome
  setup-make_sender client_port source none at_client at_server at_ssrc =
      setup-finish ∙ rw (at_client, or_throws) (rw (at_server, or_throws) refl)
  setup-make_sender client_port source (some server_port) at_client at_server at_ssrc =
      setup-finish
      ∙ rw (at_client, or_throws)
          (rw (at_server, or_throws)
            (rw (at_ssrc, or_throws)
              (elim (Bool-cases (platform.binds session.last_seen_request_address server_port)) [
                | inl bound ↦ rw bound refl
                | inr unbound ↦ rw unbound refl
              ])))

choose_server_port-asked_port :
    (requested : TransportSpec) (client_port : ℕ)
    → get_port_number
        (some (choose_server_port (find_if is_server_port requested.parameters) client_port))
      ≡ asked_port requested client_port
unfolding choose_server_port get_port_number asked_port
choose_server_port-asked_port requested client_port =
    elim (Option-cases (find_if is_server_port requested.parameters)) [
      | inl missing ↦ rw (missing, asked_port) refl
      | inr (parameter, e) ↦ rw (e, asked_port) refl
    ]

-- A SETUP with a CSeq, without Require, with a Transport header that is read to its end, whose first
-- acceptable specification is `requested`, for a resource that exists, on a session in init. There are
-- the port and the SSRC that the client of the library reads in the specification that the server
-- chooses. The server's own port is the single number that was asked for, or two behind the client's if
-- none was. If the system binds it, the session becomes ready with a stopped sender from it to the port
-- that the client reads, at the last seen address, for the SSRC that the client reads and for that
-- resource, and the response has status 200, the CSeq, the session and the chosen specification. If the
-- client asks for a range, or the system does not bind the port, the call ends in an exception, and the
-- session stays as it was.
pub setup-outcome :
    (platform : Platform) (draws : Draws) (session : ServerSession) (request : Request)
    (headers : NormalizedHeaders) {cseq value : String} {source_octets : List ℕ}
    {specifications : List TransportSpec} (requested : TransportSpec)
    → lookup "cseq" headers ≡ some cseq
    → lookup "require" headers ≡ none
    → lookup "transport" headers ≡ some value
    → platform.parse_transport value ≡ (specifications, "")
    → find_if is_acceptable specifications ≡ some requested
    → session.state ≡ init
    → get_jpeg_stream platform request.uri ≡ some source_octets
    → let chosen = choose_spec requested draws.random_port draws.random_ssrc in
      (client_port source : ℕ) × (process_server_transport (chosen ∷ []) ≡ uses client_port source)
      × (setup platform session (request, headers) draws
          ≡ outcome platform draws session cseq source_octets chosen client_port source
              (asked_port requested client_port))
unfolding get_acceptable_transport
setup-outcome platform draws session request headers {cseq} {value} {source_octets} {specifications}
      requested numbered plain transport parsed found at_init resource =
    let chosen = choose_spec requested draws.random_port draws.random_ssrc in
    let (source, read, at_client, at_ssrc, known) =
      process_server_transport-choose_spec requested draws.random_port draws.random_ssrc in
    let client_port =
      choose_client_port (find_if is_client_port requested.parameters) draws.random_port in
    (
      client_port,
      source,
      read,
      setup-make_sender platform draws session request headers {chosen = chosen} numbered plain
          transport parsed (ground (arith, found)) at_init resource client_port source
          (asked_port requested client_port) at_client
          (unfold choose_spec in choose_server_port-asked_port requested client_port) at_ssrc,
    )
