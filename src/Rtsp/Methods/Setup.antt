-- ===== src/Rtsp/Methods/Setup.antt =====
-- The SETUP method of src/streaming_lib/rtsp_lib/src/rtsp_methods.cpp.
use Prim.Native.String.{String, ◌++◌}
use text.Mathlib.Text.{◌==◌}
use rtsp.Common.{ℕ, Bool, not, Option, none, some, List, [], ◌∷◌, if◌then◌else◌}
use rtsp.Rtp.Sender.{Sender, construct, construct_with_options}
use rtsp.Rtsp.Definitions.{Request, Response, InternalRequest, NormalizedHeaders, Address}
use rtsp.Rtsp.Headers.{lookup}
use rtsp.Rtsp.Transport.{
  TransportSpec, get_acceptable_transport, get_port_number, get_ssrc, parameter_at,
}
use rtsp.Rtsp.Methods.{
  SessionState, init, ready, ServerSession, Answer, replies, throws, with_status, with_header,
  with_skeleton,
}

-- `bernoulli_p` holds the bits of the `double`.
pub record MknOptionParameters : Type 0 where
  pub bernoulli_p : ℕ
  pub fec_k : ℕ
  pub fec_p : ℕ

abbrev pub mkn_option_tag : String
mkn_option_tag = "net.markusklemm.options"

abbrev pub mkn_option_header : String
mkn_option_header = "net.markusklemm.options"

-- What the methods call: `parse` and `phrase_parse` of the header grammars give the attribute and
-- what is left of the text, Boost.Filesystem resolves a name below the root, a file has its octets (none if it does not
-- open), and the operating
-- system binds a port.
pub record Platform : Type 0 where
  pub to_lower_copy : String → String
  pub parse_require : String → List String × String
  pub parse_mkn_option_parameters : String → MknOptionParameters × String
  pub parse_transport : String → List TransportSpec × String
  pub generate_transport : List TransportSpec → String
  pub parse_file_name : String → Option String
  pub canonical : String → Option String
  pub contents : String → List ℕ
  pub binds : Address → ℕ → Bool

-- The numbers that the random engines draw while a request is handled.
pub record Draws : Type 0 where
  pub identifier : String
  pub random_port : ℕ
  pub random_ssrc : ℕ
  pub random_sequence_number : ℕ
  pub random_fec_sequence_number : ℕ

-- A statement of the body of `setup`: it goes on with a value, or the call ends.
pub data Early (A : Type 0) : Type 0 where
  goes_on : A → Early A
  ends : Answer → Early A

infixl 5 ◌>>=◌
abbrev pub ◌>>=◌ : {A B : Type 0} → Early A → (A → Early B) → Early B
goes_on a >>= f = f a
ends answer >>= f = ends answer

-- The `std::copy_if` of the option tags.
unfoldable pub unsupported_option_tags : List String → List String
unsupported_option_tags [] = []
unsupported_option_tags (option_tag ∷ option_tags) =
    if option_tag == mkn_option_tag
    then unsupported_option_tags option_tags
    else option_tag ∷ unsupported_option_tags option_tags

unfoldable pub with_unsupported : Response → List String → Response
with_unsupported response [] = response
with_unsupported response (option_tag ∷ option_tags) =
    with_unsupported (with_header response ("Unsupported", option_tag)) option_tags

-- What is an error of `boost::get` or of the `bind` in the constructor ends the call.
unfoldable pub or_throws : {A : Type 0} → Option A → Early A
or_throws none = ends throws
or_throws (some a) = goes_on a

unfoldable pub or_replies : {A : Type 0} → Option A → Response → Early A
or_replies none response = ends (replies response)
or_replies (some a) response = goes_on a

unfoldable pub unless_init : SessionState → Response → Early (Unit {0})
unless_init init response = goes_on tt
unless_init _ response = ends (replies (with_status response 455 "Method Not Valid In This State"))

module _ (platform : Platform) where
  -- The options of a request whose `Require` names only the one tag that the server knows.
  unfoldable pub read_option_parameters :
      Response → NormalizedHeaders → Early (Option MknOptionParameters)
  read_option_parameters response headers = elim (lookup mkn_option_header headers) [
    | none ↦ ends (replies (with_status response 400 (mkn_option_header ++ " header missing")))
    | some value ↦
        let (opt, rest) = platform.parse_mkn_option_parameters value in
        if rest == ""
        then goes_on (some opt)
        else ends (
            replies (
              with_status response 400 (
                "Bad Request: Could not read "
                ++ (mkn_option_header ++ (" header after " ++ rest)))))
  ]

  -- The block `if (request.second.count("require"))`.
  unfoldable pub read_require : Response → NormalizedHeaders → Early (Option MknOptionParameters)
  unfolding read_option_parameters
  read_require response headers = elim (lookup "require" headers) [
    | none ↦ goes_on none
    | some value ↦
        let (option_tags, rest) = platform.parse_require value in
        if not (rest == "")
        then ends (
            replies (
              with_status response 400
                ("Bad Request: Could not read transport header after" ++ rest)))
        else (elim (unsupported_option_tags option_tags) [
          | [] ↦ read_option_parameters response headers
          | tag ∷ tags ↦ ends (
              replies
                (with_unsupported (with_status response 551 "Option not supported") (tag ∷ tags)))
        ])
  ]

  -- The block `if (request.second.count("transport"))`.
  unfoldable pub read_transport : Response → NormalizedHeaders → Early (List TransportSpec)
  read_transport response headers = elim (lookup "transport" headers) [
    | none ↦ goes_on []
    | some value ↦
        let (specifications, rest) = platform.parse_transport value in
        if rest == ""
        then goes_on specifications
        else ends (
            replies (
              with_status response 400
                ("Bad Request: Could not read transport header after" ++ rest)))
  ]

  -- The stream, or the null pointer.
  unfoldable pub get_jpeg_stream : String → Option (List ℕ)
  get_jpeg_stream uri = elim (platform.parse_file_name uri) [
    | none ↦ none
    | some file_name ↦ elim (platform.canonical file_name) [
      | none ↦ none
      | some path ↦ some (platform.contents path)
    ]
  ]

  -- The sender of `std::make_unique<rtp::unicast_jpeg_rtp_sender>`.
  unfoldable pub make_sender :
      ServerSession → TransportSpec → Option MknOptionParameters → List ℕ → Draws → Early Sender
  make_sender session transport options jpeg_source draws = do
    client_port ← or_throws (get_port_number (parameter_at 1 transport.parameters))
    server_port ← or_throws (get_port_number (parameter_at 3 transport.parameters))
    ssrc ← or_throws (get_ssrc (parameter_at 2 transport.parameters))
    if platform.binds session.last_seen_request_address server_port
        then goes_on (elim options [
          | none ↦
              construct (session.last_seen_request_address, client_port) server_port ssrc
                jpeg_source draws.random_sequence_number draws.random_fec_sequence_number
          | some opt ↦
              construct_with_options (session.last_seen_request_address, client_port) server_port
                ssrc jpeg_source draws.random_sequence_number draws.random_fec_sequence_number
                opt.bernoulli_p opt.fec_k
        ])
        else ends throws

  -- The body of `setup` up to the change of the session: the sender and the transport for the response.
  unfoldable pub prepare :
      ServerSession
      → Request
      → NormalizedHeaders
      → Draws
      → Response
      → Early (Sender × TransportSpec)
  unfolding read_require read_transport get_jpeg_stream make_sender
  prepare session request headers draws response = do
    options ← read_require response headers
    request_transport ← read_transport response headers
    choosen_transport ←
        or_replies (get_acceptable_transport request_transport draws.random_port draws.random_ssrc)
          (with_status response 461
            "Unsupported Transport: The Transport field did not contain a supported transport specification.")
    _ ← unless_init session.state response
    ressource_path ←
        or_replies (get_jpeg_stream request.uri)
          (with_status response 404 ("Ressource \"" ++ (request.uri ++ "\" Not Found")))
    sender ← make_sender session choosen_transport options ressource_path draws
    goes_on (sender, choosen_transport)

  -- The end of `setup`: the change of the session and the response with the transport.
  abbrev pub finish :
      ServerSession → Response → Early (Sender × TransportSpec) → ServerSession × Answer
  finish session response (ends answer) = (session, answer)
  finish session response (goes_on (sender, transport)) = (
    record session { rtp_session = some sender; state = ready },
    replies (with_header response ("Transport", platform.generate_transport (transport ∷ []))),
  )

  unfoldable pub setup : ServerSession → InternalRequest → Draws → ServerSession × Answer
  unfolding prepare
  setup session (request, headers) draws =
      with_skeleton session (request, headers)
        (λ response. finish session response (prepare session request headers draws response))
