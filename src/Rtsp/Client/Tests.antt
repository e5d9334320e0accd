-- ===== src/Rtsp/Client/Tests.antt =====
-- A client that plays, and the witnesses of the theorems about the client.
use text.Mathlib.Text.{◌==◌}
use rtsp.Common.{
  ℕ, ◌*◌, ◌/◌, ◌^◌, ◌≤◌, leb, Option, ◌++◌, ◌≡◌, ◌≢◌, refl, true, false, none, some, [], ◌∷◌, arith,
  if◌then◌else◌,
}
use rtsp.Rtsp.Definitions.{Request, Response}
use rtsp.Rtsp.Headers.{lookup, add_header, normalize_from, normalize_headers}
use rtsp.Rtsp.Methods.{ready, playing}
use rtsp.Rtsp.Client.{
  Client, Environment, on_play, on_option, find_request, erase_request, send_request, request_for,
  handle, header_read,
}
use rtsp.Rtsp.Text.{Text, chars, every, every_sound, ◌>>=◌, bind_some}
use rtsp.Rtsp.Text.Decimal.{show}
use rtsp.Rtsp.Transport.Grammar.{transport_grammar}
use rtsp.Rtsp.Transport.Numbers.{header_numbers, parse_decimal, parse_decimal-show}
use rtsp.Rtsp.Methods.Setup.{mkn_option_tag, mkn_option_header}
use rtsp.Rtsp.Options.{OptionNumbers, require_, mkn_bernoulli_channel_parameter_grammar}
use rtsp.Rtsp.Client.Offer.{
  Settings, set_mkn_options, my_transport, setup_headers, header_text,
  setup_headers-set_mkn_options,
}
use rtsp.Rtsp.Client.Url.{
  is_host, is_print, url_host, url_method, url_port_of, process_url, process_url-url_text,
}
use rtsp.Rtsp.Client.Responses.{
  header_read-reading, send_request-header_read, header_read_ignores_status,
}

abbrev environment : Environment
environment = record {
  to_lower_copy = λ name. if name == "CSeq" then "cseq" else name;
  to_string = λ n. "4";
  read_cseq = λ text. if text == "4" then some 4 else none;
  read_transport = λ text. none;
  binds = λ port. true;
}

abbrev client : Client
client = record {
  state = ready;
  session_identifier = "a";
  next_cseq = 4;
  outstanding_requests = (2, on_option) ∷ [];
  original_url = "rtsp://host/movie.mjpeg";
  rtp_receiver = none;
  reading = true;
}

abbrev request : Request
request = request_for environment client "PLAY" []

abbrev response : Response
response = record {
  rtsp_version_major = 1;
  rtsp_version_minor = 0;
  status_code = 454;
  reason_phrase = "Session not found";
  headers = ("CSeq", "4") ∷ [];
}

send_request-header_read_example :
    let sent = record (send_request environment client request on_play).0 { reading = false } in
    (answered : Client) × (header_read environment
        (send_request environment client request on_play).0
        response
      ≡ (answered, true))
    × (answered ≡ record (handle environment on_play sent response).0 {
      outstanding_requests = erase_request 4 sent.outstanding_requests;
      reading = true;
    })
    × (header_read environment answered response ≡ (answered, true))
    × ((cseq : ℕ)
        → cseq ≢ 4
        → find_request cseq answered.outstanding_requests
          ≡ find_request cseq client.outstanding_requests)
unfolding lookup add_header normalize_from normalize_headers handle
send_request-header_read_example =
    send_request-header_read environment client request on_play response (omega arith) refl refl
      (omega arith) refl

header_read_ignores_status_example :
    (header_read environment
      (record client { outstanding_requests = (4, on_play) ∷ [] })
      response).0.state
    ≡ playing
unfolding lookup add_header normalize_from normalize_headers find_request
header_read_ignores_status_example =
    header_read_ignores_status environment
      (record client { outstanding_requests = (4, on_play) ∷ [] }) response refl refl (omega arith)
      refl

header_read-reading_example :
    (header_read environment client (record response { headers = [] })).0.reading
    ≡ (header_read environment client (record response { headers = [] })).1
header_read-reading_example =
    header_read-reading environment client (record response { headers = [] })

-- Probabilities in millionths, which are written in thousandths.
abbrev thousands : ℕ × Text → Option (ℕ × Text)
thousands (n, rest) = some (n * 1000, rest)

thousands-read :
    (bits : ℕ) (rest : Text)
    → leb bits 1000000 ≡ true
    → (parse_decimal 4 10000 (show (bits / 1000) ++ (chars ";" ++ rest)) >>= thousands)
      ≡ some (bits / 1000 * 1000, chars ";" ++ rest)
thousands-read bits rest h =
    let small : bits ≤ 1000000 = ground arith in
    bind_some thousands (
      parse_decimal-show 3 10000 (bits / 1000) (chars ";" ++ rest) (omega arith) (omega arith) refl)

thousands_probability :
    (bits : ℕ) → leb bits 1000000 ≡ true → leb (bits / 1000 * 1000) 1000000 ≡ true
thousands_probability bits h = let small : bits ≤ 1000000 = ground arith in ground arith

abbrev option_numbers : OptionNumbers
option_numbers = record {
  double_parser = λ text. parse_decimal 4 10000 text >>= thousands;
  uint16_parser = parse_decimal 5 (2 ^ 16);
  double_generator = λ bits. show (bits / 1000);
  decimal_generator = show;
  is_probability = λ bits. leb bits 1000000;
  rounded = λ bits. bits / 1000 * 1000;
  double_parser-double = thousands-read;
  rounded_probability = thousands_probability;
  uint16_parser-decimal =
      λ n rest h s. parse_decimal-show 4 (2 ^ 16) n rest (omega arith) (omega arith) s;
}

abbrev settings : Settings
settings = record { host = ""; url_port = 0; remainder = ""; original_url = ""; mkn_option = none }

setup_headers-set_mkn_options_example :
    let headers =
      setup_headers header_numbers option_numbers
        (set_mkn_options settings true 12345 16 2)
        50000 in
    (transport_grammar header_numbers (header_text headers "Transport")
      ≡ some (my_transport 50000 ∷ [], []))
    × (require_ (header_text headers "Require") ≡ some (mkn_option_tag ∷ [], []))
    × (mkn_bernoulli_channel_parameter_grammar option_numbers
          (header_text headers mkn_option_header)
        ≡ some (record { bernoulli_p = 12000; fec_k = 16; fec_p = 2 }, []))
setup_headers-set_mkn_options_example =
    setup_headers-set_mkn_options header_numbers option_numbers settings 50000 12345 16 2
      (omega arith) refl (omega arith) (omega arith)

process_url-url_text_example :
    process_url option_numbers settings "rtsp://host.org:8554/movie.mjpeg"
    ≡ some (record settings {
      host = "host.org";
      url_port = 8554;
      remainder = "movie.mjpeg";
      original_url = "rtsp://host.org:8554/movie.mjpeg";
    })
unfolding every
process_url-url_text_example =
    process_url-url_text option_numbers settings (chars "host.org") (some 8554)
      (chars "movie.mjpeg") (every_sound is_host (chars "host.org") refl) (omega arith)
      (every_sound is_print (chars "movie.mjpeg") refl)

without_port :
    process_url option_numbers settings "  rtsp://[::1]/a"
    ≡ some (record settings {
      host = "::1";
      url_port = 554;
      remainder = "a";
      original_url = "  rtsp://[::1]/a";
    })
unfolding process_url url_method url_host url_port_of
without_port = refl
