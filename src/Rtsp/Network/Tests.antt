-- ===== src/Rtsp/Network/Tests.antt =====
-- The theorem on rtsp_server.cpp at an OPTIONS request, and runs of the handlers of a connection.
use text.Mathlib.Text.{◌==◌}
use rtsp.Common.{◌≡◌, refl, true, false, none, some, [], ◌∷◌, if◌then◌else◌, arith}
use rtsp.Rtsp.Definitions.{Request, Response}
use rtsp.Rtsp.Headers.{lookup, add_header, normalize_from, normalize_headers}
use rtsp.Rtsp.Text.{Text, chars, every, every_sound}
use rtsp.Rtsp.Text.Decimal.{decimal_numbers}
use rtsp.Rtsp.Message.{
  is_token, is_field, is_uri, is_reason, rtsp_response_grammar, generate_request,
}
use rtsp.Rtsp.Message.Writable.{IsWritable, IsWritableResponse}
use rtsp.Rtsp.Methods.{replies}
use rtsp.Rtsp.Methods.Setup.{Platform, Draws}
use rtsp.Rtsp.Server.{ServerState, handle_incoming_request}
use rtsp.Rtsp.Network.{
  Connection, ErrorCode, handled, answers, response_sent, header_read, handle_new_incoming_message,
}
use rtsp.Rtsp.Network.Exchange.{exchange}

abbrev platform : Platform
platform = record {
  to_lower_copy = λ name. if name == "CSeq" then "cseq" else name;
  parse_require = λ text. ([], text);
  parse_mkn_option_parameters = λ text. (record { bernoulli_p = 0; fec_k = 0; fec_p = 0 }, text);
  parse_transport = λ text. ([], text);
  generate_transport = λ specifications. "";
  parse_file_name = λ uri. none;
  canonical = λ file_name. none;
  contents = λ path. [];
  binds = λ address port. true;
}

abbrev draws : Draws
draws = record {
  identifier = "c";
  random_port = 50000;
  random_ssrc = 77;
  random_sequence_number = 1336;
  random_fec_sequence_number = 20;
}

abbrev request : Request
request = record {
  method_or_extension = "OPTIONS";
  uri = "*";
  rtsp_version_major = 1;
  rtsp_version_minor = 0;
  headers = ("CSeq", "1") ∷ [];
}

abbrev response : Response
response = record {
  rtsp_version_major = 1;
  rtsp_version_minor = 0;
  status_code = 200;
  reason_phrase = "OK";
  headers = ("CSeq", "1") ∷ ("Public", "SETUP, TEARDOWN, PLAY, PAUSE") ∷ [];
}

abbrev state : ServerState
state = record { sessions = []; sessions_by_host = [] }

abbrev connection : Connection
connection = record {
  last_response_string = [];
  last_request_time_point = 0;
  expiry = 0;
  is_open = true;
  reading = false;
  waiting = false;
  sends = [];
}

answered : handle_incoming_request platform draws state request 7 ≡ (state, replies response)
unfolding handle_incoming_request normalize_headers normalize_from add_header lookup
answered = refl

request-IsWritable : IsWritable request
unfolding every
request-IsWritable = record {
  method_token = (every_sound is_token (chars "OPTIONS") refl, omega arith);
  uri_chars = every_sound is_uri (chars "*") refl;
  uri_some = omega arith;
  major_range = omega arith;
  minor_range = omega arith;
  headers_good =
      (((every_sound is_token (chars "CSeq") refl, omega arith), (refl, refl, (refl, tt))), tt);
}

response-IsWritable : IsWritableResponse response
unfolding every
response-IsWritable = record {
  major_range = omega arith;
  minor_range = omega arith;
  status_low = omega arith;
  status_high = omega arith;
  reason_good = (refl, every_sound is_reason (chars "OK") refl);
  headers_good = (
    ((every_sound is_token (chars "CSeq") refl, omega arith), (refl, refl, (refl, tt))),
    (
      (
        (every_sound is_token (chars "Public") refl, omega arith),
        (refl, refl, every_sound is_field (chars "SETUP, TEARDOWN, PLAY, PAUSE") refl),
      ),
      tt,
    ),
  );
}

exchange_example :
    (text : Text) × (header_read decimal_numbers platform ErrorCode.success draws 5 7
        (generate_request decimal_numbers request)
        connection
        state
      ≡ handled
          (record connection {
            last_response_string = text;
            last_request_time_point = 5;
            sends = text ∷ [];
            reading = true;
          })
          state)
    × (handle_new_incoming_message decimal_numbers platform draws 7
          (generate_request decimal_numbers request)
          state
        ≡ answers state text)
    × (rtsp_response_grammar decimal_numbers text ≡ some (response, []))
exchange_example =
    exchange decimal_numbers platform draws 5 7 request response connection state state
      request-IsWritable answered response-IsWritable refl

-- The second response joins the first where its send is not completed, and the completion of the
-- first send throws.
abbrev behind : Connection
behind = record connection {
  last_response_string = chars "ab";
  sends = chars "a" ∷ chars "ab" ∷ [];
}

early_completion :
    response_sent ErrorCode.success 1 behind ≡ (true, record behind { sends = chars "ab" ∷ [] })
unfolding response_sent
early_completion = refl
