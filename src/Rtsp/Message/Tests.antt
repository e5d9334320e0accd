-- ===== src/Rtsp/Message/Tests.antt =====
-- The theorems on rtsp_message.hpp at small messages, and runs of the grammars.
use rtsp.Common.{◌≡◌, refl, some, [], ◌∷◌, ◌++◌, arith}
use rtsp.Rtsp.Definitions.{Request, Response}
use rtsp.Rtsp.Text.{chars, every, every_sound}
use rtsp.Rtsp.Text.Decimal.{decimal_numbers}
use rtsp.Rtsp.Message.{
  is_token, is_field, is_uri, is_reason, field_content, header_field_body, header_, header_list,
  header_lines, headers_end, version, rtsp_request_grammar, rtsp_message_grammar, is_response,
  generate_request,
}
use rtsp.Rtsp.Message.Writable.{IsWritable, IsWritableResponse}
use rtsp.Rtsp.Message.RoundTrip.{generate, rtsp_message_grammar-generate}
use rtsp.Rtsp.Message.Pipelined.{rtsp_request_grammar-pipelined}

abbrev options_request : Request
options_request = record {
  method_or_extension = "OPTIONS";
  uri = "*";
  rtsp_version_major = 1;
  rtsp_version_minor = 0;
  headers = ("CSeq", "1") ∷ [];
}

abbrev play_request : Request
play_request = record {
  method_or_extension = "PLAY";
  uri = "rtsp://h/v.mjpeg";
  rtsp_version_major = 1;
  rtsp_version_minor = 0;
  headers = ("CSeq", "2") ∷ ("session", "7") ∷ [];
}

abbrev ok_response : Response
ok_response = record {
  rtsp_version_major = 1;
  rtsp_version_minor = 0;
  status_code = 200;
  reason_phrase = "OK";
  headers = ("CSeq", "1") ∷ [];
}

options_text :
    generate_request decimal_numbers options_request ≡ chars "OPTIONS * RTSP/1.0\r\nCSeq: 1\r\n\r\n"
unfolding generate_request header_lines
options_text = refl

options_request-IsWritable : IsWritable options_request
unfolding every
options_request-IsWritable = record {
  method_token = (every_sound is_token (chars "OPTIONS") refl, omega arith);
  uri_chars = every_sound is_uri (chars "*") refl;
  uri_some = omega arith;
  major_range = omega arith;
  minor_range = omega arith;
  headers_good =
      (((every_sound is_token (chars "CSeq") refl, omega arith), (refl, refl, (refl, tt))), tt);
}

play_request-IsWritable : IsWritable play_request
unfolding every
play_request-IsWritable = record {
  method_token = (every_sound is_token (chars "PLAY") refl, omega arith);
  uri_chars = every_sound is_uri (chars "rtsp://h/v.mjpeg") refl;
  uri_some = omega arith;
  major_range = omega arith;
  minor_range = omega arith;
  headers_good = (
    ((every_sound is_token (chars "CSeq") refl, omega arith), (refl, refl, (refl, tt))),
    (((every_sound is_token (chars "session") refl, omega arith), (refl, refl, (refl, tt))), tt),
  );
}

ok_response-IsWritable : IsWritableResponse ok_response
unfolding every
ok_response-IsWritable = record {
  major_range = omega arith;
  minor_range = omega arith;
  status_low = omega arith;
  status_high = omega arith;
  reason_good = (refl, every_sound is_reason (chars "OK") refl);
  headers_good =
      (((every_sound is_token (chars "CSeq") refl, omega arith), (refl, refl, (refl, tt))), tt);
}

rtsp_message_grammar-generate_example :
    rtsp_message_grammar decimal_numbers (generate decimal_numbers (is_response ok_response))
    ≡ some (is_response ok_response, [])
rtsp_message_grammar-generate_example =
    rtsp_message_grammar-generate decimal_numbers (is_response ok_response) ok_response-IsWritable

-- The two requests become one, whose CSeq is "1PLAY rtsp://h/v.mjpeg RTSP/1.0".
rtsp_request_grammar-pipelined_example :
    rtsp_request_grammar decimal_numbers (
      generate_request decimal_numbers options_request
      ++ generate_request decimal_numbers play_request)
    ≡ some (
      record options_request {
        headers =
            ("CSeq", "1PLAY rtsp://h/v.mjpeg RTSP/1.0") ∷ ("CSeq", "2") ∷ ("session", "7") ∷ [];
      },
      [],
    )
unfolding every
rtsp_request_grammar-pipelined_example =
    rtsp_request_grammar-pipelined decimal_numbers options_request play_request [] ("CSeq", "1")
      refl options_request-IsWritable play_request-IsWritable
      (every_sound is_field (chars "rtsp://h/v.mjpeg") refl)

-- A field without a value takes the next field for its value.
empty_field :
    rtsp_request_grammar decimal_numbers (chars "OPTIONS * RTSP/1.0\r\nUser:\r\nCSeq: 1\r\n\r\n")
    ≡ some (record options_request { headers = ("User", "CSeq: 1") ∷ [] }, [])
unfolding rtsp_request_grammar version headers_end header_list header_ header_field_body
    field_content
empty_field = refl

-- What follows a quote that is never closed is there twice.
open_quote : header_ (chars "Info: \"ab c\r\n\r\n") ≡ some (("Info", "ab c\"ab c"), chars "\r\n")
unfolding header_ header_field_body field_content
open_quote = refl
