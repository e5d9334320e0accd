-- ===== src/Rtsp/Message/RoundTrip.antt =====
-- The grammars of rtsp_message.hpp read the messages that its generators write.
use Prim.Native.Char.{Char}
use Prim.Native.String.{String}
use text.Mathlib.TextBridge.{of_list}
use rtsp.Common.{
  ℕ, ◌^◌, ◌≤◌, ◌<◌, ◌≡◌, refl, ap, ◌∙◌, true, false, Option, none, some, [], ◌∷◌, ◌++◌, length,
  arith,
}
use rtsp.Rtsp.Definitions.{Request, Response}
use rtsp.Rtsp.Text.{
  Text, chars, of_list-chars, is_space, is_digit, ◌>>=◌, Stops, Only, Numbers, take_while-append,
  drop_while-append, plus-append, bind_some,
}
use rtsp.Rtsp.Message.{
  crlf, is_token, is_uri, is_reason, header_lines, headers_end, phrase_parse, version,
  rtsp_request_grammar, rtsp_response_grammar, rtsp_message_grammar, Message, is_request,
  is_response, request_line, generate_request, generate_response,
}
use rtsp.Rtsp.Message.Headers.{headers_end-header_lines}
use rtsp.Rtsp.Message.Writable.{
  IsWritable, IsWritableResponse, IsReason, drop_none, token-Stops, uri-Stops,
}

named_parts :
    {A : Type 0} (s t : String) (f : String → String → A)
    → f (of_list (chars s)) (of_list (chars t)) ≡ f s t
named_parts s t f = rw (of_list-chars s, of_list-chars t) refl

-- A grammar that reads a text to its end reads it with the skipper as well, where the text does not
-- begin with space.
phrase_parse-whole :
    {A : Type 0} (grammar : Text → Option (A × Text)) (text : Text) (a : A)
    → Stops is_space text
    → grammar text ≡ some (a, [])
    → phrase_parse grammar text ≡ some (a, [])
unfolding phrase_parse
phrase_parse-whole grammar text a s e = rw (drop_none s) (rw e refl)

digit_no_space : (c : Char) → is_digit c ≡ true → is_space c ≡ false
digit_no_space c h = ground arith

reason-Stops : (reason rest : Text) → IsReason reason → Stops is_space (reason ++ rest)
reason-Stops [] rest r = absurd r
reason-Stops (c ∷ reason) rest r = r.0

reason-Only : (reason : Text) → IsReason reason → Only is_reason reason
reason-Only [] r = absurd r
reason-Only (c ∷ reason) r = r.1

module _ (numbers : Numbers) where
  open numbers use {uint_}

  uint_parser-uint_ :
      (n : ℕ) (rest : Text)
      → n < 2 ^ 64
      → Stops is_digit rest
      → numbers.uint_parser (uint_ n ++ rest) ≡ some (n, rest)
  uint_parser-uint_ n rest h s =
      let value = numbers.uint_-decimal n in
      numbers.uint_parser-digits (uint_ n) rest (numbers.uint_-Only n) (numbers.length-uint_ n)
        (omega (arith, value)) s
      ∙ ap (λ k. some (k, rest)) value

  pub version-append :
      (major minor : ℕ) (rest : Text)
      → major < 2 ^ 64
      → minor < 2 ^ 64
      → Stops is_digit rest
      → version numbers (uint_ major ++ (chars "." ++ (uint_ minor ++ rest)))
        ≡ some ((major, minor), rest)
  unfolding version
  version-append major minor rest h k s =
      rw
        (
          uint_parser-uint_ major (chars "." ++ (uint_ minor ++ rest)) h refl,
          uint_parser-uint_ minor rest k s,
        )
        refl

  -- The request line is read, and the rest of the message is what the header rules make of it.
  pub rtsp_request_grammar-request_line :
      (request : Request) (after : Text)
      → IsWritable request
      → rtsp_request_grammar numbers (request_line numbers request (crlf ++ after))
        ≡ (headers_end after >>= (λ found. some (record request { headers = found.0 }, found.1)))
  unfolding rtsp_request_grammar
  rtsp_request_grammar-request_line request after w =
      let major = request.rtsp_version_major in
      let minor = request.rtsp_version_minor in
      let protocol = uint_ major ++ (chars "." ++ (uint_ minor ++ (crlf ++ after))) in
      let uri = chars request.uri ++ (chars " RTSP/" ++ protocol) in
      rw
        (plus-append is_token (chars request.method_or_extension) (chars " " ++ uri)
          w.method_token.0 w.method_token.1 refl)
        (rw
          (drop_none
            (uri-Stops (chars request.uri) (chars " RTSP/" ++ protocol) w.uri_chars w.uri_some))
          (rw
            (plus-append is_uri (chars request.uri) (chars " RTSP/" ++ protocol) w.uri_chars
              w.uri_some refl)
            (rw (version-append major minor (crlf ++ after) w.major_range w.minor_range refl) (
              named_parts request.method_or_extension request.uri (λ method uri.
                headers_end after >>= (λ found. some (
                  record request { method_or_extension = method; uri = uri; headers = found.0 },
                  found.1,
                )))))))

  -- What generate_request writes is read back to its end, also with the skipper.
  pub rtsp_request_grammar-generate_request :
      (request : Request)
      → IsWritable request
      → (rtsp_request_grammar numbers (generate_request numbers request) ≡ some (request, []))
        × (phrase_parse (rtsp_request_grammar numbers) (generate_request numbers request)
            ≡ some (request, []))
  unfolding generate_request
  rtsp_request_grammar-generate_request request w =
      let plain =
        rtsp_request_grammar-request_line request (header_lines request.headers crlf) w
        ∙ bind_some _ (headers_end-header_lines request.headers w.headers_good) in
      (
        plain,
        phrase_parse-whole (rtsp_request_grammar numbers) (generate_request numbers request) request
            (token-Stops (chars request.method_or_extension) _ w.method_token) plain,
      )

  digits_stop :
      (digits rest : Text)
      → Only is_digit digits
      → 1 ≤ length digits
      → Stops is_space (digits ++ rest)
  digits_stop [] rest o l = absurd (omega arith)
  digits_stop (c ∷ digits) rest o l = digit_no_space c o.0

  status-Stops : (n : ℕ) (rest : Text) → Stops is_space (uint_ n ++ rest)
  status-Stops n rest = digits_stop (uint_ n) rest (numbers.uint_-Only n) (numbers.length-uint_ n)

  uint_parser3-uint_ :
      (n : ℕ) (rest : Text)
      → 100 ≤ n
      → n < 1000
      → numbers.uint_parser3 (uint_ n ++ rest) ≡ some (n, rest)
  uint_parser3-uint_ n rest h k =
      numbers.uint_parser3-digits (uint_ n) rest (numbers.uint_-Only n)
        (numbers.length-uint_three n h k)
      ∙ ap (λ m. some (m, rest)) (numbers.uint_-decimal n)

  -- What generate_response writes is read back to its end.
  pub rtsp_response_grammar-generate_response :
      (response : Response)
      → IsWritableResponse response
      → rtsp_response_grammar numbers (generate_response numbers response) ≡ some (response, [])
  unfolding generate_response rtsp_response_grammar
  rtsp_response_grammar-generate_response response w =
      let major = response.rtsp_version_major in
      let minor = response.rtsp_version_minor in
      let reason = chars response.reason_phrase in
      let after = header_lines response.headers crlf in
      let status = uint_ response.status_code ++ (chars " " ++ (reason ++ (crlf ++ after))) in
      rw (version-append major minor (chars " " ++ status) w.major_range w.minor_range refl) (
        rw
          (drop_none (status-Stops response.status_code (chars " " ++ (reason ++ (crlf ++ after)))))
          (rw
            (uint_parser3-uint_ response.status_code (chars " " ++ (reason ++ (crlf ++ after)))
              w.status_low w.status_high)
            (rw (drop_none (reason-Stops reason (crlf ++ after) w.reason_good)) (
              rw
                (
                  take_while-append is_reason reason (crlf ++ after)
                      (reason-Only reason w.reason_good) refl,
                  drop_while-append is_reason reason (crlf ++ after)
                      (reason-Only reason w.reason_good) refl,
                )
                (rw (headers_end-header_lines response.headers w.headers_good) (
                  ap (λ s. some (record response { reason_phrase = s }, []))
                    (of_list-chars response.reason_phrase)))))))

  -- The text of a message.
  abbrev pub generate : Message → Text
  generate (is_request request) = generate_request numbers request
  generate (is_response response) = generate_response numbers response

  abbrev pub IsWritableMessage : Message → Type 0
  IsWritableMessage (is_request request) = IsWritable request
  IsWritableMessage (is_response response) = IsWritableResponse response

  no_request :
      (response : Response)
      → rtsp_request_grammar numbers (generate_response numbers response) ≡ none
  unfolding rtsp_request_grammar generate_response
  no_request response = refl

  -- For every request whose method is a token, whose URI is not empty and has no space, and whose
  -- version numbers fit 64 bits, and every response whose version numbers fit 64 bits, whose status code
  -- has three digits, and whose reason phrase is not empty, does not begin with space and has no line end,
  -- where the header fields have tokens as names, and bodies that are not empty, have no control
  -- characters and begin with neither a space nor a quote: the grammar of messages reads what the
  -- generator writes back as the same message, up to the end of the text.
  pub rtsp_message_grammar-generate :
      (message : Message)
      → IsWritableMessage message
      → rtsp_message_grammar numbers (generate message) ≡ some (message, [])
  unfolding rtsp_message_grammar
  rtsp_message_grammar-generate (is_request request) w =
      let read = (rtsp_request_grammar-generate_request request w).0 in
      rw (read, rtsp_message_grammar) refl
  rtsp_message_grammar-generate (is_response response) w =
      let other = no_request response in
      let read = rtsp_response_grammar-generate_response response w in
      rw (other, rtsp_message_grammar) (rw read refl)
