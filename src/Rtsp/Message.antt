-- ===== src/Rtsp/Message.antt =====
-- The grammars and generators of src/streaming_lib/rtsp_lib/include/rtsp_message.hpp. A rule is a
-- function from the text to its attribute and the rest of the text, or none. The operators of Spirit
-- are read as its documentation has them: `+p` and `*p` take all they can, an alternative is tried
-- only when those before it fail, and an optional part that fails takes nothing.
pub mod Headers
pub mod Writable
pub mod RoundTrip
pub mod Folded
pub mod Pipelined
mod Tests
use Prim.Native.Char.{Char, code}
use Prim.Native.String.{String}
use text.Mathlib.TextBridge.{of_list}
use rtsp.Common.{
  ℕ, zero, suc, Bool, true, false, not, ◌&&◌, ◌||◌, Option, none, some, List, [], ◌∷◌, ◌++◌, length,
  ltb, ◌==◌, if◌then◌else◌,
}
use rtsp.Rtsp.Definitions.{RtspHeader, RawHeaders, Request, Response}
use rtsp.Rtsp.Text.{
  Text, chars, is_space, is_cntrl, take_while, drop_while, plus, lit, ◌>>=◌, Numbers,
}

abbrev pub crlf : Text
crlf = chars "\r\n"

-- `tspecials`
abbrev pub among : Text → Char → Bool
among [] c = false
among (d ∷ text) c = code d == code c || among text c

abbrev pub is_tspecial : Char → Bool
is_tspecial c = among (chars "()<>@,;:\\\"/[]?={} \t") c

-- A character of `token`, of a quoted string, of a header field, and of a request URI.
abbrev pub is_token : Char → Bool
is_token c = not (is_tspecial c || is_cntrl c)

abbrev pub is_quotable : Char → Bool
is_quotable c = not (is_cntrl c || code c == 34)

abbrev pub is_field : Char → Bool
is_field c = not (is_cntrl c)

abbrev pub is_uri : Char → Bool
is_uri c = not (code c == 13 || code c == 10 || is_space c)

-- A character of the reason phrase.
abbrev pub is_reason : Char → Bool
is_reason c = not (code c == 13 || code c == 10)

-- What `quoted_string` appends to its attribute, the rest of the text, and whether it succeeds: the
-- attribute keeps what it has got when the closing quote is missing.
abbrev pub close_quote : Text → Text → Text × Option Text
close_quote [] text = ([], none)
close_quote (c ∷ inside) [] = (c ∷ inside, none)
close_quote (c ∷ inside) (d ∷ rest) = (c ∷ inside, if code d == 34 then some rest else none)

abbrev pub quoted_string : Text → Text × Option Text
quoted_string [] = ([], none)
quoted_string (c ∷ text) =
    if code c == 34
    then close_quote (take_while is_quotable text) (drop_while is_quotable text)
    else ([], none)

-- `quoted_string | +(char_ - ctl)`
unfoldable pub field_content : Text → Option (Text × Text)
field_content text =
    let quoted = quoted_string text in
    elim quoted.1 [
      | some rest ↦ some (quoted.0, rest)
      | none ↦ elim (plus is_field text) [
        | none ↦ none
        | some (content, rest) ↦ some (quoted.0 ++ content, rest)
      ]
    ]

-- `p >> -q` for strings: what the optional part takes joins the attribute.
abbrev pub with_optional : Text × Text → Option (Text × Text) → Text × Text
with_optional parsed none = parsed
with_optional (content, rest) (some (more, rest')) = (content ++ more, rest')

-- `header_field_body_`: a line that starts with space goes on with it. Each round takes a character, so
-- that the length of the text is enough fuel.
unfoldable pub header_field_body : ℕ → Text → Option (Text × Text)
header_field_body zero text = none
header_field_body (suc fuel) text = do
  parsed ← field_content text
  some (
      with_optional parsed
        (do line ← lit crlf parsed.1; folded ← plus is_space line; header_field_body fuel folded.1))

-- `header_`; the spaces in front of the body include line ends.
unfoldable pub header_ : Text → Option (RtspHeader × Text)
header_ text = do
  name ← plus is_token text
  after ← lit (chars ":") name.1
  let begin = drop_while is_space after
  let value = with_optional ([], begin) (header_field_body (length begin) begin)
  rest ← lit crlf value.1
  some ((of_list name.0, of_list value.0), rest)

-- `*(header_)`; each header takes a character, so that the length of the text is enough fuel.
unfoldable pub header_list : ℕ → Text → RawHeaders × Text
header_list zero text = ([], text)
header_list (suc fuel) text = elim (header_ text) [
  | none ↦ ([], text)
  | some (header, rest) ↦ let headers = header_list fuel rest in (header ∷ headers.0, headers.1)
]

-- The header fields and the empty line, which end both grammars.
unfoldable pub headers_end : Text → Option (RawHeaders × Text)
headers_end text = do
  let headers = header_list (length text) text
  rest ← lit crlf headers.1
  some (headers.0, rest)

-- `phrase_parse` with the skipper `space` and a grammar that has no skipper: space is passed over in
-- front of the grammar and behind it.
unfoldable pub phrase_parse : {A : Type 0} → (Text → Option (A × Text)) → Text → Option (A × Text)
phrase_parse grammar text = do
  parsed ← grammar (drop_while is_space text)
  some (parsed.0, drop_while is_space parsed.1)

-- `header_generator` with the line end, in front of the text that follows.
abbrev pub header_line : RtspHeader → Text → Text
header_line header rest = chars header.0 ++ (chars ": " ++ (chars header.1 ++ (crlf ++ rest)))

unfoldable pub header_lines : RawHeaders → Text → Text
header_lines [] rest = rest
header_lines (header ∷ headers) rest = header_line header (header_lines headers rest)

-- `message`, a variant of the two.
pub data Message : Type 0 where
  is_request : Request → Message
  is_response : Response → Message

module _ (numbers : Numbers) where
  open numbers use {uint_parser, uint_parser3, uint_}

  -- `at_least_one_digit >> "." >> at_least_one_digit`
  unfoldable pub version : Text → Option ((ℕ × ℕ) × Text)
  version text = do
    major ← uint_parser text
    rest ← lit (chars ".") major.1
    minor ← uint_parser rest
    some ((major.0, minor.0), minor.1)

  -- `rtsp_request_grammar`
  unfoldable pub rtsp_request_grammar : Text → Option (Request × Text)
  rtsp_request_grammar text = do
    method ← plus is_token text
    space ← plus is_space method.1
    uri ← plus is_uri space.1
    space' ← plus is_space uri.1
    protocol ← lit (chars "RTSP/") space'.1
    numbers ← version protocol
    line ← lit crlf numbers.1
    headers ← headers_end line
    some (
      record {
        method_or_extension = of_list method.0;
        uri = of_list uri.0;
        rtsp_version_major = numbers.0.0;
        rtsp_version_minor = numbers.0.1;
        headers = headers.0;
      },
      headers.1,
    )

  -- `rtsp_response_grammar`
  unfoldable pub rtsp_response_grammar : Text → Option (Response × Text)
  rtsp_response_grammar text = do
    protocol ← lit (chars "RTSP/") text
    numbers ← version protocol
    space ← plus is_space numbers.1
    status ← uint_parser3 space.1
    space' ← plus is_space status.1
    line ← lit crlf (drop_while is_reason space'.1)
    headers ← headers_end line
    some (
      record {
        rtsp_version_major = numbers.0.0;
        rtsp_version_minor = numbers.0.1;
        status_code = status.0;
        reason_phrase = of_list (take_while is_reason space'.1);
        headers = headers.0;
      },
      headers.1,
    )

  -- `rtsp_message_grammar`
  unfoldable pub rtsp_message_grammar : Text → Option (Message × Text)
  rtsp_message_grammar text = elim (rtsp_request_grammar text) [
    | some (request, rest) ↦ some (is_request request, rest)
    | none ↦ elim (rtsp_response_grammar text) [
      | some (response, rest) ↦ some (is_response response, rest)
      | none ↦ none
    ]
  ]

  -- `generate_response`
  unfoldable pub generate_response : Response → Text
  generate_response response =
      chars "RTSP/"
      ++ (uint_ response.rtsp_version_major
          ++ (chars "."
              ++ (uint_ response.rtsp_version_minor
                  ++ (chars " "
                      ++ (uint_ response.status_code
                          ++ (chars " "
                              ++ (chars response.reason_phrase
                                  ++ (crlf ++ header_lines response.headers crlf))))))))

  -- The request line of `generate_request`, in front of the text that follows.
  abbrev pub request_line : Request → Text → Text
  request_line request rest =
      chars request.method_or_extension
      ++ (chars " "
          ++ (chars request.uri
              ++ (chars " RTSP/"
                  ++ (uint_ request.rtsp_version_major
                      ++ (chars "." ++ (uint_ request.rtsp_version_minor ++ rest))))))

  -- `generate_request`
  unfoldable pub generate_request : Request → Text
  generate_request request = request_line request (crlf ++ header_lines request.headers crlf)
