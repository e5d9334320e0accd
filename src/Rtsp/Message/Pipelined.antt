-- ===== src/Rtsp/Message/Pipelined.antt =====
-- Two requests one behind the other in one text, as rtsp_request_grammar of rtsp_message.hpp reads
-- them.
use Prim.Native.Char.{Char, code}
use text.Mathlib.TextBridge.{of_list}
use rtsp.Common.{
  ℕ, ◌≡◌, refl, sym, ap, subst, ◌∙◌, Bool, true, false, some, [], ◌∷◌, ◌++◌, append_assoc, All,
  All-append, ◌==◌, arith,
}
use rtsp.Rtsp.Definitions.{RtspHeader, RawHeaders, Request}
use rtsp.Rtsp.Text.{Text, chars, is_digit, Only, Numbers, bind_some}
use rtsp.Rtsp.Message.{
  crlf, is_token, is_field, header_line, header_lines, rtsp_request_grammar, request_line,
  generate_request,
}
use rtsp.Rtsp.Message.Headers.{IsToken, IsBody, IsHeader, token_no_space}
use rtsp.Rtsp.Message.Writable.{IsWritable}
use rtsp.Rtsp.Message.RoundTrip.{rtsp_request_grammar-request_line}
use rtsp.Rtsp.Message.Folded.{headers_end-folded}

Only-append : (p : Char → Bool) (xs ys : Text) → Only p xs → Only p ys → Only p (xs ++ ys)
Only-append p = All-append (λ c. p c ≡ true)

Only-field :
    (p : Char → Bool) (text : Text)
    → ((c : Char) → p c ≡ true → is_field c ≡ true)
    → Only p text
    → Only is_field text
Only-field p [] h o = tt
Only-field p (c ∷ text) h o = (h c o.0, Only-field p text h o.1)

token_field : (c : Char) → is_token c ≡ true → is_field c ≡ true
token_field c h = ground arith

digit_field : (c : Char) → is_digit c ≡ true → is_field c ≡ true
digit_field c h = ground arith

token_no_quote : (c : Char) → is_token c ≡ true → (code c == 34) ≡ false
token_no_quote c h = ground arith

token-IsBody : (name rest : Text) → IsToken name → Only is_field rest → IsBody (name ++ rest)
token-IsBody [] rest (o, l) f = absurd (omega arith)
token-IsBody (c ∷ name) rest (o, l) f = (
  token_no_space c o.0,
  token_no_quote c o.0,
  Only-append is_field (c ∷ name) rest (Only-field is_token (c ∷ name) token_field o) f,
)

All-before :
    (P : RtspHeader → Type 0) (headers : RawHeaders) (last : RtspHeader)
    → All P (headers ++ (last ∷ []))
    → All P headers × P last
All-before P [] last w = (tt, w.0)
All-before P (header ∷ headers) last w =
    let (before, at) = All-before P headers last w.1 in ((w.0, before), at)

header_lines-append :
    (headers : RawHeaders) (last : RtspHeader) (rest : Text)
    → header_lines (headers ++ (last ∷ [])) rest ≡ header_lines headers (header_line last rest)
unfolding header_lines
header_lines-append [] last rest = refl
header_lines-append (header ∷ headers) last rest =
    ap (header_line header) (header_lines-append headers last rest)

header_lines-rest :
    (headers : RawHeaders) (rest more : Text)
    → header_lines headers rest ++ more ≡ header_lines headers (rest ++ more)
unfolding header_lines
header_lines-rest [] rest more = refl
header_lines-rest (header ∷ headers) rest more =
    simp append_assoc (ap (header_line header) (header_lines-rest headers rest more))

module _ (numbers : Numbers) where
  open numbers use {uint_}

  request_line-rest :
      (request : Request) (rest more : Text)
      → request_line numbers request rest ++ more ≡ request_line numbers request (rest ++ more)
  request_line-rest request rest more = simp append_assoc refl

  line-IsBody :
      (request : Request)
      → IsWritable request
      → Only is_field (chars request.uri)
      → IsBody (request_line numbers request [])
  line-IsBody request w f =
      let field_digits =
        λ (n : ℕ). Only-field is_digit (uint_ n) digit_field (numbers.uint_-Only n) in
      let minor = request.rtsp_version_minor in
      token-IsBody (chars request.method_or_extension) _ w.method_token (
        refl,
        Only-append is_field (chars request.uri) _ f (
          refl,
          (
            refl,
            (
              refl,
              (
                refl,
                (
                  refl,
                  (
                    refl,
                    Only-append is_field (uint_ request.rtsp_version_major) _
                        (field_digits request.rtsp_version_major)
                        (refl, Only-append is_field (uint_ minor) [] (field_digits minor) tt),
                  ),
                ),
              ),
            ),
          ),
        ),
      )

  -- Two requests that the grammar reads when they stand alone, the first with a header field, and the
  -- second with no control character in its URI: where the second follows the first in one text, the
  -- grammar reads both as a single request, which is the first with the header fields of both, and in
  -- which the request line of the second is the end of the last header field of the first.
  pub rtsp_request_grammar-pipelined :
      (first second : Request) (headers : RawHeaders) (last : RtspHeader)
      → first.headers ≡ headers ++ (last ∷ [])
      → IsWritable first
      → IsWritable second
      → Only is_field (chars second.uri)
      → rtsp_request_grammar numbers
          (generate_request numbers first ++ generate_request numbers second)
        ≡ some (
          record first {
            headers =
                headers
                ++ ((last.0, of_list (chars last.1 ++ request_line numbers second []))
                    ∷ second.headers);
          },
          [],
        )
  unfolding generate_request
  rtsp_request_grammar-pipelined first second headers last e w v f =
      let line = request_line numbers second [] in
      let others = header_lines second.headers crlf in
      let after = header_lines headers (header_line last (crlf ++ (line ++ (crlf ++ others)))) in
      let (before, at) = All-before IsHeader headers last (subst (All IsHeader) e w.headers_good) in
      let second_text : generate_request numbers second ≡ line ++ (crlf ++ others) =
        sym (request_line-rest second [] (crlf ++ others)) in
      let text : generate_request numbers first ++ generate_request numbers second
          ≡ request_line numbers first (crlf ++ after) =
        request_line-rest first (crlf ++ header_lines first.headers crlf)
          (generate_request numbers second)
        ∙ ap (λ t. request_line numbers first (crlf ++ t))
            (header_lines-rest first.headers crlf (generate_request numbers second)
              ∙ ap (λ h. header_lines h (crlf ++ generate_request numbers second)) e
              ∙ header_lines-append headers last (crlf ++ generate_request numbers second)
              ∙ ap (λ t. header_lines headers (header_line last (crlf ++ t))) second_text) in
      ap (rtsp_request_grammar numbers) text
      ∙ rtsp_request_grammar-request_line numbers first after w
      ∙ bind_some _ (
          headers_end-folded headers last line second.headers before at (line-IsBody second v f)
            v.headers_good)
