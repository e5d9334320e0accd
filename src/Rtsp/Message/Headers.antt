-- ===== src/Rtsp/Message/Headers.antt =====
-- What the header rules of rtsp_message.hpp read of what `header_generator` has written.
use Prim.Native.Char.{Char, code}
use text.Mathlib.TextBridge.{of_list}
use rtsp.Common.{
  ℕ, zero, suc, ◌+◌, ◌≤◌, ◌≡◌, refl, ap, ◌∙◌, true, false, none, some, [], ◌∷◌, ◌++◌, length,
  length-append, All, ◌==◌, arith,
}
use rtsp.Rtsp.Definitions.{RtspHeader, RawHeaders}
use rtsp.Rtsp.Text.{
  Text, chars, of_list-chars, is_space, drop_while, plus, ◌>>=◌, Stops, Only, plus-append,
}
use rtsp.Rtsp.Message.{
  crlf, is_token, is_field, field_content, header_field_body, header_, header_list, header_line,
  header_lines, headers_end,
}

-- A text that a token rule takes whole.
abbrev pub IsToken : Text → Type 0
IsToken name = Only is_token name × (1 ≤ length name)

-- The body of a header that the rules read as it was written: it begins with neither a space nor a
-- quote, and has no control character.
abbrev pub IsBody : Text → Type 0
IsBody [] = ⊥
IsBody (c ∷ body) = (is_space c ≡ false) × ((code c == 34) ≡ false) × Only is_field (c ∷ body)

abbrev pub IsHeader : RtspHeader → Type 0
IsHeader header = IsToken (chars header.0) × IsBody (chars header.1)

pub field_content-append :
    (body rest : Text)
    → IsBody body
    → Stops is_field rest
    → field_content (body ++ rest) ≡ some (body, rest)
unfolding field_content
field_content-append [] rest b s = absurd b
field_content-append (c ∷ body) rest (n, q, o) s =
    let whole = plus-append is_field (c ∷ body) rest o (omega arith) s in ground (arith, q, whole)

-- The text behind a line end does not continue the line.
abbrev pub NoMore : ℕ → Text → Type 0
NoMore fuel after = (plus is_space after >>= (λ folded. header_field_body fuel folded.1)) ≡ none

pub header_field_body-append :
    (fuel : ℕ) (body after : Text)
    → IsBody body
    → NoMore fuel after
    → header_field_body (suc fuel) (body ++ (crlf ++ after)) ≡ some (body, crlf ++ after)
unfolding header_field_body
header_field_body-append fuel body after b n =
    let content = field_content-append body (crlf ++ after) b refl in rw (content, n) refl

pub drop_spaces :
    (body rest : Text) → IsBody body → drop_while is_space (body ++ rest) ≡ body ++ rest
drop_spaces [] rest b = absurd b
drop_spaces (c ∷ body) rest (n, q, o) = ground (arith, n)

body_whole :
    (body after : Text)
    → IsBody body
    → ((fuel : ℕ) → NoMore fuel after)
    → let begin = body ++ (crlf ++ after) in
      header_field_body (length begin) begin ≡ some (body, crlf ++ after)
body_whole [] after b n = absurd b
body_whole (c ∷ body) after b n =
    header_field_body-append (length (body ++ (crlf ++ after))) (c ∷ body) after b
      (n (length (body ++ (crlf ++ after))))

-- The rule of a header by what the rule of its body reads.
pub header_from_body :
    (name begin body after : Text)
    → IsToken name
    → drop_while is_space begin ≡ begin
    → header_field_body (length begin) begin ≡ some (body, crlf ++ after)
    → header_ (name ++ (chars ": " ++ begin)) ≡ some ((of_list name, of_list body), after)
unfolding header_
header_from_body name begin body after (o, l) d b =
    rw (plus-append is_token name (chars ": " ++ begin) o l refl, d, b) refl

-- A header that was written is read back, where the text behind it does not continue its line.
pub header_-header_line :
    (header : RtspHeader) (after : Text)
    → IsHeader header
    → ((fuel : ℕ) → NoMore fuel after)
    → header_ (header_line header after) ≡ some (header, after)
header_-header_line header after (t, b) n =
    let body = chars header.1 in
    header_from_body (chars header.0) (body ++ (crlf ++ after)) body after t
      (drop_spaces body (crlf ++ after) b) (body_whole body after b n)
    ∙ ap (λ h. some (h, after)) (rw (of_list-chars header.0, of_list-chars header.1) refl)

pub token_no_space : (c : Char) → is_token c ≡ true → is_space c ≡ false
token_no_space c h = ground arith

-- Neither a character of a token nor the end of the text continues a line.
pub token-NoMore : (name rest : Text) → IsToken name → (fuel : ℕ) → NoMore fuel (name ++ rest)
token-NoMore [] rest (o, l) fuel = absurd (omega arith)
token-NoMore (c ∷ name) rest (o, l) fuel = ground (arith, token_no_space c o.0)

pub end-NoMore : (fuel : ℕ) → NoMore fuel crlf
unfolding header_field_body field_content
end-NoMore zero = refl
end-NoMore (suc fuel) = refl

pub next-NoMore :
    (headers : RawHeaders) (rest : Text)
    → All IsHeader headers
    → ((n : ℕ) → NoMore n rest)
    → (n : ℕ) → NoMore n (header_lines headers rest)
unfolding header_lines
next-NoMore [] rest w n k = n k
next-NoMore (header ∷ headers) rest w n k =
    token-NoMore (chars header.0)
      (chars ": " ++ (chars header.1 ++ (crlf ++ header_lines headers rest))) w.0.0 k

pub length-header_lines :
    (headers : RawHeaders) (rest : Text)
    → length headers + length rest ≤ length (header_lines headers rest)
unfolding header_lines
length-header_lines [] rest = omega arith
length-header_lines (header ∷ headers) rest =
    let more = header_lines headers rest in
    omega (
      arith,
      length-append (chars header.0) (chars ": " ++ (chars header.1 ++ (crlf ++ more))),
      length-append (chars header.1) (crlf ++ more),
      length-append (chars header.1) (crlf ++ more),
      length-header_lines headers rest,
    )

header_list_end :
    (fuel : ℕ) (text : Text) → header_ text ≡ none → header_list (suc fuel) text ≡ ([], text)
unfolding header_list
header_list_end fuel text e = ground (arith, e)

pub header_list_next :
    (fuel : ℕ) (header : RtspHeader) (text rest : Text)
    → header_ text ≡ some (header, rest)
    → header_list (suc fuel) text ≡ (header ∷ (header_list fuel rest).0, (header_list fuel rest).1)
unfolding header_list
header_list_next fuel header text rest e = ground (arith, e)

-- The header lines are read back with what follows them, where this neither is a header nor
-- continues the last line.
pub header_list-header_lines :
    (fuel : ℕ) (headers : RawHeaders) (rest : Text)
    → length headers ≤ fuel
    → All IsHeader headers
    → header_ rest ≡ none
    → ((n : ℕ) → NoMore n rest)
    → header_list fuel (header_lines headers rest) ≡ (headers, rest)
unfolding header_list header_lines
header_list-header_lines zero [] rest l w e n = refl
header_list-header_lines (suc fuel) [] rest l w e n = header_list_end fuel rest e
header_list-header_lines zero (header ∷ headers) rest l w e n = absurd (omega arith)
header_list-header_lines (suc fuel) (header ∷ headers) rest l w e n =
    let one =
      header_-header_line header (header_lines headers rest) w.0 (next-NoMore headers rest w.1 n) in
    header_list_next fuel header (header_lines (header ∷ headers) rest) (header_lines headers rest)
      one
    ∙ ap (λ found. (header ∷ found.0, found.1))
        (header_list-header_lines fuel headers rest (omega arith) w.1 e n)

-- The header fields and the empty line of a message that ends with them.
pub headers_end-header_lines :
    (headers : RawHeaders)
    → All IsHeader headers
    → headers_end (header_lines headers crlf) ≡ some (headers, [])
unfolding headers_end header_ header_lines
headers_end-header_lines headers w =
    let text = header_lines headers crlf in
    let list =
      header_list-header_lines (length text) headers crlf
        (omega (arith, length-header_lines headers crlf)) w refl end-NoMore in
    rw list refl
