-- ===== src/Rtsp/Message/Folded.antt =====
-- The header rules of rtsp_message.hpp where a line follows the empty line that ends the header fields.
use text.Mathlib.TextBridge.{of_list}
use rtsp.Common.{
  ℕ, zero, suc, ◌-◌, ◌≤◌, ◌≡◌, refl, ap, ◌∙◌, some, [], ◌∷◌, ◌++◌, length, length-append, All,
  arith,
}
use rtsp.Rtsp.Definitions.{RtspHeader, RawHeaders}
use rtsp.Rtsp.Text.{
  Text, chars, of_list-chars, is_space, plus, lit, ◌>>=◌, Stops, plus-append, bind_some,
}
use rtsp.Rtsp.Message.{
  crlf, field_content, with_optional, header_field_body, header_, header_list, header_line,
  header_lines, headers_end,
}
use rtsp.Rtsp.Message.Headers.{
  IsBody, IsHeader, NoMore, field_content-append, header_field_body-append,
  header_list-header_lines, header_list_next, header_-header_line, token-NoMore, next-NoMore,
  end-NoMore, header_from_body, drop_spaces, length-header_lines,
}

body-Stops : (body rest : Text) → IsBody body → Stops is_space (body ++ rest)
body-Stops [] rest b = absurd b
body-Stops (c ∷ body) rest (n, q, o) = n

body_step :
    (fuel : ℕ) (text content rest : Text)
    → field_content text ≡ some (content, rest)
    → header_field_body (suc fuel) text
      ≡ some (
          with_optional
            (content, rest)
            (lit crlf rest
              >>= (λ line. plus is_space line >>= (λ folded. header_field_body fuel folded.1))))
unfolding header_field_body
body_step fuel text content rest e = bind_some _ e

-- A body, an empty line and another line: the rule takes the other line for a continuation.
header_field_body-folded :
    (fuel : ℕ) (body more after : Text)
    → 1 ≤ fuel
    → IsBody body
    → IsBody more
    → ((n : ℕ) → NoMore n after)
    → header_field_body (suc fuel) (body ++ (crlf ++ (crlf ++ (more ++ (crlf ++ after)))))
      ≡ some (body ++ more, crlf ++ after)
header_field_body-folded zero body more after l b m n = absurd (omega arith)
header_field_body-folded (suc fuel) body more after l b m n =
    let rest = more ++ (crlf ++ after) in
    let spaces =
      plus-append is_space crlf rest (refl, (refl, tt)) (omega arith)
        (body-Stops more (crlf ++ after) m) in
    let inner =
      bind_some (λ folded. header_field_body (suc fuel) folded.1) spaces
      ∙ header_field_body-append fuel more after m (n fuel) in
    body_step (suc fuel) (body ++ (crlf ++ (crlf ++ rest))) body (crlf ++ (crlf ++ rest))
      (field_content-append body (crlf ++ (crlf ++ rest)) b refl)
    ∙ ap (λ o. some (with_optional (body, crlf ++ (crlf ++ rest)) o)) inner

folded_whole :
    (body more after : Text)
    → IsBody body
    → IsBody more
    → ((fuel : ℕ) → NoMore fuel after)
    → let begin = body ++ (crlf ++ (crlf ++ (more ++ (crlf ++ after)))) in
      header_field_body (length begin) begin ≡ some (body ++ more, crlf ++ after)
folded_whole [] more after b m n = absurd b
folded_whole (c ∷ body) more after b m n =
    let rest = crlf ++ (crlf ++ (more ++ (crlf ++ after))) in
    header_field_body-folded (length (body ++ rest)) (c ∷ body) more after
      (omega (arith, length-append body rest)) b m n

-- The last header of the first request takes the line that follows the empty line.
header_-folded :
    (header : RtspHeader) (more after : Text)
    → IsHeader header
    → IsBody more
    → ((fuel : ℕ) → NoMore fuel after)
    → header_ (header_line header (crlf ++ (more ++ (crlf ++ after))))
      ≡ some ((header.0, of_list (chars header.1 ++ more)), after)
header_-folded header more after (t, b) m n =
    let body = chars header.1 in
    let rest = crlf ++ (more ++ (crlf ++ after)) in
    header_from_body (chars header.0) (body ++ (crlf ++ rest)) (body ++ more) after t
      (drop_spaces body (crlf ++ rest) b) (folded_whole body more after b m n)
    ∙ ap (λ name. some ((name, of_list (body ++ more)), after)) (of_list-chars header.0)

-- Header lines in front of any text that does not continue the last one.
header_list-append :
    (fuel : ℕ) (headers : RawHeaders) (rest : Text)
    → length headers ≤ fuel
    → All IsHeader headers
    → ((n : ℕ) → NoMore n rest)
    → header_list fuel (header_lines headers rest) ≡ (
      headers ++ (header_list (fuel - length headers) rest).0,
      (header_list (fuel - length headers) rest).1,
    )
unfolding header_lines
header_list-append fuel [] rest l w n = ap (λ k. header_list k rest) (omega arith)
header_list-append zero (header ∷ headers) rest l w n = absurd (omega arith)
header_list-append (suc fuel) (header ∷ headers) rest l w n =
    let one =
      header_-header_line header (header_lines headers rest) w.0 (next-NoMore headers rest w.1 n) in
    let same : fuel - length headers ≡ suc fuel - suc (length headers) = omega arith in
    header_list_next fuel header (header_lines (header ∷ headers) rest) (header_lines headers rest)
      one
    ∙ ap (λ found. (header ∷ found.0, found.1))
        (header_list-append fuel headers rest (omega arith) w.1 n)
    ∙ ap (λ k. (header ∷ (headers ++ (header_list k rest).0), (header_list k rest).1)) same

-- The header fields of two requests, with a line between them.
pub headers_end-folded :
    (headers : RawHeaders) (last : RtspHeader) (more : Text) (others : RawHeaders)
    → All IsHeader headers
    → IsHeader last
    → IsBody more
    → All IsHeader others
    → headers_end (
        header_lines headers
          (header_line last (crlf ++ (more ++ (crlf ++ header_lines others crlf)))))
      ≡ some (headers ++ ((last.0, of_list (chars last.1 ++ more)) ∷ others), [])
unfolding headers_end header_
headers_end-folded headers last more others w l m v =
    let after = header_lines others crlf in
    let rest = header_line last (crlf ++ (more ++ (crlf ++ after))) in
    let text = header_lines headers rest in
    let long = length-header_lines headers rest in
    let more_long = length-header_lines others crlf in
    let k = length text - length headers - 1 in
    let spare : suc (length others) ≤ length rest = omega (
      arith,
      length-append (chars last.0)
          (chars ": " ++ (chars last.1 ++ (crlf ++ (crlf ++ (more ++ (crlf ++ after)))))),
      length-append (chars last.1) (crlf ++ (crlf ++ (more ++ (crlf ++ after)))),
      length-append more (crlf ++ after),
      more_long,
    ) in
    let count : length text - length headers ≡ suc k = omega arith in
    let tail =
      ap (λ n. header_list n rest) count
      ∙ header_list_next k (last.0, of_list (chars last.1 ++ more)) rest after
          (header_-folded last more after l m (next-NoMore others crlf v end-NoMore))
      ∙ ap (λ found. ((last.0, of_list (chars last.1 ++ more)) ∷ found.0, found.1))
          (header_list-header_lines k others crlf (omega arith) v refl end-NoMore) in
    let list =
      header_list-append (length text) headers rest (omega arith) w
        (token-NoMore (chars last.0) _ l.0)
      ∙ ap (λ found. (headers ++ found.0, found.1)) tail in
    rw list refl
