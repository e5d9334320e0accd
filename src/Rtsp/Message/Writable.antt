-- ===== src/Rtsp/Message/Writable.antt =====
-- The messages that the grammars of rtsp_message.hpp read as they were written.
use Prim.Native.Char.{Char}
use rtsp.Common.{◌^◌, ◌≤◌, ◌<◌, ◌≡◌, true, false, [], ◌∷◌, ◌++◌, length, All, arith}
use rtsp.Rtsp.Definitions.{Request, Response}
use rtsp.Rtsp.Text.{Text, chars, is_space, drop_while, Stops, Only, drop_while-append}
use rtsp.Rtsp.Message.{is_uri, is_reason}
use rtsp.Rtsp.Message.Headers.{IsToken, IsHeader, token_no_space}

-- A request whose parts the grammar can tell apart.
pub record IsWritable (request : Request) : Type 0 where
  pub method_token : IsToken (chars request.method_or_extension)
  pub uri_chars : Only is_uri (chars request.uri)
  pub uri_some : 1 ≤ length (chars request.uri)
  pub major_range : request.rtsp_version_major < 2 ^ 64
  pub minor_range : request.rtsp_version_minor < 2 ^ 64
  pub headers_good : All IsHeader request.headers

-- A reason phrase that does not begin with space.
abbrev pub IsReason : Text → Type 0
IsReason [] = ⊥
IsReason (c ∷ reason) = (is_space c ≡ false) × Only is_reason (c ∷ reason)

pub record IsWritableResponse (response : Response) : Type 0 where
  pub major_range : response.rtsp_version_major < 2 ^ 64
  pub minor_range : response.rtsp_version_minor < 2 ^ 64
  pub status_low : 100 ≤ response.status_code
  pub status_high : response.status_code < 1000
  pub reason_good : IsReason (chars response.reason_phrase)
  pub headers_good : All IsHeader response.headers

uri_no_space : (c : Char) → is_uri c ≡ true → is_space c ≡ false
uri_no_space c h = ground arith

pub drop_none : {text : Text} → Stops is_space text → drop_while is_space text ≡ text
drop_none {text = text} s = drop_while-append is_space [] text tt s

pub token-Stops : (name rest : Text) → IsToken name → Stops is_space (name ++ rest)
token-Stops [] rest (o, l) = absurd (omega arith)
token-Stops (c ∷ name) rest (o, l) = token_no_space c o.0

pub uri-Stops : (uri rest : Text) → Only is_uri uri → 1 ≤ length uri → Stops is_space (uri ++ rest)
uri-Stops [] rest o l = absurd (omega arith)
uri-Stops (c ∷ uri) rest o l = uri_no_space c o.0
