-- ===== src/Rtsp/Transport/Parameters.antt =====
-- What the rules of rtsp_headers.hpp read of the parameters that its generators have written.
use Prim.Native.Char.{code}
use text.Mathlib.TextBridge.{of_list}
use rtsp.Common.{
  ℕ, ◌^◌, ◌≤◌, ◌<◌, ◌≡◌, refl, ap, ◌∙◌, ◌⊎◌, inl, inr, true, none, some, [], ◌∷◌, ◌++◌, length,
  arith,
}
use rtsp.Rtsp.Text.{
  Text, chars, of_list-chars, is_digit, drop_while, lit, ◌>>=◌, Stops, Only, every, every_sound,
  plus-append, take_while-append, drop_while-append,
}
use rtsp.Rtsp.Message.{is_token, is_quotable, close_quote}
use rtsp.Rtsp.Message.Headers.{IsToken}
use rtsp.Rtsp.Transport.{
  PortType, general, server, client, PortNumbers, port_number, port_range, Parameter, ttl, port,
  ssrc, mode, string,
}
use rtsp.Rtsp.Transport.Grammar.{
  HeaderNumbers, is_hex, or_else, succeeded, port_type_, port_type_gen, quoted, ttl_, port_range_,
  port_, ssrc_, mode_, parameter_, value_gen,
}

-- A parameter that the rules read as it was written.
abbrev pub IsWritableParameter : Parameter → Type 0
IsWritableParameter (ttl n) = n < 1000
IsWritableParameter (port type (port_number n)) = n < 65536
IsWritableParameter (port type (port_range m n)) = (m < 65536) × (n < 65536)
IsWritableParameter (ssrc n) = (2 ^ 28 ≤ n) × (n < 2 ^ 32)
IsWritableParameter (mode s) = Only is_quotable (chars s) × (1 ≤ length (chars s))
IsWritableParameter (string s) = IsToken (chars s)

-- What follows a parameter: another one, another specification, or the end.
abbrev pub Ends : Text → Type 0
Ends [] = Unit
Ends (c ∷ rest) = (code c ≡ 59) ⊎ (code c ≡ 44)

pub Ends-Stops : (rest : Text) → Ends rest → Stops is_token rest
Ends-Stops [] e = tt
Ends-Stops (c ∷ rest) (inl e) = ground (arith, e)
Ends-Stops (c ∷ rest) (inr e) = ground (arith, e)

Ends-digit : (rest : Text) → Ends rest → Stops is_digit rest
Ends-digit [] e = tt
Ends-digit (c ∷ rest) (inl e) = ground (arith, e)
Ends-digit (c ∷ rest) (inr e) = ground (arith, e)

Ends-hex : (rest : Text) → Ends rest → Stops is_hex rest
Ends-hex [] e = tt
Ends-hex (c ∷ rest) (inl e) = ground (arith, e)
Ends-hex (c ∷ rest) (inr e) = ground (arith, e)

Ends-dash : (rest : Text) → Ends rest → lit (chars "-") rest ≡ none
Ends-dash [] e = refl
Ends-dash (c ∷ rest) (inl e) = ground (arith, e)
Ends-dash (c ∷ rest) (inr e) = ground (arith, e)

-- A token is not taken for a name with a value.
lit_token :
    (name s rest : Text)
    → Only is_token name
    → Only is_token s
    → Ends rest
    → lit (name ++ chars "=") (s ++ rest) ≡ none
lit_token [] [] [] n o e = refl
lit_token [] [] (c ∷ rest) n o (inl e) = ground (arith, e)
lit_token [] [] (c ∷ rest) n o (inr e) = ground (arith, e)
lit_token [] (c ∷ s) rest n o e = ground (arith, o.0)
lit_token (d ∷ name) [] [] n o e = refl
lit_token (d ∷ name) [] (c ∷ rest) n o (inl e) = ground (arith, e, n.0)
lit_token (d ∷ name) [] (c ∷ rest) n o (inr e) = ground (arith, e, n.0)
lit_token (d ∷ name) (c ∷ s) rest n o e = ground (arith, lit_token name s rest n.1 o.1 e)

quoted-append :
    (s rest : Text)
    → Only is_quotable s
    → 1 ≤ length s
    → quoted (chars "\"" ++ (s ++ (chars "\"" ++ rest))) ≡ some (s, rest)
quoted-append [] rest o l = absurd (omega arith)
quoted-append (c ∷ s) rest o l =
    let after = (c ∷ s) ++ (chars "\"" ++ rest) in
    ap (λ t. succeeded (close_quote t (drop_while is_quotable after)))
      (take_while-append is_quotable (c ∷ s) (chars "\"" ++ rest) o refl)
    ∙ ap (λ t. succeeded (close_quote (c ∷ s) t))
        (drop_while-append is_quotable (c ∷ s) (chars "\"" ++ rest) o refl)

module _ (numbers : HeaderNumbers) where
  open numbers use {decimal_generator, hex_generator}

  port_type_-gen :
      (type : PortType) (rest : Text)
      → port_type_ (port_type_gen type ++ (chars "=" ++ rest)) ≡ some (type, rest)
  unfolding port_type_
  port_type_-gen general rest = refl
  port_type_-gen server rest = refl
  port_type_-gen client rest = refl

  port_number-read :
      (n : ℕ) (rest : Text)
      → n < 65536
      → Ends rest
      → or_else (port_range_ numbers (decimal_generator n ++ rest)) (
          numbers.port_parser (decimal_generator n ++ rest)
          >>= (λ number. some (port_number number.0, number.1)))
        ≡ some (port_number n, rest)
  unfolding port_range_
  port_number-read n rest h e =
      rw (numbers.port_parser-decimal n rest h (Ends-digit rest e)) (rw (Ends-dash rest e) refl)

  port_range-read :
      (m n : ℕ) (rest : Text)
      → m < 65536
      → n < 65536
      → Ends rest
      → port_range_ numbers (decimal_generator m ++ (chars "-" ++ (decimal_generator n ++ rest)))
        ≡ some (port_range m n, rest)
  unfolding port_range_
  port_range-read m n rest h k e =
      rw (numbers.port_parser-decimal m (chars "-" ++ (decimal_generator n ++ rest)) h refl)
        (rw (numbers.port_parser-decimal n rest k (Ends-digit rest e)) refl)

  port_-value :
      (type : PortType) (ports : PortNumbers) (rest : Text)
      → IsWritableParameter (port type ports)
      → Ends rest
      → port_ numbers (value_gen numbers (port type ports) rest) ≡ some (port type ports, rest)
  unfolding port_
  port_-value type (port_number n) rest w e =
      rw (port_type_-gen type (decimal_generator n ++ rest)) (rw (port_number-read n rest w e) refl)
  port_-value type (port_range m n) rest w e =
      let after = decimal_generator m ++ (chars "-" ++ (decimal_generator n ++ rest)) in
      rw (port_type_-gen type after) (rw (port_range-read m n rest w.0 w.1 e) refl)

  no_ttl : (type : PortType) (rest : Text) → ttl_ numbers (port_type_gen type ++ rest) ≡ none
  unfolding ttl_
  no_ttl general rest = refl
  no_ttl server rest = refl
  no_ttl client rest = refl

  port_parameter :
      (type : PortType) (ports : PortNumbers) (rest : Text)
      → IsWritableParameter (port type ports)
      → Ends rest
      → parameter_ numbers (chars ";" ++ value_gen numbers (port type ports) rest)
        ≡ some (port type ports, rest)
  unfolding parameter_
  port_parameter type (port_number n) rest w e =
      rw
        (
          no_ttl type (chars "=" ++ (decimal_generator n ++ rest)),
          port_-value type (port_number n) rest w e,
        )
        refl
  port_parameter type (port_range m n) rest w e =
      let after = decimal_generator m ++ (chars "-" ++ (decimal_generator n ++ rest)) in
      rw (no_ttl type (chars "=" ++ after), port_-value type (port_range m n) rest w e) refl

  -- A token that stands for itself, whichever names it begins with.
  pub string_parameter :
      (s rest : Text)
      → IsToken s
      → Stops is_token rest
      → ((name : Text) → Only is_token name → lit (name ++ chars "=") (s ++ rest) ≡ none)
      → parameter_ numbers (chars ";" ++ (s ++ rest)) ≡ some (string (of_list s), rest)
  unfolding every parameter_ ttl_ port_ port_type_ ssrc_ mode_
  string_parameter s rest (o, l) stop misses =
      let named = λ (name : Text) (h : every is_token name ≡ true).
        misses name (every_sound is_token name h) in
      rw (named (chars "ttl") refl) (
        rw
          (
            named (chars "port") refl,
            named (chars "server_port") refl,
            named (chars "client_port") refl,
          )
          (rw (named (chars "ssrc") refl)
            (rw (named (chars "mode") refl) (rw (plus-append is_token s rest o l stop) refl))))

  -- A parameter that was written is read back.
  pub parameter_-value :
      (parameter : Parameter) (rest : Text)
      → IsWritableParameter parameter
      → Ends rest
      → parameter_ numbers (chars ";" ++ value_gen numbers parameter rest) ≡ some (parameter, rest)
  unfolding parameter_ ttl_ port_ port_type_ ssrc_ mode_
  parameter_-value (ttl n) rest w e =
      rw (numbers.ttl_parser-decimal n rest w (Ends-digit rest e)) refl
  parameter_-value (port type ports) rest w e = port_parameter type ports rest w e
  parameter_-value (ssrc n) rest w e = rw (numbers.ssrc_parser-hex n rest w.0 w.1) refl
  parameter_-value (mode s) rest w e =
      rw (quoted-append (chars s) rest w.0 w.1) (ap (λ t. some (mode t, rest)) (of_list-chars s))
  parameter_-value (string s) rest w e =
      string_parameter (chars s) rest w (Ends-Stops rest e)
        (λ name n. lit_token name (chars s) rest n w.0 e)
      ∙ ap (λ t. some (string t, rest)) (of_list-chars s)

  -- An SSRC with fewer than eight hexadecimal digits is read as the token `ssrc`, up to its sign.
  pub parameter_-short :
      (n : ℕ) (rest : Text)
      → n < 2 ^ 28
      → Ends rest
      → parameter_ numbers (chars ";" ++ value_gen numbers (ssrc n) rest)
        ≡ some (string "ssrc", chars "=" ++ (hex_generator n ++ rest))
  unfolding parameter_ ttl_ port_ port_type_ ssrc_ mode_
  parameter_-short n rest h e = rw (numbers.ssrc_parser-short n rest h (Ends-hex rest e)) refl
