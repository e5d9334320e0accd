-- ===== src/Rtsp/Transport/Grammar.antt =====
-- The grammar and the generators of transport headers of
-- src/streaming_lib/rtsp_lib/include/rtsp_headers.hpp, read as those of the messages are.
use Prim.Native.Char.{Char, code}
use Prim.Native.String.{String}
use text.Mathlib.TextBridge.{of_list}
use rtsp.Common.{
  ℕ, zero, suc, ◌^◌, ◌≤◌, ◌<◌, ◌≡◌, Bool, ◌&&◌, ◌||◌, Option, none, some, List, [], ◌∷◌, ◌++◌,
  length, leb,
}
use rtsp.Rtsp.Text.{Text, chars, is_digit, plus, lit, ◌>>=◌, Stops}
use rtsp.Rtsp.Message.{is_token, quoted_string}
use rtsp.Rtsp.Transport.{
  PortType, general, server, client, PortNumbers, port_number, port_range, Parameter, ttl, port,
  ssrc, mode, string, TransportSpec, TransportAnswer, process_server_transport,
}

abbrev pub is_hex : Char → Bool
is_hex c = is_digit c || (leb 65 (code c) && leb (code c) 70 || leb 97 (code c) && leb (code c) 102)

-- The parsers and generators of numbers that the rules use: `uint_parser<ttl, 10, 1, 3>`,
-- `uint_parser<port_number, 10, 1, 5>`, `uint_parser<ssrc, 16, 8, 8>`, and the generators of decimal and
-- hexadecimal numbers, which write no leading zeros.
pub record HeaderNumbers : Type 0 where
  pub ttl_parser : Text → Option (ℕ × Text)
  pub port_parser : Text → Option (ℕ × Text)
  pub ssrc_parser : Text → Option (ℕ × Text)
  pub decimal_generator : ℕ → Text
  pub hex_generator : ℕ → Text
  pub ttl_parser-decimal :
      (n : ℕ) (rest : Text)
      → n < 1000
      → Stops is_digit rest
      → ttl_parser (decimal_generator n ++ rest) ≡ some (n, rest)
  pub port_parser-decimal :
      (n : ℕ) (rest : Text)
      → n < 65536
      → Stops is_digit rest
      → port_parser (decimal_generator n ++ rest) ≡ some (n, rest)
  pub ssrc_parser-hex :
      (n : ℕ) (rest : Text)
      → 2 ^ 28 ≤ n
      → n < 2 ^ 32
      → ssrc_parser (hex_generator n ++ rest) ≡ some (n, rest)
  pub ssrc_parser-short :
      (n : ℕ) (rest : Text)
      → n < 2 ^ 28
      → Stops is_hex rest
      → ssrc_parser (hex_generator n ++ rest) ≡ none

-- The first alternative that succeeds.
abbrev pub or_else : {A : Type 0} → Option A → Option A → Option A
or_else none other = other
or_else (some a) other = some a

-- `port_type_`, whose names begin with different letters, and the `=` behind it.
unfoldable pub port_type_ : Text → Option (PortType × Text)
port_type_ text = or_else (lit (chars "port=") text >>= (λ rest. some (general, rest))) (
    or_else (lit (chars "server_port=") text >>= (λ rest. some (server, rest)))
      (lit (chars "client_port=") text >>= (λ rest. some (client, rest))))

-- The names of `port_type_gen`.
abbrev pub port_type_gen : PortType → Text
port_type_gen general = chars "port"
port_type_gen server = chars "server_port"
port_type_gen client = chars "client_port"

-- `quoted_string` as an alternative of its own, whose attribute counts only when it succeeds.
abbrev pub succeeded : Text × Option Text → Option (Text × Text)
succeeded (value, none) = none
succeeded (value, some rest) = some (value, rest)

abbrev pub quoted : Text → Option (Text × Text)
quoted text = succeeded (quoted_string text)

abbrev pub optional_lower : Text → Option (Text × Text) → Option String × Text
optional_lower text none = (none, text)
optional_lower text (some (name, rest)) = (some (of_list name), rest)

-- `-("/" >> lower_transport_)`
abbrev pub lower_transport_ : Text → Option String × Text
lower_transport_ text = optional_lower text (lit (chars "/") text >>= plus is_token)

abbrev pub lower_gen : Option String → Text → Text
lower_gen none rest = rest
lower_gen (some name) rest = chars "/" ++ (chars name ++ rest)

module _ (numbers : HeaderNumbers) where
  open numbers use {ttl_parser, port_parser, ssrc_parser, decimal_generator, hex_generator}

  -- `ttl_`
  unfoldable pub ttl_ : Text → Option (Parameter × Text)
  ttl_ text = do
    after ← lit (chars "ttl=") text
    number ← ttl_parser after
    some (ttl number.0, number.1)

  -- `port_range_`
  unfoldable pub port_range_ : Text → Option (PortNumbers × Text)
  port_range_ text = do
    first ← port_parser text
    after ← lit (chars "-") first.1
    second ← port_parser after
    some (port_range first.0 second.0, second.1)

  -- `port_`
  unfoldable pub port_ : Text → Option (Parameter × Text)
  port_ text = do
    type ← port_type_ text
    numbers ←
        or_else (port_range_ type.1)
          (port_parser type.1 >>= (λ number. some (port_number number.0, number.1)))
    some (port type.0 numbers.0, numbers.1)

  -- `ssrc_`
  unfoldable pub ssrc_ : Text → Option (Parameter × Text)
  ssrc_ text = do
    after ← lit (chars "ssrc=") text
    number ← ssrc_parser after
    some (ssrc number.0, number.1)

  -- `mode_`
  unfoldable pub mode_ : Text → Option (Parameter × Text)
  mode_ text = do
    after ← lit (chars "mode=") text
    value ← or_else (plus is_token after) (quoted after)
    some (mode (of_list value.0), value.1)

  -- `parameter_`
  unfoldable pub parameter_ : Text → Option (Parameter × Text)
  parameter_ text = do
    after ← lit (chars ";") text
    or_else (ttl_ after) (
        or_else (port_ after) (
          or_else (ssrc_ after) (
            or_else (mode_ after)
              (plus is_token after >>= (λ value. some (string (of_list value.0), value.1))))))

  -- `*(parameter_)`; each parameter takes a character, so that the length of the text is enough fuel.
  unfoldable pub parameter_list : ℕ → Text → List Parameter × Text
  parameter_list zero text = ([], text)
  parameter_list (suc fuel) text = elim (parameter_ text) [
    | none ↦ ([], text)
    | some (parameter, rest) ↦ let more = parameter_list fuel rest in (parameter ∷ more.0, more.1)
  ]

  -- `transport_spec_`
  unfoldable pub transport_spec_ : Text → Option (TransportSpec × Text)
  transport_spec_ text = do
    protocol ← plus is_token text
    after ← lit (chars "/") protocol.1
    profile ← plus is_token after
    let lower = lower_transport_ profile.1
    let parameters = parameter_list (length lower.1) lower.1
    some (
      record {
        transport_protocol = of_list protocol.0;
        profile = of_list profile.0;
        lower_transport = lower.0;
        parameters = parameters.0;
      },
      parameters.1,
    )

  -- `*("," >> transport_spec_)`, with fuel for the same reason.
  unfoldable pub more_specs : ℕ → Text → List TransportSpec × Text
  more_specs zero text = ([], text)
  more_specs (suc fuel) text = elim (lit (chars ",") text >>= transport_spec_) [
    | none ↦ ([], text)
    | some (spec, rest) ↦ let more = more_specs fuel rest in (spec ∷ more.0, more.1)
  ]

  -- `transport_grammar`: `transport_spec_ % ","`
  unfoldable pub transport_grammar : Text → Option (List TransportSpec × Text)
  transport_grammar text = do
    first ← transport_spec_ text
    let more = more_specs (length first.1) first.1
    some (first.0 ∷ more.0, more.1)

  -- The parameter of `parameter_gen`, in front of the text that follows.
  abbrev pub value_gen : Parameter → Text → Text
  value_gen (ttl n) rest = chars "ttl=" ++ (decimal_generator n ++ rest)
  value_gen (port type (port_number n)) rest =
      port_type_gen type ++ (chars "=" ++ (decimal_generator n ++ rest))
  value_gen (port type (port_range m n)) rest =
      port_type_gen type
      ++ (chars "=" ++ (decimal_generator m ++ (chars "-" ++ (decimal_generator n ++ rest))))
  value_gen (ssrc n) rest = chars "ssrc=" ++ (hex_generator n ++ rest)
  value_gen (mode s) rest = chars "mode=\"" ++ (chars s ++ (chars "\"" ++ rest))
  value_gen (string s) rest = chars s ++ rest

  unfoldable pub parameters_gen : List Parameter → Text → Text
  parameters_gen [] rest = rest
  parameters_gen (parameter ∷ parameters) rest =
      chars ";" ++ value_gen parameter (parameters_gen parameters rest)

  -- `transport_spec`, in front of the text that follows.
  unfoldable pub transport_spec_gen : TransportSpec → Text → Text
  transport_spec_gen spec rest =
      chars spec.transport_protocol
      ++ (chars "/"
          ++ (chars spec.profile
              ++ lower_gen spec.lower_transport (parameters_gen spec.parameters rest)))

  -- `"," << transport_spec` for the specifications behind the first.
  unfoldable pub specs_gen : List TransportSpec → Text
  specs_gen [] = []
  specs_gen (spec ∷ specs) = chars "," ++ transport_spec_gen spec (specs_gen specs)

  -- `generate_transport_header_grammar`, of a list that is not empty.
  unfoldable pub generate_transport : TransportSpec → List TransportSpec → Text
  generate_transport spec specs = transport_spec_gen spec (specs_gen specs)

  -- `process_server_transport_header` of rtsp_client.cpp: `none` is the exception of a header that cannot
  -- be parsed; what is left of the text is not looked at.
  unfoldable pub process_server_transport_header : Text → Option TransportAnswer
  process_server_transport_header transport_header =
      transport_grammar transport_header >>= (λ parsed. some (process_server_transport parsed.0))
