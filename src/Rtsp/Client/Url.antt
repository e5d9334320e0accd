-- ===== src/Rtsp/Client/Url.antt =====
-- process_url of src/streaming_lib/rtsp_lib/src/rtsp_client.cpp.
use Prim.Native.Char.{Char, code}
use Prim.Native.String.{String}
use text.Mathlib.Text.{◌==◌}
use text.Mathlib.TextBridge.{of_list}
use rtsp.Common.{
  ℕ, ◌^◌, ◌<◌, ◌≡◌, refl, sym, ap, ◌∙◌, Bool, not, ◌&&◌, ◌||◌, Option, none, some, [], ◌++◌,
  append-nil, leb, if◌then◌else◌, value_or,
}
use rtsp.Rtsp.Text.{
  Text, chars, chars-of_list, is_digit, is_space, take_while, drop_while, lit, ◌>>=◌, Stops, Only,
  take_while-append, drop_while-append,
}
use rtsp.Rtsp.Transport.Grammar.{or_else}
use rtsp.Rtsp.Options.{OptionNumbers}
use rtsp.Rtsp.Client.Offer.{Settings}

-- `alnum` and `print` of the C locale.
abbrev pub is_alnum : Char → Bool
is_alnum c =
    is_digit c || (leb 65 (code c) && leb (code c) 90 || leb 97 (code c) && leb (code c) 122)

abbrev pub is_print : Char → Bool
is_print c = leb 32 (code c) && leb (code c) 126

-- `alnum | char_(".-")`, whose second part is the full stop and the hyphen, and `alnum | char_(".:/")`.
abbrev pub is_host : Char → Bool
is_host c = is_alnum c || leb 45 (code c) && leb (code c) 46

abbrev pub is_address : Char → Bool
is_address c =
    is_alnum c || leb 46 (code c) && leb (code c) 47 || leb 58 (code c) && leb (code c) 58

take_while_all : (p : Char → Bool) (text : Text) → Only p text → take_while p text ≡ text
take_while_all p text o =
    ap (take_while p) (sym (append-nil text)) ∙ take_while-append p text [] o tt

-- `lit("[") >> *(…) >> lit("]")`
abbrev pub bracketed : Text → Option (Text × Text)
bracketed text = do
  after ← lit (chars "[") text
  rest ← lit (chars "]") (drop_while is_address after)
  some (take_while is_address after, rest)

-- The first part may be empty, the second may be missing.
abbrev pub optional_bracketed : Text → Text → Option (Text × Text) → Text × Text
optional_bracketed name text none = (name, text)
optional_bracketed name text (some (address, rest)) = (name ++ address, rest)

unfoldable pub url_host : Text → Text × Text
url_host text =
    let rest = drop_while is_host text in
    optional_bracketed (take_while is_host text) rest (bracketed rest)

abbrev pub optional_port : Text → Option (ℕ × Text) → Option ℕ × Text
optional_port text none = (none, text)
optional_port text (some (number, rest)) = (some number, rest)

-- The method, which is the first of the two that fits.
unfoldable pub url_method : Text → Option (String × Text)
url_method text =
    or_else (lit (chars "rtsp:") text >>= (λ rest. some ("rtsp:", rest)))
      (lit (chars "rtspu:") text >>= (λ rest. some ("rtspu:", rest)))

module _ (options : OptionNumbers) where
  open options use {uint16_parser, decimal_generator}

  -- `-(lit(":") >> uint_parser<uint16_t, 10>())`
  unfoldable pub url_port_of : Text → Option ℕ × Text
  url_port_of text = optional_port text (lit (chars ":") text >>= uint16_parser)

  -- `none` is an exception, which leaves the settings as they were.
  unfoldable pub process_url : Settings → String → Option Settings
  process_url settings url = do
    method ← url_method (drop_while is_space (chars url))
    after ← lit (chars "//") method.1
    let host = url_host after
    let port = url_port_of host.1
    rest ← lit (chars "/") port.1
    if not (method.0 == "rtsp:")
        then none
        else some (record settings {
          host = of_list host.0;
          url_port = value_or port.0 554;
          remainder = of_list (take_while is_print rest);
          original_url = url;
        })

  abbrev pub port_text : Option ℕ → Text
  port_text none = []
  port_text (some n) = chars ":" ++ decimal_generator n

  -- A URL for a host by its name, with or without a port, and a path.
  abbrev pub url_text : Text → Option ℕ → Text → Text
  url_text host port path = chars "rtsp://" ++ (host ++ (port_text port ++ (chars "/" ++ path)))

  abbrev pub IsPort : Option ℕ → Type 0
  IsPort none = Unit
  IsPort (some n) = n < 2 ^ 16

  port_text-Stops :
      (port : Option ℕ) (path : Text) → Stops is_host (port_text port ++ (chars "/" ++ path))
  port_text-Stops none path = refl
  port_text-Stops (some n) path = refl

  port_text-bracketed :
      (port : Option ℕ) (path : Text) → bracketed (port_text port ++ (chars "/" ++ path)) ≡ none
  port_text-bracketed none path = refl
  port_text-bracketed (some n) path = refl

  url_host-text :
      (host : Text) (port : Option ℕ) (path : Text)
      → Only is_host host
      → url_host (host ++ (port_text port ++ (chars "/" ++ path)))
        ≡ (host, port_text port ++ (chars "/" ++ path))
  unfolding url_host
  url_host-text host port path o =
      let rest = port_text port ++ (chars "/" ++ path) in
      rw (take_while-append is_host host rest o (port_text-Stops port path)) (
        rw (drop_while-append is_host host rest o (port_text-Stops port path))
          (ap (optional_bracketed host rest) (port_text-bracketed port path)))

  url_port_of-text :
      (port : Option ℕ) (path : Text)
      → IsPort port
      → url_port_of (port_text port ++ (chars "/" ++ path)) ≡ (port, chars "/" ++ path)
  unfolding url_port_of
  url_port_of-text none path w = refl
  url_port_of-text (some n) path w =
      ap (optional_port (port_text (some n) ++ (chars "/" ++ path)))
        (options.uint16_parser-decimal n (chars "/" ++ path) w refl)

  -- The settings get the host, the port or 554, and the path of a URL whose host is a name and whose path
  -- can be printed.
  pub process_url-url_text :
      (settings : Settings) (host : Text) (port : Option ℕ) (path : Text)
      → Only is_host host
      → IsPort port
      → Only is_print path
      → process_url settings (of_list (url_text host port path))
        ≡ some (record settings {
          host = of_list host;
          url_port = value_or port 554;
          remainder = of_list path;
          original_url = of_list (url_text host port path);
        })
  unfolding process_url url_method
  process_url-url_text settings host port path o w p =
      rw (chars-of_list (host ++ (port_text port ++ (chars "/" ++ path)))) (
        rw (url_host-text host port path o)
          (rw (url_port_of-text port path w) (rw (take_while_all is_print path p) refl)))
