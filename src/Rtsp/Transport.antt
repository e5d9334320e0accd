-- ===== src/Rtsp/Transport.antt =====
-- rtsp::headers::transport of src/streaming_lib/rtsp_lib/include/rtsp_headers.hpp, and
-- get_acceptable_transport of src/streaming_lib/rtsp_lib/src/rtsp_methods.cpp.
pub mod Acceptable
pub mod Grammar
pub mod Numbers
pub mod ParameterList
pub mod Parameters
pub mod RoundTrip
pub mod Written
mod Tests
use Prim.Native.String.{String}
use text.Mathlib.Text.{◌==◌}
use rtsp.Common.{
  ℕ, zero, suc, ◌+◌, ◌%◌, Bool, true, false, not, ◌&&◌, Option, none, some, List, [], ◌∷◌, ◌++◌,
  if◌then◌else◌, to_bool, value_or,
}

pub data PortType : Type 0 where
  general server client : PortType

-- `boost::variant<port_number, port_range>`
pub data PortNumbers : Type 0 where
  port_number : ℕ → PortNumbers
  port_range : ℕ → ℕ → PortNumbers

-- `boost::variant<ttl, port, ssrc, mode, string>`
pub data Parameter : Type 0 where
  ttl : ℕ → Parameter
  port : PortType → PortNumbers → Parameter
  ssrc : ℕ → Parameter
  mode : String → Parameter
  string : String → Parameter

pub record TransportSpec : Type 0 where
  pub transport_protocol : String
  pub profile : String
  pub lower_transport : Option String
  pub parameters : List Parameter

abbrev pub find_if {ℓ} : {A : Type ℓ} → (A → Bool) → List A → Option A
find_if test [] = none
find_if test (x ∷ xs) = if test x then some x else find_if test xs

abbrev pub starts_unicast : List Parameter → Bool
starts_unicast (string t ∷ _) = t == "unicast"
starts_unicast _ = false

-- The predicate of the first `find_if`: RTP/AVP over UDP with `unicast` as its first parameter.
unfoldable pub is_acceptable : TransportSpec → Bool
is_acceptable value =
    value.transport_protocol == "RTP"
    && (value.profile == "AVP"
        && (value_or value.lower_transport "UDP" == "UDP" && starts_unicast value.parameters))

unfoldable pub is_client_port : Parameter → Bool
is_client_port (port client numbers) = true
is_client_port _ = false

unfoldable pub is_server_port : Parameter → Bool
is_server_port (port server numbers) = true
is_server_port _ = false

unfoldable pub is_nonzero_ssrc : Parameter → Bool
is_nonzero_ssrc (ssrc s) = to_bool s
is_nonzero_ssrc _ = false

-- The only number, or the first one of a range.
abbrev pub first_port : PortNumbers → ℕ
first_port (port_number p) = p
first_port (port_range p q) = p

-- The client port of a parameter that passed `is_client_port`, or the random one.
unfoldable pub choose_client_port : Option Parameter → ℕ → ℕ
choose_client_port (some (port type numbers)) random_port = first_port numbers
choose_client_port _ random_port = random_port

-- `client_port + 2` as a `uint16_t`, if the client asks for no server port.
unfoldable pub choose_server_port : Option Parameter → ℕ → Parameter
choose_server_port (some parameter) client_port = parameter
choose_server_port none client_port = port server (port_number ((client_port + 2) % 65536))

unfoldable pub choose_ssrc : Option Parameter → ℕ → Parameter
choose_ssrc (some parameter) random_ssrc = parameter
choose_ssrc none random_ssrc = ssrc random_ssrc

unfoldable pub choose_spec : TransportSpec → ℕ → ℕ → TransportSpec
choose_spec requested random_port random_ssrc =
    let client_port =
      choose_client_port (find_if is_client_port requested.parameters) random_port in
    record {
      transport_protocol = "RTP";
      profile = "AVP";
      lower_transport = some "UDP";
      parameters =
          string "unicast"
          ∷ port client (port_number client_port)
          ∷ choose_ssrc (find_if is_nonzero_ssrc requested.parameters) random_ssrc
          ∷ choose_server_port (find_if is_server_port requested.parameters) client_port
          ∷ [];
    }

-- `get_acceptable_transport`, with the two numbers that its random engine would draw.
unfoldable pub get_acceptable_transport : List TransportSpec → ℕ → ℕ → Option TransportSpec
get_acceptable_transport specifications random_port random_ssrc =
    elim (find_if is_acceptable specifications) [
      | none ↦ none
      | some requested ↦ some (choose_spec requested random_port random_ssrc)
    ]

-- `boost::get<port_number>` of the port at a position of the chosen parameters, and `boost::get<ssrc>`.
-- `none` is `boost::bad_get`.
unfoldable pub get_port_number : Option Parameter → Option ℕ
get_port_number (some (port type (port_number p))) = some p
get_port_number _ = none

unfoldable pub get_ssrc : Option Parameter → Option ℕ
get_ssrc (some (ssrc s)) = some s
get_ssrc _ = none

abbrev pub parameter_at : ℕ → List Parameter → Option Parameter
parameter_at i [] = none
parameter_at zero (x ∷ xs) = some x
parameter_at (suc i) (x ∷ xs) = parameter_at i xs

-- The exceptions of `process_server_transport_header` of rtsp_client.cpp.
pub data TransportAnswer : Type 0 where
  uses : ℕ → ℕ → TransportAnswer
  no_unicast_option no_client_port no_ssrc : TransportAnswer

pub is_receiving_port : Parameter → Bool
is_receiving_port (port client numbers) = true
is_receiving_port (port general numbers) = true
is_receiving_port _ = false

pub is_ssrc : Parameter → Bool
is_ssrc (ssrc s) = true
is_ssrc _ = false

-- The port of a parameter that passed `is_receiving_port`, and the number of one that passed `is_ssrc`.
abbrev pub port_of : Parameter → ℕ
port_of (port type numbers) = first_port numbers
port_of _ = 0

abbrev pub ssrc_of : Parameter → ℕ
ssrc_of (ssrc s) = s
ssrc_of _ = 0

-- The part of `process_server_transport_header` behind the parser: the port and the SSRC of the
-- first acceptable specification.
pub process_server_transport : List TransportSpec → TransportAnswer
process_server_transport specifications = elim (find_if is_acceptable specifications) [
  | none ↦ no_unicast_option
  | some spec ↦ elim (find_if is_receiving_port spec.parameters) [
    | none ↦ no_client_port
    | some receiving ↦ elim (find_if is_ssrc spec.parameters) [
      | none ↦ no_ssrc
      | some source ↦ uses (port_of receiving) (ssrc_of source)
    ]
  ]
]
