-- ===== src/Rtsp/Transport/Tests.antt =====
-- Concrete runs of the choice of a transport and of the transport grammar, and the witnesses
-- of their theorems.
use rtsp.Common.{none, some, List, [], ◌∷◌, ◌≡◌, refl, ℕ, inl, inr, arith}
use rtsp.Rtsp.Transport.{
  TransportSpec, port, mode, ssrc, string, ttl, client, server, port_number, port_range,
  get_acceptable_transport, process_server_transport, no_unicast_option, is_acceptable, choose_spec,
  choose_client_port, choose_ssrc, choose_server_port, is_client_port, is_nonzero_ssrc,
  is_server_port,
}
use rtsp.Rtsp.Text.{chars, every, every_sound}
use rtsp.Rtsp.Message.{is_token, is_quotable}
use rtsp.Rtsp.Transport.Grammar.{
  transport_grammar, generate_transport, transport_spec_gen, parameters_gen, specs_gen,
}
use rtsp.Rtsp.Transport.Numbers.{header_numbers, show_hex, parse_hex}
use rtsp.Rtsp.Transport.RoundTrip.{transport_grammar-generate_transport}
use rtsp.Rtsp.Transport.Written.{IsWritableSpec}
use rtsp.Rtsp.Transport.Acceptable.{IsAnswered, get_acceptable_transport-IsAnswered}

-- The request of the library's own client, behind a multicast offer.
abbrev offered : List TransportSpec
offered =
    record {
      transport_protocol = "RTP";
      profile = "AVP";
      lower_transport = none;
      parameters = string "multicast" ∷ ttl 127 ∷ [];
    }
    ∷ record {
      transport_protocol = "RTP";
      profile = "AVP";
      lower_transport = some "UDP";
      parameters = string "unicast" ∷ port client (port_range 49152 49153) ∷ ssrc 0 ∷ [];
    }
    ∷ []

abbrev answered : TransportSpec
answered = record {
  transport_protocol = "RTP";
  profile = "AVP";
  lower_transport = some "UDP";
  parameters =
      string "unicast"
      ∷ port client (port_number 49152)
      ∷ ssrc 77
      ∷ port server (port_number 49154)
      ∷ [];
}

offered-answered : get_acceptable_transport offered 50000 77 ≡ some answered
unfolding get_acceptable_transport is_acceptable choose_spec choose_client_port choose_ssrc
    choose_server_port is_client_port is_nonzero_ssrc is_server_port
offered-answered = refl

multicast_refused : process_server_transport [] ≡ no_unicast_option
unfolding process_server_transport
multicast_refused = refl

-- The answer to the offers when the server draws this SSRC.
abbrev answered_with : ℕ → TransportSpec
answered_with source = record {
  transport_protocol = "RTP";
  profile = "AVP";
  lower_transport = some "UDP";
  parameters =
      string "unicast"
      ∷ port client (port_number 49152)
      ∷ ssrc source
      ∷ port server (port_number 49154)
      ∷ [];
}

get_acceptable_transport-IsAnswered_example :
    IsAnswered header_numbers 3735928559 (answered_with 3735928559)
unfolding get_acceptable_transport is_acceptable choose_spec choose_client_port choose_ssrc
    choose_server_port is_client_port is_nonzero_ssrc is_server_port every
get_acceptable_transport-IsAnswered_example =
    get_acceptable_transport-IsAnswered header_numbers offered 50000 3735928559
      (
        (inr (every_sound is_token (chars "multicast") refl, omega arith), (inr (omega arith), tt)),
        (
          (
            inr (every_sound is_token (chars "unicast") refl, omega arith),
            (inr (omega arith, omega arith), (inl refl, tt)),
          ),
          tt,
        ),
      )
      (omega arith) (omega arith) (omega arith) refl

hex_written : show_hex 3735928559 ≡ chars "deadbeef"
hex_written = refl

hex_read : parse_hex (chars "DEADBEEF;") ≡ some (3735928559, chars ";")
hex_read = refl

abbrev playing : TransportSpec
playing = record {
  transport_protocol = "RTP";
  profile = "AVP";
  lower_transport = none;
  parameters =
      string "unicast" ∷ port client (port_range 3456 3457) ∷ mode "PLAY" ∷ ssrc 3735928559 ∷ [];
}

abbrev multicasting : TransportSpec
multicasting = record {
  transport_protocol = "RTP";
  profile = "AVP";
  lower_transport = some "UDP";
  parameters = string "multicast" ∷ ttl 127 ∷ port server (port_number 42) ∷ [];
}

written_transport :
    generate_transport header_numbers multicasting (playing ∷ [])
    ≡ chars
        "RTP/AVP/UDP;multicast;ttl=127;server_port=42,RTP/AVP;unicast;client_port=3456-3457;mode=\"PLAY\";ssrc=deadbeef"
unfolding generate_transport transport_spec_gen parameters_gen specs_gen
written_transport = refl

playing-IsWritableSpec : IsWritableSpec playing
unfolding every
playing-IsWritableSpec = record {
  protocol_token = (every_sound is_token (chars "RTP") refl, omega arith);
  profile_token = (every_sound is_token (chars "AVP") refl, omega arith);
  lower_token = tt;
}

multicasting-IsWritableSpec : IsWritableSpec multicasting
unfolding every
multicasting-IsWritableSpec = record {
  protocol_token = (every_sound is_token (chars "RTP") refl, omega arith);
  profile_token = (every_sound is_token (chars "AVP") refl, omega arith);
  lower_token = (every_sound is_token (chars "UDP") refl, omega arith);
}

transport_grammar-generate_transport_example :
    transport_grammar header_numbers (generate_transport header_numbers multicasting (playing ∷ []))
    ≡ some (multicasting ∷ playing ∷ [], [])
unfolding every
transport_grammar-generate_transport_example =
    transport_grammar-generate_transport header_numbers multicasting (playing ∷ [])
      (
        multicasting-IsWritableSpec,
        (
          (every_sound is_token (chars "multicast") refl, omega arith),
          (omega arith, (omega arith, tt)),
        ),
      )
      (
        (
          playing-IsWritableSpec,
          (
            (every_sound is_token (chars "unicast") refl, omega arith),
            (
              (omega arith, omega arith),
              (
                (every_sound is_quotable (chars "PLAY") refl, omega arith),
                ((omega arith, omega arith), tt),
              ),
            ),
          ),
        ),
        tt,
      )
