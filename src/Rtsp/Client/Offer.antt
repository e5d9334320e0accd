-- ===== src/Rtsp/Client/Offer.antt =====
-- The settings of rtsp_client of src/streaming_lib/rtsp_lib/src/rtsp_client.cpp, the reading of its URL,
-- and the headers of its SETUP request as the grammars of rtsp_headers.hpp read them.
use Prim.Native.String.{String}
use text.Mathlib.TextBridge.{of_list}
use rtsp.Common.{
  ℕ, ◌^◌, ◌<◌, ◌≡◌, refl, ap, ◌∙◌, Bool, true, not, Option, none, some, List, [], ◌∷◌,
  if◌then◌else◌, arith, value_or,
}
use rtsp.Rtsp.Text.{Text, chars, chars-of_list, every, every_sound}
use rtsp.Rtsp.Message.{is_token}
use rtsp.Rtsp.Headers.{lookup}
use rtsp.Rtsp.Transport.{TransportSpec, port, string, client, port_number}
use rtsp.Rtsp.Transport.Grammar.{HeaderNumbers, transport_grammar, generate_transport}
use rtsp.Rtsp.Transport.RoundTrip.{transport_grammar-generate_transport}
use rtsp.Rtsp.Methods.Setup.{MknOptionParameters, mkn_option_tag, mkn_option_header}
use rtsp.Rtsp.Options.{
  OptionNumbers, require_, mkn_bernoulli_channel_parameter_grammar,
  generate_mkn_bernoulli_channel_parameter_grammar, require_-tag,
  mkn_bernoulli_channel_parameter_grammar-generate,
}

-- `rtsp_settings_` and `mkn_option_`.
pub record Settings : Type 0 where
  pub host : String
  pub url_port : ℕ
  pub remainder : String
  pub original_url : String
  pub mkn_option : Option MknOptionParameters

unfoldable pub set_mkn_options : Settings → Bool → ℕ → ℕ → ℕ → Settings
set_mkn_options settings general_switch bernoulli_p fec_k fec_p =
    if not general_switch then record settings { mkn_option = none } else record settings {
      mkn_option = some (record { bernoulli_p = bernoulli_p; fec_k = fec_k; fec_p = fec_p });
    }

-- The transport that the client offers, on the port that it has drawn.
abbrev pub my_transport : ℕ → TransportSpec
my_transport chosen_rtp_port_by_me = record {
  transport_protocol = "RTP";
  profile = "AVP";
  lower_transport = some "UDP";
  parameters = string "unicast" ∷ port client (port_number chosen_rtp_port_by_me) ∷ [];
}

-- The text of a header, empty if there is none.
abbrev pub header_text : List (String × String) → String → Text
header_text headers name = chars (value_or (lookup name headers) "")

module _ (numbers : HeaderNumbers) (options : OptionNumbers) where
  abbrev pub option_headers : Option MknOptionParameters → List (String × String)
  option_headers none = []
  option_headers (some parameters) =
      ("Require", mkn_option_tag)
      ∷ (
        mkn_option_header,
        of_list (generate_mkn_bernoulli_channel_parameter_grammar options parameters),
      )
      ∷ []

  -- The headers of the request that `send_setup_request` builds.
  unfoldable pub setup_headers : Settings → ℕ → List (String × String)
  setup_headers settings chosen_rtp_port_by_me =
      ("Transport", of_list (generate_transport numbers (my_transport chosen_rtp_port_by_me) []))
      ∷ option_headers settings.mkn_option

  my_transport-read :
      (n : ℕ)
      → n < 2 ^ 16
      → transport_grammar numbers (generate_transport numbers (my_transport n) [])
        ≡ some (my_transport n ∷ [], [])
  unfolding every
  my_transport-read n h =
      transport_grammar-generate_transport numbers (my_transport n) []
        (
          record {
            protocol_token = (every_sound is_token (chars "RTP") refl, omega arith);
            profile_token = (every_sound is_token (chars "AVP") refl, omega arith);
            lower_token = (every_sound is_token (chars "UDP") refl, omega arith);
          },
          ((every_sound is_token (chars "unicast") refl, omega arith), (omega arith, tt)),
        )
        tt

  -- After `set_mkn_options` with a probability, the headers of SETUP have the transport that the client
  -- offers, the one tag of the option, and the parameters of the option with the probability rounded, as
  -- the grammars of the server read them to their ends.
  pub setup_headers-set_mkn_options :
      (settings : Settings) (n bernoulli_p fec_k fec_p : ℕ)
      → n < 2 ^ 16
      → options.is_probability bernoulli_p ≡ true
      → fec_k < 2 ^ 16
      → fec_p < 2 ^ 16
      → let headers = setup_headers (set_mkn_options settings true bernoulli_p fec_k fec_p) n in
        (transport_grammar numbers (header_text headers "Transport")
          ≡ some (my_transport n ∷ [], []))
        × (require_ (header_text headers "Require") ≡ some (mkn_option_tag ∷ [], []))
        × (mkn_bernoulli_channel_parameter_grammar options (header_text headers mkn_option_header)
            ≡ some (
              record { bernoulli_p = options.rounded bernoulli_p; fec_k = fec_k; fec_p = fec_p },
              [],
            ))
  unfolding setup_headers set_mkn_options lookup every
  setup_headers-set_mkn_options settings n bernoulli_p fec_k fec_p h p k q =
      let parameters : MknOptionParameters = record {
        bernoulli_p = bernoulli_p;
        fec_k = fec_k;
        fec_p = fec_p;
      } in
      (
        ap (transport_grammar numbers)
              (chars-of_list (generate_transport numbers (my_transport n) []))
            ∙ my_transport-read n h,
        require_-tag mkn_option_tag (every_sound is_token (chars mkn_option_tag) refl, omega arith),
        ap (mkn_bernoulli_channel_parameter_grammar options)
              (chars-of_list (generate_mkn_bernoulli_channel_parameter_grammar options parameters))
            ∙ mkn_bernoulli_channel_parameter_grammar-generate options parameters p k q,
      )
