-- ===== src/Rtp/Packet/Tests.antt =====
-- The theorems on the packets of rtp_packet.hpp at the packet that rtp_endsystem_test.cpp generates,
-- and runs of the parsers.
use rtsp.Common.{ℕ, ◌+◌, ◌*◌, ◌≤◌, ◌≡◌, refl, true, false, List, [], ◌∷◌, length, arith}
use rtsp.Rtp.Spirit.{big_endian}
use rtsp.Rtp.Packet.{
  Header, CustomJpegPacket, CustomFecPacket, default_header, default_jpeg_packet,
  default_fec_packet,
}
use rtsp.Rtp.Packet.Generator.{
  generate_dwords, generate_bytes, generate_header, generate_jpeg_payload, generate_jpeg_packet,
  generate_fec_packet,
}
use rtsp.Rtp.Packet.Grammar.{
  succeed, parse_fixed_header, parse_csrcs, parse_header, parse_jpeg_profile, parse_jpeg_packet,
  parse_mask, parse_levels, parse_fec_header, parse_fec_packet,
}
use rtsp.Rtp.Packet.HeaderRoundTrip.{IsSendable}
use rtsp.Rtp.Packet.RoundTrip.{
  IsSendableJpeg, parse-generate_jpeg_packet, parse-generate_fec_packet,
}
use rtsp.Rtp.Packet.Parsed.{parse_jpeg_packet_accepts}

abbrev likely_header : Header
likely_header = record default_header {
  csrc = 3;
  marker = true;
  payload_type_field = 26;
  sequence_number = 1337;
  timestamp = 1337 * 1337;
  ssrc = 0x1c4a7eb4;
  csrcs = 74872 ∷ 0 ∷ 2352 ∷ [];
}

abbrev likely_packet : CustomJpegPacket
likely_packet = record {
  header = record {
    base = likely_header;
    type_specific = 0x91;
    fragment_offset = 0xf0fffb;
    jpeg_type = 11;
    quantization_table = 13;
    image_width = 17;
    image_height = 19;
  };
  payload = 14 ∷ 14 ∷ 0xff ∷ 0xd9 ∷ [];
}

abbrev likely_octets : List ℕ
likely_octets =
    0x83 ∷ 0x9a ∷ 0x05 ∷ 0x39 ∷ 0x00 ∷ 0x1b ∷ 0x46 ∷ 0xb1 ∷ 0x1c ∷ 0x4a ∷ 0x7e ∷ 0xb4 ∷ 0x00 ∷ 0x01
    ∷ 0x24 ∷ 0x78 ∷ 0x00 ∷ 0x00 ∷ 0x00 ∷ 0x00 ∷ 0x00 ∷ 0x00 ∷ 0x09 ∷ 0x30 ∷ 0x91 ∷ 0xf0 ∷ 0xff
    ∷ 0xfb ∷ 11 ∷ 13 ∷ 17 ∷ 19 ∷ 14 ∷ 14 ∷ 0xff ∷ 0xd9 ∷ []

likely_header_generation : generate_jpeg_packet big_endian likely_packet ≡ (true, likely_octets)
unfolding generate_jpeg_packet generate_header generate_dwords generate_jpeg_payload generate_bytes
likely_header_generation = refl

likely_header_parsing :
    parse_jpeg_packet big_endian default_jpeg_packet likely_octets ≡ succeed [] likely_packet
unfolding parse_jpeg_packet parse_header parse_fixed_header parse_csrcs parse_jpeg_profile
likely_header_parsing = refl

likely_header-IsSendable : IsSendable likely_header
likely_header-IsSendable = record {
  version_two = refl;
  no_extension = refl;
  csrc_count = refl;
  csrc_field = omega arith;
  payload_type_range = omega arith;
  sequence_range = omega arith;
  timestamp_range = omega arith;
  ssrc_range = omega arith;
  csrcs_range = omega arith;
  extension_empty = refl;
}

likely_packet-IsSendable : IsSendableJpeg likely_packet
likely_packet-IsSendable = record {
  sendable = likely_header-IsSendable;
  jpeg_payload_type = refl;
  type_specific_range = omega arith;
  fragment_offset_range = omega arith;
  jpeg_type_range = omega arith;
  quantization_range = omega arith;
  width_range = omega arith;
  height_range = omega arith;
  payload_range = omega arith;
}

parse-generate_jpeg_packet_example :
    ((generate_jpeg_packet big_endian likely_packet).0 ≡ true)
    × (parse_jpeg_packet big_endian default_jpeg_packet
          (generate_jpeg_packet big_endian likely_packet).1
        ≡ succeed [] likely_packet)
parse-generate_jpeg_packet_example =
    parse-generate_jpeg_packet big_endian likely_packet likely_packet-IsSendable

abbrev likely_fec_packet : CustomFecPacket
likely_fec_packet = record default_fec_packet {
  header = record default_fec_packet.header { base = likely_header };
}

parse-generate_fec_packet_example :
    ((generate_fec_packet big_endian likely_fec_packet).0 ≡ true)
    × (parse_header big_endian default_fec_packet.header.base
          (generate_fec_packet big_endian likely_fec_packet).1
        ≡ succeed [] likely_fec_packet.header.base)
    × ((parse_fec_packet big_endian default_fec_packet
          (generate_fec_packet big_endian likely_fec_packet).1).success
        ≡ false)
parse-generate_fec_packet_example =
    parse-generate_fec_packet big_endian likely_fec_packet likely_header-IsSendable

parse_jpeg_packet_accepts_example :
    let p = parse_jpeg_packet big_endian default_jpeg_packet likely_octets in
    (p.begin ≡ [])
    × (p.attribute.header.version ≡ 2)
    × (p.attribute.header.payload_type_field ≡ 26)
    × (length p.attribute.header.csrcs ≡ p.attribute.header.csrc)
    × (20 + 4 * p.attribute.header.csrc + length p.attribute.payload ≤ length likely_octets)
    × (p.attribute.header.extension_bit ≡ false
        → 20 + 4 * p.attribute.header.csrc + length p.attribute.payload ≡ length likely_octets)
unfolding parse_jpeg_packet parse_header parse_fixed_header parse_csrcs parse_jpeg_profile
parse_jpeg_packet_accepts_example = parse_jpeg_packet_accepts big_endian likely_octets refl

-- An FEC packet with one level of three octets, over two media packets from number 7 on.
fec_run :
    (parse_fec_packet big_endian default_fec_packet (
      0x80 ∷ 100 ∷ 0 ∷ 1 ∷ 0 ∷ 0 ∷ 0 ∷ 0 ∷ 0 ∷ 0 ∷ 0 ∷ 9 ∷ 0 ∷ 26 ∷ 0 ∷ 7 ∷ 0 ∷ 0 ∷ 0 ∷ 0 ∷ 0 ∷ 8
      ∷ 0 ∷ 3 ∷ 0xc0 ∷ 0 ∷ 1 ∷ 2 ∷ 3 ∷ [])).attribute.levels
    ≡ (record { protection_length_field = 3; mask_field = 0xc000000000000000 }, 1 ∷ 2 ∷ 3 ∷ []) ∷ []
unfolding parse_fec_packet parse_header parse_fixed_header parse_csrcs parse_fec_header parse_levels
    parse_mask
fec_run = refl
