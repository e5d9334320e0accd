-- ===== src/Rtp/Packet/RoundTrip.antt =====
-- Parsing what the JPEG packet generator of rtp_packet.hpp wrote.
use rtsp.Common.{
  ℕ, ◌/◌, ◌%◌, ◌^◌, ◌<◌, ◌≡◌, refl, true, false, List, [], ◌∷◌, append-nil, All, arith,
}
use rtsp.Rtp.Spirit.{Spirit}
use rtsp.Rtp.Packet.{CustomJpegPacket, CustomFecPacket, default_jpeg_packet, default_fec_packet}
use rtsp.Rtp.Packet.Generator.{
  generate_bytes, generate_header, generate_jpeg_payload, generate_jpeg_packet, generate_fec_packet,
}
use rtsp.Rtp.Packet.Grammar.{
  succeed, parse_header, parse_jpeg_profile, parse_jpeg_packet, parse_fec_header, parse_fec_packet,
}
use rtsp.Rtp.Packet.HeaderRoundTrip.{
  IsByte, IsSendable, parse-generate_header, generate_header-true,
}

-- A packet that the JPEG generator writes in full.
pub record IsSendableJpeg (p : CustomJpegPacket) : Type 0 where
  pub sendable : IsSendable p.header.base
  pub jpeg_payload_type : p.header.payload_type_field ≡ 26
  pub type_specific_range : p.header.type_specific < 256
  pub fragment_offset_range : p.header.fragment_offset < 2 ^ 24
  pub jpeg_type_range : p.header.jpeg_type < 256
  pub quantization_range : p.header.quantization_table < 256
  pub width_range : p.header.image_width < 256
  pub height_range : p.header.image_height < 256
  pub payload_range : All IsByte p.payload

module _ (spirit : Spirit) where
  open spirit use {
    byte_-cons, big_word-cons, big_dword-cons, karma_byte__lem, karma_big_word_lem,
    karma_big_dword_lem,
  }

  generate_bytes_lem : (octets : List ℕ) → All IsByte octets → generate_bytes spirit octets ≡ octets
  unfolding generate_bytes
  generate_bytes_lem [] w = refl
  generate_bytes_lem (x ∷ xs) w = rw (karma_byte__lem x w.0, generate_bytes_lem xs w.1)

  jpeg_octets :
      (p : CustomJpegPacket)
      → IsSendableJpeg p
      → generate_jpeg_payload spirit p
        ≡ p.header.type_specific
          ∷ (p.header.fragment_offset / 2 ^ 16 % 256)
          ∷ (p.header.fragment_offset / 256 % 256)
          ∷ (p.header.fragment_offset % 256)
          ∷ p.header.jpeg_type
          ∷ p.header.quantization_table
          ∷ p.header.image_width
          ∷ p.header.image_height
          ∷ p.payload
  unfolding generate_jpeg_payload
  jpeg_octets p w = ground (
    arith,
    w,
    generate_bytes_lem p.payload w.payload_range,
    karma_big_dword_lem p.header.fragment_offset,
    karma_byte__lem p.header.type_specific,
    karma_byte__lem (p.header.fragment_offset / 2 ^ 16 % 256),
    karma_byte__lem (p.header.fragment_offset / 256 % 256),
    karma_byte__lem (p.header.fragment_offset % 256),
    karma_byte__lem p.header.jpeg_type,
    karma_byte__lem p.header.quantization_table,
    karma_byte__lem p.header.image_width,
    karma_byte__lem p.header.image_height,
  )

  profile_back :
      (q p : CustomJpegPacket)
      → q.header.base ≡ p.header.base
      → q.payload ≡ []
      → IsSendableJpeg p
      → parse_jpeg_profile spirit q (generate_jpeg_payload spirit p) ≡ succeed [] p
  unfolding parse_jpeg_profile
  profile_back q p e e' w =
      let h = p.header in
      let f1 : ℕ = h.fragment_offset / 2 ^ 16 % 256 in
      let f2 : ℕ = h.fragment_offset / 256 % 256 in
      let f3 : ℕ = h.fragment_offset % 256 in
      let r7 : List ℕ = h.image_height ∷ p.payload in
      let r6 : List ℕ = h.image_width ∷ r7 in
      let r5 : List ℕ = h.quantization_table ∷ r6 in
      let r4 : List ℕ = h.jpeg_type ∷ r5 in
      rw (jpeg_octets p w) (
        ground (
          arith,
          w,
          byte_-cons h.type_specific (f1 ∷ f2 ∷ f3 ∷ r4),
          byte_-cons f1 (f2 ∷ f3 ∷ r4),
          byte_-cons f2 (f3 ∷ r4),
          byte_-cons f3 r4,
          byte_-cons h.jpeg_type r5,
          byte_-cons h.quantization_table r6,
          byte_-cons h.image_width r7,
          byte_-cons h.image_height p.payload,
          big_dword-cons 0 f1 f2 f3 [],
        ))

  -- For every packet whose fields fit their widths, with version 2, payload type 26, no extension, and
  -- a CSRC count that is the length of its CSRC list: the generator succeeds, and the parser, started on
  -- an empty packet, reads the octets to their end and returns the packet itself.
  pub parse-generate_jpeg_packet :
      (packet : CustomJpegPacket)
      → IsSendableJpeg packet
      → ((generate_jpeg_packet spirit packet).0 ≡ true)
        × (parse_jpeg_packet spirit default_jpeg_packet (generate_jpeg_packet spirit packet).1
            ≡ succeed [] packet)
  unfolding generate_jpeg_packet parse_jpeg_packet
  parse-generate_jpeg_packet packet w =
      let base = packet.header.base in
      let written = generate_header-true spirit base w.sendable in
      let payload = generate_jpeg_payload spirit packet in
      let start = default_jpeg_packet.header in
      let q : CustomJpegPacket = record default_jpeg_packet {
        header = record start { base = base };
      } in
      ground (
        arith,
        written,
        parse-generate_header spirit start.base base payload refl refl w.sendable,
        profile_back q packet refl refl w,
      )

  -- For every FEC packet with a sendable RTP header: the FEC packet generator reports success;
  -- the parser of RTP headers reads the octets to their end, as the header of the packet, so that the
  -- FEC header and the levels are not there; and the FEC grammar does not accept the octets.
  pub parse-generate_fec_packet :
      (packet : CustomFecPacket)
      → IsSendable packet.header.base
      → ((generate_fec_packet spirit packet).0 ≡ true)
        × (parse_header spirit default_fec_packet.header.base (generate_fec_packet spirit packet).1
            ≡ succeed [] packet.header.base)
        × ((parse_fec_packet spirit default_fec_packet
              (generate_fec_packet spirit packet).1).success
            ≡ false)
  unfolding generate_fec_packet parse_fec_packet parse_fec_header
  parse-generate_fec_packet packet w =
      let base = packet.header.base in
      let start = default_fec_packet.header.base in
      let octets = (generate_header spirit base).1 in
      let back : parse_header spirit start octets ≡ succeed [] base =
        rw (← append-nil octets) (parse-generate_header spirit start base [] refl refl w) in
      (
        generate_header-true spirit base w,
        back,
        ground (arith, generate_header-true spirit base w, back),
      )
