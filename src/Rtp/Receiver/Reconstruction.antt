-- ===== src/Rtp/Receiver/Reconstruction.antt =====
-- `unicast_jpeg_rtp_receiver::fec_reconstruction` of rtp_endsystem.cpp: a lost packet from an FEC
-- packet and the media packets that are left of its block.
use rtsp.Common.{
  ℕ, ◌+◌, ◌-◌, ◌*◌, ◌/◌, ◌%◌, ◌^◌, ◌||◌, none, some, List, [], ◌∷◌, ◌++◌, bit_and, length, take,
  drop, to_bool, ltb, if◌then◌else◌,
}
use rtsp.Rtp.Spirit.{Spirit, qi_parse}
use rtsp.Rtp.Packet.{Header, FecLevel, default_header, default_jpeg_packet}
use rtsp.Rtp.Packet.Generator.{octet_at, generate_header}
use rtsp.Rtp.Packet.Grammar.{parse_jpeg_packet}
use rtsp.Rtp.Fec.{FecGenerator, returns, throws_logic_error, throws_out_of_range}
use rtsp.Rtp.Fec.{construct, xor_range, generate_next_fec_packet}
use rtsp.Rtp.Fec.Xor.{zeros}
use rtsp.Rtp.Receiver.{JpegEntry, FecEntry, Result, throws, is_undefined, bind, front}

-- `std::transform(media + 12, media end, bit_string.begin(), bit_string.begin(), f)`, which writes
-- behind the end of a string that is shorter than the media octets.
unfoldable pub xor_onto : List ℕ → List ℕ → Result (List ℕ)
xor_onto media_octets bits =
    if ltb (length bits) (length media_octets)
    then is_undefined
    else Result.returns (xor_range media_octets bits ++ drop (length media_octets) bits)

-- The loop over the media packets that does so.
unfoldable pub xor_media : List ℕ → List JpegEntry → Result (List ℕ)
xor_media bits [] = Result.returns bits
xor_media bits ((media_packet, octets) ∷ media_packets) =
    if ltb (length octets) 12
    then is_undefined
    else bind (xor_onto (drop 12 octets) bits) (λ bits'. xor_media bits' media_packets)

-- The payload of the level, filled up with zeros to its protection length. The count of zeros is
-- unsigned: with a longer payload the vector cannot be filled and an exception ends it.
unfoldable pub protected_payload : FecLevel → Result (List ℕ)
protected_payload (level, payload) =
    if ltb level.protection_length_field (length payload)
    then throws
    else Result.returns (payload ++ zeros (level.protection_length_field - length payload))

module _ (spirit : Spirit) where
  open spirit use {big_dword}

  -- The loop over the media packets that feeds the generator; what it returns is ignored.
  unfoldable pub feed_generator : FecGenerator → List JpegEntry → Result FecGenerator
  feed_generator fec_gen [] = Result.returns fec_gen
  feed_generator fec_gen ((media_packet, octets) ∷ media_packets) =
      elim (generate_next_fec_packet spirit fec_gen octets media_packet.header.sequence_number) [
        | returns fec_gen' packet ↦ feed_generator fec_gen' media_packets
        | throws_logic_error fec_gen' ↦ throws
        | throws_out_of_range fec_gen' ↦ throws
      ]

  -- The call with twelve zeros that completes the block; a null pointer is dereferenced.
  unfoldable pub complete_block : FecGenerator → ℕ → Result (List ℕ)
  complete_block fec_gen sequence_number =
      elim (generate_next_fec_packet spirit fec_gen (zeros 12) sequence_number) [
        | returns fec_gen' packet ↦ elim packet [
          | none ↦ is_undefined
          | some octets ↦ Result.returns octets
        ]
        | throws_logic_error fec_gen' ↦ throws
        | throws_out_of_range fec_gen' ↦ throws
      ]

  -- The header of the lost packet from the ten octets of the bit string. The sequence number and
  -- the SSRC stay zero, and the length is parsed with a wider parser than the octets, in vain.
  unfoldable pub recovered_header : List ℕ → Header
  recovered_header bit_string =
      let octet0 = octet_at bit_string 0 in
      let octet1 = octet_at bit_string 1 in
      record default_header {
        padding_set = to_bool (bit_and octet0 0b00100000 / 2 ^ 5);
        extension_bit = to_bool (bit_and octet0 0b00010000 / 2 ^ 4);
        csrc = bit_and octet0 0b00001111;
        marker = to_bool (bit_and octet1 0b10000000 / 2 ^ 7);
        payload_type_field = bit_and octet1 0b01111111;
        timestamp = (qi_parse big_dword (take 4 (drop 4 bit_string)) 0).0 % 2 ^ 32;
      }

  -- The packet that is parsed from the header and the bit string behind it, with these octets. The
  -- attribute is returned as it stands when the parser fails.
  unfoldable pub rebuild : Header → List ℕ → JpegEntry
  rebuild step_4 bit_string =
      let rtp_header_buffer = (generate_header spirit step_4).1 ++ bit_string in
      (
        (parse_jpeg_packet spirit default_jpeg_packet rtp_header_buffer).attribute,
        rtp_header_buffer,
      )

  -- `fec_reconstruction(fec_packet, media_packets)`
  unfoldable pub fec_reconstruction : FecEntry → List JpegEntry → Result JpegEntry
  fec_reconstruction (fec_packet, fec_octets) media_packets =
      let fec_k = (length media_packets + 1) % 65536 in
      let place = 12 + fec_packet.header.csrc * 4 in
      bind (feed_generator (construct fec_k) media_packets) (λ fec_gen.
        bind (front media_packets) (λ first.
          bind (complete_block fec_gen first.0.header.sequence_number) (λ step_1.
            let step_4 = recovered_header (xor_range (take 10 step_1) (drop place fec_octets)) in
            if ltb (length step_1) 10 || ltb (length fec_octets) (place + 10)
            then is_undefined
            else bind (front fec_packet.levels) (λ level. bind (protected_payload level) (λ payload.
              bind (xor_media payload media_packets)
                (λ bit_string. Result.returns (rebuild step_4 bit_string)))))))
