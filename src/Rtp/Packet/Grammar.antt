-- ===== src/Rtp/Packet/Grammar.antt =====
-- The parsers of rtp_packet.hpp: `custom_jpeg_packet_grammar::parse` and
-- `custom_fec_packet_grammar::parse`. The input is the list of octets from `begin` to `end`, so
-- `begin + n > end` is `length < n`.
use rtsp.Common.{
  ℕ, zero, suc, ◌+◌, ◌-◌, ◌*◌, ◌/◌, ◌%◌, ◌^◌, Bool, true, false, not, List, [], ◌∷◌, ◌++◌, bit_and,
  bit_or, length, take, drop, to_bool, ltb, ◌==◌, if◌then◌else◌,
}
use rtsp.Rtp.Spirit.{Spirit, qi_parse}
use rtsp.Rtp.Packet.{
  Header, CustomJpegPacket, CustomFecHeader, CustomFecLevelHeader, CustomFecPacket,
}

-- What a parser leaves: its result, `begin`, and the attribute, which it also writes to on failure.
pub record Parse (A : Type 0) : Type 0 where
  pub success : Bool
  pub begin : List ℕ
  pub attribute : A

abbrev pub succeed : {A : Type 0} → List ℕ → A → Parse A
succeed begin a = record { success = true; begin = begin; attribute = a }

abbrev pub fail : {A : Type 0} → List ℕ → A → Parse A
fail begin a = record { success = false; begin = begin; attribute = a }

-- The next part of a parser, unless a part before it returned false.
abbrev pub then_parse : {A : Type 0} → Parse A → (A → List ℕ → Parse A) → Parse A
then_parse p next = if p.success then next p.attribute p.begin else p

module _ (spirit : Spirit) where
  open spirit use {byte_, big_word, big_dword}

  -- The first 12 octets.
  unfoldable pub parse_fixed_header : Header → List ℕ → Parse Header
  parse_fixed_header h octets =
      if ltb (length octets) 12
      then fail octets h
      else (let (octet1, begin1) = qi_parse byte_ octets 0 in
          let version : ℕ = bit_and octet1 0b11000000 / 2 ^ 6 in
          if not (version == 2)
          then fail begin1 (record h { version = version })
          else (let (octet2, begin2) = qi_parse byte_ begin1 octet1 in
              let (sequence_number, begin4) = qi_parse big_word begin2 h.sequence_number in
              let (timestamp, begin8) = qi_parse big_dword begin4 h.timestamp in
              let (ssrc, begin12) = qi_parse big_dword begin8 h.ssrc in
              succeed begin12 (record h {
                version = version;
                padding_set = to_bool (bit_and octet1 0b00100000 / 2 ^ 5);
                extension_bit = to_bool (bit_and octet1 0b00010000 / 2 ^ 4);
                csrc = bit_and octet1 0x0f;
                marker = to_bool (bit_and octet2 0b10000000 / 2 ^ 7);
                payload_type_field = bit_and octet2 0b01111111;
                sequence_number = sequence_number;
                timestamp = timestamp;
                ssrc = ssrc;
              })))

  -- The rounds of the loop over the CSRC list that are left.
  unfoldable pub parse_csrcs : ℕ → Header → List ℕ → Parse Header
  parse_csrcs zero h begin = succeed begin h
  parse_csrcs (suc rounds) h begin =
      let (csrc, begin') = qi_parse big_dword begin 0 in
      parse_csrcs rounds (record h { csrcs = h.csrcs ++ (csrc ∷ []) }) begin'

  -- The header extension: its length is read from behind the four octets of its header.
  unfoldable pub parse_extension : Header → List ℕ → Parse Header
  parse_extension h begin =
      if ltb (length begin) 4
      then fail begin h
      else (let header_extension_header = take 4 begin in
          let (header_extension_length, begin') = qi_parse big_word (drop 4 begin) 0 in
          if ltb (length begin') (4 * header_extension_length)
          then fail begin' (record h { header_extension = header_extension_header })
          else succeed (drop (4 * header_extension_length) begin') (record h {
            header_extension = header_extension_header ++ take (4 * header_extension_length) begin';
          }))

  -- The RTP header, which the two grammars parse by the same lines.
  unfoldable pub parse_header : Header → List ℕ → Parse Header
  parse_header h octets =
      then_parse
        (then_parse (parse_fixed_header h octets) (λ h1 begin.
          if ltb (length begin) (4 * h1.csrc) then fail begin h1 else parse_csrcs h1.csrc h1 begin))
        (λ h2 begin. if h2.extension_bit then parse_extension h2 begin else succeed begin h2)

  -- The JPEG profile: eight octets, and all that is left as data.
  unfoldable pub parse_jpeg_profile : CustomJpegPacket → List ℕ → Parse CustomJpegPacket
  parse_jpeg_profile packet begin =
      let h = packet.header in
      if not (h.payload_type_field == 26)
      then fail begin packet
      else if ltb (length begin) 8
      then fail begin packet
      else (let (type_specific, begin1) = qi_parse byte_ begin h.type_specific in
          let (offset1, begin2) = qi_parse byte_ begin1 0 in
          let (offset2, begin3) = qi_parse byte_ begin2 0 in
          let (offset3, begin4) = qi_parse byte_ begin3 0 in
          let (fragment_offset, _) =
            qi_parse big_dword (0 ∷ offset1 ∷ offset2 ∷ offset3 ∷ []) h.fragment_offset in
          let (jpeg_type, begin5) = qi_parse byte_ begin4 h.jpeg_type in
          let (quantization_table, begin6) = qi_parse byte_ begin5 h.quantization_table in
          let (image_width, begin7) = qi_parse byte_ begin6 h.image_width in
          let (image_height, begin8) = qi_parse byte_ begin7 h.image_height in
          succeed [] (record {
            header = record h {
              type_specific = type_specific;
              fragment_offset = fragment_offset;
              jpeg_type = jpeg_type;
              quantization_table = quantization_table;
              image_width = image_width;
              image_height = image_height;
            };
            payload = packet.payload ++ begin8;
          }))

  -- `custom_jpeg_packet_grammar::parse`
  unfoldable pub parse_jpeg_packet : CustomJpegPacket → List ℕ → Parse CustomJpegPacket
  parse_jpeg_packet packet octets =
      let p = parse_header packet.header.base octets in
      let packet' = record packet { header = record packet.header { base = p.attribute } } in
      if p.success then parse_jpeg_profile packet' p.begin else fail p.begin packet'

  -- The ten octets of the FEC header.
  unfoldable pub parse_fec_header : CustomFecHeader → List ℕ → Parse CustomFecHeader
  parse_fec_header h begin =
      if ltb (length begin) 10
      then fail begin h
      else (let (octet1, begin1) = qi_parse byte_ begin 0 in
          let (octet2, begin2) = qi_parse byte_ begin1 octet1 in
          let (sn_base_field, begin4) = qi_parse big_word begin2 h.sn_base_field in
          let (ts_recovery_field, begin8) = qi_parse big_dword begin4 h.ts_recovery_field in
          let (length_recovery_field, begin10) = qi_parse big_word begin8 h.length_recovery_field in
          succeed begin10 (record h {
            extension_flag = to_bool (bit_and octet1 0b10000000 / 2 ^ 7);
            long_mask_flag = to_bool (bit_and octet1 0b01000000 / 2 ^ 6);
            p_recovery_field = to_bool (bit_and octet1 0b00100000 / 2 ^ 5);
            x_recovery_field = to_bool (bit_and octet1 0b00010000 / 2 ^ 4);
            cc_recovery_field = bit_and octet1 0b00001111;
            m_recovery_field = to_bool (bit_and octet2 0b10000000 / 2 ^ 7);
            pt_recovery_field = bit_and octet2 0b01111111;
            sn_base_field = sn_base_field;
            ts_recovery_field = ts_recovery_field;
            length_recovery_field = length_recovery_field;
          }))

  -- The loop over the mask octets, from octet `i` on: octet `i` becomes bits 63 - 8 i to 56 - 8 i.
  unfoldable pub parse_mask : ℕ → ℕ → ℕ → ℕ → List ℕ → ℕ × List ℕ
  parse_mask zero i octet mask begin = (mask, begin)
  parse_mask (suc rounds) i octet mask begin =
      let (octet', begin') = qi_parse byte_ begin octet in
      parse_mask rounds (i + 1) octet' (bit_or mask (octet' * 2 ^ (8 * (7 - i)) % 2 ^ 64)) begin'

  -- The `while` loop over the protection levels. Each round takes a level header of four or eight
  -- octets at least, so that the length of the input is enough fuel.
  unfoldable pub parse_levels : ℕ → ℕ → CustomFecPacket → List ℕ → Parse CustomFecPacket
  parse_levels zero size packet begin = succeed begin packet
  parse_levels (suc fuel) size packet begin =
      let (protection, begin2) = qi_parse big_word begin 0 in
      let (mask, payload) = parse_mask (size - 2) 0 0 0 begin2 in
      let level : CustomFecLevelHeader = record {
        protection_length_field = protection;
        mask_field = mask;
      } in
      let rest =
        parse_levels fuel size (record packet { levels = packet.levels ++ ((level, payload) ∷ []) })
          (drop protection payload) in
      if ltb (length begin) size
      then succeed begin packet
      else if ltb (length payload) protection
      then fail payload packet
      else rest

  -- `custom_fec_packet_grammar::parse`
  unfoldable pub parse_fec_packet : CustomFecPacket → List ℕ → Parse CustomFecPacket
  parse_fec_packet packet octets =
      let p = parse_header packet.header.base octets in
      let packet1 = record packet { header = record packet.header { base = p.attribute } } in
      let q = parse_fec_header packet1.header p.begin in
      let packet2 = record packet1 { header = q.attribute } in
      let size = if q.attribute.long_mask_flag then 8 else 4 in
      if not p.success
      then fail p.begin packet1
      else if not q.success
      then fail q.begin packet2
      else parse_levels (length q.begin) size packet2 q.begin
