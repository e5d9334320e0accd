-- ===== src/Rtp/Packet/Parsed.antt =====
-- What the parsers of rtp_packet.hpp accept, and how many octets they take, on any input.
use rtsp.Common.{
  ℕ, zero, suc, ◌+◌, ◌*◌, ◌≤◌, ◌<◌, ◌≡◌, true, false, List, [], ◌∷◌, ◌++◌, length, length-append,
  length-drop, drop, arith,
}
use rtsp.Rtp.Spirit.{Spirit, qi_parse}
use rtsp.Rtp.Packet.{Header, CustomJpegPacket, default_jpeg_packet}
use rtsp.Rtp.Packet.Grammar.{
  parse_fixed_header, parse_csrcs, parse_extension, parse_header, parse_jpeg_profile,
  parse_jpeg_packet,
}

module _ (spirit : Spirit) where
  open spirit use {
    byte_-cons, big_word-cons, big_dword-cons, byte_, big_word, big_dword, big_word_short,
  }

  length-byte_ :
      (octets : List ℕ) (d : ℕ)
      → 0 < length octets
      → length (qi_parse byte_ octets d).1 + 1 ≡ length octets
  length-byte_ [] d h = absurd (omega arith)
  length-byte_ (a ∷ r) d h = ground (arith, byte_-cons a r)

  length-big_word :
      (octets : List ℕ) (d : ℕ)
      → 1 < length octets
      → length (qi_parse big_word octets d).1 + 2 ≡ length octets
  length-big_word [] d h = absurd (omega arith)
  length-big_word (a ∷ []) d h = absurd (omega arith)
  length-big_word (a ∷ b ∷ r) d h = ground (arith, big_word-cons a b r)

  big_word-shrinks :
      (octets : List ℕ) (d : ℕ) → length (qi_parse big_word octets d).1 ≤ length octets
  big_word-shrinks [] d = ground (arith, big_word_short [])
  big_word-shrinks (a ∷ []) d = ground (arith, big_word_short (a ∷ []))
  big_word-shrinks (a ∷ b ∷ r) d = ground (arith, big_word-cons a b r)

  length-big_dword :
      (octets : List ℕ) (d : ℕ)
      → 3 < length octets
      → length (qi_parse big_dword octets d).1 + 4 ≡ length octets
  length-big_dword [] d h = absurd (omega arith)
  length-big_dword (a ∷ []) d h = absurd (omega arith)
  length-big_dword (a ∷ b ∷ []) d h = absurd (omega arith)
  length-big_dword (a ∷ b ∷ c ∷ []) d h = absurd (omega arith)
  length-big_dword (a ∷ b ∷ c ∷ e ∷ r) d h = ground (arith, big_dword-cons a b c e r)

  -- The fixed header takes twelve octets, has version 2, and leaves the lists alone.
  fixed_takes :
      (h : Header) (octets : List ℕ)
      → let p = parse_fixed_header spirit h octets in
        p.success ≡ true
        → (length p.begin + 12 ≡ length octets)
          × (p.attribute.version ≡ 2)
          × (p.attribute.csrcs ≡ h.csrcs)
          × (p.attribute.header_extension ≡ h.header_extension)
  unfolding parse_fixed_header
  fixed_takes h octets e =
      let b1 = qi_parse byte_ octets 0 in
      let b2 = qi_parse byte_ b1.1 b1.0 in
      let b4 = qi_parse big_word b2.1 h.sequence_number in
      let b8 = qi_parse big_dword b4.1 h.timestamp in
      ground (
        arith,
        length-byte_ octets 0,
        length-byte_ b1.1 b1.0,
        length-big_word b2.1 h.sequence_number,
        length-big_dword b4.1 h.timestamp,
        length-big_dword b8.1 h.ssrc,
      )

  csrcs_take :
      (n : ℕ) (h : Header) (octets : List ℕ)
      → 4 * n ≤ length octets
      → let p = parse_csrcs spirit n h octets in
        (p.success ≡ true)
        × (length p.begin + 4 * n ≡ length octets)
        × (length p.attribute.csrcs ≡ length h.csrcs + n)
        × (p.attribute.csrc ≡ h.csrc)
        × (p.attribute.version ≡ h.version)
        × (p.attribute.extension_bit ≡ h.extension_bit)
  unfolding parse_csrcs
  csrcs_take zero h octets k = ground arith
  csrcs_take (suc n) h octets k =
      let b = qi_parse big_dword octets 0 in
      let h' = record h { csrcs = h.csrcs ++ (b.0 ∷ []) } in
      let taken = length-big_dword octets 0 (omega arith) in
      let (s, l, c, f, v, x) = csrcs_take n h' b.1 (omega arith) in
      (s, omega arith, omega (arith, length-append h.csrcs (b.0 ∷ [])), f, v, x)

  extension_takes :
      (h : Header) (octets : List ℕ)
      → let p = parse_extension spirit h octets in
        p.success ≡ true
        → (length p.begin + 4 ≤ length octets)
          × (p.attribute.csrcs ≡ h.csrcs)
          × (p.attribute.csrc ≡ h.csrc)
          × (p.attribute.version ≡ h.version)
          × (p.attribute.extension_bit ≡ h.extension_bit)
  unfolding parse_extension
  extension_takes h octets e =
      let b = qi_parse big_word (drop 4 octets) 0 in
      ground
        (arith, length-drop 4 octets, big_word-shrinks (drop 4 octets) 0, length-drop (4 * b.0) b.1)

  -- A header that is accepted: version 2, as many CSRCs as the octet says, and no octet invented.
  header_takes :
      (h : Header) (octets : List ℕ)
      → let p = parse_header spirit h octets in
        p.success ≡ true
        → (length p.begin + 12 + 4 * p.attribute.csrc ≤ length octets)
          × (p.attribute.version ≡ 2)
          × (length p.attribute.csrcs ≡ length h.csrcs + p.attribute.csrc)
          × (p.attribute.extension_bit ≡ false
              → length p.begin + 12 + 4 * p.attribute.csrc ≡ length octets)
  unfolding parse_header
  header_takes h octets e =
      let p = parse_fixed_header spirit h octets in
      let q = parse_csrcs spirit p.attribute.csrc p.attribute p.begin in
      ground (
        arith,
        fixed_takes h octets,
        csrcs_take p.attribute.csrc p.attribute p.begin,
        extension_takes q.attribute q.begin,
      )

  profile_takes :
      (packet : CustomJpegPacket) (begin : List ℕ)
      → let p = parse_jpeg_profile spirit packet begin in
        p.success ≡ true
        → (p.begin ≡ [])
          × (p.attribute.header.base ≡ packet.header.base)
          × (packet.header.payload_type_field ≡ 26)
          × (length p.attribute.payload + 8 ≡ length packet.payload + length begin)
  unfolding parse_jpeg_profile
  profile_takes packet begin e =
      let h = packet.header in
      let b1 = qi_parse byte_ begin h.type_specific in
      let b2 = qi_parse byte_ b1.1 0 in
      let b3 = qi_parse byte_ b2.1 0 in
      let b4 = qi_parse byte_ b3.1 0 in
      let b5 = qi_parse byte_ b4.1 h.jpeg_type in
      let b6 = qi_parse byte_ b5.1 h.quantization_table in
      let b7 = qi_parse byte_ b6.1 h.image_width in
      let b8 = qi_parse byte_ b7.1 h.image_height in
      ground (
        arith,
        length-byte_ begin h.type_specific,
        length-byte_ b1.1 0,
        length-byte_ b2.1 0,
        length-byte_ b3.1 0,
        length-byte_ b4.1 h.jpeg_type,
        length-byte_ b5.1 h.quantization_table,
        length-byte_ b6.1 h.image_width,
        length-byte_ b7.1 h.image_height,
        length-append packet.payload b8.1,
      )

  -- Whatever octets come in: a packet that the JPEG grammar accepts has version 2 and payload type
  -- 26, as many CSRCs as its CSRC field says, and at least the 20 octets of the two headers and the
  -- CSRC list besides its data, all of them from the input. Without a header extension the data is
  -- as long as what is left of the input behind these.
  pub parse_jpeg_packet_accepts :
      (octets : List ℕ)
      → let p = parse_jpeg_packet spirit default_jpeg_packet octets in
        p.success ≡ true
        → (p.begin ≡ [])
          × (p.attribute.header.version ≡ 2)
          × (p.attribute.header.payload_type_field ≡ 26)
          × (length p.attribute.header.csrcs ≡ p.attribute.header.csrc)
          × (20 + 4 * p.attribute.header.csrc + length p.attribute.payload ≤ length octets)
          × (p.attribute.header.extension_bit ≡ false
              → 20 + 4 * p.attribute.header.csrc + length p.attribute.payload ≡ length octets)
  unfolding parse_jpeg_packet
  parse_jpeg_packet_accepts octets e =
      let p = parse_header spirit default_jpeg_packet.header.base octets in
      let h = default_jpeg_packet.header in
      let packet : CustomJpegPacket = record default_jpeg_packet {
        header = record h { base = p.attribute };
      } in
      ground (arith, header_takes h.base octets, profile_takes packet p.begin)

  -- A header whose extension bit is set: of the four octets of the extension header, the two that
  -- carry its length have no influence on how much the parser takes, or on whether it succeeds.
  parse_extension-length_ignored :
      (h : Header) (p1 p2 l1 l2 m1 m2 : ℕ) (rest : List ℕ)
      → let p = parse_extension spirit h (p1 ∷ p2 ∷ l1 ∷ l2 ∷ rest) in
        let q = parse_extension spirit h (p1 ∷ p2 ∷ m1 ∷ m2 ∷ rest) in
        (p.success ≡ q.success) × (p.begin ≡ q.begin)
  unfolding parse_extension
  parse_extension-length_ignored h p1 p2 l1 l2 m1 m2 rest = ground arith
