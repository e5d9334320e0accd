-- ===== src/Rtp/Packet/Generator.antt =====
-- The generators of rtp_packet.hpp. Each returns what `generate` returns, and the octets that it
-- has put into the sink by then.
use rtsp.Common.{
  ℕ, zero, suc, ◌*◌, ◌%◌, ◌^◌, Bool, true, false, not, List, [], ◌∷◌, ◌++◌, bit_or, length,
  from_bool, ◌==◌, if◌then◌else◌,
}
use rtsp.Rtp.Spirit.{Spirit}
use rtsp.Rtp.Packet.{Header, CustomJpegPacket, CustomFecPacket}

-- `octet_buffer |= bits` on a `uint8_t`
abbrev pub or_octet : ℕ → ℕ → ℕ
or_octet octet_buffer bits = bit_or octet_buffer bits % 256

abbrev pub first_octet : Header → ℕ
first_octet h =
    or_octet
      (or_octet (or_octet (or_octet 0 (h.version * 2 ^ 6)) (from_bool h.padding_set * 2 ^ 5))
        (from_bool h.extension_bit * 2 ^ 4))
      h.csrc

abbrev pub second_octet : Header → ℕ
second_octet h = or_octet (or_octet 0 (from_bool h.marker * 2 ^ 7)) h.payload_type_field

-- `fragment_offset[i]` of the array of four octets that the generator filled.
abbrev pub octet_at : List ℕ → ℕ → ℕ
octet_at [] i = 0
octet_at (x ∷ xs) zero = x
octet_at (x ∷ xs) (suc i) = octet_at xs i

module _ (spirit : Spirit) where
  open spirit use {karma_byte_, karma_big_word, karma_big_dword}

  unfoldable pub generate_dwords : List ℕ → List ℕ
  generate_dwords [] = []
  generate_dwords (csrc ∷ csrcs) = karma_big_dword csrc ++ generate_dwords csrcs

  unfoldable pub generate_bytes : List ℕ → List ℕ
  generate_bytes [] = []
  generate_bytes (octet ∷ octets) = karma_byte_ octet ++ generate_bytes octets

  -- `standard_rtp_header_generator::generate`; the other two generators start with the same lines.
  unfoldable pub generate_header : Header → Bool × List ℕ
  generate_header h =
      if not (h.version == 2)
      then (false, [])
      else (let fixed =
            karma_byte_ (first_octet h)
            ++ (karma_byte_ (second_octet h)
                ++ (karma_big_word h.sequence_number
                    ++ (karma_big_dword h.timestamp ++ karma_big_dword h.ssrc))) in
          if not (h.csrc == length h.csrcs)
          then (false, fixed)
          else (true, fixed ++ generate_dwords h.csrcs))

  -- The JPEG header and the data of `custom_jpeg_packet_generator::generate`.
  unfoldable pub generate_jpeg_payload : CustomJpegPacket → List ℕ
  generate_jpeg_payload packet =
      let h = packet.header in
      let fragment_offset = karma_big_dword h.fragment_offset in
      karma_byte_ h.type_specific
      ++ (karma_byte_ (octet_at fragment_offset 1)
          ++ (karma_byte_ (octet_at fragment_offset 2)
              ++ (karma_byte_ (octet_at fragment_offset 3)
                  ++ (karma_byte_ h.jpeg_type
                      ++ (karma_byte_ h.quantization_table
                          ++ (karma_byte_ h.image_width
                              ++ (karma_byte_ h.image_height ++ generate_bytes packet.payload)))))))

  -- `custom_jpeg_packet_generator::generate`
  unfoldable pub generate_jpeg_packet : CustomJpegPacket → Bool × List ℕ
  generate_jpeg_packet packet =
      let (success, octets) = generate_header packet.header.base in
      if success then (true, octets ++ generate_jpeg_payload packet) else (false, octets)

  -- `custom_fec_packet_generator::generate`
  unfoldable pub generate_fec_packet : CustomFecPacket → Bool × List ℕ
  generate_fec_packet packet = generate_header packet.header.base
