-- ===== src/Rtp/Fec/Tests.antt =====
-- The theorems on fec_generator at concrete packets, and a run.
use rtsp.Common.{ℕ, zero, suc, ◌≡◌, refl, some, List, [], ◌∷◌, ◌++◌, length, arith}
use rtsp.Rtp.Spirit.{big_endian}
use rtsp.Rtp.Fec.{
  FecGenerator, returns, throws_out_of_range, construct, xor_range, xor_zero, next_seq_base,
  length_octets, add_first_octets, add_length, add_octets, set_mask_bit, fill_mask, fec_packet,
  finish_packet, absorb, generate_next_fec_packet, collect,
}
use rtsp.Rtp.Fec.Xor.{xor_pad, zeros}
use rtsp.Rtp.Fec.BitString.{protected_string}
use rtsp.Rtp.Fec.Mask.{full_mask}
use rtsp.Rtp.Fec.Base.{IsBase}
use rtsp.Rtp.Fec.Block.{parity, generate_block, generate_block_throws, parity_recovers}

-- Packets of 14 and of 12 octets.
abbrev media7 : List ℕ
media7 = 0x80 ∷ 0x9a ∷ 0 ∷ 7 ∷ 0 ∷ 0 ∷ 0 ∷ 1 ∷ 0 ∷ 0 ∷ 0 ∷ 5 ∷ 0xab ∷ 0xcd ∷ []

abbrev media8 : List ℕ
media8 = 0x80 ∷ 0x9a ∷ 0 ∷ 8 ∷ 0 ∷ 0 ∷ 0 ∷ 3 ∷ 0 ∷ 0 ∷ 0 ∷ 5 ∷ []

-- The FEC packet over both: 12 octets of headers with base 7, protection length 4 and a mask of two
-- bits, and the octets from the eleventh of the media packets on.
block_run :
    generate_next_fec_packet big_endian
      (record (construct 2) {
        current_fec_k = 1;
        fec_bit_string =
            0x80 ∷ 0x9a ∷ 0 ∷ 7 ∷ 0 ∷ 0 ∷ 0 ∷ 1 ∷ 0 ∷ 2 ∷ 0 ∷ 0 ∷ 0 ∷ 5 ∷ 0xab ∷ 0xcd ∷ [];
        fec_seq_base = 7;
      })
      media8
      8
    ≡ returns
        (construct 2)
        (some (0 ∷ 0 ∷ 0 ∷ 7 ∷ 0 ∷ 0 ∷ 0 ∷ 2 ∷ 0 ∷ 2 ∷ 0 ∷ 4 ∷ 0xc0 ∷ 0 ∷ 0 ∷ 0 ∷ 0xab ∷ 0xcd ∷ []))
unfolding construct xor_range xor_zero next_seq_base length_octets add_first_octets add_length
    add_octets set_mask_bit fill_mask fec_packet finish_packet absorb generate_next_fec_packet
block_run = refl

generate_block_example :
    (g : FecGenerator) × (base : ℕ) × (collect big_endian (construct 2) ((media7, 7) ∷ []) ≡ some g)
    × (generate_next_fec_packet big_endian g media8 8
        ≡ returns (construct 2) (
            some (
              fec_packet big_endian 2 base
                (parity big_endian [] ((media7, 7) ∷ (media8, 8) ∷ []))
                (full_mask 2))))
    × IsBase base ((media7, 7) ∷ (media8, 8) ∷ [])
generate_block_example =
    generate_block big_endian ((media7, 7) ∷ []) media8 8 (omega arith) (omega arith) (omega arith)

-- 48 packets, before the 49th.
abbrev copies : ℕ → List (List ℕ × ℕ)
copies zero = []
copies (suc n) = (media8, 8) ∷ copies n

generate_block_throws_example :
    (g : FecGenerator) × (collect big_endian (construct 49) (copies 48) ≡ some g)
    × (generate_next_fec_packet big_endian g media7 9
        ≡ throws_out_of_range (record (construct 49) {
          fec_bit_string = parity big_endian [] (copies 48 ++ ((media7, 9) ∷ []));
        }))
generate_block_throws_example =
    generate_block_throws big_endian (copies 48) media7 9 (omega arith) (omega arith) (omega arith)
      (omega arith)

parity_recovers_example :
    (g : FecGenerator) × (collect big_endian (construct 3) ((media8, 8) ∷ []) ≡ some g)
    × (xor_pad (parity big_endian [] ((media7, 7) ∷ (media8, 8) ∷ [])) g.fec_bit_string
        ≡ xor_pad (protected_string big_endian media7) (zeros (length g.fec_bit_string)))
parity_recovers_example =
    parity_recovers big_endian [] ((media8, 8) ∷ []) media7 7 3 (omega arith) (omega arith)
      (omega arith)
