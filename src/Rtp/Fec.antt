-- ===== src/Rtp/Fec.antt =====
-- fec_generator of src/streaming_lib/rtp_lib/src/rtp_endsystem.cpp: the parity packets of RFC 5109
-- over `fec_k` media packets.
pub mod Xor
pub mod BitString
pub mod Mask
pub mod Base
pub mod Block
mod Tests
use rtsp.Common.{
  ℕ, zero, suc, ◌+◌, ◌-◌, ◌*◌, ◌/◌, ◌%◌, ◌^◌, min, Bool, true, false, not, Option, none, some, List,
  [], ◌∷◌, ◌++◌, bit_and, bit_or, bit_xor, length, take, drop, ltb, leb, ◌==◌, if◌then◌else◌,
}
use rtsp.Rtp.Spirit.{Spirit}
use rtsp.Rtp.Packet.Generator.{octet_at}

pub record FecGenerator : Type 0 where
  pub fec_k : ℕ
  pub current_fec_k : ℕ
  pub fec_bit_string : List ℕ
  pub fec_seq_base : ℕ

-- `fec_generator(fec_k)`
pub construct : ℕ → FecGenerator
construct fec_k = record {
  fec_k = fec_k;
  current_fec_k = fec_k;
  fec_bit_string = [];
  fec_seq_base = 0;
}

-- A call returns a packet or a null pointer, or throws; the state is changed by then in any case.
pub data Outcome : Type 0 where
  returns : FecGenerator → Option (List ℕ) → Outcome
  throws_logic_error : FecGenerator → Outcome
  throws_out_of_range : FecGenerator → Outcome

-- `std::transform(first, last, other, first, f)`: the range is as long as the shorter list here.
pub xor_range : List ℕ → List ℕ → List ℕ
xor_range [] ys = []
xor_range (x ∷ xs) [] = []
xor_range (x ∷ xs) (y ∷ ys) = bit_xor x y ∷ xor_range xs ys

-- `std::transform(first, last, out, [](auto a) { return a ^ 0u; })`
pub xor_zero : List ℕ → List ℕ
xor_zero [] = []
xor_zero (x ∷ xs) = bit_xor x 0 ∷ xor_zero xs

-- The smallest sequence number so far, with 0 for none.
pub next_seq_base : ℕ → ℕ → ℕ
next_seq_base fec_seq_base seq_num =
    if not (fec_seq_base == 0) then min seq_num fec_seq_base else seq_num

-- The first eight octets of the packet, in an empty string or on top of those of the string.
pub add_first_octets : List ℕ → List ℕ → List ℕ
add_first_octets [] media_packet = take 8 media_packet
add_first_octets (b ∷ bs) media_packet = xor_range (take 8 (b ∷ bs)) media_packet ++ drop 8 (b ∷ bs)

-- The octets of the packet from the ninth on, on top of those of the string from the eleventh on.
pub add_octets : List ℕ → List ℕ → List ℕ
add_octets bits media_packet =
    let n = length media_packet in
    if leb n (length bits - 2)
    then take 10 bits
      ++ (xor_range (drop 8 media_packet) (drop 10 bits) ++ xor_zero (drop (10 + n - 8) bits))
    else take 10 bits
      ++ (xor_range (drop 10 bits) (drop 8 media_packet)
          ++ xor_zero (drop (length bits - 2) media_packet))

-- `mask.at(u / 8) |= 0b10000000 >> u % 8`
pub set_mask_bit : ℕ → List ℕ → List ℕ
set_mask_bit u [] = []
set_mask_bit u (m ∷ ms) =
    if ltb u 8 then bit_or m (128 / 2 ^ u) ∷ ms else m ∷ set_mask_bit (u - 8) ms

-- `mask.fill(0u)`
abbrev pub empty_mask : List ℕ
empty_mask = 0 ∷ 0 ∷ 0 ∷ 0 ∷ 0 ∷ 0 ∷ []

-- The rounds of the loop `for (u = 0; u < fec_k; ++u)`, from `u` on; `at` throws behind the end.
pub fill_mask : ℕ → ℕ → List ℕ → Option (List ℕ)
fill_mask zero u mask = some mask
fill_mask (suc rounds) u mask =
    let rest = fill_mask rounds (u + 1) (set_mask_bit u mask) in
    if ltb (u / 8) (length mask) then rest else none

module _ (spirit : Spirit) where
  open spirit use {karma_big_word}

  -- `media_packet.size() - 12u` as a `big_word`, which holds 16 bits.
  pub length_octets : List ℕ → List ℕ
  length_octets media_packet = karma_big_word ((length media_packet - 12) % 65536)

  -- The length of the packet, behind these eight or on top of the two that follow them.
  pub add_length : List ℕ → List ℕ → List ℕ
  add_length bits media_packet =
      if length bits == 8
      then bits ++ length_octets media_packet
      else take 8 bits
        ++ (xor_range (take 2 (drop 8 bits)) (length_octets media_packet) ++ drop 10 bits)

  -- The FEC header, the level header and the payload over the finished string, with the mask that
  -- the loop left.
  unfoldable pub fec_packet : ℕ → ℕ → List ℕ → List ℕ → List ℕ
  fec_packet fec_k fec_seq_base bits mask =
      let octet0 = bit_and (octet_at bits 0) 0b00111111 in
      ((if ltb 16 fec_k then bit_or octet0 0b01000000 else octet0) ∷ octet_at bits 1 ∷ [])
      ++ (karma_big_word fec_seq_base
          ++ (take 6 (drop 4 bits)
              ++ (karma_big_word ((length bits - 12) % 65536)
                  ++ ((if ltb 16 fec_k then mask else take 2 mask) ++ drop 12 bits))))

  -- The part of `generate_next_fec_packet` behind the update of the string.
  pub finish_packet : FecGenerator → Outcome
  finish_packet g =
      let counted = record g { current_fec_k = (g.current_fec_k + 65535) % 65536 } in
      let reset = record g { current_fec_k = g.fec_k; fec_seq_base = 0 } in
      if ltb 1 g.current_fec_k
      then returns counted none
      else elim (fill_mask g.fec_k 0 empty_mask) [
        | none ↦ throws_out_of_range reset
        | some mask ↦
            returns (record reset { fec_bit_string = [] })
              (some (fec_packet g.fec_k g.fec_seq_base g.fec_bit_string mask))
      ]

  -- The part of `generate_next_fec_packet` in front of the counter.
  pub absorb : FecGenerator → List ℕ → ℕ → FecGenerator
  absorb g media_packet seq_num = record g {
    fec_seq_base = next_seq_base g.fec_seq_base seq_num;
    fec_bit_string =
        add_octets (add_length (add_first_octets g.fec_bit_string media_packet) media_packet)
          media_packet;
  }

  -- `generate_next_fec_packet(media_packet, seq_num)`
  pub generate_next_fec_packet : FecGenerator → List ℕ → ℕ → Outcome
  generate_next_fec_packet g media_packet seq_num =
      if ltb (length media_packet) 12
      then throws_logic_error g
      else finish_packet (absorb g media_packet seq_num)

  -- The state after a series of calls that all return the null pointer.
  pub collect : FecGenerator → List (List ℕ × ℕ) → Option FecGenerator
  collect g [] = some g
  collect g ((media_packet, seq_num) ∷ calls) =
      elim (generate_next_fec_packet g media_packet seq_num) [
        | returns g' packet ↦ elim packet [ none ↦ collect g' calls | some p ↦ none ]
        | throws_logic_error g' ↦ none
        | throws_out_of_range g' ↦ none
      ]
