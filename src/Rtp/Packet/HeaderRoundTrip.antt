-- ===== src/Rtp/Packet/HeaderRoundTrip.antt =====
-- Parsing the RTP header that the generators of rtp_packet.hpp wrote.
use rtsp.Common.{
  ℕ, suc, ◌+◌, ◌*◌, ◌/◌, ◌%◌, ◌^◌, ◌<◌, ◌≡◌, sym, ◌∙◌, ap, some, Bool, true, false, List, [], ◌∷◌,
  ◌++◌, append-nil, append_assoc, length, length-append, All, to_bool, from_bool, arith,
}
use rtsp.Common.Bits.{
  octet_version, octet_padding, octet_extension, octet_csrc, octet_marker, octet_payload_type,
  bit_or_csrc, bit_or_payload_type,
}
use rtsp.Rtp.Spirit.{Spirit}
use rtsp.Rtp.Packet.{Header}
use rtsp.Rtp.Packet.Generator.{
  or_octet, first_octet, second_octet, generate_dwords, generate_header,
}
use rtsp.Rtp.Packet.Grammar.{succeed, parse_fixed_header, parse_csrcs, parse_header}

first_octet_fields :
    (p x : Bool) (c : ℕ)
    → c < 16
    → or_octet
        (or_octet (or_octet (or_octet 0 (2 * 2 ^ 6)) (from_bool p * 2 ^ 5)) (from_bool x * 2 ^ 4))
        c
      ≡ 128 + from_bool p * 32 + from_bool x * 16 + c
first_octet_fields false false c h = omega (arith, bit_or_csrc 8 c (omega arith) h)
first_octet_fields false true c h = omega (arith, bit_or_csrc 9 c (omega arith) h)
first_octet_fields true false c h = omega (arith, bit_or_csrc 10 c (omega arith) h)
first_octet_fields true true c h = omega (arith, bit_or_csrc 11 c (omega arith) h)

first_octet_lem :
    (h : Header)
    → h.version ≡ 2
    → h.csrc < 16
    → first_octet h ≡ 128 + from_bool h.padding_set * 32 + from_bool h.extension_bit * 16 + h.csrc
first_octet_lem h v c =
    ap
      (λ n.
        or_octet
          (or_octet (or_octet (or_octet 0 (n * 2 ^ 6)) (from_bool h.padding_set * 2 ^ 5))
            (from_bool h.extension_bit * 2 ^ 4))
          h.csrc)
      v
    ∙ first_octet_fields h.padding_set h.extension_bit h.csrc c

second_octet_fields :
    (m : Bool) (t : ℕ)
    → t < 128
    → or_octet (or_octet 0 (from_bool m * 2 ^ 7)) t ≡ from_bool m * 128 + t
second_octet_fields false t h = omega (arith, bit_or_payload_type 0 t (omega arith) h)
second_octet_fields true t h = omega (arith, bit_or_payload_type 1 t (omega arith) h)

abbrev pub IsByte : ℕ → Type 0
IsByte n = n < 256

abbrev pub IsDword : ℕ → Type 0
IsDword n = n < 2 ^ 32

from_bool_small : (b : Bool) → from_bool b < 2
from_bool_small true = omega arith
from_bool_small false = omega arith

-- A header that the generators write in full: the fields fit their widths, and no extension is
-- announced, which the generators would not write.
pub record IsSendable (h : Header) : Type 0 where
  pub version_two : h.version ≡ 2
  pub no_extension : h.extension_bit ≡ false
  pub csrc_count : h.csrc ≡ length h.csrcs
  pub csrc_field : h.csrc < 16
  pub payload_type_range : h.payload_type_field < 128
  pub sequence_range : h.sequence_number < 2 ^ 16
  pub timestamp_range : h.timestamp < 2 ^ 32
  pub ssrc_range : h.ssrc < 2 ^ 32
  pub csrcs_range : All IsDword h.csrcs
  pub extension_empty : h.header_extension ≡ []

module _ (spirit : Spirit) where
  open spirit use {
    byte_-cons, big_word-cons, big_dword-cons, karma_byte__lem, karma_big_word_lem,
    karma_big_dword_lem,
  }

  -- The RTP header that the first twelve octets spell.
  parse_fixed_header_lem :
      (h : Header) (o1 o2 s1 s2 t1 t2 t3 t4 c1 c2 c3 c4 : ℕ) (rest : List ℕ)
      → o1 < 256
      → o2 < 256
      → o1 / 64 ≡ 2
      → parse_fixed_header spirit h
          (o1 ∷ o2 ∷ s1 ∷ s2 ∷ t1 ∷ t2 ∷ t3 ∷ t4 ∷ c1 ∷ c2 ∷ c3 ∷ c4 ∷ rest)
        ≡ succeed rest (record h {
          version = 2;
          padding_set = to_bool (o1 / 32 % 2);
          extension_bit = to_bool (o1 / 16 % 2);
          csrc = o1 % 16;
          marker = to_bool (o2 / 128);
          payload_type_field = o2 % 128;
          sequence_number = s1 * 256 + s2;
          timestamp = t1 * 2 ^ 24 + t2 * 2 ^ 16 + t3 * 256 + t4;
          ssrc = c1 * 2 ^ 24 + c2 * 2 ^ 16 + c3 * 256 + c4;
        })
  unfolding parse_fixed_header
  parse_fixed_header_lem h o1 o2 s1 s2 t1 t2 t3 t4 c1 c2 c3 c4 rest h1 h2 v = ground (
    arith,
    byte_-cons o1 (o2 ∷ s1 ∷ s2 ∷ t1 ∷ t2 ∷ t3 ∷ t4 ∷ c1 ∷ c2 ∷ c3 ∷ c4 ∷ rest),
    byte_-cons o2 (s1 ∷ s2 ∷ t1 ∷ t2 ∷ t3 ∷ t4 ∷ c1 ∷ c2 ∷ c3 ∷ c4 ∷ rest),
    big_word-cons s1 s2 (t1 ∷ t2 ∷ t3 ∷ t4 ∷ c1 ∷ c2 ∷ c3 ∷ c4 ∷ rest),
    big_dword-cons t1 t2 t3 t4 (c1 ∷ c2 ∷ c3 ∷ c4 ∷ rest),
    big_dword-cons c1 c2 c3 c4 rest,
    octet_version o1 h1,
    octet_padding o1 h1,
    octet_extension o1 h1,
    octet_csrc o1 h1,
    octet_marker o2 h2,
    octet_payload_type o2 h2,
  )

  parse_csrcs_step :
      (n : ℕ) (h : Header) (begin rest : List ℕ) (c : ℕ)
      → spirit.big_dword begin ≡ some (c, rest)
      → parse_csrcs spirit (suc n) h begin
        ≡ parse_csrcs spirit n (record h { csrcs = h.csrcs ++ (c ∷ []) }) rest
  unfolding parse_csrcs
  parse_csrcs_step n h begin rest c e = ground arith

  dword_back :
      (c : ℕ) (rest : List ℕ)
      → IsDword c
      → spirit.big_dword (spirit.karma_big_dword c ++ rest) ≡ some (c, rest)
  dword_back c rest w =
      rw
        (
          karma_big_dword_lem c w,
          big_dword-cons (c / 2 ^ 24) (c / 2 ^ 16 % 256) (c / 256 % 256) (c % 256) rest,
        )
        (ap (λ n. some (n, rest)) (omega arith))

  csrcs_back :
      (h : Header) (cs rest : List ℕ)
      → All IsDword cs
      → parse_csrcs spirit (length cs) h (generate_dwords spirit cs ++ rest)
        ≡ succeed rest (record h { csrcs = h.csrcs ++ cs })
  csrcs_back h [] rest w =
      unfold parse_csrcs generate_dwords in
      ap (λ cs. succeed rest (record h { csrcs = cs })) (sym (append-nil h.csrcs))
  csrcs_back h (c ∷ cs) rest w =
      let tail = generate_dwords spirit cs ++ rest in
      let split : generate_dwords spirit (c ∷ cs) ++ rest ≡ spirit.karma_big_dword c ++ tail =
        unfold generate_dwords in append_assoc (spirit.karma_big_dword c) _ _ in
      rw
        (
          split,
          parse_csrcs_step (length cs) h (spirit.karma_big_dword c ++ tail) tail c
              (dword_back c tail w.0),
        )
        (csrcs_back (record h { csrcs = h.csrcs ++ (c ∷ []) }) cs rest w.1
          ∙ ap (λ cs. succeed rest (record h { csrcs = cs })) (append_assoc h.csrcs (c ∷ []) cs))

  length-generate_dwords :
      (cs : List ℕ) → All IsDword cs → length (generate_dwords spirit cs) ≡ 4 * length cs
  unfolding generate_dwords
  length-generate_dwords [] w = omega arith
  length-generate_dwords (c ∷ cs) w =
      rw (karma_big_dword_lem c w.0) (omega (arith, length-generate_dwords cs w.1))

  -- The octets of a sendable header, one by one.
  header_octets :
      (h : Header) (rest : List ℕ)
      → IsSendable h
      → (generate_header spirit h).1 ++ rest
        ≡ (128 + from_bool h.padding_set * 32 + h.csrc)
          ∷ (from_bool h.marker * 128 + h.payload_type_field)
          ∷ (h.sequence_number / 256)
          ∷ (h.sequence_number % 256)
          ∷ (h.timestamp / 2 ^ 24)
          ∷ (h.timestamp / 2 ^ 16 % 256)
          ∷ (h.timestamp / 256 % 256)
          ∷ (h.timestamp % 256)
          ∷ (h.ssrc / 2 ^ 24)
          ∷ (h.ssrc / 2 ^ 16 % 256)
          ∷ (h.ssrc / 256 % 256)
          ∷ (h.ssrc % 256)
          ∷ (generate_dwords spirit h.csrcs ++ rest)
  unfolding generate_header
  header_octets h rest w = ground (
    arith,
    w,
    first_octet_lem h w.version_two w.csrc_field,
    second_octet_fields h.marker h.payload_type_field w.payload_type_range,
    karma_byte__lem (first_octet h),
    karma_byte__lem (second_octet h),
    karma_big_word_lem h.sequence_number,
    karma_big_dword_lem h.timestamp,
    karma_big_dword_lem h.ssrc,
  )

  pub generate_header-true : (h : Header) → IsSendable h → (generate_header spirit h).0 ≡ true
  unfolding generate_header
  generate_header-true h w = ground (arith, w)

  fixed_back :
      (h0 h : Header) (rest : List ℕ)
      → IsSendable h
      → parse_fixed_header spirit h0 ((generate_header spirit h).1 ++ rest)
        ≡ succeed
            (generate_dwords spirit h.csrcs ++ rest)
            (record h { csrcs = h0.csrcs; header_extension = h0.header_extension })
  fixed_back h0 h rest w =
      let o1 : ℕ = 128 + from_bool h.padding_set * 32 + h.csrc in
      let o2 : ℕ = from_bool h.marker * 128 + h.payload_type_field in
      let small = from_bool_small h.padding_set in
      let small' = from_bool_small h.marker in
      rw
        (
          header_octets h rest w,
          parse_fixed_header_lem h0 o1 o2 (h.sequence_number / 256) (h.sequence_number % 256)
              (h.timestamp / 2 ^ 24) (h.timestamp / 2 ^ 16 % 256) (h.timestamp / 256 % 256)
              (h.timestamp % 256) (h.ssrc / 2 ^ 24) (h.ssrc / 2 ^ 16 % 256) (h.ssrc / 256 % 256)
              (h.ssrc % 256) (generate_dwords spirit h.csrcs ++ rest) (omega (arith, w))
              (omega (arith, w)) (omega (arith, w)),
        )
        (ground (arith, w))

  -- A parser that starts with an empty CSRC list and no extension gets the header back.
  pub parse-generate_header :
      (h0 h : Header) (rest : List ℕ)
      → h0.csrcs ≡ []
      → h0.header_extension ≡ []
      → IsSendable h
      → parse_header spirit h0 ((generate_header spirit h).1 ++ rest) ≡ succeed rest h
  unfolding parse_header
  parse-generate_header h0 h rest e e' w = ground (
    arith,
    w,
    fixed_back h0 h rest w,
    csrcs_back (record h { csrcs = []; header_extension = [] }) h.csrcs rest w.csrcs_range,
    length-generate_dwords h.csrcs w.csrcs_range,
    length-append (generate_dwords spirit h.csrcs) rest,
  )
