-- ===== src/Rtp/Receiver/Rebuilt.antt =====
-- What fec_reconstruction of rtp_endsystem.cpp makes of the header of a lost packet.
use rtsp.Common.{
  ℕ, zero, suc, ◌+◌, ◌*◌, ◌/◌, ◌%◌, ◌^◌, ◌<◌, ◌≡◌, refl, sym, subst, ◌||◌, List, [], ◌∷◌, ◌++◌,
  length, ltb, ◌==◌, if◌then◌else◌, Bool-cases, inl, inr, if_cases, arith,
}
use rtsp.Rtp.Spirit.{Spirit}
use rtsp.Rtp.Packet.{Header, default_header, default_jpeg_packet}
use rtsp.Rtp.Packet.Generator.{first_octet, second_octet, generate_dwords, generate_header}
use rtsp.Rtp.Packet.Grammar.{
  Parse, succeed, fail, then_parse, parse_fixed_header, parse_csrcs, parse_extension, parse_header,
  parse_jpeg_profile, parse_jpeg_packet,
}
use rtsp.Rtp.Fec.{construct}
use rtsp.Rtp.Receiver.{JpegEntry, FecEntry, Result, returns, throws, is_undefined, front}
use rtsp.Rtp.Receiver.Reconstruction.{
  feed_generator, complete_block, protected_payload, xor_media, recovered_header, rebuild,
  fec_reconstruction,
}
use rtsp.Rtp.Receiver.Effects.{bind_cases}

-- The two numbers are zero.
abbrev pub IsUnnumbered : Header → Type 0
IsUnnumbered h = (h.sequence_number ≡ 0) × (h.ssrc ≡ 0)

-- A packet that the call returns has the two numbers zero.
abbrev pub ReturnsUnnumbered : Result JpegEntry → Type 0
ReturnsUnnumbered (returns entry) = IsUnnumbered entry.0.header.base
ReturnsUnnumbered throws = Unit
ReturnsUnnumbered is_undefined = Unit

then_parse-keeps :
    {A : Type 0} (P : A → Type 0) (p : Parse A) (next : A → List ℕ → Parse A)
    → P p.attribute
    → ((a : A) (begin : List ℕ) → P a → P (next a begin).attribute)
    → P (then_parse p next).attribute
then_parse-keeps {A} P p next w f =
    if_cases (λ (q : Parse A). P q.attribute) p.success (λ e. f p.attribute p.begin w) (λ e. w)

module _ (spirit : Spirit) where
  parse_csrcs-IsUnnumbered :
      (rounds : ℕ) (h : Header) (begin : List ℕ)
      → IsUnnumbered h
      → IsUnnumbered (parse_csrcs spirit rounds h begin).attribute
  unfolding parse_csrcs
  parse_csrcs-IsUnnumbered zero h begin w = w
  parse_csrcs-IsUnnumbered (suc rounds) h begin w = parse_csrcs-IsUnnumbered rounds _ _ w

  parse_extension-IsUnnumbered :
      (h : Header) (begin : List ℕ)
      → IsUnnumbered h
      → IsUnnumbered (parse_extension spirit h begin).attribute
  unfolding parse_extension
  parse_extension-IsUnnumbered h begin w = ground (arith, w)

  parse_fixed-IsUnnumbered :
      (h : Header) (a b c d e f : ℕ) (rest : List ℕ)
      → IsUnnumbered h
      → IsUnnumbered
          (parse_fixed_header spirit h
            (a ∷ b ∷ 0 ∷ 0 ∷ c ∷ d ∷ e ∷ f ∷ 0 ∷ 0 ∷ 0 ∷ 0 ∷ rest)).attribute
  unfolding parse_fixed_header
  parse_fixed-IsUnnumbered h a b c d e f rest w = ground (
    arith,
    w,
    spirit.byte_-cons a (b ∷ 0 ∷ 0 ∷ c ∷ d ∷ e ∷ f ∷ 0 ∷ 0 ∷ 0 ∷ 0 ∷ rest),
    spirit.byte_-cons b (0 ∷ 0 ∷ c ∷ d ∷ e ∷ f ∷ 0 ∷ 0 ∷ 0 ∷ 0 ∷ rest),
    spirit.big_word-cons 0 0 (c ∷ d ∷ e ∷ f ∷ 0 ∷ 0 ∷ 0 ∷ 0 ∷ rest),
    spirit.big_dword-cons c d e f (0 ∷ 0 ∷ 0 ∷ 0 ∷ rest),
    spirit.big_dword-cons 0 0 0 0 rest,
  )

  parse_header-IsUnnumbered :
      (h : Header) (octets : List ℕ)
      → IsUnnumbered (parse_fixed_header spirit h octets).attribute
      → IsUnnumbered (parse_header spirit h octets).attribute
  unfolding parse_header
  parse_header-IsUnnumbered h octets w =
      let p1 = parse_fixed_header spirit h octets in
      then_parse-keeps IsUnnumbered
        (then_parse p1 (λ h1 begin.
          if ltb (length begin) (4 * h1.csrc)
          then fail begin h1
          else parse_csrcs spirit h1.csrc h1 begin))
        (λ h2 begin. if h2.extension_bit then parse_extension spirit h2 begin else succeed begin h2)
        (then_parse-keeps IsUnnumbered p1
          (λ h1 begin.
            if ltb (length begin) (4 * h1.csrc)
            then fail begin h1
            else parse_csrcs spirit h1.csrc h1 begin)
          w
          (λ h1 begin w1.
            if_cases (λ (q : Parse Header). IsUnnumbered q.attribute)
              (ltb (length begin) (4 * h1.csrc)) (λ e. w1)
              (λ e. parse_csrcs-IsUnnumbered h1.csrc h1 begin w1)))
        (λ h2 begin w2.
          if_cases (λ (q : Parse Header). IsUnnumbered q.attribute) h2.extension_bit
            (λ e. parse_extension-IsUnnumbered h2 begin w2) (λ e. w2))

  -- Where the two numbers are zero in the header, the JPEG grammar leaves them zero.
  parse_jpeg-IsUnnumbered :
      (octets : List ℕ)
      → IsUnnumbered (parse_header spirit default_header octets).attribute
      → IsUnnumbered (parse_jpeg_packet spirit default_jpeg_packet octets).attribute.header.base
  unfolding parse_jpeg_packet parse_jpeg_profile
  parse_jpeg-IsUnnumbered octets w = ground (arith, w)

  -- The octets that a header without the two numbers is generated as.
  abbrev fixed_octets : Header → List ℕ → List ℕ
  fixed_octets h rest =
      let t = h.timestamp in
      first_octet h
      ∷ second_octet h
      ∷ 0
      ∷ 0
      ∷ (t / 2 ^ 24)
      ∷ (t / 2 ^ 16 % 256)
      ∷ (t / 256 % 256)
      ∷ (t % 256)
      ∷ 0
      ∷ 0
      ∷ 0
      ∷ 0
      ∷ rest

  generate_fixed :
      (h : Header)
      → IsUnnumbered h
      → h.timestamp < 2 ^ 32
      → spirit.karma_byte_ (first_octet h)
          ++ (spirit.karma_byte_ (second_octet h)
              ++ (spirit.karma_big_word h.sequence_number
                  ++ (spirit.karma_big_dword h.timestamp ++ spirit.karma_big_dword h.ssrc)))
        ≡ fixed_octets h []
  generate_fixed h w t =
      rw
        (
          w.0,
          w.1,
          spirit.karma_byte__lem (first_octet h) (omega arith),
          spirit.karma_byte__lem (second_octet h) (omega arith),
          spirit.karma_big_word_lem 0 (omega arith),
          spirit.karma_big_dword_lem h.timestamp t,
          spirit.karma_big_dword_lem 0 (omega arith),
        )
        refl

  generate_header-unnumbered :
      (h : Header) (bits : List ℕ)
      → h.version ≡ 2
      → IsUnnumbered h
      → h.timestamp < 2 ^ 32
      → (rest : List ℕ) × ((generate_header spirit h).1 ++ bits ≡ fixed_octets h rest)
  unfolding generate_header
  generate_header-unnumbered h bits v w t =
      let e = generate_fixed h w t in
      elim (Bool-cases (h.csrc == length h.csrcs)) [
        | inl same ↦ (generate_dwords spirit h.csrcs ++ bits, ground (arith, e))
        | inr other ↦ (bits, ground (arith, e))
      ]

  rebuild-IsUnnumbered :
      (h : Header) (bits : List ℕ)
      → h.version ≡ 2
      → IsUnnumbered h
      → h.timestamp < 2 ^ 32
      → IsUnnumbered (rebuild spirit h bits).0.header.base
  unfolding rebuild
  rebuild-IsUnnumbered h bits v w t =
      let (rest, e) = generate_header-unnumbered h bits v w t in
      let n = h.timestamp in
      let fixed =
        parse_fixed-IsUnnumbered default_header (first_octet h) (second_octet h) (n / 2 ^ 24)
          (n / 2 ^ 16 % 256) (n / 256 % 256) (n % 256) rest (refl, refl) in
      subst
        (λ octets.
          IsUnnumbered (parse_jpeg_packet spirit default_jpeg_packet octets).attribute.header.base)
        (sym e)
        (parse_jpeg-IsUnnumbered (fixed_octets h rest)
          (parse_header-IsUnnumbered default_header (fixed_octets h rest) fixed))

  -- For every FEC packet and all media packets: a packet that fec_reconstruction returns has sequence
  -- number 0 and SSRC 0, whichever packet was lost.
  pub fec_reconstruction-ReturnsUnnumbered :
      (fec_packet : FecEntry) (media_packets : List JpegEntry)
      → ReturnsUnnumbered (fec_reconstruction spirit fec_packet media_packets)
  unfolding fec_reconstruction recovered_header
  fec_reconstruction-ReturnsUnnumbered (fec_packet, octets) media_packets =
      bind_cases ReturnsUnnumbered
        (feed_generator spirit (construct ((length media_packets + 1) % 65536)) media_packets) _ tt
        tt
        (λ fec_gen. bind_cases ReturnsUnnumbered (front media_packets) _ tt tt (λ first.
          bind_cases ReturnsUnnumbered
            (complete_block spirit fec_gen first.0.header.sequence_number) _ tt tt
            (λ step_1.
              let place = 12 + fec_packet.header.csrc * 4 in
              if_cases ReturnsUnnumbered
                (ltb (length step_1) 10 || ltb (length octets) (place + 10)) (λ e. tt)
                (λ e. bind_cases ReturnsUnnumbered (front fec_packet.levels) _ tt tt (λ level.
                  bind_cases ReturnsUnnumbered (protected_payload level) _ tt tt (λ payload.
                    bind_cases ReturnsUnnumbered (xor_media payload media_packets) _ tt tt
                      (λ bit_string.
                        rebuild-IsUnnumbered _ bit_string refl (refl, refl) (omega arith))))))))
