-- ===== src/Rtp/Fec/Block.antt =====
-- A block of `fec_k` calls of `generate_next_fec_packet`, and what its parity recovers.
use rtsp.Common.{
  ℕ, suc, ◌-◌, ◌≤◌, ◌<◌, ◌≡◌, refl, sym, ap, ◌∙◌, ◌⊎◌, inl, inr, none, some, List, [], ◌∷◌, ◌++◌,
  length, All, arith,
}
use rtsp.Rtp.Spirit.{Spirit}
use rtsp.Rtp.Fec.{
  FecGenerator, returns, throws_out_of_range, construct, next_seq_base, fec_packet, finish_packet,
  absorb, generate_next_fec_packet, collect, empty_mask,
}
use rtsp.Rtp.Fec.Base.{IsBase, seq_base, seq_base-IsBase}
use rtsp.Rtp.Fec.Xor.{xor_pad, zeros, xor_pad_comm, xor_pad_assoc, xor_pad_self, length-xor_pad}
use rtsp.Rtp.Fec.BitString.{protected_string, length-protected_string, absorb_string}
use rtsp.Rtp.Fec.Mask.{full_mask, fill_mask-full, fill_mask_overflow}

-- A media packet that `generate_next_fec_packet` takes, with its sequence number.
abbrev pub IsMedia : List ℕ × ℕ → Type 0
IsMedia (media_packet, seq_num) = 12 ≤ length media_packet

seq_base-append :
    (b : ℕ) (xs ys : List (List ℕ × ℕ)) → seq_base b (xs ++ ys) ≡ seq_base (seq_base b xs) ys
unfolding seq_base
seq_base-append b [] ys = refl
seq_base-append b ((m, seq) ∷ xs) ys = seq_base-append (next_seq_base b seq) xs ys

module _ (spirit : Spirit) where
  -- The exclusive or of the protected strings of the packets, on top of `bits`.
  pub parity : List ℕ → List (List ℕ × ℕ) → List ℕ
  parity bits [] = bits
  parity bits ((m, seq) ∷ calls) = parity (xor_pad bits (protected_string spirit m)) calls

  -- The state of `g` with the packet taken up.
  abbrev taken : FecGenerator → List ℕ → ℕ → FecGenerator
  taken g m seq = record g {
    fec_bit_string = xor_pad g.fec_bit_string (protected_string spirit m);
    fec_seq_base = next_seq_base g.fec_seq_base seq;
  }

  absorb_lem :
      (g : FecGenerator) (m : List ℕ) (seq : ℕ)
      → (g.fec_bit_string ≡ []) ⊎ (10 ≤ length g.fec_bit_string)
      → 12 ≤ length m
      → absorb spirit g m seq ≡ taken g m seq
  unfolding absorb
  absorb_lem g m seq h k =
      ap
        (λ bits. record g {
          fec_bit_string = bits;
          fec_seq_base = next_seq_base g.fec_seq_base seq;
        })
        (absorb_string spirit g m seq h (omega arith))

  call_lem :
      (g : FecGenerator) (m : List ℕ) (seq : ℕ)
      → (g.fec_bit_string ≡ []) ⊎ (10 ≤ length g.fec_bit_string)
      → 12 ≤ length m
      → generate_next_fec_packet spirit g m seq ≡ finish_packet spirit (taken g m seq)
  unfolding generate_next_fec_packet
  call_lem g m seq h k = ground (arith, absorb_lem g m seq h k)

  waiting_lem :
      (g : FecGenerator)
      → 1 < g.current_fec_k
      → g.current_fec_k < 65536
      → finish_packet spirit g ≡ returns (record g { current_fec_k = g.current_fec_k - 1 }) none
  unfolding finish_packet
  waiting_lem g h k = ground arith

  taken_long :
      (g : FecGenerator) (m : List ℕ) (seq : ℕ)
      → 12 ≤ length m
      → 10 ≤ length (taken g m seq).fec_bit_string
  taken_long g m seq h = omega (
    arith,
    length-xor_pad g.fec_bit_string (protected_string spirit m),
    length-protected_string spirit m (omega arith),
  )

  collect_step :
      (g g' : FecGenerator) (m : List ℕ) (seq : ℕ) (calls : List (List ℕ × ℕ))
      → generate_next_fec_packet spirit g m seq ≡ returns g' none
      → collect spirit g ((m, seq) ∷ calls) ≡ collect spirit g' calls
  unfolding collect
  collect_step g g' m seq calls e = ground arith

  collect_lem :
      (g : FecGenerator) (calls : List (List ℕ × ℕ))
      → (g.fec_bit_string ≡ []) ⊎ (10 ≤ length g.fec_bit_string)
      → All IsMedia calls
      → length calls < g.current_fec_k
      → g.current_fec_k < 65536
      → collect spirit g calls
        ≡ some (record g {
          current_fec_k = g.current_fec_k - length calls;
          fec_bit_string = parity g.fec_bit_string calls;
          fec_seq_base = seq_base g.fec_seq_base calls;
        })
  unfolding parity seq_base
  collect_lem g [] h w l k = unfold collect in ground arith
  collect_lem g ((m, seq) ∷ calls) h w l k =
      let t = taken g m seq in
      let g' : FecGenerator = record t { current_fec_k = g.current_fec_k - 1 } in
      let one = call_lem g m seq h w.0 ∙ waiting_lem t (omega arith) k in
      let long = taken_long g m seq w.0 in
      collect_step g g' m seq calls one
      ∙ collect_lem g' calls (inr long) w.1 (omega arith) (omega arith)
      ∙ ground arith

  parity-append :
      (bits : List ℕ) (xs ys : List (List ℕ × ℕ))
      → parity bits (xs ++ ys) ≡ parity (parity bits xs) ys
  unfolding parity
  parity-append bits [] ys = refl
  parity-append bits ((m, seq) ∷ xs) ys =
      parity-append (xor_pad bits (protected_string spirit m)) xs ys

  parity_long :
      (bits : List ℕ) (xs : List (List ℕ × ℕ))
      → (bits ≡ []) ⊎ (10 ≤ length bits)
      → All IsMedia xs
      → (parity bits xs ≡ []) ⊎ (10 ≤ length (parity bits xs))
  unfolding parity
  parity_long bits [] h w = h
  parity_long bits ((m, seq) ∷ xs) h w =
      parity_long (xor_pad bits (protected_string spirit m)) xs
        (inr (
          omega (
            arith,
            length-xor_pad bits (protected_string spirit m),
            length-protected_string spirit m (omega (arith, w.0)),
          )))
        w.1

  -- The state of the last call of a block, with all packets taken up.
  last_call :
      (k : ℕ) (before : List (List ℕ × ℕ)) (m : List ℕ) (seq : ℕ)
      → All IsMedia before
      → 12 ≤ length m
      → k ≡ suc (length before)
      → k < 65536
      → let calls = before ++ ((m, seq) ∷ []) in
        let full : FecGenerator = record {
          fec_k = k;
          current_fec_k = 1;
          fec_bit_string = parity [] calls;
          fec_seq_base = seq_base 0 calls;
        } in
        (g : FecGenerator) × (collect spirit (construct k) before ≡ some g)
        × (generate_next_fec_packet spirit g m seq ≡ finish_packet spirit full)
  unfolding construct
  last_call k before m seq w h e l =
      let g : FecGenerator = record {
        fec_k = k;
        current_fec_k = 1;
        fec_bit_string = parity [] before;
        fec_seq_base = seq_base 0 before;
      } in
      let one : k - length before ≡ 1 = omega arith in
      let string : parity (parity [] before) ((m, seq) ∷ [])
          ≡ parity [] (before ++ ((m, seq) ∷ [])) =
        sym (parity-append [] before ((m, seq) ∷ [])) in
      let base : seq_base (seq_base 0 before) ((m, seq) ∷ [])
          ≡ seq_base 0 (before ++ ((m, seq) ∷ [])) =
        sym (seq_base-append 0 before ((m, seq) ∷ [])) in
      (
        g,
        collect_lem (construct k) before (inl refl) w (omega arith) l ∙ ground arith,
        call_lem g m seq (parity_long [] before (inl refl) w) h
            ∙ (ap (finish_packet spirit) (unfold parity seq_base in ground (arith, string, base))),
      )

  -- A generator for `k` packets, with 1 ≤ k ≤ 48, over `k` media packets of 12 octets or more: the
  -- first `k - 1` calls return no packet; the last one returns the FEC packet over the exclusive or
  -- of all their protected strings, with a mask of exactly `k` bits, and leaves the generator as it was
  -- constructed. Its sequence number base is the least sequence number of the packets behind the
  -- last one with the number 0, and 0 if that is the last packet of the block; so it is the least
  -- of all unless a packet has the number 0.
  pub generate_block :
      (before : List (List ℕ × ℕ)) (m : List ℕ) (seq : ℕ)
      → All IsMedia before
      → 12 ≤ length m
      → length before < 48
      → let k = suc (length before) in
        let calls = before ++ ((m, seq) ∷ []) in
        (g : FecGenerator) × (base : ℕ) × (collect spirit (construct k) before ≡ some g)
        × (generate_next_fec_packet spirit g m seq
            ≡ returns
                (construct k)
                (some (fec_packet spirit k base (parity [] calls) (full_mask k))))
        × IsBase base calls
  unfolding construct finish_packet
  generate_block before m seq w h l =
      let k = suc (length before) in
      let calls = before ++ ((m, seq) ∷ []) in
      let (g, e, r) = last_call k before m seq w h refl (omega arith) in
      (
        g,
        seq_base 0 calls,
        e,
        ground (arith, r, fill_mask-full k (omega arith)),
        seq_base-IsBase calls,
      )

  -- A generator for more than 48 packets: the call that completes the block throws
  -- `std::out_of_range` instead of returning a packet, and the string of the block is kept, so that
  -- the next block starts on top of it.
  pub generate_block_throws :
      (before : List (List ℕ × ℕ)) (m : List ℕ) (seq : ℕ)
      → All IsMedia before
      → 12 ≤ length m
      → 48 ≤ length before
      → suc (length before) < 65536
      → let k = suc (length before) in
        (g : FecGenerator) × (collect spirit (construct k) before ≡ some g)
        × (generate_next_fec_packet spirit g m seq
            ≡ throws_out_of_range
                (record (construct k) { fec_bit_string = parity [] (before ++ ((m, seq) ∷ [])) }))
  unfolding construct finish_packet
  generate_block_throws before m seq w h l l' =
      let k = suc (length before) in
      let (g, e, r) = last_call k before m seq w h refl l' in
      (g, e, ground (arith, r, fill_mask_overflow k 0 empty_mask refl (omega arith) (omega arith)))

  parity_head :
      (bits m : List ℕ) (seq : ℕ) (xs : List (List ℕ × ℕ))
      → parity bits ((m, seq) ∷ xs) ≡ parity (xor_pad bits (protected_string spirit m)) xs
  unfolding parity
  parity_head bits m seq xs = refl

  parity_xor :
      (a b : List ℕ) (xs : List (List ℕ × ℕ)) → parity (xor_pad a b) xs ≡ xor_pad a (parity b xs)
  unfolding parity
  parity_xor a b [] = refl
  parity_xor a b ((m, seq) ∷ xs) =
      let p = protected_string spirit m in
      ap (λ bits. parity bits xs) (xor_pad_assoc a b p) ∙ parity_xor a (xor_pad b p) xs

  parity_insert :
      (before after : List (List ℕ × ℕ)) (m : List ℕ) (seq : ℕ)
      → parity [] (before ++ ((m, seq) ∷ after))
        ≡ xor_pad (protected_string spirit m) (parity [] (before ++ after))
  parity_insert before after m seq =
      let p = protected_string spirit m in
      let b = parity [] before in
      parity-append [] before ((m, seq) ∷ after)
      ∙ (parity_head b m seq after)
      ∙ ap (λ bits. parity bits after) (xor_pad_comm b p)
      ∙ parity_xor p b after
      ∙ ap (xor_pad p) (sym (parity-append [] before after))

  -- One media packet is lost of a block. A fresh generator that takes up the others holds a string
  -- whose exclusive or with the string of the whole block is the protected string of the lost
  -- packet, followed by zeros.
  pub parity_recovers :
      (before after : List (List ℕ × ℕ)) (lost : List ℕ) (seq k : ℕ)
      → All IsMedia (before ++ after)
      → length (before ++ after) < k
      → k < 65536
      → (g : FecGenerator) × (collect spirit (construct k) (before ++ after) ≡ some g)
        × (xor_pad (parity [] (before ++ ((lost, seq) ∷ after))) g.fec_bit_string
            ≡ xor_pad (protected_string spirit lost) (zeros (length g.fec_bit_string)))
  unfolding construct
  parity_recovers before after lost seq k w l l' = (
    _,
    collect_lem (construct k) (before ++ after) (inl refl) w l l',
    ap (λ bits. xor_pad bits (parity [] (before ++ after))) (parity_insert before after lost seq)
        ∙ xor_pad_assoc (protected_string spirit lost) (parity [] (before ++ after))
            (parity [] (before ++ after))
        ∙ ap (xor_pad (protected_string spirit lost)) (xor_pad_self (parity [] (before ++ after))),
  )
