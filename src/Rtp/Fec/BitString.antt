-- ===== src/Rtp/Fec/BitString.antt =====
-- The bit string that fec_generator keeps is the exclusive or of the protected strings of the media
-- packets: their first eight octets, their length, and their octets from the ninth on.
use rtsp.Common.{
  ℕ, zero, suc, ◌+◌, ◌-◌, ◌≤◌, ◌%◌, ◌≡◌, refl, sym, ap, ◌∙◌, ◌⊎◌, inl, inr, List, [], ◌∷◌, ◌++◌,
  append_assoc, length, length-append, length-take, length-drop, take, drop, leb, Bool-cases, arith,
}
use rtsp.Rtp.Spirit.{Spirit}
use rtsp.Rtp.Fec.{
  FecGenerator, absorb, length_octets, add_first_octets, add_length, add_octets, xor_range,
}
use rtsp.Rtp.Fec.Xor.{
  xor_pad, zeros, length-zeros, xor_pad_comm, xor_pad_assoc, length-xor_pad, xor_pad_behind,
  xor_pad_from, xor_range-xor_zero, xor_range_first,
}

drop-nil : (n : ℕ) → drop {A = ℕ} n [] ≡ []
drop-nil zero = refl
drop-nil (suc n) = refl

take_all : (n : ℕ) (xs : List ℕ) → length xs ≤ n → take n xs ≡ xs
take_all zero [] h = refl
take_all zero (x ∷ xs) h = absurd (omega arith)
take_all (suc n) [] h = refl
take_all (suc n) (x ∷ xs) h = rw (take_all n xs (omega arith))

drop-drop : (m n : ℕ) (xs : List ℕ) → drop n (drop m xs) ≡ drop (m + n) xs
drop-drop zero n xs = ap (λ k. drop k xs) (omega arith)
drop-drop (suc m) n [] = drop-nil n ∙ sym (drop-nil (suc m + n))
drop-drop (suc m) n (x ∷ xs) =
    let e : suc (m + n) ≡ suc m + n = omega arith in drop-drop m n xs ∙ ap (λ k. drop k (x ∷ xs)) e

module _ (spirit : Spirit) where
  -- What the parity of RFC 5109 is taken over.
  pub protected_string : List ℕ → List ℕ
  protected_string m = take 8 m ++ (length_octets spirit m ++ drop 8 m)

  length-length_octets : (m : List ℕ) → length (length_octets spirit m) ≡ 2
  unfolding length_octets
  length-length_octets m =
      let n : ℕ = (length m - 12) % 65536 in rw (spirit.karma_big_word_lem n (omega arith)) refl

  pub length-protected_string :
      (m : List ℕ) → 8 ≤ length m → length (protected_string m) ≡ length m + 2
  unfolding protected_string
  length-protected_string m h = omega (
    arith,
    length-append (take 8 m) (length_octets spirit m ++ drop 8 m),
    length-append (length_octets spirit m) (drop 8 m),
    length-length_octets m,
    length-take 8 m,
    length-drop 8 m,
  )

  add_first_octets_lem :
      (bits m : List ℕ)
      → (bits ≡ []) ⊎ (10 ≤ length bits)
      → 8 ≤ length m
      → add_first_octets bits m ≡ xor_pad bits (take 8 m)
  unfolding add_first_octets xor_pad
  add_first_octets_lem [] m h k = refl
  add_first_octets_lem (b ∷ bs) m (inl e) k = cc
  add_first_octets_lem (b ∷ bs) m (inr h) k = xor_range_first 8 (b ∷ bs) m (omega arith) k

  add_length_lem :
      (bits m : List ℕ)
      → (length bits ≡ 8) ⊎ (10 ≤ length bits)
      → add_length spirit bits m ≡ xor_pad bits (zeros 8 ++ length_octets spirit m)
  unfolding add_length
  add_length_lem bits m (inl e) =
      let same : zeros (length bits) ≡ zeros 8 = ap zeros e in
      ground (arith, same, xor_pad_behind bits (length_octets spirit m))
  add_length_lem bits m (inr h) =
      let len = length_octets spirit m in
      let two = length-length_octets m in
      let inner : xor_range (take 2 (drop 8 bits)) len ++ drop 10 bits ≡ xor_pad (drop 8 bits) len =
        ap (λ r. xor_range (take 2 (drop 8 bits)) len ++ r) (sym (drop-drop 8 2 bits))
        ∙ xor_range_first 2 (drop 8 bits) len (omega (arith, length-drop 8 bits)) (omega arith)
        ∙ ap (xor_pad (drop 8 bits)) (take_all 2 len (omega arith)) in
      ground (arith, inner, xor_pad_from 8 bits len)

  add_octets_lem :
      (bits m : List ℕ)
      → 10 ≤ length bits
      → 8 ≤ length m
      → add_octets bits m ≡ xor_pad bits (zeros 10 ++ drop 8 m)
  unfolding add_octets
  add_octets_lem bits m h k = elim (Bool-cases (leb (length m) (length bits - 2))) [
    | inl shorter ↦
        let part =
          xor_range-xor_zero (drop 8 m) (drop 10 bits)
            (ground (arith, length-drop 8 m, length-drop 10 bits)) in
        let place : drop (length (drop 8 m)) (drop 10 bits) ≡ drop (10 + length m - 8) bits =
          drop-drop 10 (length (drop 8 m)) bits
          ∙ ap (λ i. drop i bits) (omega (arith, length-drop 8 m)) in
        rw (shorter, ← place, part, xor_pad_comm (drop 8 m) (drop 10 bits))
          (xor_pad_from 10 bits (drop 8 m) h)
    | inr longer ↦
        let part =
          xor_range-xor_zero (drop 10 bits) (drop 8 m)
            (ground (arith, length-drop 8 m, length-drop 10 bits)) in
        let place : drop (length (drop 10 bits)) (drop 8 m) ≡ drop (length bits - 2) m =
          drop-drop 8 (length (drop 10 bits)) m
          ∙ ap (λ i. drop i m) (omega (arith, length-drop 10 bits)) in
        rw (longer, ← place, part) (xor_pad_from 10 bits (drop 8 m) h)
  ]

  length_padded : (m : List ℕ) → length (zeros 8 ++ length_octets spirit m) ≡ 10
  length_padded m = omega (
    arith,
    length-append (zeros 8) (length_octets spirit m),
    length-zeros 8,
    length-length_octets m,
  )

  -- The three changes to the string are one.
  protected_parts :
      (m : List ℕ)
      → 8 ≤ length m
      → xor_pad (take 8 m) (xor_pad (zeros 8 ++ length_octets spirit m) (zeros 10 ++ drop 8 m))
        ≡ protected_string m
  unfolding protected_string
  protected_parts m h =
      let len = length_octets spirit m in
      let size8 : length (take 8 m) ≡ 8 = omega (arith, length-take 8 m) in
      let ten : zeros (length (zeros 8 ++ len)) ≡ zeros 10 = ap zeros (length_padded m) in
      let behind : xor_pad (zeros 8 ++ len) (zeros 10 ++ drop 8 m) ≡ (zeros 8 ++ len) ++ drop 8 m =
        ap (λ z. xor_pad (zeros 8 ++ len) (z ++ drop 8 m)) (sym ten)
        ∙ xor_pad_behind (zeros 8 ++ len) (drop 8 m) in
      ap (xor_pad (take 8 m)) (behind ∙ append_assoc (zeros 8) len (drop 8 m))
      ∙ ap (λ n. xor_pad (take 8 m) (zeros n ++ (len ++ drop 8 m))) (sym size8)
      ∙ xor_pad_behind (take 8 m) (len ++ drop 8 m)

  -- One media packet on top of the string.
  pub absorb_string :
      (g : FecGenerator) (m : List ℕ) (seq : ℕ)
      → (g.fec_bit_string ≡ []) ⊎ (10 ≤ length g.fec_bit_string)
      → 8 ≤ length m
      → (absorb spirit g m seq).fec_bit_string ≡ xor_pad g.fec_bit_string (protected_string m)
  unfolding absorb
  absorb_string g m seq h k =
      let bits = g.fec_bit_string in
      let len = length_octets spirit m in
      let one = add_first_octets_lem bits m h k in
      let size8 : length (take 8 m) ≡ 8 = omega (arith, length-take 8 m) in
      let ten = length_padded m in
      let sized : (length (xor_pad bits (take 8 m)) ≡ 8) ⊎ (10 ≤ length (xor_pad bits (take 8 m))) =
        elim h [
          | inl e ↦ inl (rw e (omega (arith, length-xor_pad [] (take 8 m), size8)))
          | inr big ↦ inr (omega (arith, length-xor_pad bits (take 8 m)))
        ] in
      let long : 10 ≤ length (xor_pad (xor_pad bits (take 8 m)) (zeros 8 ++ len)) =
        omega (arith, length-xor_pad (xor_pad bits (take 8 m)) (zeros 8 ++ len), ten) in
      rw
        (
          one,
          add_length_lem (xor_pad bits (take 8 m)) m sized,
          add_octets_lem (xor_pad (xor_pad bits (take 8 m)) (zeros 8 ++ len)) m long k,
        )
        (xor_pad_assoc (xor_pad bits (take 8 m)) (zeros 8 ++ len) (zeros 10 ++ drop 8 m)
          ∙ xor_pad_assoc bits (take 8 m) (xor_pad (zeros 8 ++ len) (zeros 10 ++ drop 8 m))
          ∙ ap (xor_pad bits) (protected_parts m k))
