-- ===== src/Rtp/Fec/Mask.antt =====
-- The mask of an FEC packet of fec_generator: one bit for each of the first `fec_k` media packets.
use rtsp.Common.{
  ℕ, zero, suc, ◌+◌, ◌-◌, ◌*◌, ◌^◌, ◌≤◌, ◌<◌, ◌≡◌, refl, min, Bool, true, false, ◌&&◌, Option, none,
  some, List, [], ◌∷◌, length, ◌==◌, arith,
}
use rtsp.Rtp.Fec.{set_mask_bit, fill_mask, empty_mask}

-- Octet `j` of the mask for `k` packets: the highest `k - 8 j` bits, eight at most.
abbrev pub mask_octet : ℕ → ℕ → ℕ
mask_octet k j = 256 - 2 ^ (8 - min 8 (k - 8 * j))

unfoldable pub full_mask : ℕ → List ℕ
full_mask k =
    mask_octet k 0
    ∷ mask_octet k 1
    ∷ mask_octet k 2
    ∷ mask_octet k 3
    ∷ mask_octet k 4
    ∷ mask_octet k 5
    ∷ []

same_octets : List ℕ → List ℕ → Bool
same_octets [] [] = true
same_octets [] (y ∷ ys) = false
same_octets (x ∷ xs) [] = false
same_octets (x ∷ xs) (y ∷ ys) = x == y && same_octets xs ys

same_octets_sound : (xs ys : List ℕ) → same_octets xs ys ≡ true → xs ≡ ys
unfolding same_octets
same_octets_sound [] [] h = refl
same_octets_sound [] (y ∷ ys) h = cc
same_octets_sound (x ∷ xs) [] h = cc
same_octets_sound (x ∷ xs) (y ∷ ys) h = ground (arith, same_octets_sound xs ys)

filled_with : Option (List ℕ) → List ℕ → Bool
filled_with none ys = false
filled_with (some xs) ys = same_octets xs ys

masks_full : ℕ → Bool
masks_full zero = true
masks_full (suc n) = filled_with (fill_mask n 0 empty_mask) (full_mask n) && masks_full n

filled_with_sound : (o : Option (List ℕ)) (ys : List ℕ) → filled_with o ys ≡ true → o ≡ some ys
unfolding filled_with
filled_with_sound none ys h = cc
filled_with_sound (some xs) ys h = ground (arith, same_octets_sound xs ys h)

masks_full_sound :
    (n : ℕ) → masks_full n ≡ true → (k : ℕ) → k < n → fill_mask k 0 empty_mask ≡ some (full_mask k)
unfolding masks_full
masks_full_sound zero h k lt = absurd (omega arith)
masks_full_sound (suc n) h k lt = ground (
  arith,
  filled_with_sound (fill_mask n 0 empty_mask) (full_mask n),
  masks_full_sound n (ground arith) k,
)

table : masks_full 49 ≡ true
unfolding masks_full fill_mask set_mask_bit full_mask filled_with same_octets
table = refl

-- Up to 48 packets the loop sets the first `k` bits and no other.
pub fill_mask-full : (k : ℕ) → k ≤ 48 → fill_mask k 0 empty_mask ≡ some (full_mask k)
fill_mask-full k h = masks_full_sound 49 table k (omega arith)

length-set_mask_bit : (u : ℕ) (mask : List ℕ) → length (set_mask_bit u mask) ≡ length mask
unfolding set_mask_bit
length-set_mask_bit u [] = refl
length-set_mask_bit u (m ∷ ms) = ground (arith, length-set_mask_bit (u - 8) ms)

-- The loop leaves a mask of six octets by an exception as soon as it counts to more than 48.
pub fill_mask_overflow :
    (rounds u : ℕ) (mask : List ℕ)
    → length mask ≡ 6
    → u ≤ 48
    → 48 < u + rounds
    → fill_mask rounds u mask ≡ none
unfolding fill_mask
fill_mask_overflow zero u mask e h k = absurd (omega arith)
fill_mask_overflow (suc rounds) u mask e h k =
    ground
      (arith, length-set_mask_bit u mask, fill_mask_overflow rounds (u + 1) (set_mask_bit u mask))
