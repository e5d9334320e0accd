-- ===== src/Rtp/Fec/Xor.antt =====
-- Exclusive or of octet strings, the shorter one padded with zeros: the specification of the loops
-- of `generate_next_fec_packet`, and its laws.
use rtsp.Common.{
  ℕ, zero, suc, ◌≤◌, ◌≡◌, refl, sym, ap, List, [], ◌∷◌, ◌++◌, bit_xor, length, take, drop, arith,
}
use rtsp.Common.Bits.{bit_xor_comm, bit_xor_assoc, bit_xor-zero, bit_xor_self}
use rtsp.Rtp.Fec.{xor_range, xor_zero}
use Prim.Native.Nat.{max}

unfoldable pub xor_pad : List ℕ → List ℕ → List ℕ
xor_pad [] ys = ys
xor_pad (x ∷ xs) [] = x ∷ xs
xor_pad (x ∷ xs) (y ∷ ys) = bit_xor x y ∷ xor_pad xs ys

unfoldable pub zeros : ℕ → List ℕ
zeros zero = []
zeros (suc n) = 0 ∷ zeros n

pub length-zeros : (n : ℕ) → length (zeros n) ≡ n
unfolding zeros
length-zeros zero = refl
length-zeros (suc n) = ap suc (length-zeros n)

pub xor_pad-nil : (xs : List ℕ) → xor_pad xs [] ≡ xs
unfolding xor_pad
xor_pad-nil [] = refl
xor_pad-nil (x ∷ xs) = refl

pub xor_pad_comm : (xs ys : List ℕ) → xor_pad xs ys ≡ xor_pad ys xs
unfolding xor_pad
xor_pad_comm [] ys = sym (xor_pad-nil ys)
xor_pad_comm (x ∷ xs) [] = refl
xor_pad_comm (x ∷ xs) (y ∷ ys) = rw (bit_xor_comm x y, xor_pad_comm xs ys)

pub xor_pad_assoc : (xs ys zs : List ℕ) → xor_pad (xor_pad xs ys) zs ≡ xor_pad xs (xor_pad ys zs)
unfolding xor_pad
xor_pad_assoc [] ys zs = refl
xor_pad_assoc (x ∷ xs) [] zs = refl
xor_pad_assoc (x ∷ xs) (y ∷ ys) [] = refl
xor_pad_assoc (x ∷ xs) (y ∷ ys) (z ∷ zs) = rw (bit_xor_assoc x y z, xor_pad_assoc xs ys zs)

pub xor_pad_self : (xs : List ℕ) → xor_pad xs xs ≡ zeros (length xs)
unfolding xor_pad zeros
xor_pad_self [] = refl
xor_pad_self (x ∷ xs) = rw (bit_xor_self x, xor_pad_self xs)

pub length-xor_pad : (xs ys : List ℕ) → length (xor_pad xs ys) ≡ max (length xs) (length ys)
unfolding xor_pad
length-xor_pad [] ys = omega arith
length-xor_pad (x ∷ xs) [] = omega arith
length-xor_pad (x ∷ xs) (y ∷ ys) = omega (arith, length-xor_pad xs ys)

-- Zeros on top change nothing but the length.
pub xor_pad-zeros : (xs : List ℕ) (n : ℕ) → n ≤ length xs → xor_pad xs (zeros n) ≡ xs
unfolding xor_pad zeros
xor_pad-zeros xs zero h = xor_pad-nil xs
xor_pad-zeros [] (suc n) h = absurd (omega arith)
xor_pad-zeros (x ∷ xs) (suc n) h = rw (bit_xor-zero x, xor_pad-zeros xs n (omega arith))

pub xor_pad_behind : (xs ys : List ℕ) → xor_pad xs (zeros (length xs) ++ ys) ≡ xs ++ ys
unfolding xor_pad zeros
xor_pad_behind [] ys = refl
xor_pad_behind (x ∷ xs) ys = rw (bit_xor-zero x, xor_pad_behind xs ys)

-- A change from position `n` on.
pub xor_pad_from :
    (n : ℕ) (xs ys : List ℕ)
    → n ≤ length xs
    → take n xs ++ xor_pad (drop n xs) ys ≡ xor_pad xs (zeros n ++ ys)
unfolding xor_pad zeros
xor_pad_from zero xs ys h = refl
xor_pad_from (suc n) [] ys h = absurd (omega arith)
xor_pad_from (suc n) (x ∷ xs) ys h = rw (bit_xor-zero x, xor_pad_from n xs ys (omega arith))

xor_zero_lem : (xs : List ℕ) → xor_zero xs ≡ xs
unfolding xor_zero
xor_zero_lem [] = refl
xor_zero_lem (x ∷ xs) = rw (bit_xor-zero x, xor_zero_lem xs)

-- The two loops of the code, over the shorter list and over the rest of the longer one.
pub xor_range-xor_zero :
    (xs ys : List ℕ)
    → length xs ≤ length ys
    → xor_range xs ys ++ xor_zero (drop (length xs) ys) ≡ xor_pad xs ys
unfolding xor_range xor_pad
xor_range-xor_zero [] ys h = xor_zero_lem ys
xor_range-xor_zero (x ∷ xs) [] h = absurd (omega arith)
xor_range-xor_zero (x ∷ xs) (y ∷ ys) h = rw (xor_range-xor_zero xs ys (omega arith))

-- A loop over `n` octets of the string.
pub xor_range_first :
    (n : ℕ) (xs ys : List ℕ)
    → n ≤ length xs
    → n ≤ length ys
    → xor_range (take n xs) ys ++ drop n xs ≡ xor_pad xs (take n ys)
unfolding xor_range xor_pad
xor_range_first zero xs ys h k = sym (xor_pad-nil xs)
xor_range_first (suc n) [] ys h k = absurd (omega arith)
xor_range_first (suc n) (x ∷ xs) [] h k = absurd (omega arith)
xor_range_first (suc n) (x ∷ xs) (y ∷ ys) h k =
    rw (xor_range_first n xs ys (omega arith) (omega arith))
