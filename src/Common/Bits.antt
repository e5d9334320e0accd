-- ===== src/Common/Bits.antt =====
-- The laws of the bit operations that the code uses: exclusive or at every width, and masks.
use Prim.Native.Nat.{
  ℕ, zero, suc, ◌+◌, ◌-◌, ◌*◌, ◌/◌, ◌%◌, ◌^◌, ◌≤◌, ◌<◌, min, digits, bitwise, differ, bit_and,
  bit_or, bit_xor, bit_and-bitwise, bit_xor-bitwise,
}
use mathlib.Core.Path.{◌≡◌, refl, sym, ap, ◌∙◌}
use mathlib.Core.Bool.{Bool, true, ◌&&◌}
use native.Mathlib.Omega.{arith}
use native.Mathlib.Nat.{pow-suc}
use rtsp.Common.Tests.{◌==◌}

-- One more round changes nothing where the count of rounds covers the first number.
module _ (z : ℕ → ℕ) (f : ℕ → ℕ → ℕ) where
  spare_round : (n a b : ℕ) → a ≤ n → digits z f (suc n) a b ≡ digits z f n a b
  spare_round n zero b h = elim n as (λ m. digits z f (suc m) zero b ≡ digits z f m zero b) [
    | zero ↦ refl
    | suc m ↦ refl
  ]
  spare_round zero (suc a) b h = absurd (omega arith)
  spare_round (suc n) (suc a) b h = rw (spare_round n (suc a / 2) (b / 2) (omega arith))

  spare_rounds : (k n m a b : ℕ) → a ≤ n → k + n ≡ m → digits z f m a b ≡ digits z f n a b
  spare_rounds zero n m a b h e = let e' : m ≡ n = omega arith in rw e'
  spare_rounds (suc k) n m a b h e =
      let e' : m ≡ suc (k + n) = omega arith in
      rw e' (spare_round (k + n) a b (omega arith) ∙ spare_rounds k n (k + n) a b h refl)

  lowest_digit :
      (a b : ℕ)
      → bitwise z f (suc a) b ≡ bitwise z f (suc a / 2) (b / 2) * 2 + f (suc a % 2) (b % 2)
  lowest_digit a b =
      let q = suc a / 2 in
      omega (arith, spare_rounds (a - q) q a q (b / 2) (omega arith) (omega arith))

differ_digits : (x y : ℕ) → x < 2 → y < 2 → differ x y ≡ (x + y) % 2
differ_digits zero y h k = omega arith
differ_digits (suc zero) zero h k = refl
differ_digits (suc zero) (suc zero) h k = refl
differ_digits (suc zero) (suc (suc y)) h k = absurd (omega arith)
differ_digits (suc (suc x)) y h k = absurd (omega arith)

pub bit_xor_lowest : (a b : ℕ) → bit_xor a b ≡ bit_xor (a / 2) (b / 2) * 2 + (a + b) % 2
bit_xor_lowest zero b = simp bit_xor-bitwise (omega arith)
bit_xor_lowest (suc a) b =
    let low = differ_digits (suc a % 2) (b % 2) (omega arith) (omega arith) in
    omega (
      arith,
      bit_xor-bitwise (suc a) b,
      bit_xor-bitwise (suc a / 2) (b / 2),
      lowest_digit (λ y. y) differ a b,
      low,
    )

pub bit_and_lowest : (a b : ℕ) → bit_and a b ≡ bit_and (a / 2) (b / 2) * 2 + min (a % 2) (b % 2)
bit_and_lowest zero b = omega (arith, bit_and-bitwise 0 b, bit_and-bitwise (0 / 2) (b / 2))
bit_and_lowest (suc a) b = omega (
  arith,
  bit_and-bitwise (suc a) b,
  bit_and-bitwise (suc a / 2) (b / 2),
  lowest_digit (λ y. 0) min a b,
)

pub zero-bit_xor : (b : ℕ) → bit_xor 0 b ≡ b
zero-bit_xor b = bit_xor-bitwise 0 b

xor_zero_below : (n a : ℕ) → a ≤ n → bit_xor a 0 ≡ a
xor_zero_below n zero h = refl
xor_zero_below zero (suc a) h = absurd (omega arith)
xor_zero_below (suc n) (suc a) h =
    omega (arith, bit_xor_lowest (suc a) 0, xor_zero_below n (suc a / 2) (omega arith))

pub bit_xor-zero : (a : ℕ) → bit_xor a 0 ≡ a
bit_xor-zero a = xor_zero_below a a (omega arith)

xor_comm_below : (n a b : ℕ) → a ≤ n → bit_xor a b ≡ bit_xor b a
xor_comm_below n zero b h = zero-bit_xor b ∙ sym (bit_xor-zero b)
xor_comm_below zero (suc a) b h = absurd (omega arith)
xor_comm_below (suc n) (suc a) b h = omega (
  arith,
  bit_xor_lowest (suc a) b,
  bit_xor_lowest b (suc a),
  xor_comm_below n (suc a / 2) (b / 2) (omega arith),
)

pub bit_xor_comm : (a b : ℕ) → bit_xor a b ≡ bit_xor b a
bit_xor_comm a b = xor_comm_below a a b (omega arith)

-- The halves and the parity of an exclusive or.
pub bit_xor_half : (a b : ℕ) → bit_xor a b / 2 ≡ bit_xor (a / 2) (b / 2)
bit_xor_half a b = omega (arith, bit_xor_lowest a b)

xor_assoc_below : (n a b c : ℕ) → a ≤ n → bit_xor (bit_xor a b) c ≡ bit_xor a (bit_xor b c)
xor_assoc_below n zero b c h = rw (zero-bit_xor b, zero-bit_xor (bit_xor b c))
xor_assoc_below zero (suc a) b c h = absurd (omega arith)
xor_assoc_below (suc n) (suc a) b c h =
    let ih = xor_assoc_below n (suc a / 2) (b / 2) (c / 2) (omega arith) in
    let left : bit_xor (bit_xor (suc a) b / 2) (c / 2)
        ≡ bit_xor (bit_xor (suc a / 2) (b / 2)) (c / 2) =
      rw (bit_xor_half (suc a) b) in
    let right : bit_xor (suc a / 2) (bit_xor b c / 2)
        ≡ bit_xor (suc a / 2) (bit_xor (b / 2) (c / 2)) =
      rw (bit_xor_half b c) in
    omega (
      arith,
      bit_xor_lowest (bit_xor (suc a) b) c,
      bit_xor_lowest (suc a) (bit_xor b c),
      bit_xor_lowest (suc a) b,
      bit_xor_lowest b c,
      left,
      right,
      ih,
    )

pub bit_xor_assoc : (a b c : ℕ) → bit_xor (bit_xor a b) c ≡ bit_xor a (bit_xor b c)
bit_xor_assoc a b c = xor_assoc_below a a b c (omega arith)

xor_self_below : (n a : ℕ) → a ≤ n → bit_xor a a ≡ 0
xor_self_below n zero h = refl
xor_self_below zero (suc a) h = absurd (omega arith)
xor_self_below (suc n) (suc a) h =
    omega (arith, bit_xor_lowest (suc a) (suc a), xor_self_below n (suc a / 2) (omega arith))

pub bit_xor_self : (a : ℕ) → bit_xor a a ≡ 0
bit_xor_self a = xor_self_below a a (omega arith)

-- The result fits the width that both arguments fit.
pub bit_xor-lt : (k a b : ℕ) → a < 2 ^ k → b < 2 ^ k → bit_xor a b < 2 ^ k
bit_xor-lt zero a b h k =
    let a0 : a ≡ 0 = omega arith in let b0 : b ≡ 0 = omega arith in rw (a0, b0) (omega arith)
bit_xor-lt (suc k) a b h h' = omega (
  arith,
  pow-suc 2 k,
  bit_xor_lowest a b,
  bit_xor-lt k (a / 2) (b / 2) (omega (arith, pow-suc 2 k)) (omega (arith, pow-suc 2 k)),
)

-- The number with `k` ones, and the `k` lowest digits of `a`, digit by digit.
abbrev ones : ℕ → ℕ
ones zero = 0
ones (suc k) = 2 * ones k + 1

abbrev low_digits : ℕ → ℕ → ℕ
low_digits zero a = 0
low_digits (suc k) a = low_digits k (a / 2) * 2 + a % 2

and_zero_below : (n a : ℕ) → a ≤ n → bit_and a 0 ≡ 0
and_zero_below n zero h = refl
and_zero_below zero (suc a) h = absurd (omega arith)
and_zero_below (suc n) (suc a) h =
    omega (arith, bit_and_lowest (suc a) 0, and_zero_below n (suc a / 2) (omega arith))

bit_and-ones : (k a : ℕ) → bit_and a (ones k) ≡ low_digits k a
bit_and-ones zero a = and_zero_below a a (omega arith)
bit_and-ones (suc k) a =
    let half : bit_and (a / 2) ((2 * ones k + 1) / 2) ≡ bit_and (a / 2) (ones k) =
      ap (bit_and (a / 2)) (omega arith) in
    omega (arith, bit_and_lowest a (2 * ones k + 1), half, bit_and-ones k (a / 2))

-- `a & 0xffff`
pub bit_and_word : (a : ℕ) → bit_and a 0xffff ≡ a % 65536
bit_and_word a = omega (arith, bit_and-ones 16 a)

-- Tables over bytes, checked by evaluation.
unfoldable pub agree : ℕ → (ℕ → ℕ) → (ℕ → ℕ) → Bool
agree zero f g = true
agree (suc n) f g = f n == g n && agree n f g

pub agree_sound : (n : ℕ) (f g : ℕ → ℕ) → agree n f g ≡ true → (x : ℕ) → x < n → f x ≡ g x
unfolding agree
agree_sound zero f g h x lt = absurd (omega arith)
agree_sound (suc n) f g h x lt = ground (arith, agree_sound n f g (ground arith) x)

-- The fields of the first octet of an RTP header: V, P, X and CC.
pub octet_version : (o : ℕ) → o < 256 → bit_and o 0b11000000 / 2 ^ 6 ≡ o / 64
unfolding agree
octet_version = agree_sound 256 _ _ refl

pub octet_padding : (o : ℕ) → o < 256 → bit_and o 0b00100000 / 2 ^ 5 ≡ o / 32 % 2
unfolding agree
octet_padding = agree_sound 256 _ _ refl

pub octet_extension : (o : ℕ) → o < 256 → bit_and o 0b00010000 / 2 ^ 4 ≡ o / 16 % 2
unfolding agree
octet_extension = agree_sound 256 _ _ refl

pub octet_csrc : (o : ℕ) → o < 256 → bit_and o 0x0f ≡ o % 16
unfolding agree
octet_csrc = agree_sound 256 _ _ refl

-- The fields of the second octet: M and PT.
pub octet_marker : (o : ℕ) → o < 256 → bit_and o 0b10000000 / 2 ^ 7 ≡ o / 128
unfolding agree
octet_marker = agree_sound 256 _ _ refl

pub octet_payload_type : (o : ℕ) → o < 256 → bit_and o 0b01111111 ≡ o % 128
unfolding agree
octet_payload_type = agree_sound 256 _ _ refl

-- A field in the low digits joins the digits above it by addition.
pub bit_or_csrc : (q c : ℕ) → q < 16 → c < 16 → bit_or (q * 16) c ≡ q * 16 + c
unfolding agree
bit_or_csrc q c hq hc =
    let entry =
      agree_sound 256 (λ n. bit_or (n / 16 * 16) (n % 16)) (λ n. n) refl (q * 16 + c)
        (omega arith) in
    let hi : (q * 16 + c) / 16 ≡ q = omega arith in
    let lo : (q * 16 + c) % 16 ≡ c = omega arith in
    ap (λ n. bit_or (n * 16) c) (sym hi)
    ∙ ap (λ n. bit_or ((q * 16 + c) / 16 * 16) n) (sym lo)
    ∙ entry

pub bit_or_payload_type : (m t : ℕ) → m < 2 → t < 128 → bit_or (m * 128) t ≡ m * 128 + t
unfolding agree
bit_or_payload_type zero t hm ht = agree_sound 128 (bit_or 0) (λ n. 0 + n) refl t ht
bit_or_payload_type (suc zero) t hm ht = agree_sound 128 (bit_or 128) (λ n. 128 + n) refl t ht
bit_or_payload_type (suc (suc m)) t hm ht = absurd (omega arith)
