-- ===== src/Rtsp/Text/Decimal.antt =====
-- Decimal numbers as texts, which meet the laws that the grammars ask of the parsers of numbers.
use Prim.Native.Char.{Char, code}
use rtsp.Common.{
  ℕ, zero, suc, ◌+◌, ◌-◌, ◌*◌, ◌/◌, ◌%◌, ◌^◌, ◌≤◌, ◌<◌, ◌≡◌, refl, ◌∙◌, ◌&&◌, true, Option, none,
  some, [], ◌∷◌, ◌++◌, length, length-append, All-append, ltb, if◌then◌else◌, Bool-cases, inl, inr,
  arith,
}
use rtsp.Rtsp.Text.{
  Text, is_digit, take_while, drop_while, Stops, Only, decimal, Numbers, take_while-append,
  drop_while-append,
}

abbrev pub digit : ℕ → Char
digit zero = "0"
digit (suc zero) = "1"
digit (suc (suc zero)) = "2"
digit (suc (suc (suc zero))) = "3"
digit (suc (suc (suc (suc zero)))) = "4"
digit (suc (suc (suc (suc (suc zero))))) = "5"
digit (suc (suc (suc (suc (suc (suc zero)))))) = "6"
digit (suc (suc (suc (suc (suc (suc (suc zero))))))) = "7"
digit (suc (suc (suc (suc (suc (suc (suc (suc zero)))))))) = "8"
digit _ = "9"

digit_lem : (n : ℕ) → n < 10 → (is_digit (digit n) ≡ true) × (code (digit n) - 48 ≡ n)
digit_lem zero h = (refl, refl)
digit_lem (suc zero) h = (refl, refl)
digit_lem (suc (suc zero)) h = (refl, refl)
digit_lem (suc (suc (suc zero))) h = (refl, refl)
digit_lem (suc (suc (suc (suc zero)))) h = (refl, refl)
digit_lem (suc (suc (suc (suc (suc zero))))) h = (refl, refl)
digit_lem (suc (suc (suc (suc (suc (suc zero)))))) h = (refl, refl)
digit_lem (suc (suc (suc (suc (suc (suc (suc zero))))))) h = (refl, refl)
digit_lem (suc (suc (suc (suc (suc (suc (suc (suc zero)))))))) h = (refl, refl)
digit_lem (suc (suc (suc (suc (suc (suc (suc (suc (suc zero))))))))) h = (refl, refl)
digit_lem (suc (suc (suc (suc (suc (suc (suc (suc (suc (suc n)))))))))) h = absurd (omega arith)

-- The digits of `n` in front of a text, with rounds to spare.
abbrev pub digits_within : ℕ → ℕ → Text
digits_within zero n = digit n ∷ []
digits_within (suc rounds) n =
    let rest = digits_within rounds (n / 10) in
    if ltb n 10 then digit n ∷ [] else rest ++ (digit (n % 10) ∷ [])

abbrev pub show : ℕ → Text
show n = digits_within n n

decimal-append : (n : ℕ) (xs ys : Text) → decimal n (xs ++ ys) ≡ decimal (decimal n xs) ys
decimal-append n [] ys = refl
decimal-append n (x ∷ xs) ys = decimal-append (n * 10 + (code x - 48)) xs ys

pub digits_within-decimal : (rounds n : ℕ) → n ≤ rounds → decimal 0 (digits_within rounds n) ≡ n
digits_within-decimal zero n h = omega (arith, (digit_lem n (omega arith)).1)
digits_within-decimal (suc rounds) n h =
    let ih = digits_within-decimal rounds (n / 10) (omega arith) in
    let rest = digits_within rounds (n / 10) in
    elim (Bool-cases (ltb n 10)) [
      | inl small ↦ rw small (omega (arith, (digit_lem n (ground arith)).1))
      | inr large ↦ rw large (
          decimal-append 0 rest (digit (n % 10) ∷ [])
          ∙ omega (arith, ih, (digit_lem (n % 10) (omega arith)).1))
    ]

pub digits_within-Only : (rounds n : ℕ) → n ≤ rounds → Only is_digit (digits_within rounds n)
digits_within-Only zero n h = ((digit_lem n (omega arith)).0, tt)
digits_within-Only (suc rounds) n h = elim (Bool-cases (ltb n 10)) [
  | inl small ↦ rw small ((digit_lem n (ground arith)).0, tt)
  | inr large ↦ rw large (
      All-append (λ c. is_digit c ≡ true) (digits_within rounds (n / 10)) (digit (n % 10) ∷ [])
        (digits_within-Only rounds (n / 10) (omega arith))
        ((digit_lem (n % 10) (omega arith)).0, tt))
]

pub length-digits_within : (rounds n : ℕ) → 1 ≤ length (digits_within rounds n)
length-digits_within zero n = omega arith
length-digits_within (suc rounds) n =
    ground (arith, length-append (digits_within rounds (n / 10)) (digit (n % 10) ∷ []))

length_one : (rounds n : ℕ) → n < 10 → length (digits_within rounds n) ≡ 1
length_one zero n h = refl
length_one (suc rounds) n h = ground arith

length_step :
    (rounds n k : ℕ)
    → 10 ≤ n
    → length (digits_within rounds (n / 10)) ≡ k
    → length (digits_within (suc rounds) n) ≡ k + 1
length_step rounds n k h e =
    ground (arith, length-append (digits_within rounds (n / 10)) (digit (n % 10) ∷ []))

pub length_three :
    (rounds n : ℕ) → 2 ≤ rounds → 100 ≤ n → n < 1000 → length (digits_within rounds n) ≡ 3
length_three zero n r h l = absurd (omega arith)
length_three (suc zero) n r h l = absurd (omega arith)
length_three (suc (suc rounds)) n r h l =
    length_step (suc rounds) n 2 (omega arith)
      (length_step rounds (n / 10) 1 (omega arith) (length_one rounds (n / 10 / 10) (omega arith)))

-- A run of digits as a number below 2 ^ 64, and three digits as a number.
abbrev pub parse_uint : Text → Option (ℕ × Text)
parse_uint text =
    let digits = take_while is_digit text in
    if ltb 0 (length digits)
    then (if ltb (decimal 0 digits) (2 ^ 64)
        then some (decimal 0 digits, drop_while is_digit text)
        else none)
    else none

abbrev pub parse_three : Text → Option (ℕ × Text)
parse_three (a ∷ b ∷ c ∷ rest) =
    if is_digit a && is_digit b && is_digit c then some (decimal 0 (a ∷ b ∷ c ∷ []), rest) else none
parse_three _ = none

pub parse_uint-digits :
    (digits rest : Text)
    → Only is_digit digits
    → 1 ≤ length digits
    → decimal 0 digits < 2 ^ 64
    → Stops is_digit rest
    → parse_uint (digits ++ rest) ≡ some (decimal 0 digits, rest)
parse_uint-digits digits rest o l h s =
    let t = take_while-append is_digit digits rest o s in
    let d = drop_while-append is_digit digits rest o s in ground (arith, t, d)

pub parse_three-digits :
    (digits rest : Text)
    → Only is_digit digits
    → length digits ≡ 3
    → parse_three (digits ++ rest) ≡ some (decimal 0 digits, rest)
parse_three-digits (a ∷ b ∷ c ∷ []) rest (x, (y, (z, _))) l = ground (arith, x, y, z)
parse_three-digits [] rest o l = absurd (omega arith)
parse_three-digits (a ∷ []) rest o l = absurd (omega arith)
parse_three-digits (a ∷ b ∷ []) rest o l = absurd (omega arith)
parse_three-digits (a ∷ b ∷ c ∷ d ∷ digits) rest o l = absurd (omega arith)

abbrev pub decimal_numbers : Numbers
decimal_numbers = record {
  uint_parser = parse_uint;
  uint_parser3 = parse_three;
  uint_ = show;
  uint_parser-digits = parse_uint-digits;
  uint_parser3-digits = parse_three-digits;
  uint_-Only = λ n. digits_within-Only n n (omega arith);
  uint_-decimal = λ n. digits_within-decimal n n (omega arith);
  length-uint_ = λ n. length-digits_within n n;
  length-uint_three = λ n h l. length_three n n (omega arith) h l;
}
