-- ===== src/Rtsp/Transport/Numbers.antt =====
-- Numbers in decimal and hexadecimal digits, which meet the laws that the transport grammar asks of the
-- parsers and generators of numbers.
use Prim.Native.Char.{Char, code}
use rtsp.Common.{
  ℕ, zero, suc, ◌+◌, ◌-◌, ◌*◌, ◌/◌, ◌%◌, ◌^◌, ◌≤◌, ◌<◌, ◌≡◌, refl, sym, ap, ◌∙◌, ◌&&◌, Bool, true,
  Option, none, some, [], ◌∷◌, ◌++◌, length, length-append, All-append, ltb, leb, ◌==◌,
  if◌then◌else◌, Bool-cases, inl, inr, arith,
}
use rtsp.Rtsp.Text.{Text, is_digit, Stops, Only, decimal}
use rtsp.Rtsp.Text.Decimal.{
  digit, show, digits_within, digits_within-Only, digits_within-decimal, length-digits_within,
}
use rtsp.Rtsp.Transport.Grammar.{is_hex, HeaderNumbers}

-- At most `k` characters of a kind, and the rest.
abbrev pub take_upto : (Char → Bool) → ℕ → Text → Text × Text
take_upto p zero text = ([], text)
take_upto p (suc k) [] = ([], [])
take_upto p (suc k) (c ∷ text) =
    let more = take_upto p k text in if p c then (c ∷ more.0, more.1) else ([], c ∷ text)

take_upto-append :
    (p : Char → Bool) (k : ℕ) (xs rest : Text)
    → Only p xs
    → length xs ≤ k
    → Stops p rest
    → take_upto p k (xs ++ rest) ≡ (xs, rest)
take_upto-append p zero [] rest o l s = refl
take_upto-append p (suc k) [] [] o l s = refl
take_upto-append p (suc k) [] (c ∷ rest) o l s = rw s refl
take_upto-append p zero (x ∷ xs) rest o l s = absurd (omega arith)
take_upto-append p (suc k) (x ∷ xs) rest o l s =
    rw (o.0)
      (ap (λ found. (x ∷ found.0, found.1)) (take_upto-append p k xs rest o.1 (omega arith) s))

take_upto-exact :
    (p : Char → Bool) (xs rest : Text)
    → Only p xs
    → take_upto p (length xs) (xs ++ rest) ≡ (xs, rest)
take_upto-exact p [] rest o = refl
take_upto-exact p (x ∷ xs) rest o =
    rw (o.0) (ap (λ found. (x ∷ found.0, found.1)) (take_upto-exact p xs rest o.1))

-- One to `k` decimal digits as a number below `limit`.
abbrev pub number_below : ℕ → Text × Text → Option (ℕ × Text)
number_below limit (digits, rest) =
    if ltb 0 (length digits) && ltb (decimal 0 digits) limit
    then some (decimal 0 digits, rest)
    else none

abbrev pub parse_decimal : ℕ → ℕ → Text → Option (ℕ × Text)
parse_decimal k limit text = number_below limit (take_upto is_digit k text)

length-digits_below :
    (k rounds n : ℕ) → n ≤ rounds → n < 10 ^ suc k → length (digits_within rounds n) ≤ suc k
length-digits_below k zero n r h = omega arith
length-digits_below zero (suc rounds) n r h = ground arith
length-digits_below (suc k) (suc rounds) n r h =
    let ih = length-digits_below k rounds (n / 10) (omega arith) (omega arith) in
    ground (arith, ih, length-append (digits_within rounds (n / 10)) (digit (n % 10) ∷ []))

pub parse_decimal-show :
    (k limit n : ℕ) (rest : Text)
    → n < limit
    → n < 10 ^ suc k
    → Stops is_digit rest
    → parse_decimal (suc k) limit (show n ++ rest) ≡ some (n, rest)
parse_decimal-show k limit n rest h d s =
    let value = digits_within-decimal n n (omega arith) in
    let some_digit = length-digits_within n n in
    ap (number_below limit) (
      take_upto-append is_digit (suc k) (show n) rest (digits_within-Only n n (omega arith))
        (length-digits_below k n n (omega arith) d) s)
    ∙ ground (arith, value, some_digit)

abbrev pub hex_letter : ℕ → Char
hex_letter zero = "a"
hex_letter (suc zero) = "b"
hex_letter (suc (suc zero)) = "c"
hex_letter (suc (suc (suc zero))) = "d"
hex_letter (suc (suc (suc (suc zero)))) = "e"
hex_letter _ = "f"

abbrev pub hex_digit : ℕ → Char
hex_digit n = if ltb n 10 then digit n else hex_letter (n - 10)

abbrev pub hex_value : Char → ℕ
hex_value c =
    if leb 97 (code c) then code c - 87 else if leb 65 (code c) then code c - 55 else code c - 48

hex_letter_lem :
    (n : ℕ) → n < 6 → (is_hex (hex_letter n) ≡ true) × (hex_value (hex_letter n) ≡ n + 10)
hex_letter_lem zero h = (refl, refl)
hex_letter_lem (suc zero) h = (refl, refl)
hex_letter_lem (suc (suc zero)) h = (refl, refl)
hex_letter_lem (suc (suc (suc zero))) h = (refl, refl)
hex_letter_lem (suc (suc (suc (suc zero)))) h = (refl, refl)
hex_letter_lem (suc (suc (suc (suc (suc zero))))) h = (refl, refl)
hex_letter_lem (suc (suc (suc (suc (suc (suc n)))))) h = absurd (omega arith)

digit-hex : (n : ℕ) → n < 10 → (is_hex (digit n) ≡ true) × (hex_value (digit n) ≡ n)
digit-hex zero h = (refl, refl)
digit-hex (suc zero) h = (refl, refl)
digit-hex (suc (suc zero)) h = (refl, refl)
digit-hex (suc (suc (suc zero))) h = (refl, refl)
digit-hex (suc (suc (suc (suc zero)))) h = (refl, refl)
digit-hex (suc (suc (suc (suc (suc zero))))) h = (refl, refl)
digit-hex (suc (suc (suc (suc (suc (suc zero)))))) h = (refl, refl)
digit-hex (suc (suc (suc (suc (suc (suc (suc zero))))))) h = (refl, refl)
digit-hex (suc (suc (suc (suc (suc (suc (suc (suc zero)))))))) h = (refl, refl)
digit-hex (suc (suc (suc (suc (suc (suc (suc (suc (suc zero))))))))) h = (refl, refl)
digit-hex (suc (suc (suc (suc (suc (suc (suc (suc (suc (suc n)))))))))) h = absurd (omega arith)

hex_digit_lem : (n : ℕ) → n < 16 → (is_hex (hex_digit n) ≡ true) × (hex_value (hex_digit n) ≡ n)
hex_digit_lem n h = elim (Bool-cases (ltb n 10)) [
  | inl small ↦ rw small (digit-hex n (ground arith))
  | inr large ↦
      let low : 10 ≤ n = ground arith in
      let letter = hex_letter_lem (n - 10) (omega arith) in
      rw large (letter.0, omega (arith, letter.1))
]

-- The hexadecimal digits of `n`, with rounds to spare.
abbrev pub hex_within : ℕ → ℕ → Text
hex_within zero n = hex_digit n ∷ []
hex_within (suc rounds) n =
    let rest = hex_within rounds (n / 16) in
    if ltb n 16 then hex_digit n ∷ [] else rest ++ (hex_digit (n % 16) ∷ [])

abbrev pub hexadecimal : ℕ → Text → ℕ
hexadecimal n [] = n
hexadecimal n (c ∷ text) = hexadecimal (n * 16 + hex_value c) text

hexadecimal-append :
    (n : ℕ) (xs ys : Text) → hexadecimal n (xs ++ ys) ≡ hexadecimal (hexadecimal n xs) ys
hexadecimal-append n [] ys = refl
hexadecimal-append n (x ∷ xs) ys = hexadecimal-append (n * 16 + hex_value x) xs ys

hex_within-hexadecimal : (rounds n : ℕ) → n ≤ rounds → hexadecimal 0 (hex_within rounds n) ≡ n
hex_within-hexadecimal zero n h = omega (arith, (hex_digit_lem n (omega arith)).1)
hex_within-hexadecimal (suc rounds) n h =
    let ih = hex_within-hexadecimal rounds (n / 16) (omega arith) in
    let rest = hex_within rounds (n / 16) in
    elim (Bool-cases (ltb n 16)) [
      | inl small ↦ rw small (omega (arith, (hex_digit_lem n (ground arith)).1))
      | inr large ↦ rw large (
          hexadecimal-append 0 rest (hex_digit (n % 16) ∷ [])
          ∙ omega (arith, ih, (hex_digit_lem (n % 16) (omega arith)).1))
    ]

hex_within-Only : (rounds n : ℕ) → n ≤ rounds → Only is_hex (hex_within rounds n)
hex_within-Only zero n h = ((hex_digit_lem n (omega arith)).0, tt)
hex_within-Only (suc rounds) n h = elim (Bool-cases (ltb n 16)) [
  | inl small ↦ rw small ((hex_digit_lem n (ground arith)).0, tt)
  | inr large ↦ rw large (
      All-append (λ c. is_hex c ≡ true) (hex_within rounds (n / 16)) (hex_digit (n % 16) ∷ [])
        (hex_within-Only rounds (n / 16) (omega arith))
        ((hex_digit_lem (n % 16) (omega arith)).0, tt))
]

length-hex_below :
    (k rounds n : ℕ) → n ≤ rounds → n < 16 ^ suc k → length (hex_within rounds n) ≤ suc k
length-hex_below k zero n r h = omega arith
length-hex_below zero (suc rounds) n r h = ground arith
length-hex_below (suc k) (suc rounds) n r h =
    let ih = length-hex_below k rounds (n / 16) (omega arith) (omega arith) in
    ground (arith, ih, length-append (hex_within rounds (n / 16)) (hex_digit (n % 16) ∷ []))

power_positive : (k : ℕ) → 1 ≤ 16 ^ k
power_positive zero = omega arith
power_positive (suc k) = let ih = power_positive k in omega arith

length-hex_above : (k rounds n : ℕ) → n ≤ rounds → 16 ^ k ≤ n → suc k ≤ length (hex_within rounds n)
length-hex_above zero zero n r h = omega arith
length-hex_above zero (suc rounds) n r h =
    ground (arith, length-append (hex_within rounds (n / 16)) (hex_digit (n % 16) ∷ []))
length-hex_above (suc k) zero n r h = let positive = power_positive k in absurd (omega arith)
length-hex_above (suc k) (suc rounds) n r h =
    let ih = length-hex_above k rounds (n / 16) (omega arith) (omega arith) in
    let positive = power_positive k in
    ground (arith, ih, length-append (hex_within rounds (n / 16)) (hex_digit (n % 16) ∷ []))

-- Eight hexadecimal digits as a number.
abbrev pub eight_digits : Text × Text → Option (ℕ × Text)
eight_digits (digits, rest) = if length digits == 8 then some (hexadecimal 0 digits, rest) else none

abbrev pub parse_hex : Text → Option (ℕ × Text)
parse_hex text = eight_digits (take_upto is_hex 8 text)

abbrev pub show_hex : ℕ → Text
show_hex n = hex_within n n

pub parse_hex-show :
    (n : ℕ) (rest : Text)
    → 2 ^ 28 ≤ n
    → n < 2 ^ 32
    → parse_hex (show_hex n ++ rest) ≡ some (n, rest)
parse_hex-show n rest l h =
    let below : length (show_hex n) ≤ 8 = length-hex_below 7 n n (omega arith) (omega arith) in
    let above : 8 ≤ length (show_hex n) = length-hex_above 7 n n (omega arith) (omega arith) in
    let eight : length (show_hex n) ≡ 8 = omega arith in
    let value = hex_within-hexadecimal n n (omega arith) in
    ap (λ k. eight_digits (take_upto is_hex k (show_hex n ++ rest))) (sym eight)
    ∙ ap eight_digits (take_upto-exact is_hex (show_hex n) rest (hex_within-Only n n (omega arith)))
    ∙ ground (arith, eight, value)

pub parse_hex-short :
    (n : ℕ) (rest : Text) → n < 2 ^ 28 → Stops is_hex rest → parse_hex (show_hex n ++ rest) ≡ none
parse_hex-short n rest h s =
    let below : length (show_hex n) ≤ 7 = length-hex_below 6 n n (omega arith) (omega arith) in
    ap eight_digits (
      take_upto-append is_hex 8 (show_hex n) rest (hex_within-Only n n (omega arith)) (omega arith)
        s)
    ∙ ground (arith, below)

abbrev pub header_numbers : HeaderNumbers
header_numbers = record {
  ttl_parser = parse_decimal 3 (2 ^ 64);
  port_parser = parse_decimal 5 (2 ^ 16);
  ssrc_parser = parse_hex;
  decimal_generator = show;
  hex_generator = show_hex;
  ttl_parser-decimal =
      λ n rest h s. parse_decimal-show 2 (2 ^ 64) n rest (omega arith) (omega arith) s;
  port_parser-decimal =
      λ n rest h s. parse_decimal-show 4 (2 ^ 16) n rest (omega arith) (omega arith) s;
  ssrc_parser-hex = parse_hex-show;
  ssrc_parser-short = parse_hex-short;
}
