-- ===== src/Rtp/Spirit.antt =====
-- The binary parsers and generators of Boost.Spirit that rtp_packet.hpp calls, as a parameter:
-- `qi::byte_`, `qi::big_word`, `qi::big_dword` and the generators of the same names in `karma`.
-- The laws are their documented behaviour: big endian, and no octet is consumed on a failure.
use rtsp.Common.{
  ℕ, ◌+◌, ◌*◌, ◌/◌, ◌%◌, ◌^◌, ◌<◌, ◌≡◌, refl, Option, none, some, List, [], ◌∷◌, length, arith,
}

pub record Spirit : Type 0 where
  pub byte_ : List ℕ → Option (ℕ × List ℕ)
  pub big_word : List ℕ → Option (ℕ × List ℕ)
  pub big_dword : List ℕ → Option (ℕ × List ℕ)
  pub karma_byte_ : ℕ → List ℕ
  pub karma_big_word : ℕ → List ℕ
  pub karma_big_dword : ℕ → List ℕ
  pub byte_-nil : byte_ [] ≡ none
  pub byte_-cons : (a : ℕ) (rest : List ℕ) → byte_ (a ∷ rest) ≡ some (a, rest)
  pub big_word_short : (octets : List ℕ) → length octets < 2 → big_word octets ≡ none
  pub big_word-cons : (a b : ℕ) (rest : List ℕ) → big_word (a ∷ b ∷ rest) ≡ some (a * 256 + b, rest)
  pub big_dword_short : (octets : List ℕ) → length octets < 4 → big_dword octets ≡ none
  pub big_dword-cons :
      (a b c d : ℕ) (rest : List ℕ)
      → big_dword (a ∷ b ∷ c ∷ d ∷ rest) ≡ some (a * 2 ^ 24 + b * 2 ^ 16 + c * 256 + d, rest)
  pub karma_byte__lem : (n : ℕ) → n < 256 → karma_byte_ n ≡ n ∷ []
  pub karma_big_word_lem : (n : ℕ) → n < 2 ^ 16 → karma_big_word n ≡ (n / 256) ∷ (n % 256) ∷ []
  pub karma_big_dword_lem :
      (n : ℕ)
      → n < 2 ^ 32
      → karma_big_dword n ≡ (n / 2 ^ 24) ∷ (n / 2 ^ 16 % 256) ∷ (n / 256 % 256) ∷ (n % 256) ∷ []

-- `qi::parse(begin, end, parser, attribute)` with its result ignored: the attribute and `begin`
-- stay as they are where the parser fails.
abbrev pub qi_parse : (List ℕ → Option (ℕ × List ℕ)) → List ℕ → ℕ → ℕ × List ℕ
qi_parse parser begin attribute = elim (parser begin) [ none ↦ (attribute, begin) | some r ↦ r ]

-- The big endian codec itself meets the laws.
abbrev pub byte_of : List ℕ → Option (ℕ × List ℕ)
byte_of [] = none
byte_of (a ∷ rest) = some (a, rest)

abbrev pub word_of : List ℕ → Option (ℕ × List ℕ)
word_of (a ∷ b ∷ rest) = some (a * 256 + b, rest)
word_of _ = none

abbrev pub dword_of : List ℕ → Option (ℕ × List ℕ)
dword_of (a ∷ b ∷ c ∷ d ∷ rest) = some (a * 2 ^ 24 + b * 2 ^ 16 + c * 256 + d, rest)
dword_of _ = none

pub word_of_short : (octets : List ℕ) → length octets < 2 → word_of octets ≡ none
word_of_short (a ∷ b ∷ rest) h = absurd (omega arith)
word_of_short _ h = refl

pub dword_of_short : (octets : List ℕ) → length octets < 4 → dword_of octets ≡ none
dword_of_short (a ∷ b ∷ c ∷ d ∷ rest) h = absurd (omega arith)
dword_of_short _ h = refl

abbrev pub big_endian : Spirit
big_endian = record {
  byte_ = byte_of;
  big_word = word_of;
  big_dword = dword_of;
  karma_byte_ = λ n. n ∷ [];
  karma_big_word = λ n. (n / 256) ∷ (n % 256) ∷ [];
  karma_big_dword = λ n. (n / 2 ^ 24) ∷ (n / 2 ^ 16 % 256) ∷ (n / 256 % 256) ∷ (n % 256) ∷ [];
  byte_-nil = refl;
  byte_-cons = λ a rest. refl;
  big_word_short = word_of_short;
  big_word-cons = λ a b rest. refl;
  big_dword_short = dword_of_short;
  big_dword-cons = λ a b c d rest. refl;
  karma_byte__lem = λ n h. refl;
  karma_big_word_lem = λ n h. refl;
  karma_big_dword_lem = λ n h. refl;
}
