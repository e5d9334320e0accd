-- ===== src/Rtsp/Text.antt =====
-- Texts as the grammars of src/streaming_lib/rtsp_lib/include/rtsp_message.hpp read them: lists of
-- characters, the character classes of the C locale, and the loops over a class. The parsers and
-- generators of numbers of Boost.Spirit are a parameter, with their documented behaviour.
pub mod Decimal
use Prim.Native.Char.{Char, code}
use Prim.Native.String.{String}
use Prim.Native.String
use text.Mathlib.TextBridge.{of_list}
use rtsp.Common.{
  ℕ, zero, suc, ◌+◌, ◌-◌, ◌*◌, ◌^◌, ◌≤◌, ◌<◌, ◌≡◌, refl, ap, Bool, true, false, not, ◌&&◌, ◌||◌,
  Option, none, some, List, [], ◌∷◌, ◌++◌, length, All, ltb, leb, ◌==◌, if◌then◌else◌, arith,
}

abbrev pub Text : Type 0
Text = List Char

abbrev pub chars : String → Text
chars Prim.Native.String.[] = []
chars (Prim.Native.String.◌∷◌ c s) = c ∷ chars s

pub of_list-chars : (s : String) → of_list (chars s) ≡ s
of_list-chars Prim.Native.String.[] = refl
of_list-chars (Prim.Native.String.◌∷◌ c s) = ap (Prim.Native.String.◌∷◌ c) (of_list-chars s)

pub chars-of_list : (t : Text) → chars (of_list t) ≡ t
chars-of_list [] = refl
chars-of_list (c ∷ t) = ap (λ r. c ∷ r) (chars-of_list t)

-- `std::isspace`, `std::iscntrl` and `std::isdigit` of the C locale.
abbrev pub is_space : Char → Bool
is_space c = leb 9 (code c) && leb (code c) 13 || code c == 32

abbrev pub is_cntrl : Char → Bool
is_cntrl c = ltb (code c) 32 || code c == 127

abbrev pub is_digit : Char → Bool
is_digit c = leb 48 (code c) && leb (code c) 57

-- `*p` over a class of characters, which takes all it can: what it takes, and the rest.
abbrev pub take_while : (Char → Bool) → Text → Text
take_while p [] = []
take_while p (c ∷ text) = if p c then c ∷ take_while p text else []

abbrev pub drop_while : (Char → Bool) → Text → Text
drop_while p [] = []
drop_while p (c ∷ text) = if p c then drop_while p text else c ∷ text

-- `lit(literal)`
abbrev pub lit : Text → Text → Option Text
lit [] text = some text
lit (l ∷ literal) [] = none
lit (l ∷ literal) (c ∷ text) = if code l == code c then lit literal text else none

-- `+p` over a class of characters, whose attribute is what it takes.
abbrev pub plus : (Char → Bool) → Text → Option (Text × Text)
plus p [] = none
plus p (c ∷ text) = if p c then some (c ∷ take_while p text, drop_while p text) else none

-- A sequence of rules.
infixl 5 ◌>>=◌
abbrev pub ◌>>=◌ : {A B : Type 0} → Option A → (A → Option B) → Option B
none >>= next = none
some a >>= next = next a

pub bind_some :
    {A B : Type 0} {m : Option A} {a : A} (next : A → Option B) → m ≡ some a → (m >>= next) ≡ next a
bind_some next e = ap (λ o. o >>= next) e

-- The text does not go on with a character of the class.
abbrev pub Stops : (Char → Bool) → Text → Type 0
Stops p [] = Unit
Stops p (c ∷ text) = p c ≡ false

-- All characters are of the class.
abbrev pub Only : (Char → Bool) → Text → Type 0
Only p = All (λ c. p c ≡ true)

-- A check of a class over a text.
unfoldable pub every : (Char → Bool) → Text → Bool
every p [] = true
every p (c ∷ text) = p c && every p text

pub every_sound : (p : Char → Bool) (text : Text) → every p text ≡ true → Only p text
unfolding every
every_sound p [] h = tt
every_sound p (c ∷ text) h = (ground arith, every_sound p text (ground arith))

-- The number that decimal digits stand for, behind the number `n`.
abbrev pub decimal : ℕ → Text → ℕ
decimal n [] = n
decimal n (c ∷ digits) = decimal (n * 10 + (code c - 48)) digits

-- `uint_parser<uint_fast16_t, 10, 1>` and `uint_parser<uint_fast16_t, 10, 3, 3>`, whose numbers have 64
-- bits, and `karma::uint_`.
pub record Numbers : Type 0 where
  pub uint_parser : Text → Option (ℕ × Text)
  pub uint_parser3 : Text → Option (ℕ × Text)
  pub uint_ : ℕ → Text
  pub uint_parser-digits :
      (digits rest : Text)
      → Only is_digit digits
      → 1 ≤ length digits
      → decimal 0 digits < 2 ^ 64
      → Stops is_digit rest
      → uint_parser (digits ++ rest) ≡ some (decimal 0 digits, rest)
  pub uint_parser3-digits :
      (digits rest : Text)
      → Only is_digit digits
      → length digits ≡ 3
      → uint_parser3 (digits ++ rest) ≡ some (decimal 0 digits, rest)
  pub uint_-Only : (n : ℕ) → Only is_digit (uint_ n)
  pub uint_-decimal : (n : ℕ) → decimal 0 (uint_ n) ≡ n
  pub length-uint_ : (n : ℕ) → 1 ≤ length (uint_ n)
  pub length-uint_three : (n : ℕ) → 100 ≤ n → n < 1000 → length (uint_ n) ≡ 3

pub take_while-append :
    (p : Char → Bool) (taken rest : Text)
    → Only p taken
    → Stops p rest
    → take_while p (taken ++ rest) ≡ taken
take_while-append p [] [] o s = refl
take_while-append p [] (c ∷ rest) o s = ground (arith, s)
take_while-append p (c ∷ taken) rest o s = ground (arith, o.0, take_while-append p taken rest o.1 s)

pub drop_while-append :
    (p : Char → Bool) (taken rest : Text)
    → Only p taken
    → Stops p rest
    → drop_while p (taken ++ rest) ≡ rest
drop_while-append p [] [] o s = refl
drop_while-append p [] (c ∷ rest) o s = ground (arith, s)
drop_while-append p (c ∷ taken) rest o s = ground (arith, o.0, drop_while-append p taken rest o.1 s)

pub plus-append :
    (p : Char → Bool) (taken rest : Text)
    → Only p taken
    → 1 ≤ length taken
    → Stops p rest
    → plus p (taken ++ rest) ≡ some (taken, rest)
plus-append p [] rest o l s = absurd (omega arith)
plus-append p (c ∷ taken) rest o l s =
    ground (arith, o.0, take_while-append p taken rest o.1 s, drop_while-append p taken rest o.1 s)

pub lit-append : (literal rest : Text) → lit literal (literal ++ rest) ≡ some rest
lit-append [] rest = refl
lit-append (c ∷ literal) rest = ground (arith, lit-append literal rest)
