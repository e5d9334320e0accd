-- ===== src/Rtsp/Options.antt =====
-- The grammars of the Require header and of the option's parameters, and the generator of the latter, of
-- src/streaming_lib/rtsp_lib/include/rtsp_headers.hpp.
use Prim.Native.String.{String}
use text.Mathlib.TextBridge.{of_list}
use rtsp.Common.{
  ℕ, zero, suc, ◌^◌, ◌<◌, ◌≡◌, refl, sym, ap, ◌∙◌, Bool, true, Option, none, some, List, [], ◌∷◌,
  ◌++◌, append-nil, length, if◌then◌else◌,
}
use rtsp.Rtsp.Text.{Text, chars, of_list-chars, is_digit, plus, lit, ◌>>=◌, Stops, plus-append}
use rtsp.Rtsp.Message.{is_token}
use rtsp.Rtsp.Message.Headers.{IsToken}
use rtsp.Rtsp.Methods.Setup.{MknOptionParameters}

-- `double_`, `uint_parser<uint16_t>` and their generators, and the comparison of a double with 0 and 1. A
-- double is its bits; `rounded` is the one that is read of what was written, since the generator writes
-- three decimal places.
pub record OptionNumbers : Type 0 where
  pub double_parser : Text → Option (ℕ × Text)
  pub uint16_parser : Text → Option (ℕ × Text)
  pub double_generator : ℕ → Text
  pub decimal_generator : ℕ → Text
  pub is_probability : ℕ → Bool
  pub rounded : ℕ → ℕ
  pub double_parser-double :
      (bits : ℕ) (rest : Text)
      → is_probability bits ≡ true
      → double_parser (double_generator bits ++ (chars ";" ++ rest))
        ≡ some (rounded bits, chars ";" ++ rest)
  pub rounded_probability :
      (bits : ℕ) → is_probability bits ≡ true → is_probability (rounded bits) ≡ true
  pub uint16_parser-decimal :
      (n : ℕ) (rest : Text)
      → n < 2 ^ 16
      → Stops is_digit rest
      → uint16_parser (decimal_generator n ++ rest) ≡ some (n, rest)

-- `*("," >> +token)`; each round takes a character, so that the length of the text is enough fuel.
unfoldable pub more_tags : ℕ → Text → List String × Text
more_tags zero text = ([], text)
more_tags (suc fuel) text = elim (lit (chars ",") text >>= plus is_token) [
  | none ↦ ([], text)
  | some (tag, rest) ↦ let more = more_tags fuel rest in (of_list tag ∷ more.0, more.1)
]

-- `require_`
unfoldable pub require_ : Text → Option (List String × Text)
require_ text = do
  first ← plus is_token text
  let more = more_tags (length first.1) first.1
  some (of_list first.0 ∷ more.0, more.1)

-- A single tag is read as it is.
pub require_-tag : (tag : String) → IsToken (chars tag) → require_ (chars tag) ≡ some (tag ∷ [], [])
unfolding require_ more_tags
require_-tag tag w =
    ap (λ text. require_ text) (sym (append-nil (chars tag)))
    ∙ rw (plus-append is_token (chars tag) [] w.0 w.1 tt) (rw (of_list-chars tag) refl)

module _ (numbers : OptionNumbers) where
  open numbers use {
    double_parser, uint16_parser, double_generator, decimal_generator, is_probability,
  }

  -- `mkn_bernoulli_channel_parameter_grammar`, whose semantic action refuses what is no probability.
  unfoldable pub mkn_bernoulli_channel_parameter_grammar :
      Text → Option (MknOptionParameters × Text)
  mkn_bernoulli_channel_parameter_grammar text = do
    after ← lit (chars "bernoulli_p=") text
    bernoulli_p ← double_parser after
    pass ← if is_probability bernoulli_p.0 then some bernoulli_p else none
    after_p ← lit (chars ";fec_k=") pass.1
    fec_k ← uint16_parser after_p
    after_k ← lit (chars ";fec_p=") fec_k.1
    fec_p ← uint16_parser after_k
    some (record { bernoulli_p = bernoulli_p.0; fec_k = fec_k.0; fec_p = fec_p.0 }, fec_p.1)

  -- `generate_mkn_bernoulli_channel_parameter_grammar`
  unfoldable pub generate_mkn_bernoulli_channel_parameter_grammar : MknOptionParameters → Text
  generate_mkn_bernoulli_channel_parameter_grammar parameters =
      chars "bernoulli_p="
      ++ (double_generator parameters.bernoulli_p
          ++ (chars ";fec_k="
              ++ (decimal_generator parameters.fec_k
                  ++ (chars ";fec_p=" ++ (decimal_generator parameters.fec_p ++ [])))))

  -- The parameters of an option whose probability is one are read as they were written, but for the
  -- rounding of the probability.
  pub mkn_bernoulli_channel_parameter_grammar-generate :
      (parameters : MknOptionParameters)
      → is_probability parameters.bernoulli_p ≡ true
      → parameters.fec_k < 2 ^ 16
      → parameters.fec_p < 2 ^ 16
      → mkn_bernoulli_channel_parameter_grammar
          (generate_mkn_bernoulli_channel_parameter_grammar parameters)
        ≡ some (record parameters { bernoulli_p = numbers.rounded parameters.bernoulli_p }, [])
  unfolding mkn_bernoulli_channel_parameter_grammar generate_mkn_bernoulli_channel_parameter_grammar
  mkn_bernoulli_channel_parameter_grammar-generate parameters p k q =
      let behind = decimal_generator parameters.fec_p ++ [] in
      let middle = decimal_generator parameters.fec_k ++ (chars ";fec_p=" ++ behind) in
      rw (numbers.double_parser-double parameters.bernoulli_p (chars "fec_k=" ++ middle) p) (
        rw (numbers.rounded_probability parameters.bernoulli_p p) (
          rw (numbers.uint16_parser-decimal parameters.fec_k (chars ";fec_p=" ++ behind) k refl)
            (rw (numbers.uint16_parser-decimal parameters.fec_p [] q tt) refl)))
