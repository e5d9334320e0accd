-- ===== src/Rtsp/Transport/RoundTrip.antt =====
-- The transport grammar of rtsp_headers.hpp on what its generator writes.
use rtsp.Common.{
  ℕ, zero, suc, ◌≤◌, ◌≡◌, refl, ap, ◌∙◌, inr, none, some, List, [], ◌∷◌, ◌++◌, length,
  length-append, All, arith,
}
use rtsp.Rtsp.Text.{Text, chars, lit, ◌>>=◌}
use rtsp.Rtsp.Transport.{TransportSpec}
use rtsp.Rtsp.Transport.Grammar.{
  HeaderNumbers, parameter_, transport_spec_, more_specs, transport_grammar, parameters_gen,
  lower_gen, transport_spec_gen, specs_gen, generate_transport,
}
use rtsp.Rtsp.Transport.Parameters.{IsWritableParameter, Ends}
use rtsp.Rtsp.Transport.ParameterList.{length-parameters_gen}
use rtsp.Rtsp.Transport.Written.{IsWritableSpec, transport_spec_-gen, length-lower_gen}

-- A specification that is read as it was written.
abbrev pub IsWritable : TransportSpec → Type 0
IsWritable spec = IsWritableSpec spec × All IsWritableParameter spec.parameters

module _ (numbers : HeaderNumbers) where
  specs-Ends : (specs : List TransportSpec) → Ends (specs_gen numbers specs)
  unfolding specs_gen
  specs-Ends [] = tt
  specs-Ends (spec ∷ specs) = inr refl

  specs-parameter_ :
      (specs : List TransportSpec) → parameter_ numbers (specs_gen numbers specs) ≡ none
  unfolding specs_gen parameter_
  specs-parameter_ [] = refl
  specs-parameter_ (spec ∷ specs) = refl

  length-transport_spec_gen :
      (spec : TransportSpec) (rest : Text)
      → length rest ≤ length (transport_spec_gen numbers spec rest)
  unfolding transport_spec_gen
  length-transport_spec_gen spec rest =
      let written = parameters_gen numbers spec.parameters rest in
      let after = lower_gen spec.lower_transport written in
      let a =
        length-append (chars spec.transport_protocol)
          (chars "/" ++ (chars spec.profile ++ after)) in
      let b = length-append (chars spec.profile) after in
      let c = length-parameters_gen numbers spec.parameters rest in
      let d = length-lower_gen spec.lower_transport written in omega arith

  length-specs_gen : (specs : List TransportSpec) → length specs ≤ length (specs_gen numbers specs)
  unfolding specs_gen
  length-specs_gen [] = omega arith
  length-specs_gen (spec ∷ specs) =
      let written = length-transport_spec_gen spec (specs_gen numbers specs) in
      let later = length-specs_gen specs in omega arith

  specs_next :
      (fuel : ℕ) (text rest : Text) (spec : TransportSpec)
      → (lit (chars ",") text >>= transport_spec_ numbers) ≡ some (spec, rest)
      → more_specs numbers (suc fuel) text
        ≡ (spec ∷ (more_specs numbers fuel rest).0, (more_specs numbers fuel rest).1)
  unfolding more_specs
  specs_next fuel text rest spec e = ground (arith, e)

  more_specs-gen :
      (fuel : ℕ) (specs : List TransportSpec)
      → length specs ≤ fuel
      → All IsWritable specs
      → more_specs numbers fuel (specs_gen numbers specs) ≡ (specs, [])
  unfolding more_specs specs_gen
  more_specs-gen zero [] l w = refl
  more_specs-gen (suc fuel) [] l w = refl
  more_specs-gen zero (spec ∷ specs) l w = absurd (omega arith)
  more_specs-gen (suc fuel) (spec ∷ specs) l w =
      let rest = specs_gen numbers specs in
      specs_next fuel (chars "," ++ transport_spec_gen numbers spec rest) rest spec (
        transport_spec_-gen numbers spec rest w.0.0 w.0.1 (specs-Ends specs)
          (specs-parameter_ specs))
      ∙ ap (λ found. (spec ∷ found.0, found.1)) (more_specs-gen fuel specs (omega arith) w.1)

  -- What the generator writes of specifications whose names are tokens and whose parameters are in
  -- range, an SSRC with eight digits, is read back as it was, up to the end.
  pub transport_grammar-generate_transport :
      (spec : TransportSpec) (specs : List TransportSpec)
      → IsWritable spec
      → All IsWritable specs
      → transport_grammar numbers (generate_transport numbers spec specs) ≡ some (spec ∷ specs, [])
  unfolding transport_grammar generate_transport
  transport_grammar-generate_transport spec specs w all =
      let rest = specs_gen numbers specs in
      rw (transport_spec_-gen numbers spec rest w.0 w.1 (specs-Ends specs) (specs-parameter_ specs))
        (rw (more_specs-gen (length rest) specs (length-specs_gen specs) all) refl)
