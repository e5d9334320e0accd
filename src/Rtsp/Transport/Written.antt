-- ===== src/Rtsp/Transport/Written.antt =====
-- A transport specification of rtsp_headers.hpp that its generator has written.
use Prim.Native.String.{String}
use rtsp.Common.{
  ◌-◌, ◌≤◌, ◌≡◌, refl, ap, ◌∙◌, inl, inr, Option, none, some, [], ◌∷◌, ◌++◌, append-nil, length,
  length-append, All, arith,
}
use rtsp.Rtsp.Text.{Text, chars, of_list-chars, plus, lit, ◌>>=◌, Stops, plus-append}
use rtsp.Rtsp.Message.{is_token}
use rtsp.Rtsp.Message.Headers.{IsToken}
use rtsp.Rtsp.Transport.{TransportSpec}
use rtsp.Rtsp.Transport.Grammar.{
  HeaderNumbers, optional_lower, parameter_, parameter_list, lower_transport_, transport_spec_,
  parameters_gen, lower_gen, transport_spec_gen,
}
use rtsp.Rtsp.Transport.Parameters.{IsWritableParameter, Ends, Ends-Stops}
use rtsp.Rtsp.Transport.ParameterList.{
  list_end, parameters-Ends, parameter_list-gen, length-parameters_gen,
}

abbrev pub IsWritableLower : Option String → Type 0
IsWritableLower none = Unit
IsWritableLower (some name) = IsToken (chars name)

-- A specification that the grammar reads as it was written, whatever its parameters are.
pub record IsWritableSpec (spec : TransportSpec) : Type 0 where
  pub protocol_token : IsToken (chars spec.transport_protocol)
  pub profile_token : IsToken (chars spec.profile)
  pub lower_token : IsWritableLower spec.lower_transport

Ends-slash : (rest : Text) → Ends rest → lit (chars "/") rest ≡ none
Ends-slash [] e = refl
Ends-slash (c ∷ rest) (inl e) = ground (arith, e)
Ends-slash (c ∷ rest) (inr e) = ground (arith, e)

lower_transport_-gen :
    (lower : Option String) (rest : Text)
    → IsWritableLower lower
    → Ends rest
    → lower_transport_ (lower_gen lower rest) ≡ (lower, rest)
lower_transport_-gen none rest w e =
    ap (λ found. optional_lower rest (found >>= plus is_token)) (Ends-slash rest e)
lower_transport_-gen (some name) rest (o, l) e =
    rw (plus-append is_token (chars name) rest o l (Ends-Stops rest e))
      (ap (λ t. (some t, rest)) (of_list-chars name))

lower-Stops :
    (lower : Option String) (rest : Text) → Ends rest → Stops is_token (lower_gen lower rest)
lower-Stops none rest e = Ends-Stops rest e
lower-Stops (some name) rest e = refl

pub length-lower_gen :
    (lower : Option String) (rest : Text) → length rest ≤ length (lower_gen lower rest)
length-lower_gen none rest = omega arith
length-lower_gen (some name) rest = rw (length-append (chars name) rest) (omega arith)

module _ (numbers : HeaderNumbers) where
  -- The names of a specification are read, and the rest is what the list of parameters reads.
  pub spec_head :
      (spec : TransportSpec) (rest : Text)
      → IsWritableSpec spec
      → Ends rest
      → transport_spec_ numbers (
          chars spec.transport_protocol
          ++ (chars "/" ++ (chars spec.profile ++ lower_gen spec.lower_transport rest)))
        ≡ some (
          record spec { parameters = (parameter_list numbers (length rest) rest).0 },
          (parameter_list numbers (length rest) rest).1,
        )
  unfolding transport_spec_
  spec_head spec rest w e =
      let after = lower_gen spec.lower_transport rest in
      rw
        (plus-append is_token (chars spec.transport_protocol)
          (chars "/" ++ (chars spec.profile ++ after)) w.protocol_token.0 w.protocol_token.1 refl)
        (rw
          (plus-append is_token (chars spec.profile) after w.profile_token.0 w.profile_token.1
            (lower-Stops spec.lower_transport rest e))
          (rw (lower_transport_-gen spec.lower_transport rest w.lower_token e)
            (rw (of_list-chars spec.transport_protocol, of_list-chars spec.profile) refl)))

  -- Where no parameter can be read in the rest, a specification is read as it was written.
  pub transport_spec_-gen :
      (spec : TransportSpec) (rest : Text)
      → IsWritableSpec spec
      → All IsWritableParameter spec.parameters
      → Ends rest
      → parameter_ numbers rest ≡ none
      → transport_spec_ numbers (transport_spec_gen numbers spec rest) ≡ some (spec, rest)
  unfolding transport_spec_gen
  transport_spec_-gen spec rest w all e stop =
      let written = parameters_gen numbers spec.parameters rest in
      let longer = length-parameters_gen numbers spec.parameters rest in
      let bound : length spec.parameters ≤ length written = omega arith in
      spec_head spec written w (parameters-Ends numbers spec.parameters rest e)
      ∙ ap (λ found. some (record spec { parameters = found.0 }, found.1))
          (parameter_list-gen numbers (length written) spec.parameters rest bound all e
            ∙ ap (λ found. (spec.parameters ++ found.0, found.1))
                (list_end numbers (length written - length spec.parameters) rest stop)
            ∙ ap (λ ps. (ps, rest)) (append-nil spec.parameters))
