-- ===== src/Rtsp/Transport/ParameterList.antt =====
-- The list of parameters of a transport specification on what the generators write.
use rtsp.Common.{
  ℕ, zero, suc, ◌+◌, ◌-◌, ◌≤◌, ◌≡◌, refl, ap, ◌∙◌, inl, none, some, List, [], ◌∷◌, ◌++◌, length,
  length-append, All, arith,
}
use rtsp.Rtsp.Text.{Text, chars}
use rtsp.Rtsp.Transport.{port_number, port_range, Parameter, ttl, port, ssrc, mode, string}
use rtsp.Rtsp.Transport.Grammar.{
  HeaderNumbers, parameter_, parameter_list, value_gen, parameters_gen, port_type_gen,
}
use rtsp.Rtsp.Transport.Parameters.{IsWritableParameter, Ends, parameter_-value}

module _ (numbers : HeaderNumbers) where
  pub parameters-Ends :
      (parameters : List Parameter) (rest : Text)
      → Ends rest
      → Ends (parameters_gen numbers parameters rest)
  unfolding parameters_gen
  parameters-Ends [] rest e = e
  parameters-Ends (parameter ∷ parameters) rest e = inl refl

  pub list_end :
      (fuel : ℕ) (text : Text)
      → parameter_ numbers text ≡ none
      → parameter_list numbers fuel text ≡ ([], text)
  unfolding parameter_list
  list_end zero text e = refl
  list_end (suc fuel) text e = ground (arith, e)

  pub list_next :
      (fuel : ℕ) (text rest : Text) (parameter : Parameter)
      → parameter_ numbers text ≡ some (parameter, rest)
      → parameter_list numbers (suc fuel) text
        ≡ (parameter ∷ (parameter_list numbers fuel rest).0, (parameter_list numbers fuel rest).1)
  unfolding parameter_list
  list_next fuel text rest parameter e = ground (arith, e)

  -- Parameters in front of any text that ends them, with what the list reads of that text.
  pub parameter_list-gen :
      (fuel : ℕ) (parameters : List Parameter) (rest : Text)
      → length parameters ≤ fuel
      → All IsWritableParameter parameters
      → Ends rest
      → parameter_list numbers fuel (parameters_gen numbers parameters rest) ≡ (
        parameters ++ (parameter_list numbers (fuel - length parameters) rest).0,
        (parameter_list numbers (fuel - length parameters) rest).1,
      )
  unfolding parameters_gen
  parameter_list-gen fuel [] rest l w e = ap (λ k. parameter_list numbers k rest) (omega arith)
  parameter_list-gen zero (parameter ∷ parameters) rest l w e = absurd (omega arith)
  parameter_list-gen (suc fuel) (parameter ∷ parameters) rest l w e =
      let more = parameters_gen numbers parameters rest in
      let same : fuel - length parameters ≡ suc fuel - suc (length parameters) = omega arith in
      list_next fuel (chars ";" ++ value_gen numbers parameter more) more parameter
        (parameter_-value numbers parameter more w.0 (parameters-Ends parameters rest e))
      ∙ ap (λ found. (parameter ∷ found.0, found.1))
          (parameter_list-gen fuel parameters rest (omega arith) w.1 e)
      ∙ ap
          (λ k. (
            parameter ∷ (parameters ++ (parameter_list numbers k rest).0),
            (parameter_list numbers k rest).1,
          ))
          same

  value_gen-length :
      (parameter : Parameter) (rest : Text)
      → length rest ≤ length (value_gen numbers parameter rest)
  value_gen-length (ttl n) rest =
      rw (length-append (numbers.decimal_generator n) rest) (omega arith)
  value_gen-length (port type (port_number n)) rest =
      rw (length-append (port_type_gen type) (chars "=" ++ (numbers.decimal_generator n ++ rest)))
        (rw (length-append (numbers.decimal_generator n) rest) (omega arith))
  value_gen-length (port type (port_range m n)) rest =
      rw
        (length-append (port_type_gen type) (
          chars "="
          ++ (numbers.decimal_generator m ++ (chars "-" ++ (numbers.decimal_generator n ++ rest)))))
        (rw
          (length-append (numbers.decimal_generator m)
            (chars "-" ++ (numbers.decimal_generator n ++ rest)))
          (rw (length-append (numbers.decimal_generator n) rest) (omega arith)))
  value_gen-length (ssrc n) rest = rw (length-append (numbers.hex_generator n) rest) (omega arith)
  value_gen-length (mode s) rest = rw (length-append (chars s) (chars "\"" ++ rest)) (omega arith)
  value_gen-length (string s) rest = rw (length-append (chars s) rest) (omega arith)

  pub length-parameters_gen :
      (parameters : List Parameter) (rest : Text)
      → length parameters + length rest ≤ length (parameters_gen numbers parameters rest)
  unfolding parameters_gen
  length-parameters_gen [] rest = omega arith
  length-parameters_gen (parameter ∷ parameters) rest =
      let more = parameters_gen numbers parameters rest in
      let written = value_gen-length parameter more in
      let later = length-parameters_gen parameters rest in omega arith
