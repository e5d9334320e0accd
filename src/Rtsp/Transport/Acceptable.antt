-- ===== src/Rtsp/Transport/Acceptable.antt =====
-- What get_acceptable_transport answers.
use rtsp.Common.{
  ℕ, zero, suc, ◌∙◌, ◌≤◌, ◌<◌, ◌^◌, ◌≡◌, ◌≢◌, ◌⊎◌, inl, inr, refl, ap, subst, Bool, All, Bool-cases,
  true, some, List, [], ◌∷◌, arith, Option-cases,
}
use rtsp.Rtsp.Transport.Grammar.{HeaderNumbers, generate_transport, process_server_transport_header}
use rtsp.Rtsp.Text.{chars, every, every_sound}
use rtsp.Rtsp.Message.{is_token}
use rtsp.Rtsp.Transport.Parameters.{IsWritableParameter}
use rtsp.Rtsp.Transport.RoundTrip.{IsWritable, transport_grammar-generate_transport}
use rtsp.Rtsp.Transport.{
  choose_server_port, is_server_port, port, port_number, port_range, Parameter, TransportSpec, ssrc,
  parameter_at, get_port_number, get_ssrc, uses, is_receiving_port, is_ssrc, uses,
  process_server_transport, find_if, is_acceptable, is_client_port, is_nonzero_ssrc,
  choose_client_port, choose_ssrc, choose_spec, get_acceptable_transport,
}

find_if_sound {ℓ} :
    {A : Type ℓ} (test : A → Bool) (xs : List A) {x : A} → find_if test xs ≡ some x → test x ≡ true
find_if_sound test [] e = cc
find_if_sound test (y ∷ xs) {x} e = ground (arith, find_if_sound test xs {x = x})

find_if-All {ℓ} :
    {A : Type ℓ} (P : A → Type 0) (test : A → Bool) (xs : List A) {x : A}
    → All P xs
    → find_if test xs ≡ some x
    → P x
find_if-All P test [] all e = cc
find_if-All P test (y ∷ xs) {x} all e = elim (Bool-cases (test y)) [
  | inl hit ↦ subst P (ground (arith, hit)) all.0
  | inr miss ↦ find_if-All P test xs all.1 (ground (arith, miss))
]

-- A parameter that was found as an SSRC is one.
nonzero_ssrc :
    (parameter : Parameter)
    → is_nonzero_ssrc parameter ≡ true
    → (s : ℕ) × (parameter ≡ ssrc s) × (s ≢ 0)
unfolding is_nonzero_ssrc
nonzero_ssrc (ssrc s) e = (s, refl, ground arith)
nonzero_ssrc (Parameter.ttl n) e = cc
nonzero_ssrc (Parameter.port t n) e = cc
nonzero_ssrc (Parameter.mode m) e = cc
nonzero_ssrc (Parameter.string m) e = cc

chosen_ssrc :
    (parameters : List Parameter) (random_ssrc : ℕ)
    → (s : ℕ) × (choose_ssrc (find_if is_nonzero_ssrc parameters) random_ssrc ≡ ssrc s)
      × ((s ≢ 0) ⊎ (s ≡ random_ssrc))
unfolding choose_ssrc
chosen_ssrc parameters random_ssrc = elim (Option-cases (find_if is_nonzero_ssrc parameters)) [
  | inl missing ↦ (random_ssrc, rw missing, inr refl)
  | inr (parameter, e) ↦
      let (s, same, nonzero) =
        nonzero_ssrc parameter (find_if_sound is_nonzero_ssrc parameters e) in
      (s, rw e same, inl nonzero)
]

-- A parameter of a request that the grammars can carry back: an SSRC of 0, which stands for none, or
-- one that the generators write so that the grammar reads it.
abbrev pub IsCarried : Parameter → Type 0
IsCarried parameter = (parameter ≡ ssrc 0) ⊎ IsWritableParameter parameter

server_port_carried :
    (parameter : Parameter)
    → is_server_port parameter ≡ true
    → IsCarried parameter
    → IsWritableParameter parameter
unfolding is_server_port
server_port_carried (port t n) e (inl same) = cc
server_port_carried (port t n) e (inr w) = w
server_port_carried (Parameter.ttl n) e c = cc
server_port_carried (ssrc n) e c = cc
server_port_carried (Parameter.mode n) e c = cc
server_port_carried (Parameter.string n) e c = cc

client_port_carried :
    (parameter : Parameter) (random_port : ℕ)
    → is_client_port parameter ≡ true
    → IsCarried parameter
    → choose_client_port (some parameter) random_port < 65536
unfolding is_client_port choose_client_port
client_port_carried (port t n) random_port e (inl same) = cc
client_port_carried (port t (port_number p)) random_port e (inr w) = w
client_port_carried (port t (port_range p q)) random_port e (inr w) = w.0
client_port_carried (Parameter.ttl n) random_port e c = cc
client_port_carried (ssrc n) random_port e c = cc
client_port_carried (Parameter.mode n) random_port e c = cc
client_port_carried (Parameter.string n) random_port e c = cc

ssrc_carried :
    (parameter : Parameter)
    → is_nonzero_ssrc parameter ≡ true
    → IsCarried parameter
    → IsWritableParameter parameter
unfolding is_nonzero_ssrc
ssrc_carried (ssrc zero) e c = cc
ssrc_carried (ssrc (suc n)) e (inl same) = cc
ssrc_carried (ssrc (suc n)) e (inr w) = w
ssrc_carried (port t n) e c = cc
ssrc_carried (Parameter.ttl n) e c = cc
ssrc_carried (Parameter.mode n) e c = cc
ssrc_carried (Parameter.string n) e c = cc

-- The server port of the answer: the one that was asked for, or two behind the client's.
server_port-IsWritableParameter :
    (parameters : List Parameter) (p : ℕ)
    → All IsCarried parameters
    → IsWritableParameter (choose_server_port (find_if is_server_port parameters) p)
unfolding choose_server_port
server_port-IsWritableParameter parameters p all =
    elim (Option-cases (find_if is_server_port parameters)) [
      | inl missing ↦ rw missing (omega arith)
      | inr (parameter, e) ↦ rw e (
          server_port_carried parameter (find_if_sound is_server_port parameters e)
            (find_if-All IsCarried is_server_port parameters all e))
    ]

client_port-small :
    (parameters : List Parameter) (random_port : ℕ)
    → All IsCarried parameters
    → random_port < 65536
    → choose_client_port (find_if is_client_port parameters) random_port < 65536
client_port-small parameters random_port all l =
    elim (Option-cases (find_if is_client_port parameters)) [
      | inl missing ↦ rw missing (unfold choose_client_port in l)
      | inr (parameter, e) ↦ rw e (
          client_port_carried parameter random_port (find_if_sound is_client_port parameters e)
            (find_if-All IsCarried is_client_port parameters all e))
    ]

ssrc-IsWritableParameter :
    (parameters : List Parameter) (random_ssrc : ℕ)
    → All IsCarried parameters
    → 2 ^ 28 ≤ random_ssrc
    → random_ssrc < 2 ^ 32
    → IsWritableParameter (choose_ssrc (find_if is_nonzero_ssrc parameters) random_ssrc)
unfolding choose_ssrc
ssrc-IsWritableParameter parameters random_ssrc all l h =
    elim (Option-cases (find_if is_nonzero_ssrc parameters)) [
      | inl missing ↦ rw missing (l, h)
      | inr (parameter, e) ↦ rw e (
          ssrc_carried parameter (find_if_sound is_nonzero_ssrc parameters e)
            (find_if-All IsCarried is_nonzero_ssrc parameters all e))
    ]

-- What the client reads in the text of the header that the server writes for a specification.
pub record IsAnswered (numbers : HeaderNumbers) (random_ssrc : ℕ) (chosen : TransportSpec)
    : Type 0 where
  pub taken_again : is_acceptable chosen ≡ true
  pub port : ℕ
  pub source : ℕ
  pub port_read : get_port_number (parameter_at 1 chosen.parameters) ≡ some port
  pub source_read : get_ssrc (parameter_at 2 chosen.parameters) ≡ some source
  pub header_read :
      process_server_transport_header numbers (generate_transport numbers chosen [])
      ≡ some (uses port source)
  pub known : (source ≢ 0) ⊎ (source ≡ random_ssrc)

choose_spec-IsWritable :
    (requested : TransportSpec) (random_port random_ssrc : ℕ)
    → All IsCarried requested.parameters
    → random_port < 65536
    → 2 ^ 28 ≤ random_ssrc
    → random_ssrc < 2 ^ 32
    → IsWritable (choose_spec requested random_port random_ssrc)
unfolding choose_spec every
choose_spec-IsWritable requested random_port random_ssrc all p l h = (
  record {
    protocol_token = (every_sound is_token (chars "RTP") refl, omega arith);
    profile_token = (every_sound is_token (chars "AVP") refl, omega arith);
    lower_token = (every_sound is_token (chars "UDP") refl, omega arith);
  },
  (
    (every_sound is_token (chars "unicast") refl, omega arith),
    (
      client_port-small requested.parameters random_port all p,
      (
        ssrc-IsWritableParameter requested.parameters random_ssrc all l h,
        (server_port-IsWritableParameter requested.parameters _ all, tt),
      ),
    ),
  ),
)

header-choose_spec :
    (numbers : HeaderNumbers) (chosen : TransportSpec)
    → IsWritable chosen
    → process_server_transport_header numbers (generate_transport numbers chosen [])
      ≡ some (process_server_transport (chosen ∷ []))
unfolding process_server_transport_header
header-choose_spec numbers chosen w =
    rw (transport_grammar-generate_transport numbers chosen [] w tt) refl

-- What the client and the server read in a specification that was chosen.
pub process_server_transport-choose_spec :
    (requested : TransportSpec) (random_port random_ssrc : ℕ)
    → let chosen = choose_spec requested random_port random_ssrc in
      let client_port =
        choose_client_port (find_if is_client_port requested.parameters) random_port in
      (source : ℕ) × (process_server_transport (chosen ∷ []) ≡ uses client_port source)
      × (get_port_number (parameter_at 1 chosen.parameters) ≡ some client_port)
      × (get_ssrc (parameter_at 2 chosen.parameters) ≡ some source)
      × ((source ≢ 0) ⊎ (source ≡ random_ssrc))
unfolding choose_spec process_server_transport get_port_number get_ssrc is_acceptable
    is_receiving_port is_ssrc
process_server_transport-choose_spec requested random_port random_ssrc =
    let (s, same, known) = chosen_ssrc requested.parameters random_ssrc in
    (s, rw same refl, refl, rw same refl, known)

choose_spec-IsAnswered :
    (numbers : HeaderNumbers) (requested : TransportSpec) (random_port random_ssrc : ℕ)
    → All IsCarried requested.parameters
    → random_port < 65536
    → 2 ^ 28 ≤ random_ssrc
    → random_ssrc < 2 ^ 32
    → IsAnswered numbers random_ssrc (choose_spec requested random_port random_ssrc)
choose_spec-IsAnswered numbers requested random_port random_ssrc all p l h =
    let chosen = choose_spec requested random_port random_ssrc in
    let (s, read, at_port, at_ssrc, known) =
      process_server_transport-choose_spec requested random_port random_ssrc in
    record {
      taken_again = unfold choose_spec is_acceptable in refl;
      port = choose_client_port (find_if is_client_port requested.parameters) random_port;
      source = s;
      port_read = at_port;
      source_read = at_ssrc;
      header_read =
          header-choose_spec numbers chosen
            (choose_spec-IsWritable requested random_port random_ssrc all p l h)
          ∙ ap some read;
      known = known;
    }

-- What the server answers, the client of the library takes, through the text of the header: for a request
-- that the grammar can have read, whose SSRCs are 0 or have eight hexadecimal digits, and a random port
-- and SSRC of these sizes, whenever the server chooses a specification, it is one that the server itself
-- would accept, and the client's reading of the generated header succeeds; the client then listens on
-- exactly the port, and for exactly the SSRC, that the server reads back from its choice for sending.
-- The SSRC is not 0 unless the server drew a 0.
pub get_acceptable_transport-IsAnswered :
    (numbers : HeaderNumbers) (specifications : List TransportSpec) (random_port random_ssrc : ℕ)
    {chosen : TransportSpec}
    → All (λ spec. All IsCarried spec.parameters) specifications
    → random_port < 65536
    → 2 ^ 28 ≤ random_ssrc
    → random_ssrc < 2 ^ 32
    → get_acceptable_transport specifications random_port random_ssrc ≡ some chosen
    → IsAnswered numbers random_ssrc chosen
unfolding get_acceptable_transport
get_acceptable_transport-IsAnswered numbers specifications random_port random_ssrc {chosen} all p l
      h e =
    elim (Option-cases (find_if is_acceptable specifications)) [
      | inl missing ↦ ground (arith, missing)
      | inr (requested, found) ↦
          let same : choose_spec requested random_port random_ssrc ≡ chosen =
            ground (arith, found) in
          subst (IsAnswered numbers random_ssrc) same (
            choose_spec-IsAnswered numbers requested random_port random_ssrc
              (find_if-All (λ spec. All IsCarried spec.parameters) is_acceptable specifications all
                found)
              p l h)
    ]
