-- ===== src/Rtsp/Methods/Refusals.antt =====
-- How the body of `setup` ends before it changes the session.
use Prim.Native.String.{String}
use text.Mathlib.Text.{◌==◌}
use rtsp.Common.{
  ℕ, ◌≡◌, ◌≢◌, ◌≤◌, inl, inr, refl, Bool, true, false, ◌&&◌, not, Option, none, some, List, [], ◌∷◌,
  arith, Bool-cases, Option-cases, if◌then◌else◌,
}
use rtsp.Rtsp.Definitions.{RtspHeader, Response, Request, NormalizedHeaders}
use rtsp.Rtsp.Headers.{lookup}
use rtsp.Rtsp.Transport.{TransportSpec, get_port_number, get_ssrc, parameter_at}
use rtsp.Rtsp.Methods.{
  SessionState, init, ready, playing, recording, ServerSession, replies, throws, with_status,
}
use rtsp.Rtsp.Methods.Setup.{
  Platform, Draws, MknOptionParameters, mkn_option_header, Early, goes_on, ends, ◌>>=◌, or_throws,
  or_replies, unless_init, unsupported_option_tags, with_unsupported, read_option_parameters,
  read_require, read_transport, make_sender, prepare,
}

-- The first header is the given one.
abbrev pub starts_with : RtspHeader → List RtspHeader → Bool
starts_with (name, value) [] = false
starts_with (name, value) ((n, v) ∷ headers) = n == name && v == value

-- The status code of an error that some branch has set.
abbrev pub IsRefusal : ℕ → Type 0
IsRefusal status_code = (400 ≤ status_code) × (status_code ≢ 500)

-- Either a value with a property, or an error response that still begins with the CSeq, or an exception.
pub data EndsWell {ℓ} (cseq : String) {A : Type 0} (P : A → Type ℓ) : Early A → Type ℓ where
  goes_well : {a : A} → P a → EndsWell cseq P (goes_on a)
  refuses_well :
      {response : Response}
      → IsRefusal response.status_code
      → starts_with ("CSeq", cseq) response.headers ≡ true
      → EndsWell cseq P (ends (replies response))
  fails : EndsWell cseq P (ends throws)

starts_with-append :
    (header added : RtspHeader) (headers : List RtspHeader)
    → starts_with header headers ≡ true
    → starts_with header (rtsp.Common.◌++◌ headers (added ∷ [])) ≡ true
starts_with-append header added [] h = cc
starts_with-append header added (first ∷ headers) h = h

with_unsupported-refuses :
    (cseq : String) (response : Response) (tags : List String)
    → IsRefusal response.status_code
    → starts_with ("CSeq", cseq) response.headers ≡ true
    → IsRefusal (with_unsupported response tags).status_code
      × (starts_with ("CSeq", cseq) (with_unsupported response tags).headers ≡ true)
unfolding with_unsupported
with_unsupported-refuses cseq response [] h k = (h, k)
with_unsupported-refuses cseq response (tag ∷ tags) h k =
    with_unsupported-refuses cseq _ tags h
      (starts_with-append ("CSeq", cseq) ("Unsupported", tag) response.headers k)

abbrev Any : {A : Type 0} → A → Type 0
Any a = Unit {0}

module _ {cseq : String} where
  then_well {ℓ κ} :
      {A B : Type 0} {P : A → Type ℓ} {Q : B → Type κ} {m : Early A} {f : A → Early B}
      → EndsWell cseq P m
      → ((a : A) → P a → EndsWell cseq Q (f a))
      → EndsWell cseq Q (m >>= f)
  then_well (goes_well p) k = k _ p
  then_well (refuses_well h e) k = refuses_well h e
  then_well fails k = fails

  or_throws-EndsWell : {A : Type 0} (o : Option A) → EndsWell cseq Any (or_throws o)
  unfolding or_throws
  or_throws-EndsWell none = fails
  or_throws-EndsWell (some a) = goes_well tt

  or_replies-EndsWell :
      {A : Type 0} (o : Option A) (response : Response) (status_code : ℕ) (reason_phrase : String)
      → IsRefusal status_code
      → starts_with ("CSeq", cseq) response.headers ≡ true
      → EndsWell cseq Any (or_replies o (with_status response status_code reason_phrase))
  unfolding or_replies
  or_replies-EndsWell none response n t h k = refuses_well h k
  or_replies-EndsWell (some a) response n t h k = goes_well tt

  if_well {ℓ} :
      {A : Type 0} {P : A → Type ℓ} (b : Bool) {m n : Early A}
      → EndsWell cseq P m
      → EndsWell cseq P n
      → EndsWell cseq P (if b then m else n)
  if_well true h k = h
  if_well false h k = k

  module _ (platform : Platform) (response : Response)
      (h : starts_with ("CSeq", cseq) response.headers ≡ true) where
    read_option_parameters-EndsWell :
        (headers : NormalizedHeaders)
        → EndsWell cseq Any (read_option_parameters platform response headers)
    unfolding read_option_parameters
    read_option_parameters-EndsWell headers =
        elim (Option-cases (lookup mkn_option_header headers)) [
          | inl e ↦ rw (e, read_option_parameters) (refuses_well (ground arith) h)
          | inr (value, e) ↦
              rw (e, read_option_parameters)
                (if_well _ (goes_well tt) (refuses_well (ground arith) h))
        ]

    read_require-EndsWell :
        (headers : NormalizedHeaders) → EndsWell cseq Any (read_require platform response headers)
    unfolding read_require
    read_require-EndsWell headers = elim (Option-cases (lookup "require" headers)) [
      | inl e ↦ rw (e, read_require) (goes_well tt)
      | inr (value, e) ↦
          rw (e, read_require)
            (if_well _ (refuses_well (ground arith) h) (go (unsupported_option_tags _)))
    ]
      where
        go :
            (unsupported : List String)
            → EndsWell cseq Any (elim unsupported [
              | [] ↦ read_option_parameters platform response headers
              | tag ∷ tags ↦ ends (
                  replies (
                    with_unsupported
                      (with_status response 551 "Option not supported")
                      (tag ∷ tags)))
            ])
        go [] = read_option_parameters-EndsWell headers
        go (tag ∷ tags) =
            let (status, first) =
              with_unsupported-refuses cseq (with_status response 551 "Option not supported")
                (tag ∷ tags) (ground arith) h in
            refuses_well status first

    read_transport-EndsWell :
        (headers : NormalizedHeaders) → EndsWell cseq Any (read_transport platform response headers)
    unfolding read_transport
    read_transport-EndsWell headers = elim (Option-cases (lookup "transport" headers)) [
      | inl e ↦ rw (e, read_transport) (goes_well tt)
      | inr (value, e) ↦
          rw (e, read_transport) (if_well _ (goes_well tt) (refuses_well (ground arith) h))
    ]

    unless_init-EndsWell :
        (state : SessionState) → EndsWell cseq (λ _. state ≡ init) (unless_init state response)
    unfolding unless_init
    unless_init-EndsWell init = goes_well refl
    unless_init-EndsWell ready = refuses_well (ground arith) h
    unless_init-EndsWell playing = refuses_well (ground arith) h
    unless_init-EndsWell recording = refuses_well (ground arith) h

    make_sender-EndsWell :
        (session : ServerSession) (transport : TransportSpec) (options : Option MknOptionParameters)
        (path : List ℕ) (draws : Draws)
        → EndsWell cseq Any (make_sender platform session transport options path draws)
    unfolding make_sender
    make_sender-EndsWell session transport options path draws =
        then_well (or_throws-EndsWell (get_port_number (parameter_at 1 transport.parameters)))
          (λ client_port _.
            then_well (or_throws-EndsWell (get_port_number (parameter_at 3 transport.parameters)))
              (λ server_port _.
                then_well (or_throws-EndsWell (get_ssrc (parameter_at 2 transport.parameters)))
                  (λ ssrc _. if_well _ (goes_well tt) fails)))

    prepare-steps :
        (session : ServerSession) (request : Request) (headers : NormalizedHeaders) (draws : Draws)
        → EndsWell cseq
            (λ _. session.state ≡ init)
            (prepare platform session request headers draws response)
    unfolding prepare
    prepare-steps session request headers draws =
        then_well (read_require-EndsWell headers) (λ options _.
          then_well (read_transport-EndsWell headers) (λ specifications _.
            then_well (or_replies-EndsWell _ response 461 _ (ground arith) h) (λ transport _.
              then_well (unless_init-EndsWell session.state) (λ _ at_init.
                then_well (or_replies-EndsWell _ response 404 _ (ground arith) h) (λ path _.
                  then_well (make_sender-EndsWell session transport options path draws)
                    (λ sender _. goes_well at_init))))))

pub prepare-EndsWell :
    (platform : Platform) (session : ServerSession) (request : Request)
    (headers : NormalizedHeaders) (draws : Draws) (response : Response) {cseq : String}
    → starts_with ("CSeq", cseq) response.headers ≡ true
    → EndsWell cseq
        (λ _. session.state ≡ init)
        (prepare platform session request headers draws response)
prepare-EndsWell platform session request headers draws response h =
    prepare-steps platform response h session request headers draws
