-- ===== src/Rtsp/Client/Responses.antt =====
-- Which handler a response reaches.
use Prim.Native.String.{String}
use rtsp.Common.{
  Bool, ℕ, ◌%◌, ◌^◌, ◌≤◌, ◌<◌, ◌≡◌, ◌≢◌, refl, ap, ◌∙◌, true, false, none, some, List, [], ◌∷◌,
  ◌==◌, ltb, inl, inr, Bool-cases, Option-cases, if_cases, arith, if◌then◌else◌,
}
use rtsp.Rtsp.Definitions.{Request, Response}
use rtsp.Rtsp.Headers.{lookup, normalize_headers}
use rtsp.Rtsp.Methods.{playing}
use rtsp.Rtsp.Client.{
  Handler, on_setup, on_play, on_pause, on_teardown, on_option, on_describe, Client, Environment,
  find_request, put_request, erase_request, send_request, use_transport, handle, deliver,
  header_read,
}

find_request-put_request :
    (m n : ℕ) (handler : Handler) (requests : List (ℕ × Handler))
    → find_request m (put_request n handler requests)
      ≡ (if n == m then some handler else find_request m requests)
unfolding find_request put_request
find_request-put_request m n handler [] = refl
find_request-put_request m n handler ((k, h) ∷ requests) =
    ground (arith, find_request-put_request m n handler requests)

find_request-erase_request :
    (m n : ℕ) (requests : List (ℕ × Handler))
    → find_request m (erase_request n requests) ≡ (if n == m then none else find_request m requests)
unfolding find_request erase_request
find_request-erase_request m n [] = ground arith
find_request-erase_request m n ((k, h) ∷ requests) =
    ground (arith, find_request-erase_request m n requests)

module _ (environment : Environment) where
  -- No handler touches the requests that wait.
  handle-outstanding_requests :
      (handler : Handler) (c : Client) (response : Response)
      → (handle environment handler c response).0.outstanding_requests ≡ c.outstanding_requests
  unfolding handle use_transport
  handle-outstanding_requests on_setup c response = ground arith
  handle-outstanding_requests on_play c response = refl
  handle-outstanding_requests on_pause c response = refl
  handle-outstanding_requests on_teardown c response = refl
  handle-outstanding_requests on_option c response = refl
  handle-outstanding_requests on_describe c response = refl

  handle-reading :
      (handler : Handler) (c : Client) (response : Response)
      → (handle environment handler c response).0.reading ≡ c.reading
  unfolding handle use_transport
  handle-reading on_setup c response = ground arith
  handle-reading on_play c response = refl
  handle-reading on_pause c response = refl
  handle-reading on_teardown c response = refl
  handle-reading on_option c response = refl
  handle-reading on_describe c response = refl

  deliver-reading :
      (c : Client) (cseq : ℕ) (response : Response)
      → c.reading ≡ false
      → (deliver environment c cseq response).0.reading ≡ (deliver environment c cseq response).1
  unfolding deliver
  deliver-reading c cseq response closed =
      elim (Option-cases (find_request cseq c.outstanding_requests)) [
        | inl e ↦ rw (e, deliver) refl
        | inr (handler, e) ↦ elim (Bool-cases (handle environment handler c response).1) [
          | inl returned ↦ rw (e, deliver) (rw returned refl)
          | inr raised ↦ rw (e, deliver) (rw raised (handle-reading handler c response ∙ closed))
        ]
      ]

  -- Whatever is read: the client reads on exactly when the call returned. After an exception, for a
  -- response without CSeq, or of the handler of the request, no further response is read.
  pub header_read-reading :
      (c : Client) (response : Response)
      → (header_read environment c response).0.reading ≡ (header_read environment c response).1
  unfolding header_read
  header_read-reading c response =
      elim (Option-cases
        (lookup "cseq" (normalize_headers environment.to_lower_copy response.headers))) [
          | inl e ↦ rw (e, header_read) refl
          | inr (text, e) ↦
              rw (e, header_read)
                (if_cases {A = Client × Bool} (λ result. result.0.reading ≡ result.1)
                  (ltb response.status_code 200) (λ _. refl)
                  (λ _. deliver-reading (record c { reading = false }) _ response refl))
        ]

  module _ (c : Client) (response : Response) {text : String} {cseq : ℕ}
      (numbered : lookup "cseq" (normalize_headers environment.to_lower_copy response.headers)
        ≡ some text)
      (read : environment.read_cseq text ≡ some cseq) (final : 200 ≤ response.status_code) where
    to_deliver :
        header_read environment c response
        ≡ deliver environment (record c { reading = false }) cseq response
    unfolding header_read
    to_deliver =
        let is_final : ltb response.status_code 200 ≡ false = ground arith in
        rw (numbered, header_read) (rw is_final (rw read refl))

    unawaited :
        find_request cseq c.outstanding_requests ≡ none
        → header_read environment c response ≡ (record c { reading = true }, true)
    unfolding deliver
    unawaited e = to_deliver ∙ rw (e, deliver) refl

    awaited :
        {handler : Handler}
        → find_request cseq c.outstanding_requests ≡ some handler
        → (handle environment handler (record c { reading = false }) response).1 ≡ true
        → header_read environment c response ≡ (
          record (handle environment handler (record c { reading = false }) response).0 {
            outstanding_requests = erase_request cseq c.outstanding_requests;
            reading = true;
          },
          true,
        )
    unfolding deliver
    awaited {handler} e returned =
        to_deliver
        ∙ rw (e, deliver)
            (rw returned (
              rw (handle-outstanding_requests handler (record c { reading = false }) response)
                refl))

  -- A request is answered once: if the client sends a request whose number is below 2 ^ 32, and then reads a
  -- final response that carries this number and that the request's handler takes without an exception,
  -- the handler has run on exactly that response, nothing else has changed but that a
  -- read is pending again; reading the response a second time changes nothing; and every other
  -- request that was waiting still waits for its handler.
  pub send_request-header_read :
      (c : Client) (request : Request) (handler : Handler) (response : Response) {text : String}
      → c.next_cseq < 2 ^ 32
      → lookup "cseq" (normalize_headers environment.to_lower_copy response.headers) ≡ some text
      → environment.read_cseq text ≡ some c.next_cseq
      → 200 ≤ response.status_code
      → let sent = record (send_request environment c request handler).0 { reading = false } in
        (handle environment handler sent response).1 ≡ true
        → (answered : Client) × (header_read environment
              (send_request environment c request handler).0
              response
            ≡ (answered, true))
          × (answered ≡ record (handle environment handler sent response).0 {
            outstanding_requests = erase_request c.next_cseq sent.outstanding_requests;
            reading = true;
          })
          × (header_read environment answered response ≡ (answered, true))
          × ((cseq : ℕ)
              → cseq ≢ c.next_cseq
              → find_request cseq answered.outstanding_requests
                ≡ find_request cseq c.outstanding_requests)
  unfolding send_request
  send_request-header_read c request handler response small numbered read final returned =
      let n = c.next_cseq in
      let sent = (send_request environment c request handler).0 in
      let key : n % 2 ^ 32 ≡ n = omega arith in
      (
        record (handle environment handler (record sent { reading = false }) response).0 {
          outstanding_requests = erase_request n sent.outstanding_requests;
          reading = true;
        },
        awaited sent response numbered read final
            (ground
              (arith, key, find_request-put_request n (n % 2 ^ 32) handler c.outstanding_requests))
            returned,
        refl,
        unawaited _ response numbered read final
            (ground (arith, find_request-erase_request n n sent.outstanding_requests)),
        λ cseq other. ground (
          arith,
          key,
          other,
          find_request-erase_request cseq n sent.outstanding_requests,
          find_request-put_request cseq (n % 2 ^ 32) handler c.outstanding_requests,
        ),
      )

  -- A final response to a PLAY that still waits moves the session to playing, whatever its status code
  -- is: one that says that the method is not valid, or that the session is not known, as well.
  pub header_read_ignores_status :
      (c : Client) (response : Response) {text : String} {cseq : ℕ}
      → lookup "cseq" (normalize_headers environment.to_lower_copy response.headers) ≡ some text
      → environment.read_cseq text ≡ some cseq
      → 200 ≤ response.status_code
      → find_request cseq c.outstanding_requests ≡ some on_play
      → (header_read environment c response).0.state ≡ playing
  unfolding handle
  header_read_ignores_status c response numbered read final waits =
      ap (λ result. result.0.state) (awaited c response numbered read final waits refl)
