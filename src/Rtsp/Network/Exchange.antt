-- ===== src/Rtsp/Network/Exchange.antt =====
-- A request over TCP and over UDP, as rtsp_server.cpp serves it, from its text to the response.
use rtsp.Common.{ℕ, ◌≡◌, refl, ap, ◌∙◌, true, false, some, [], ◌∷◌, ◌++◌}
use rtsp.Rtsp.Definitions.{Request, Response, Address}
use rtsp.Rtsp.Text.{Text, Numbers}
use rtsp.Rtsp.Message.{
  phrase_parse, rtsp_request_grammar, rtsp_response_grammar, generate_request, generate_response,
}
use rtsp.Rtsp.Message.Writable.{IsWritable, IsWritableResponse}
use rtsp.Rtsp.Message.RoundTrip.{
  rtsp_request_grammar-generate_request, rtsp_response_grammar-generate_response,
}
use rtsp.Rtsp.Methods.{replies}
use rtsp.Rtsp.Methods.Setup.{Platform, Draws}
use rtsp.Rtsp.Server.{ServerState, handle_incoming_request}
use rtsp.Rtsp.Network.{
  Connection, ErrorCode, handled, answers, finish_read, finish_message, read_request, header_read,
  handle_new_incoming_message,
}

module _ (numbers : Numbers) (platform : Platform) where
  read_parsed :
      (draws : Draws) (now : ℕ) (requester : Address) (text rest : Text) (request : Request)
      (c : Connection) (state : ServerState)
      → phrase_parse (rtsp_request_grammar numbers) text ≡ some (request, rest)
      → header_read numbers platform ErrorCode.success draws now requester text c state
        ≡ finish_read numbers platform
            (record c { reading = false; last_request_time_point = now })
            (handle_incoming_request platform draws state request requester)
  unfolding header_read read_request
  read_parsed draws now requester text rest request c state e = rw (e, read_request) refl

  message_parsed :
      (draws : Draws) (requester : Address) (text rest : Text) (request : Request)
      (state : ServerState)
      → phrase_parse (rtsp_request_grammar numbers) text ≡ some (request, rest)
      → handle_new_incoming_message numbers platform draws requester text state
        ≡ finish_message numbers platform
            (handle_incoming_request platform draws state request requester)
  unfolding handle_new_incoming_message
  message_parsed draws requester text rest request state e =
      rw (e, handle_new_incoming_message) refl

  -- A client writes a request, whose parts the grammar can tell apart, and the server state answers
  -- it with a response, whose reason phrase and header fields the grammar can tell apart. Whether the
  -- text arrives on a TCP connection with nothing left to send, or as a datagram: the server ends in
  -- the state that handle_incoming_request leaves, both ways send the same text, from which a client
  -- reads that response to its end, and the connection reads on.
  pub exchange :
      (draws : Draws) (now : ℕ) (requester : Address) (request : Request) (response : Response)
      (c : Connection) (state state' : ServerState)
      → IsWritable request
      → handle_incoming_request platform draws state request requester ≡ (state', replies response)
      → IsWritableResponse response
      → c.last_response_string ≡ []
      → (text : Text) × (header_read numbers platform ErrorCode.success draws now requester
            (generate_request numbers request)
            c
            state
          ≡ handled
              (record c {
                last_response_string = text;
                last_request_time_point = now;
                sends = c.sends ++ (text ∷ []);
                reading = true;
              })
              state')
        × (handle_new_incoming_message numbers platform draws requester
              (generate_request numbers request)
              state
            ≡ answers state' text)
        × (rtsp_response_grammar numbers text ≡ some (response, []))
  exchange draws now requester request response c state state' w e v h =
      let text = generate_response numbers response in
      let parsed = (rtsp_request_grammar-generate_request numbers request w).1 in
      let c' = record c { reading = false; last_request_time_point = now } in
      (
        text,
        read_parsed draws now requester (generate_request numbers request) [] request c state parsed
            ∙ ap (finish_read numbers platform c') e
            ∙ ap
                (λ old.
                  handled
                    (record c {
                      last_response_string = old ++ text;
                      last_request_time_point = now;
                      sends = c.sends ++ ((old ++ text) ∷ []);
                      reading = true;
                    })
                    state')
                h,
        message_parsed draws requester (generate_request numbers request) [] request state parsed
            ∙ ap (finish_message numbers platform) e,
        rtsp_response_grammar-generate_response numbers response v,
      )
