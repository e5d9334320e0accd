-- ===== src/Rtp/Sender/Strand.antt =====
-- The threads that run the handlers of unicast_jpeg_rtp_sender of
-- src/streaming_lib/rtp_lib/src/rtp_endsystem.cpp, in any order.
use rtsp.Common.{ℕ, Bool, true, false, ◌&&◌, Option, List, [], ◌∷◌, ◌++◌, ◌≡◌, if◌then◌else◌}
use rtsp.Rtp.Spirit.{Spirit}
use rtsp.Rtp.Sender.{
  Sender, Task, wait_on_timer, cancel_timer, aborted, due, start, stop, handle_error, cancel_wait,
  wait_again, expire,
}
use rtsp.Rtp.Sender.Sending.{sends, throws, send_next_packet_handler}

-- A wait that was pending while a handler ran: `expires_at` cancels it before the handler waits again.
unfoldable pub beside : Bool → Sender → Sender
beside pending s =
    if pending
    then (if s.waiting
        then record s { tasks = s.tasks ++ (aborted ∷ []) }
        else record s { waiting = true })
    else s

module _ (spirit : Spirit) (uint_ : List ℕ → Option ℕ) where
  -- A task that is taken from the queue, on the sender with the rest of it: whether the task returns,
  -- and what it leaves.
  pub data Runs (s : Sender) : Task → Bool → Sender → Type 0 where
    waits : Runs s wait_on_timer true (wait_again s)
    cancels : Runs s cancel_timer true (cancel_wait s)
    aborts : Runs s aborted true (handle_error s)
    returns :
        (fails fec_fails : Bool) {s' : Sender} {sent : List (List ℕ)}
        → send_next_packet_handler spirit uint_ s fails fec_fails ≡ sends s' sent
        → Runs s due true (beside s.waiting s')
    fails_with :
        (fails fec_fails : Bool) {s' : Sender} {sent : List (List ℕ)}
        → send_next_packet_handler spirit uint_ s fails fec_fails ≡ throws s' sent
        → Runs s due false (beside s.waiting s')

  -- The runs of a sender: calls of `start` and `stop`, ends of waits, and tasks of the queue, in any
  -- order. The flag says that no handler has thrown.
  pub data Ran (first : Sender) : Bool → Sender → Type 0 where
    begun : Ran first true first
    starts : {clean : Bool} {s : Sender} → Ran first clean s → Ran first clean (start s)
    stops : {clean : Bool} {s : Sender} → Ran first clean s → Ran first clean (stop s)
    expires : {clean : Bool} {s : Sender} → Ran first clean s → Ran first clean (expire s)
    runs :
        {clean ok : Bool} {s s' : Sender}
        → Ran first clean s
        → (before : List Task) (task : Task) (after : List Task)
        → s.tasks ≡ before ++ (task ∷ after)
        → Runs (record s { tasks = before ++ after }) task ok s'
        → Ran first (ok && clean) s'
