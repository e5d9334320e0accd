-- ===== src/Rtp/Sender.antt =====
-- The life of unicast_jpeg_rtp_sender of src/streaming_lib/rtp_lib/src/rtp_endsystem.cpp: what its
-- constructors set, and start and stop with the tasks that they hand to the strand.
pub mod Handlers
pub mod Life
pub mod Sending
pub mod Frames
pub mod Strand
mod Tests
use rtsp.Common.{
  ℕ, zero, suc, Bool, true, false, Option, none, some, List, [], ◌∷◌, ◌++◌, if◌then◌else◌,
}
use rtsp.Rtp.Fec.{FecGenerator}

-- An address and a port.
abbrev pub Endpoint : Type 0
Endpoint = ℕ × ℕ

-- What is queued for the threads of the `io_context`: the two lambdas that are dispatched to the strand,
-- and calls of `send_next_packet_handler` for a wait that was cancelled or that is over.
pub data Task : Type 0 where
  wait_on_timer cancel_timer aborted due : Task

-- `jpeg_source` is what is left to read of the stream; `channel_failure_distribution` holds the bits
-- of the `double`. `waiting` says that a wait is pending on the timer, whose handler is not queued yet.
pub record Sender : Type 0 where
  pub destination : Endpoint
  pub source_port : ℕ
  pub ssrc : ℕ
  pub jpeg_source : List ℕ
  pub running : Bool
  pub channel_failure_distribution : Option ℕ
  pub fec_generator : Option FecGenerator
  pub current_sequence_number : ℕ
  pub current_fec_sequence_number : ℕ
  pub tasks : List Task
  pub waiting : Bool

-- The two constructors; the random engine draws the two sequence numbers.
pub construct : Endpoint → ℕ → ℕ → List ℕ → ℕ → ℕ → Sender
construct destination source_port ssrc jpeg_source sequence_number fec_sequence_number = record {
  destination = destination;
  source_port = source_port;
  ssrc = ssrc;
  jpeg_source = jpeg_source;
  running = false;
  channel_failure_distribution = none;
  fec_generator = none;
  current_sequence_number = sequence_number;
  current_fec_sequence_number = fec_sequence_number;
  tasks = [];
  waiting = false;
}

pub construct_with_options : Endpoint → ℕ → ℕ → List ℕ → ℕ → ℕ → ℕ → ℕ → Sender
unfolding construct
construct_with_options destination source_port ssrc jpeg_source sequence_number fec_sequence_number
      droprate fec_k =
    record (construct destination source_port ssrc jpeg_source sequence_number
      fec_sequence_number) {
        channel_failure_distribution = some droprate;
        fec_generator = some (rtsp.Rtp.Fec.construct fec_k);
      }

unfoldable pub start : Sender → Sender
start s =
    if s.running then s else record s { running = true; tasks = s.tasks ++ (wait_on_timer ∷ []) }

unfoldable pub stop : Sender → Sender
stop s = if s.running then record s { tasks = s.tasks ++ (cancel_timer ∷ []) } else s

-- `send_next_packet_handler` with an error, as for a wait that was cancelled.
unfoldable pub handle_error : Sender → Sender
handle_error s = record s { running = false }

-- What `expires_after` and `cancel` do to a pending wait: its handler is queued with an error. A wait
-- that is over has its handler queued already, and is left as it is.
unfoldable pub cancel_wait : Sender → Sender
cancel_wait s =
    if s.waiting then record s { waiting = false; tasks = s.tasks ++ (aborted ∷ []) } else s

-- The lambda of `start`.
unfoldable pub wait_again : Sender → Sender
unfolding cancel_wait
wait_again s = record (cancel_wait s) { waiting = true }

-- The time of a pending wait is over.
unfoldable pub expire : Sender → Sender
expire s = if s.waiting then record s { waiting = false; tasks = s.tasks ++ (due ∷ []) } else s

-- The queue in its order, for at most `rounds` tasks, up to a handler that is due.
unfoldable pub run_queue : ℕ → List Task → Sender → Sender
unfolding cancel_wait wait_again handle_error
run_queue zero tasks s = s
run_queue (suc rounds) [] s = s
run_queue (suc rounds) (task ∷ tasks) s =
    let next : Sender → Sender = λ t. run_queue rounds t.tasks t in
    elim task [
      | wait_on_timer ↦ next (wait_again (record s { tasks = tasks }))
      | cancel_timer ↦ next (cancel_wait (record s { tasks = tasks }))
      | aborted ↦ next (handle_error (record s { tasks = tasks }))
      | due ↦ s
    ]

-- The destructor, on a sender whose timer does not end before the queue is run: it calls `stop` and waits
-- until `running_` falls. `none` if the sender runs when the rounds are over.
unfoldable pub destroy : ℕ → Sender → Option Sender
unfolding stop run_queue
destroy rounds s =
    let t = run_queue rounds (stop s).tasks (stop s) in if t.running then none else some t
