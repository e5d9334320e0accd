-- ===== src/Rtp/Sender/Tests.antt =====
-- A sender that runs, and the witnesses of the theorems about its life.
use rtsp.Common.{ℕ, ◌+◌, ◌-◌, ◌*◌, Option, some, ◌∷◌, List, true, false, none, [], ◌≡◌, refl, arith}
use rtsp.Rtp.Spirit.{big_endian}
use rtsp.Rtp.Sender.Sending.{sends, send_next_packet_handler, stopped}
use rtsp.Rtp.Sender.Frames.{Frame, file_of, send_times, Carries, send_times-Carries}
use rtsp.Rtp.Sender.{
  Sender, wait_on_timer, due, start, stop, cancel_wait, wait_again, expire, run_queue, destroy,
}
use rtsp.Rtp.Sender.Strand.{Ran, begun, starts, expires, runs, waits, returns, beside}
use rtsp.Rtp.Sender.Handlers.{IsLive, handlers}
use rtsp.Rtp.Sender.Life.{Ran-IsLive, stop-start-lost, destroy_lem}

abbrev sending : Sender
sending = record {
  destination = (2130706433, 49152);
  source_port = 49154;
  ssrc = 77;
  jpeg_source = [];
  running = true;
  channel_failure_distribution = none;
  fec_generator = none;
  current_sequence_number = 1336;
  current_fec_sequence_number = 0;
  tasks = [];
  waiting = true;
}

-- Five decimal digits.
abbrev uint_ : List ℕ → Option ℕ
uint_ (a ∷ b ∷ c ∷ d ∷ e ∷ []) =
    some ((a - 48) * 10000 + (b - 48) * 1000 + (c - 48) * 100 + (d - 48) * 10 + (e - 48))
uint_ _ = none

abbrev idle : Sender
idle = record sending { running = false; waiting = false }

-- The sender is started, waits, and its handler finds the end of the file.
ended_run : Ran big_endian uint_ idle true (record idle { running = false })
unfolding start wait_again cancel_wait expire send_next_packet_handler beside
ended_run =
    runs (expires (runs (starts begun) [] wait_on_timer [] refl waits)) [] due [] refl
      (returns false false refl)

Ran-IsLive_example : IsLive true (record idle { running = false })
unfolding IsLive handlers
Ran-IsLive_example = Ran-IsLive big_endian uint_ idle refl ended_run

stop-start-lost_example :
    run_queue 2 (start (stop sending)).tasks (start (stop sending))
    ≡ record sending { running = false; waiting = false; tasks = [] }
stop-start-lost_example = stop-start-lost sending refl refl refl

destroy_lem_example : destroy 2 sending ≡ some (record sending { running = false; waiting = false })
destroy_lem_example = destroy_lem 2 sending (omega arith) refl

-- `00002` and two octets, `00001` and one octet.
abbrev two_frames : List Frame
two_frames =
    (48 ∷ 48 ∷ 48 ∷ 48 ∷ 50 ∷ [], 255 ∷ 216 ∷ []) ∷ (48 ∷ 48 ∷ 48 ∷ 48 ∷ 49 ∷ [], 7 ∷ []) ∷ []

abbrev reading : Sender
reading = record sending { jpeg_source = file_of two_frames; current_sequence_number = 65535 }

send_times-Carries_example :
    (s' : Sender) × (sent : List (List ℕ)) × (send_times big_endian uint_ 2 reading
      ≡ some (s', sent))
    × Carries big_endian uint_ 77 65535 two_frames sent
    × (send_next_packet_handler big_endian uint_ s' false false ≡ sends (stopped s') [])
send_times-Carries_example =
    send_times-Carries big_endian uint_ two_frames reading
      (record {
        no_channel = refl;
        no_fec = refl;
        ssrc_range = omega arith;
        sequence_range = omega arith;
      })
      (
        record {
          five_characters = refl;
          reads_as_length = refl;
          some_data = omega arith;
          octets = (omega arith, (omega arith, tt));
        },
        (
          record {
            five_characters = refl;
            reads_as_length = refl;
            some_data = omega arith;
            octets = (omega arith, tt);
          },
          tt,
        ),
      )
      refl
