-- ===== src/Rtp/Sender/Handlers.antt =====
-- The handlers of a sender that are pending, and what its operations do to their number.
use rtsp.Common.{
  ℕ, suc, ◌+◌, ◌≤◌, ◌≡◌, refl, ◌⊎◌, inl, inr, Bool, true, false, not, Option, none, some, List, [],
  ◌∷◌, ◌++◌, length, take, drop, ◌==◌, from_bool, if◌then◌else◌, if_cases, Bool-cases, Option-cases,
  ◌%◌, arith,
}
use rtsp.Rtp.Spirit.{Spirit}
use rtsp.Rtp.Packet.{CustomJpegPacket}
use rtsp.Rtp.Fec.{
  Outcome, FecGenerator, throws_logic_error, throws_out_of_range, generate_next_fec_packet,
}
use rtsp.Rtp.Fec
use rtsp.Rtp.Packet.Generator.{generate_header}
use rtsp.Rtp.Sender.{
  Sender, Task, wait_on_timer, cancel_timer, aborted, due, start, stop, cancel_wait, wait_again,
  expire,
}
use rtsp.Rtp.Sender.Sending.{
  Sent, sends, throws, reads_past_end, passes, send_next, send_fec, send_packet, next_packet,
  copy_n, send_next_packet_handler, next_fec_header,
}

-- The lambda of `start` and the calls of the handler, but not the lambda of `stop`.
abbrev pub handlers_in : List Task → ℕ
handlers_in [] = 0
handlers_in (cancel_timer ∷ tasks) = handlers_in tasks
handlers_in (_ ∷ tasks) = suc (handlers_in tasks)

-- What keeps a sender going: a pending wait, and what is queued to wait or to handle.
unfoldable pub handlers : Sender → ℕ
handlers s = from_bool s.waiting + handlers_in s.tasks

-- As long as no handler has thrown, a sender runs exactly while there is one handler, and never has
-- two. After an exception there may be none although it runs.
unfoldable pub IsLive : Bool → Sender → Type 0
IsLive true s = handlers s ≡ from_bool s.running
IsLive false s = handlers s ≤ from_bool s.running

pub handlers_in-append :
    (xs ys : List Task) → handlers_in (xs ++ ys) ≡ handlers_in xs + handlers_in ys
handlers_in-append [] ys = omega arith
handlers_in-append (wait_on_timer ∷ xs) ys = omega (arith, handlers_in-append xs ys)
handlers_in-append (cancel_timer ∷ xs) ys = omega (arith, handlers_in-append xs ys)
handlers_in-append (aborted ∷ xs) ys = omega (arith, handlers_in-append xs ys)
handlers_in-append (due ∷ xs) ys = omega (arith, handlers_in-append xs ys)

-- What a call of the handler leaves: it waits again and runs as before, or it neither waits nor runs;
-- after an exception it does not wait.
abbrev pub Ends : Sender → Sent → Type 0
Ends s (sends s' sent) =
    (s'.tasks ≡ s.tasks)
    × (((s'.waiting ≡ true) × (s'.running ≡ s.running))
        ⊎ ((s'.waiting ≡ false) × (s'.running ≡ false)))
Ends s (throws s' sent) = (s'.tasks ≡ s.tasks) × (s'.waiting ≡ false)
Ends s reads_past_end = Unit

List-cases : {A : Type 0} (xs : List A) → (xs ≡ []) ⊎ ((x : A) × (ys : List A) × (xs ≡ x ∷ ys))
List-cases [] = inl refl
List-cases (x ∷ xs) = inr (x, xs, refl)

Ends-sends :
    (s : Sender) (made : Bool) (p q : Sent) → Ends s p → Ends s q → Ends s (if made then p else q)
Ends-sends s true p q h k = h
Ends-sends s false p q h k = k

module _ (spirit : Spirit) (uint_ : List ℕ → Option ℕ) where
  send_fec-Ends :
      (s : Sender) (packet : CustomJpegPacket) (buffer : List ℕ) (sent : List (List ℕ))
      (fec_fails : Bool)
      → s.waiting ≡ false
      → Ends s (send_fec spirit uint_ s packet buffer sent fec_fails)
  unfolding send_fec send_next
  send_fec-Ends s packet buffer sent fec_fails w = elim (Option-cases s.fec_generator) [
    | inl e ↦ rw e (refl, inl (refl, refl))
    | inr (g, e) ↦
        rw e (outcome (generate_next_fec_packet spirit g buffer s.current_sequence_number))
  ]
    where
      outcome :
          (o : Outcome)
          → Ends s (elim o [
            | throws_logic_error g ↦ throws (record s { fec_generator = some g }) sent
            | throws_out_of_range g ↦ throws (record s { fec_generator = some g }) sent
            | rtsp.Rtp.Fec.returns g made ↦ elim made [
              | none ↦ sends (send_next (record s { fec_generator = some g })) sent
              | some fec_packet ↦
                  if passes s fec_fails
                  then sends
                      (send_next (record s {
                        fec_generator = some g;
                        current_fec_sequence_number = (s.current_fec_sequence_number + 1) % 65536;
                      }))
                      (sent
                        ++ (((generate_header spirit (next_fec_header s packet)).1 ++ fec_packet)
                            ∷ []))
                  else sends (send_next (record s { fec_generator = some g })) sent
            ]
          ])
      outcome (throws_logic_error g) = (refl, w)
      outcome (throws_out_of_range g) = (refl, w)
      outcome (rtsp.Rtp.Fec.returns g none) = (refl, inl (refl, refl))
      outcome (rtsp.Rtp.Fec.returns g (some fec_packet)) =
          Ends-sends s (passes s fec_fails) _ _ (refl, inl (refl, refl)) (refl, inl (refl, refl))

  pub send_next_packet_handler-Ends :
      (s : Sender) (fails fec_fails : Bool)
      → Ends s (send_next_packet_handler spirit uint_ s fails fec_fails)
  unfolding send_next_packet_handler send_packet
  send_next_packet_handler-Ends s fails fec_fails =
      if_cases (Ends s) (not (length (take 5 s.jpeg_source) == 5)) (λ e. (refl, inr (refl, refl)))
        (λ e. elim (Option-cases (uint_ (take 5 s.jpeg_source))) [
          | inl none_read ↦ rw none_read (refl, refl)
          | inr (frame_size, read) ↦ rw read (elim (List-cases (drop 5 s.jpeg_source)) [
            | inl end ↦ rw end (refl, inr (refl, refl))
            | inr (octet, octets, more) ↦
                rw more (elim (Option-cases (copy_n frame_size (octet ∷ octets))) [
                  | inl missing ↦ rw missing tt
                  | inr ((octets_read, left), copied) ↦ rw copied (
                      send_fec-Ends (record s { jpeg_source = left; waiting = false })
                        (record (next_packet s) { payload = octets_read }) _ _ fec_fails refl)
                ])
          ])
        ])

pub cancel_wait-handlers :
    (s : Sender) → (handlers (cancel_wait s) ≡ handlers s) × ((cancel_wait s).running ≡ s.running)
unfolding cancel_wait handlers
cancel_wait-handlers s = elim (Bool-cases s.waiting) [
  | inl on ↦ rw on (omega (arith, handlers_in-append s.tasks (aborted ∷ [])), refl)
  | inr off ↦ rw off (refl, refl)
]

pub wait_again-handlers :
    (s : Sender)
    → (handlers (wait_again s) ≡ suc (handlers s)) × ((wait_again s).running ≡ s.running)
unfolding cancel_wait wait_again handlers
wait_again-handlers s = elim (Bool-cases s.waiting) [
  | inl on ↦ rw on (omega (arith, handlers_in-append s.tasks (aborted ∷ [])), refl)
  | inr off ↦ rw off (omega arith, refl)
]

pub start-handlers :
    (s : Sender)
    → ((s.running ≡ true) × (start s ≡ s))
      ⊎ ((s.running ≡ false) × ((start s).running ≡ true) × (handlers (start s) ≡ suc (handlers s)))
unfolding start handlers
start-handlers s = elim (Bool-cases s.running) [
  | inl on ↦ inl (on, rw on refl)
  | inr off ↦
      inr (rw off (refl, refl, omega (arith, handlers_in-append s.tasks (wait_on_timer ∷ []))))
]

pub stop-handlers : (s : Sender) → (handlers (stop s) ≡ handlers s) × ((stop s).running ≡ s.running)
unfolding stop handlers
stop-handlers s = elim (Bool-cases s.running) [
  | inl on ↦ rw on (omega (arith, handlers_in-append s.tasks (cancel_timer ∷ [])), refl)
  | inr off ↦ rw off (refl, refl)
]

pub expire-handlers :
    (s : Sender) → (handlers (expire s) ≡ handlers s) × ((expire s).running ≡ s.running)
unfolding expire handlers
expire-handlers s = elim (Bool-cases s.waiting) [
  | inl on ↦ rw on (omega (arith, handlers_in-append s.tasks (due ∷ [])), refl)
  | inr off ↦ rw off (refl, refl)
]
