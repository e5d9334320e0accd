-- ===== src/Rtp/Sender/Life.antt =====
-- Starting and stopping a sender around its timer and the threads that run its handlers.
use rtsp.Common.{
  ℕ, zero, suc, ◌+◌, ◌≤◌, ◌≡◌, refl, sym, ap, subst, ◌∙◌, ◌⊎◌, inl, inr, Bool, true, false, ◌&&◌,
  Option, none, some, List, [], ◌∷◌, ◌++◌, from_bool, if◌then◌else◌, Bool-cases, arith,
}
use rtsp.Rtp.Spirit.{Spirit}
use rtsp.Rtp.Sender.{
  Sender, Task, wait_on_timer, cancel_timer, aborted, due, start, stop, handle_error, cancel_wait,
  wait_again, expire, run_queue, destroy,
}
use rtsp.Rtp.Sender.Strand.{
  Runs, waits, cancels, aborts, returns, fails_with, beside, Ran, begun, starts, stops, expires,
  runs,
}
use rtsp.Rtp.Sender.Handlers.{
  handlers_in, handlers, IsLive, Ends, handlers_in-append, send_next_packet_handler-Ends,
  cancel_wait-handlers, wait_again-handlers, start-handlers, stop-handlers, expire-handlers,
}

module _ (spirit : Spirit) (uint_ : List ℕ → Option ℕ) where
  -- As many handlers, and running as before.
  kept :
      (clean : Bool) (s s' : Sender)
      → (handlers s' ≡ handlers s) × (s'.running ≡ s.running)
      → IsLive clean s
      → IsLive clean s'
  unfolding IsLive
  kept true s s' (h, r) l = h ∙ l ∙ ap from_bool (sym r)
  kept false s s' (h, r) l = rw (h, r) l

  weaker : (clean : Bool) (s : Sender) → IsLive clean s → handlers s ≤ from_bool s.running
  unfolding IsLive
  weaker true s l = omega (arith, l)
  weaker false s l = l

  start-IsLive : (clean : Bool) (s : Sender) → IsLive clean s → IsLive clean (start s)
  unfolding IsLive
  start-IsLive true s l = elim (start-handlers s) [
    | inl (on, e) ↦ rw e l
    | inr (off, on, h) ↦
        let none_left : from_bool s.running ≡ 0 = ap from_bool off in
        let one : from_bool (start s).running ≡ 1 = ap from_bool on in
        omega (arith, h, l, none_left, one)
  ]
  start-IsLive false s l = elim (start-handlers s) [
    | inl (on, e) ↦ rw e l
    | inr (off, on, h) ↦
        let none_left : from_bool s.running ≡ 0 = ap from_bool off in
        let one : from_bool (start s).running ≡ 1 = ap from_bool on in
        omega (arith, h, l, none_left, one)
  ]

  abbrev weight : Task → ℕ
  weight task = handlers_in (task ∷ [])

  -- The sender with the rest of its queue, from which a task has been taken.
  abbrev Weighed : Bool → Sender → Task → Type 0
  Weighed true s task = handlers s + weight task ≡ from_bool s.running
  Weighed false s task = handlers s + weight task ≤ from_bool s.running

  handler_alone :
      (clean : Bool) (s : Sender) (task : Task)
      → weight task ≡ 1
      → Weighed clean s task
      → (handlers s ≡ 0) × (s.running ≡ true)
  handler_alone clean s task one l = elim (Bool-cases s.running) [
    | inl on ↦
        let most : from_bool s.running ≡ 1 = ap from_bool on in
        (
          elim (Bool-cases clean) [
            | inl c ↦
                (let l' : Weighed true s task = subst (λ b. Weighed b s task) c l in
                  omega (arith, l'))
            | inr c ↦
                (let l' : Weighed false s task = subst (λ b. Weighed b s task) c l in
                  omega (arith, l'))
          ],
          on,
        )
    | inr off ↦
        let least : from_bool s.running ≡ 0 = ap from_bool off in
        elim (Bool-cases clean) [
          | inl c ↦
              (let l' : Weighed true s task = subst (λ b. Weighed b s task) c l in
                absurd (omega (arith, l')))
          | inr c ↦
              (let l' : Weighed false s task = subst (λ b. Weighed b s task) c l in
                absurd (omega (arith, l')))
        ]
  ]

  exact-IsLive : (clean : Bool) (s : Sender) → handlers s ≡ from_bool s.running → IsLive clean s
  unfolding IsLive
  exact-IsLive true s e = e
  exact-IsLive false s e = omega (arith, e)

  idle_handler : (s : Sender) → handlers s ≡ 0 → (s.waiting ≡ false) × (handlers_in s.tasks ≡ 0)
  unfolding handlers
  idle_handler s e = elim (Bool-cases s.waiting) [
    | inl on ↦ let one : from_bool s.waiting ≡ 1 = ap from_bool on in absurd (omega (arith, e))
    | inr off ↦ (off, omega (arith, e))
  ]

  handlers_of :
      (s s' : Sender) (w : Bool)
      → handlers_in s.tasks ≡ 0
      → s'.tasks ≡ s.tasks
      → s'.waiting ≡ w
      → handlers s' ≡ from_bool w
  unfolding handlers
  handlers_of s s' w none_left t e = rw (t, e) (omega (arith, none_left))

  ended :
      (clean : Bool) (s s' : Sender)
      → handlers_in s.tasks ≡ 0
      → s.running ≡ true
      → (s'.tasks ≡ s.tasks)
        × (((s'.waiting ≡ true) × (s'.running ≡ s.running))
            ⊎ ((s'.waiting ≡ false) × (s'.running ≡ false)))
      → IsLive clean s'
  ended clean s s' none_left on (t, inl (w, r)) =
      exact-IsLive clean s' (handlers_of s s' true none_left t w ∙ ap from_bool (sym (r ∙ on)))
  ended clean s s' none_left on (t, inr (w, r)) =
      exact-IsLive clean s' (handlers_of s s' false none_left t w ∙ ap from_bool (sym r))

  beside_none : (pending : Bool) (s : Sender) → pending ≡ false → beside pending s ≡ s
  unfolding beside
  beside_none pending s e = rw e refl

  Runs-IsLive :
      (clean : Bool) (s s' : Sender) (task : Task) (ok : Bool)
      → Weighed clean s task
      → Runs spirit uint_ s task ok s'
      → IsLive (ok && clean) s'
  Runs-IsLive clean s _ wait_on_timer ok l waits =
      let (none_left, on) = handler_alone clean s wait_on_timer (omega arith) l in
      let (h, r) = wait_again-handlers s in
      exact-IsLive clean (wait_again s) (omega (arith, h, none_left, ap from_bool (r ∙ on)))
  Runs-IsLive true s _ cancel_timer ok l cancels =
      kept true s (cancel_wait s) (cancel_wait-handlers s) (unfold IsLive in omega (arith, l))
  Runs-IsLive false s _ cancel_timer ok l cancels =
      kept false s (cancel_wait s) (cancel_wait-handlers s) (unfold IsLive in omega (arith, l))
  Runs-IsLive clean s _ aborted ok l aborts =
      let (none_left, on) = handler_alone clean s aborted (omega arith) l in
      exact-IsLive clean (handle_error s) (unfold handle_error handlers in none_left)
  Runs-IsLive clean s _ due ok l (returns fails fec_fails {s' = s'} {sent = sent} e) =
      let (none_left, on) = handler_alone clean s due (omega arith) l in
      let (off, empty) = idle_handler s none_left in
      rw (beside_none s.waiting s' off) (
        ended clean s s' empty on
          (subst (Ends s) e (send_next_packet_handler-Ends spirit uint_ s fails fec_fails)))
  Runs-IsLive clean s _ due ok l (fails_with fails fec_fails {s' = s'} {sent = sent} e) =
      let (none_left, on) = handler_alone clean s due (omega arith) l in
      let (off, empty) = idle_handler s none_left in
      let (t, w) =
        subst (Ends s) e (send_next_packet_handler-Ends spirit uint_ s fails fec_fails) in
      rw (beside_none s.waiting s' off)
        (unfold IsLive in omega (arith, handlers_of s s' false empty t w))

  queue-Weighed :
      (clean : Bool) (s : Sender) (before : List Task) (task : Task) (after : List Task)
      → s.tasks ≡ before ++ (task ∷ after)
      → IsLive clean s
      → Weighed clean (record s { tasks = before ++ after }) task
  unfolding IsLive handlers
  queue-Weighed true s before task after e l =
      let all = ap handlers_in e in
      let one = handlers_in-append before (task ∷ after) in
      let two = handlers_in-append before after in
      let three = handlers_in-append (task ∷ []) after in omega (arith, l, all, one, two, three)
  queue-Weighed false s before task after e l =
      let all = ap handlers_in e in
      let one = handlers_in-append before (task ∷ after) in
      let two = handlers_in-append before after in
      let three = handlers_in-append (task ∷ []) after in omega (arith, l, all, one, two, three)

  -- From a sender that is live, in every order of the calls of start and stop, of the ends of its waits
  -- and of the tasks that are queued: as long as no handler has thrown, the sender runs exactly while one
  -- wait, lambda of start or call of the handler is pending, and there never is a second one. After an
  -- exception there is at most one, and none if the sender does not run.
  pub Ran-IsLive :
      (first : Sender) {clean : Bool} {s : Sender}
      → IsLive true first
      → Ran spirit uint_ first clean s
      → IsLive clean s
  Ran-IsLive first l begun = l
  Ran-IsLive first l (starts {clean = clean} {s = s} r) =
      start-IsLive clean s (Ran-IsLive first l r)
  Ran-IsLive first l (stops {clean = clean} {s = s} r) =
      kept clean s (stop s) (stop-handlers s) (Ran-IsLive first l r)
  Ran-IsLive first l (expires {clean = clean} {s = s} r) =
      kept clean s (expire s) (expire-handlers s) (Ran-IsLive first l r)
  Ran-IsLive first l (runs {clean = clean} {ok = ok} {s = s} {s' = s'} r before task after e t) =
      Runs-IsLive clean (record s { tasks = before ++ after }) s' task ok
        (queue-Weighed clean s before task after e (Ran-IsLive first l r)) t

-- A sender that runs and waits for its timer, with nothing queued, is stopped and started again, and the
-- queue is run before the timer ends: it is left stopped, without a wait and with nothing queued.
pub stop-start-lost :
    (s : Sender)
    → s.running ≡ true
    → s.waiting ≡ true
    → s.tasks ≡ []
    → let restarted = start (stop s) in
      run_queue 2 restarted.tasks restarted
      ≡ record s { running = false; waiting = false; tasks = [] }
unfolding start stop handle_error cancel_wait run_queue
stop-start-lost s on waiting idle = rw on (rw waiting (rw idle refl))

queue_end : (rounds : ℕ) (s : Sender) → run_queue rounds [] s ≡ s
unfolding run_queue
queue_end zero s = refl
queue_end (suc rounds) s = refl

-- The destructor of a sender with nothing queued, where the queue is run in its order, for any number of
-- rounds from two on, before the timer ends: it returns for a sender that does not run, and for one that
-- waits, of which it leaves neither the wait nor anything queued; for a sender that runs without a wait,
-- as an exception leaves it, it does not return in any number of rounds.
pub destroy_lem :
    (rounds : ℕ) (s : Sender)
    → 2 ≤ rounds
    → s.tasks ≡ []
    → destroy rounds s ≡ (
        if s.running
        then (if s.waiting
            then some (record s { running = false; waiting = false; tasks = [] })
            else none)
        else some s)
unfolding destroy stop handle_error cancel_wait run_queue
destroy_lem zero s l idle = absurd (omega arith)
destroy_lem (suc zero) s l idle = absurd (omega arith)
destroy_lem (suc (suc rounds)) s l idle = elim (Bool-cases s.running) [
  | inl on ↦ elim (Bool-cases s.waiting) [
    | inl w ↦ rw on (
        rw w (
          rw idle (
            rw (queue_end rounds (record s { running = false; tasks = []; waiting = false }))
              refl)))
    | inr w ↦ rw on (rw w (rw idle refl))
  ]
  | inr off ↦ rw off (rw idle refl)
]
