-- ===== src/Control/Shutdown.antt =====
-- examples/l2fwd-2link-multicore.rs and examples/rxdrop.rs: what becomes of the workers when the controller
-- leaves its loop.
use afxdp_rs.Prelude.{
  ℕ, zero, suc, ◌+◌, ◌<◌, ◌≡◌, refl, ap, sym, ◌∙◌, Bool, true, false, Option, none, some, List, [],
  ◌∷◌, ◌++◌, replicate, get_elem?, length, length-replicate, arith, if◌then◌else◌,
}
use afxdp_rs.Rust.{Outcome, value, panic, ◌>>=◌}
use afxdp_rs.Extern.Channel.{Channel, ChannelLaws}
use afxdp_rs.Extern.Clock.{Clock}
use afxdp_rs.Control.{
  Command, exit, get_stats, Mailbox, run_worker, tell, poll_responses, Controller, finish_round,
  control_round,
}
use afxdp_rs.Control.Worker.{Serves, worker_leaves, worker_stays}

module _ {R : Type 0} (cmd : Channel Command) (resp : Channel R) where
  -- Telling reaches each queue, and taking the responses leaves the commands alone.
  tell-get_elem? :
      (c : Command) (ms : List (Mailbox cmd resp)) (i : ℕ) (m : Mailbox cmd resp)
      → get_elem? ms i ≡ some m
      → get_elem? (tell cmd resp c ms) i ≡ some (record m { commands = (cmd.push m.commands c).1 })
  unfolding tell
  tell-get_elem? c [] i m e = absurd (cc)
  tell-get_elem? c (n ∷ ms) zero m e =
      ap
        (λ (o : Option (Mailbox cmd resp)). elim o [
          | none ↦ none
          | some k ↦ some (record k { commands = (cmd.push k.commands c).1 })
        ])
        e
  tell-get_elem? c (n ∷ ms) (suc i) m e = tell-get_elem? c ms i m e

  poll_responses-get_elem? :
      (ms : List (Mailbox cmd resp)) (i : ℕ) (m : Mailbox cmd resp)
      → get_elem? ms i ≡ some m
      → get_elem? (poll_responses cmd resp ms).1 i
        ≡ some (record m { responses = (resp.pop m.responses).1 })
  unfolding poll_responses
  poll_responses-get_elem? [] i m e = absurd (cc)
  poll_responses-get_elem? (n ∷ ms) zero m e =
      ap
        (λ (o : Option (Mailbox cmd resp)). elim o [
          | none ↦ none
          | some k ↦ some (record k { responses = (resp.pop k.responses).1 })
        ])
        e
  poll_responses-get_elem? (n ∷ ms) (suc i) m e = poll_responses-get_elem? ms i m e

module _ {R S Row : Type 0} (cmd : Channel Command) (resp : Channel R) (k : Clock) (core : R → ℕ)
    (state : ℕ → R → S) (diff : ℕ → S → S → Outcome Row) (l : ChannelLaws cmd) where
  abbrev State : Type 0
  State = Controller cmd resp k core state diff

  abbrev queues_or :
      List (Mailbox cmd resp) → Outcome (Bool × List Row × State) → List (Mailbox cmd resp)
  queues_or ms (value (left, rows, s)) = s.queues
  queues_or ms (panic p) = ms

  -- The queues that a round leaves do not depend on what it prints.
  queues-bind :
      (leave left : Bool) (ms : List (Mailbox cmd resp))
      (o : Outcome (List Row × List (ℕ × S) × k.Time)) (rows : List Row) (s' : State)
      → (o >>= finish_round cmd resp k core state diff leave ms) ≡ value (left, rows, s')
      → tell cmd resp (if leave then exit else get_stats) ms ≡ s'.queues
  queues-bind leave left ms (value a) rows s' e = ap (queues_or ms) e
  queues-bind leave left ms (panic p) rows s' e = absurd (cc)

  -- After a round, each worker's queue has the command in it that the round sent.
  round-get_elem? :
      (leave left : Bool) (s s' : State) (rows : List Row)
      → control_round cmd resp k core state diff leave s ≡ value (left, rows, s')
      → (i : ℕ) (m : Mailbox cmd resp) → get_elem? s.queues i ≡ some m
      → (m' : Mailbox cmd resp) × (get_elem? s'.queues i ≡ some m')
        × (m'.commands ≡ (cmd.push m.commands (if leave then exit else get_stats)).1)
  unfolding control_round
  round-get_elem? leave left s s' rows r i m e =
      let command = if leave then exit else get_stats in
      let polled = (poll_responses cmd resp s.queues).1 in
      let taken : Mailbox cmd resp = record m { responses = (resp.pop m.responses).1 } in
      let at =
        tell-get_elem? cmd resp command polled i taken
          (poll_responses-get_elem? cmd resp s.queues i m e) in
      let same = queues-bind leave left polled _ rows s' r in
      (
        record taken { commands = (cmd.push m.commands command).1 },
        ap (λ (ms : List (Mailbox cmd resp)). get_elem? ms i) (sym same) ∙ at,
        refl,
      )

  module _ {W : Type 0} (P : W → Type 0) (serve : W → Outcome W) (report : W → R)
      (serves : Serves P serve) where
    -- When the controller leaves its loop, a worker whose queue has room, with nothing in it but requests of
    -- its counters and with rounds that do not panic, leaves its loop too, after one round for each of these
    -- requests. What its rounds keep then holds.
    pub shutdown_ends :
        (s s' : State) (left : Bool) (rows : List Row)
        → control_round cmd resp k core state diff true s ≡ value (left, rows, s')
        → (i asked : ℕ) (m : Mailbox cmd resp) → get_elem? s.queues i ≡ some m
        → l.items m.commands ≡ replicate asked get_stats
        → asked < l.capacity m.commands
        → (w : W) → P w
        → (m' : Mailbox cmd resp) × (get_elem? s'.queues i ≡ some m')
          × ((fuel : ℕ)
              → (m'' : Mailbox cmd resp) × (w' : W) × (run_worker cmd resp serve report
                    (asked + suc fuel)
                    m'
                    w
                  ≡ value (true, m'', w'))
                × P w')
    shutdown_ends s s' left rows r i asked m e only room w h =
        let (m', at, sent) = round-get_elem? true left s s' rows r i m e in
        let short : length (l.items m.commands) < l.capacity m.commands =
          omega (arith, ap length only, length-replicate asked get_stats) in
        let items : l.items m'.commands ≡ replicate asked get_stats ++ exit ∷ [] =
          ap l.items sent
          ∙ l.push_items m.commands exit short
          ∙ ap (λ (cs : List Command). cs ++ exit ∷ []) only in
        (
          m',
          at,
          λ fuel.
              let (m'', w', ran, h', rest) =
                worker_leaves cmd resp l P serve report serves asked fuel m' w [] items h in
              (m'', w', ran, h'),
        )

    -- A worker whose queue is full of requests of its counters, and whose rounds do not panic, is not told when the
    -- controller leaves its loop: it is still in its own loop after any number of rounds.
    pub shutdown_lost :
        (s s' : State) (left : Bool) (rows : List Row)
        → control_round cmd resp k core state diff true s ≡ value (left, rows, s')
        → (i asked : ℕ) (m : Mailbox cmd resp) → get_elem? s.queues i ≡ some m
        → l.items m.commands ≡ replicate asked get_stats
        → asked ≡ l.capacity m.commands
        → (w : W) → P w
        → (m' : Mailbox cmd resp) × (get_elem? s'.queues i ≡ some m')
          × ((fuel : ℕ)
              → (m'' : Mailbox cmd resp) × (w' : W) × (run_worker cmd resp serve report fuel m' w
                  ≡ value (false, m'', w')))
    shutdown_lost s s' left rows r i asked m e only full w h =
        let (m', at, sent) = round-get_elem? true left s s' rows r i m e in
        let all : length (l.items m.commands) ≡ l.capacity m.commands =
          omega (arith, ap length only, length-replicate asked get_stats) in
        let items : l.items m'.commands ≡ replicate asked get_stats =
          ap l.items sent ∙ l.push_full_items m.commands exit all ∙ only in
        (
          m',
          at,
          λ fuel.
              let (m'', w', ran, h') =
                worker_stays cmd resp l P serve report serves asked fuel m' w items h in
              (m'', w', ran),
        )
