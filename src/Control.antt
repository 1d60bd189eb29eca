-- ===== src/Control.antt =====
-- examples/l2fwd-2link-multicore.rs and examples/rxdrop.rs: how the controller thread and the worker threads
-- talk to each other. The two files do it alike; they differ in what a worker reports, `R`, and in the rows
-- that the controller computes from two reports, `Row`.
pub mod Worker
pub mod Shutdown
pub mod Shared
pub mod Stock
pub mod Names
pub mod Unlink
pub mod Table
pub mod Report
pub mod OneCore
pub mod Interleaved
use afxdp_rs.Prelude.{
  ℕ, zero, suc, Bool, true, false, Option, none, some, List, [], ◌∷◌, ◌++◌, map, ◌==◌, ◌-◌, ◌/◌,
  leb, if◌then◌else◌,
}
use afxdp_rs.Rust.{Outcome, value, panic, unwrap, ◌>>=◌}
use afxdp_rs.Extern.Channel.{Channel}
use afxdp_rs.Extern.Clock.{Clock, second}

-- A time is in nanoseconds: `now.duration_since(earlier).unwrap().as_secs()`
abbrev pub secs_since : ℕ → ℕ → Outcome ℕ
secs_since now earlier = if leb earlier now then value ((now - earlier) / second) else panic unwrap

pub data Command : Type 0 where
  exit get_stats : Command

-- The two queues between the controller and one worker. Each thread has one end of each (`WorkerQueues`,
-- `ControllerQueues`).
pub record Mailbox {R : Type 0} (cmd : Channel Command) (resp : Channel R) : Type 0 where
  pub commands : cmd.Queue
  pub responses : resp.Queue

module _ {R : Type 0} (cmd : Channel Command) (resp : Channel R) where
  pub new_mailbox : Mailbox cmd resp
  new_mailbox = record { commands = cmd.new 2; responses = resp.new 2 }

  -- What a worker does first in each round of its loop: whether it leaves the loop, and the queues. A
  -- response that finds no room is dropped with a message.
  pub poll_command : R → Mailbox cmd resp → Bool × Mailbox cmd resp
  poll_command report m =
      obey (cmd.pop m.commands).0 (record m { commands = (cmd.pop m.commands).1 })
    where
      obey : Option Command → Mailbox cmd resp → Bool × Mailbox cmd resp
      obey none m = (false, m)
      obey (some exit) m = (true, m)
      obey (some get_stats) m = (false, record m { responses = (resp.push m.responses report).1 })

  -- `for qs in &mut queues { qs.command_producer.push(command) }`. A command that finds no room is dropped
  -- with a message.
  unfoldable pub tell : Command → List (Mailbox cmd resp) → List (Mailbox cmd resp)
  tell command [] = []
  tell command (m ∷ ms) = record m { commands = (cmd.push m.commands command).1 } ∷ tell command ms

  -- "Look for stats to print": one response from each queue at most.
  unfoldable pub poll_responses : List (Mailbox cmd resp) → List R × List (Mailbox cmd resp)
  poll_responses [] = ([], [])
  poll_responses (m ∷ ms) =
      let (msg, responses) = resp.pop m.responses in
      let (stats, rest) = poll_responses ms in
      (
        elim msg [ none ↦ stats | some stat ↦ stat ∷ stats ],
        record m { responses = responses } ∷ rest,
      )

-- The loop of a worker: `serve` is the body after its first part, `report` the response to `GetStats`.
module _ {R W : Type 0} (cmd : Channel Command) (resp : Channel R) (serve : W → Outcome W)
    (report : W → R) where
  -- Where the first part does not leave the loop, the others follow.
  abbrev go_on :
      Bool × Mailbox cmd resp
      → W
      → (Mailbox cmd resp → Outcome (Bool × Mailbox cmd resp × W))
      → Outcome (Bool × Mailbox cmd resp × W)
  go_on (true, m) w later = value (true, m, w)
  go_on (false, m) w later = later m

  -- For `fuel` rounds at most: whether the loop was left.
  pub run_worker : ℕ → Mailbox cmd resp → W → Outcome (Bool × Mailbox cmd resp × W)
  run_worker zero m w = value (false, m, w)
  run_worker (suc fuel) m w =
      go_on (poll_command cmd resp (report w) m) w (λ m'. serve w >>= λ w'. run_worker fuel m' w')

-- `HashMap::get` and `HashMap::insert`.
abbrev pub get {ℓ} : {S : Type ℓ} → ℕ → List (ℕ × S) → Option S
get key [] = none
get key ((k, s) ∷ entries) = if k == key then some s else get key entries

abbrev pub insert {ℓ} : {S : Type ℓ} → ℕ → S → List (ℕ × S) → List (ℕ × S)
insert key s [] = (key, s) ∷ []
insert key s ((k, t) ∷ entries) =
    if k == key then (k, s) ∷ entries else (k, t) ∷ insert key s entries

-- `core`: the worker of a report. `state time report`: a `StatState`. `diff now current old`:
-- `StatState::diff`, at the time `now`.
module _ {R S Row : Type 0} (cmd : Channel Command) (resp : Channel R) (k : Clock) (core : R → ℕ)
    (state : ℕ → R → S) (diff : ℕ → S → S → Outcome Row) where
  -- `match r { Some(old) => .., None => .. }`: the row, where there is an older state of the worker.
  abbrev pub row_of : Option S → S → k.Time → Outcome (List Row × k.Time)
  row_of none current t = value ([], t)
  row_of (some old) current t =
      let (now, t') = k.now t in diff now current old >>= λ d. value (d ∷ [], t')

  -- `for stat in &pending_stats`: the rows, the map, and the clock.
  unfoldable pub report_stats :
      List R → List (ℕ × S) → List Row → k.Time → Outcome (List Row × List (ℕ × S) × k.Time)
  report_stats [] map rows t = value (rows, map, t)
  report_stats (stat ∷ stats) map rows t = do
    let (time, t') = k.now t
    let current = state time stat
    (new, t'') ← row_of (get (core stat) map) current t'
    report_stats stats (insert (core stat) current map) (rows ++ new) t''

  -- What the controller keeps. `pending_stats` is empty between two rounds.
  pub record Controller : Type 0 where
    pub queues : List (Mailbox cmd resp)
    pub map : List (ℕ × S)
    pub time : k.Time

  -- The end of the round: the commands are sent.
  abbrev pub finish_round :
      Bool
      → List (Mailbox cmd resp)
      → List Row × List (ℕ × S) × k.Time
      → Outcome (Bool × List Row × Controller)
  finish_round leave queues (rows, map, t) = value (
    leave,
    rows,
    record {
      queues = tell cmd resp (if leave then exit else get_stats) queues;
      map = map;
      time = t;
    },
  )

  -- The body of the controller's `loop`, `leave` being what it reads from `exit`: whether it leaves the
  -- loop, and the rows that it prints.
  unfoldable pub control_round : Bool → Controller → Outcome (Bool × List Row × Controller)
  control_round leave s =
      let t = k.sleep 1 s.time in
      let (pending_stats, queues) = poll_responses cmd resp s.queues in
      report_stats pending_stats s.map [] t >>= finish_round leave queues
