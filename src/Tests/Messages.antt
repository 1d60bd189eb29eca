-- ===== src/Tests/Messages.antt =====
-- The theorems on the messages between the threads at a concrete controller with the rates of
-- examples/l2fwd-2link-multicore.rs.
use afxdp_rs.Prelude.{
  ℕ, suc, ◌+◌, ◌≤◌, ◌≡◌, refl, true, false, List, [], ◌∷◌, arith, get_elem?, some,
}
use afxdp_rs.Rust.{Outcome, value, panic, division}
use afxdp_rs.L2fwd.{Stats}
use afxdp_rs.Multicore.{StatsMessage, StatState, StatsRow, stat_state, diff}
use afxdp_rs.Multicore.Rates.{diff-value, diff-panic}
use afxdp_rs.Control.{
  Command, exit, get_stats, Mailbox, run_worker, tell, poll_responses, report_stats, Controller,
  control_round,
}
use afxdp_rs.Control.Worker.{Serves}
use afxdp_rs.Control.Shutdown.{shutdown_ends, shutdown_lost}
use afxdp_rs.Control.Interleaved.{Runs, still, answers, poll_at, controller_returns}
use afxdp_rs.Control.OneCore.{same_core-panic}
use afxdp_rs.Tests.Channels.{channel, channel_laws, clock, clock_laws}

abbrev no_stats : Stats
no_stats = record { cq_bufs_received = 0; fq_bufs_filled = 0; rx_packets = 0; tx_packets = 0 }

abbrev message : ℕ → StatsMessage
message core = record { core = core; stats = (no_stats, no_stats) }

abbrev core_of : StatsMessage → ℕ
core_of r = r.core

abbrev time_of : StatState → ℕ
time_of s = s.time

abbrev Box : Type 0
Box = Mailbox (channel Command) (channel StatsMessage)

abbrev box : List Command → List StatsMessage → Box
box commands responses = record { commands = (commands, 2); responses = (responses, 2) }

abbrev Control : Type 0
Control = Controller (channel Command) (channel StatsMessage) clock core_of stat_state (diff false)

abbrev control : List Box → List (ℕ × StatState) → ℕ → Control
control queues map time = record { queues = queues; map = map; time = time }

-- A worker that only counts its rounds.
abbrev counts : ℕ → Outcome ℕ
counts w = value (suc w)

counts-Serves : Serves (λ (w : ℕ). 7 ≤ w) counts
counts-Serves w h = (suc w, refl, omega (arith, h))

leaves_one :
    control_round
      (channel Command)
      (channel StatsMessage)
      clock
      core_of
      stat_state
      (diff false)
      true
      (control (box (get_stats ∷ []) [] ∷ []) [] 0)
    ≡ value (true, [], control (box (get_stats ∷ exit ∷ []) [] ∷ []) [] 1000000000)
unfolding control_round tell poll_responses report_stats
leaves_one = refl

shutdown_ends_example :
    (m : Box) × (get_elem? (box (get_stats ∷ exit ∷ []) [] ∷ []) 0 ≡ some m)
    × ((fuel : ℕ)
        → (m' : Box) × (w : ℕ) × (run_worker
              (channel Command)
              (channel StatsMessage)
              counts
              message
              (1 + suc fuel)
              m
              7
            ≡ value (true, m', w))
          × (7 ≤ w))
shutdown_ends_example =
    shutdown_ends (channel Command) (channel StatsMessage) clock core_of stat_state (diff false)
      (channel_laws Command) (λ (w : ℕ). 7 ≤ w) counts message counts-Serves
      (control (box (get_stats ∷ []) [] ∷ []) [] 0)
      (control (box (get_stats ∷ exit ∷ []) [] ∷ []) [] 1000000000) true [] leaves_one 0 1
      (box (get_stats ∷ []) []) refl refl (omega arith) 7 (omega arith)

leaves_full :
    control_round
      (channel Command)
      (channel StatsMessage)
      clock
      core_of
      stat_state
      (diff false)
      true
      (control (box (get_stats ∷ get_stats ∷ []) [] ∷ []) [] 0)
    ≡ value (true, [], control (box (get_stats ∷ get_stats ∷ []) [] ∷ []) [] 1000000000)
unfolding control_round tell poll_responses report_stats
leaves_full = refl

shutdown_lost_example :
    (m : Box) × (get_elem? (box (get_stats ∷ get_stats ∷ []) [] ∷ []) 0 ≡ some m)
    × ((fuel : ℕ)
        → (m' : Box) × (w : ℕ) × (run_worker
              (channel Command)
              (channel StatsMessage)
              counts
              message
              fuel
              m
              7
            ≡ value (false, m', w)))
shutdown_lost_example =
    shutdown_lost (channel Command) (channel StatsMessage) clock core_of stat_state (diff false)
      (channel_laws Command) (λ (w : ℕ). 7 ≤ w) counts message counts-Serves
      (control (box (get_stats ∷ get_stats ∷ []) [] ∷ []) [] 0)
      (control (box (get_stats ∷ get_stats ∷ []) [] ∷ []) [] 1000000000) true [] leaves_full 0 2
      (box (get_stats ∷ get_stats ∷ []) []) refl refl refl 7 (omega arith)

abbrev two_cores : Control
two_cores =
    control (box [] (message 1 ∷ []) ∷ box (get_stats ∷ []) (message 2 ∷ []) ∷ [])
      ((1, stat_state 5 (message 1)) ∷ []) 6

-- The second worker answers.
answered :
    Runs
      (channel Command)
      (channel StatsMessage)
      clock
      core_of
      stat_state
      (diff false)
      clock_laws
      time_of
      (channel_laws StatsMessage)
      (1 ∷ 2 ∷ [])
      two_cores
      (record two_cores {
        queues = poll_at (channel Command) (channel StatsMessage) 1 (message 2) two_cores.queues;
      })
answered = answers two_cores 1 (message 2) still refl

controller_returns_example :
    (rows : List (StatsRow × StatsRow)) × (s : Control) × (control_round
        (channel Command)
        (channel StatsMessage)
        clock
        core_of
        stat_state
        (diff false)
        false
        (record two_cores {
          queues = poll_at (channel Command) (channel StatsMessage) 1 (message 2) two_cores.queues;
        })
      ≡ value (false, rows, s))
controller_returns_example =
    controller_returns (channel Command) (channel StatsMessage) clock core_of stat_state
      (diff false) clock_laws time_of (channel_laws StatsMessage) (1 ∷ 2 ∷ []) (λ time r. refl)
      diff-value two_cores
      (record two_cores {
        queues = poll_at (channel Command) (channel StatsMessage) 1 (message 2) two_cores.queues;
      })
      (((λ e. absurd (omega (arith, e))), tt), (tt, tt)) ((refl, tt), ((refl, tt), tt))
      (omega arith, tt) answered false

same_core-panic_example :
    report_stats
      (channel Command)
      (channel StatsMessage)
      clock
      core_of
      stat_state
      (diff false)
      (message 3 ∷ message 3 ∷ [])
      []
      []
      40
    ≡ panic division
same_core-panic_example =
    same_core-panic (channel Command) (channel StatsMessage) clock core_of stat_state (diff false)
      time_of (λ time r. refl) division
      (λ now current old past early. diff-panic now current old past early) (message 3) (message 3)
      [] [] [] [] 40 40 refl refl (omega arith, omega arith)
