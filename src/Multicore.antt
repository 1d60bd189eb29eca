-- ===== src/Multicore.antt =====
-- examples/l2fwd-2link-multicore.rs: worker threads that each forward between two links, and what they report.
-- The file writes `State`, `Stats`, `forward` and the parts of the loop as examples/l2fwd-2link.rs does.
pub mod Setup
pub mod Rates
pub mod Serving
pub mod Ready
pub mod Config
use afxdp_rs.Prelude.{ℕ, ◌/◌, Bool, if◌then◌else◌, ◌==◌}
use afxdp_rs.Rust.{Outcome, value, panic, division, ◌>>=◌, sub}
use afxdp_rs.Rust.Vec.{Vec}
use afxdp_rs.Buf.Mmap.{BufMmap}
use afxdp_rs.Extern.Deque.{ArrayDeque}
use afxdp_rs.Extern.Sys.{Sys}
use afxdp_rs.Umem.{UmemCompletionQueue, UmemFillQueue}
use afxdp_rs.Socket.{SocketRx, SocketTx}
use afxdp_rs.L2fwd.{Stats, BufCustom, Link, turn}
use afxdp_rs.L2fwd.Setup.{new_link, initial_fill, ring_size}
use afxdp_rs.Control.{secs_since}
use afxdp_rs.Control.Shared.{BufferPool, take_bufs}

pub record StatsRow : Type 0 where
  pub core : ℕ
  pub tx_packets : ℕ
  pub tx_packets_rate : ℕ
  pub rx_packets : ℕ
  pub rx_packets_rate : ℕ

-- Also the one variant of `Response`.
pub record StatsMessage : Type 0 where
  pub core : ℕ
  pub stats : Stats × Stats

-- A time in nanoseconds.
pub record StatState : Type 0 where
  pub time : ℕ
  pub stats : StatsMessage

-- `diff / time_diff`
abbrev pub per_second : ℕ → ℕ → Outcome ℕ
per_second packets seconds = if seconds == 0 then panic division else value (packets / seconds)

-- The body of the loop of `diff` over the two links.
pub diff_row : Bool → ℕ → ℕ → Stats → Stats → Outcome StatsRow
diff_row checks core time_diff stats b = do
  sent ← sub checks 64 stats.tx_packets b.tx_packets
  tx_rate ← per_second sent time_diff
  received ← sub checks 64 stats.rx_packets b.rx_packets
  rx_rate ← per_second received time_diff
  value (record {
    core = core;
    tx_packets = stats.tx_packets;
    tx_packets_rate = tx_rate;
    rx_packets = stats.rx_packets;
    rx_packets_rate = rx_rate;
  })

-- `StatState::diff`, at the time `now`.
unfoldable pub diff : Bool → ℕ → StatState → StatState → Outcome (StatsRow × StatsRow)
diff checks now self b = do
  time_diff ← secs_since now b.time
  first ← diff_row checks self.stats.core time_diff self.stats.stats.0 b.stats.stats.0
  second ← diff_row checks self.stats.core time_diff self.stats.stats.1 b.stats.stats.1
  value (first, second)

abbrev pub stat_state : ℕ → StatsMessage → StatState
stat_state time stats = record { time = time; stats = stats }

pub record WorkerConfig (sys : Sys) : Type 0 where
  pub core : ℕ
  pub link1_rx : SocketRx sys.rx
  pub link1_tx : SocketTx sys.tx
  pub link1_cq : UmemCompletionQueue sys.comp
  pub link1_fq : UmemFillQueue sys.fill
  pub link2_rx : SocketRx sys.rx
  pub link2_tx : SocketTx sys.tx
  pub link2_cq : UmemCompletionQueue sys.comp
  pub link2_fq : UmemFillQueue sys.fill

-- The variables of `do_worker`, with the arrays' two links.
pub record Worker (sys : Sys) (d : ArrayDeque (BufMmap BufCustom)) : Type 0 where
  pub core : ℕ
  pub first : Link sys d
  pub second : Link sys d
  pub bufs : Vec (BufMmap BufCustom)
  pub world : sys.World

module _ (sys : Sys) (checks : Bool) (d : ArrayDeque (BufMmap BufCustom)) where
  -- `do_worker` up to its loop, with the pool that it leaves for the other workers.
  unfoldable pub begin :
      WorkerConfig sys → BufferPool → sys.World → Outcome (Worker sys d × BufferPool)
  begin config bp world = do
    let (bufs, bp) = take_bufs bp
    (link1_fq, bufs) ← initial_fill sys checks config.link1_fq bufs ring_size
    (link2_fq, bufs) ← initial_fill sys checks config.link2_fq bufs ring_size
    value (
      record {
        core = config.core;
        first = new_link sys d config.link1_cq link1_fq config.link1_rx config.link1_tx;
        second = new_link sys d config.link2_cq link2_fq config.link2_rx config.link2_tx;
        bufs = bufs;
        world = world;
      },
      bp,
    )

  -- "Each worker needs to service" both links: `for pos in 0..2`.
  unfoldable pub serve : Worker sys d → Outcome (Worker sys d)
  serve w = do
    (first, second, bufs, world) ← turn sys checks d w.world w.first w.second w.bufs
    (second, first, bufs, world) ← turn sys checks d world second first bufs
    value (record w { first = first; second = second; bufs = bufs; world = world })

-- The response to `GetStats`.
pub report : (sys : Sys) (d : ArrayDeque (BufMmap BufCustom)) → Worker sys d → StatsMessage
report sys d w = record { core = w.core; stats = (w.first.stats, w.second.stats) }
