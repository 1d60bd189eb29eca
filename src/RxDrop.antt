-- ===== src/RxDrop.antt =====
-- examples/rxdrop.rs: worker threads that count the packets of a link and put them back into their pool, and the
-- rates that the controller prints. `BufCustom` and the constants are those of examples/l2fwd-2link.rs.
pub mod Rates
pub mod Setup
pub mod Serving
pub mod Kernel
pub mod Ready
pub mod Config
use afxdp_rs.Prelude.{ℕ, ◌/◌, Bool, List, [], ◌∷◌, if◌then◌else◌, ◌==◌, leb, ltb}
use afxdp_rs.Rust.{Outcome, value, panic, division, ◌>>=◌, add, sub}
use afxdp_rs.Rust.Vec.{Vec, push_all}
use afxdp_rs.Buf.Mmap.{BufMmap}
use afxdp_rs.Extern.Deque.{ArrayDeque}
use afxdp_rs.Extern.Sys.{Sys}
use afxdp_rs.Umem.{UmemFillQueue, fill, needs_wakeup}
use afxdp_rs.Socket.{SocketRx}
use afxdp_rs.Socket.Rx.{wake, try_recv}
use afxdp_rs.L2fwd.{BufCustom, buf_custom, or_panic, socket_batch_size, fill_threshold}
use afxdp_rs.L2fwd.Setup.{initial_fill, ring_size}
use afxdp_rs.Control.{secs_since}
use afxdp_rs.Control.Shared.{BufferPool, take_bufs}

pub record Stats : Type 0 where
  pub cq_bufs_received : ℕ
  pub fq_bufs_filled : ℕ
  pub rx_packets : ℕ
  pub tx_packets : ℕ

pub record StatsRow : Type 0 where
  pub core : ℕ
  pub rx_packets : ℕ
  pub rx_packets_rate : ℕ

-- Also the one variant of `Response`.
pub record StatsMessage : Type 0 where
  pub core : ℕ
  pub stats : Stats

-- A time in nanoseconds.
pub record StatState : Type 0 where
  pub time : ℕ
  pub stats : StatsMessage

-- `StatState::diff`, at the time `now`.
unfoldable pub diff : Bool → ℕ → StatState → StatState → Outcome StatsRow
diff checks now self b = do
  time_diff ← secs_since now b.time
  packets ← sub checks 64 self.stats.stats.rx_packets b.stats.stats.rx_packets
  if time_diff == 0
      then panic division
      else value (record {
        core = self.stats.core;
        rx_packets = self.stats.stats.rx_packets;
        rx_packets_rate = packets / time_diff;
      })

abbrev pub stat_state : ℕ → StatsMessage → StatState
stat_state time stats = record { time = time; stats = stats }

pub record State (sys : Sys) : Type 0 where
  pub fq : UmemFillQueue sys.fill
  pub rx : SocketRx sys.rx
  pub fq_deficit : ℕ

pub record WorkerConfig (sys : Sys) : Type 0 where
  pub core : ℕ
  pub link_rx : SocketRx sys.rx
  pub link_fq : UmemFillQueue sys.fill

-- The variables of `do_worker`.
pub record Worker (sys : Sys) (d : ArrayDeque (BufMmap BufCustom)) : Type 0 where
  pub core : ℕ
  pub state : State sys
  pub stats : Stats
  pub pending : d.Deque
  pub bufs : Vec (BufMmap BufCustom)
  pub world : sys.World

module _ (sys : Sys) (checks : Bool) (d : ArrayDeque (BufMmap BufCustom)) where
  -- `do_worker` up to its loop, with the pool that it leaves for the other workers.
  unfoldable pub begin :
      WorkerConfig sys → BufferPool → sys.World → Outcome (Worker sys d × BufferPool)
  begin config bp world = do
    let (bufs, bp) = take_bufs bp
    (link_fq, bufs) ← initial_fill sys checks config.link_fq bufs ring_size
    value (
      record {
        core = config.core;
        state = record { fq = link_fq; rx = config.link_rx; fq_deficit = 0 };
        stats = record { cq_bufs_received = 0; fq_bufs_filled = 0; rx_packets = 0; tx_packets = 0 };
        pending = d.new;
        bufs = bufs;
        world = world;
      },
      bp,
    )

  -- "Receive"
  unfoldable pub receive_part : Worker sys d → Outcome (Worker sys d)
  receive_part w = do
    (r, rx, pending) ← try_recv sys.rx checks d w.state.rx w.pending socket_batch_size buf_custom
    n ← or_panic r
    if ltb 0 n
        then (do
          packets ← add checks 64 w.stats.rx_packets n
          deficit ← add checks 64 w.state.fq_deficit n
          value (record w {
            state = record (w.state) { rx = rx; fq_deficit = deficit };
            stats = record (w.stats) { rx_packets = packets };
            pending = pending;
          }))
        else value (record w {
          state = record (w.state) { rx = rx };
          pending = pending;
          world = if needs_wakeup sys.fill w.state.fq then wake sys w.world rx else w.world;
        })

  -- "Just put them back into the pool"
  pub drop_part : Worker sys d → Worker sys d
  drop_part w =
      let (drained, pending) = d.drain_all w.pending in
      record w { pending = pending; bufs = push_all w.bufs drained }

  -- "Fill buffers if required"
  unfoldable pub fill_part : Worker sys d → Outcome (Worker sys d)
  fill_part w =
      if leb fill_threshold w.state.fq_deficit
      then (do
        (r, fq, bufs) ← fill sys.fill checks w.state.fq w.bufs w.state.fq_deficit
        n ← or_panic r
        filled ← add checks 64 w.stats.fq_bufs_filled n
        deficit ← sub checks 64 w.state.fq_deficit n
        value (record w {
          state = record (w.state) { fq = fq; fq_deficit = deficit };
          stats = record (w.stats) { fq_bufs_filled = filled };
          bufs = bufs;
        }))
      else value w

  -- The body of the loop after the commands.
  unfoldable pub serve : Worker sys d → Outcome (Worker sys d)
  serve w = do w ← receive_part w; fill_part (drop_part w)

-- The response to `GetStats`.
pub report : (sys : Sys) (d : ArrayDeque (BufMmap BufCustom)) → Worker sys d → StatsMessage
report sys d w = record { core = w.core; stats = w.stats }
