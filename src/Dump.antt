-- ===== src/Dump.antt =====
-- examples/dump.rs: prints the packets of a link. A buffer whose data is printed is in the result of the call; how
-- a library formats it is left out. `BufCustom` is that of examples/l2fwd-2link.rs.
pub mod Setup
pub mod Shows
use afxdp_rs.Prelude.{ℕ, Bool, List, [], if◌then◌else◌, ◌==◌, leb, ltb}
use afxdp_rs.Rust.{Outcome, value, ◌>>=◌, add, sub}
use afxdp_rs.Rust.Vec.{Vec, push_all}
use afxdp_rs.Buf.Mmap.{BufMmap}
use afxdp_rs.Extern.Deque.{ArrayDeque}
use afxdp_rs.Extern.Sys.{Sys}
use afxdp_rs.Umem.{UmemFillQueue, fill, needs_wakeup}
use afxdp_rs.Socket.{SocketRx}
use afxdp_rs.Socket.Rx.{wake, try_recv}
use afxdp_rs.L2fwd.{BufCustom, buf_custom, or_panic}

abbrev pub fill_threshold : ℕ
fill_threshold = 64

pub record State (sys : Sys) : Type 0 where
  pub fq : UmemFillQueue sys.fill
  pub rx : SocketRx sys.rx
  pub fq_deficit : ℕ

pub record Stats : Type 0 where
  pub cq_bufs : ℕ
  pub fq_bufs : ℕ
  pub rx_packets : ℕ
  pub tx_packets : ℕ

-- The variables of the loop; `pending` is `v`.
pub record Dumper (sys : Sys) (d : ArrayDeque (BufMmap BufCustom)) : Type 0 where
  pub state : State sys
  pub stats : Stats
  pub pending : d.Deque
  pub bufs : Vec (BufMmap BufCustom)
  pub world : sys.World

module _ (checks : Bool) (d : ArrayDeque (BufMmap BufCustom)) where
  -- The buffers it prints, the deque, the pool and the count.
  pub dump :
      d.Deque
      → Vec (BufMmap BufCustom)
      → ℕ
      → Outcome (List (BufMmap BufCustom) × d.Deque × Vec (BufMmap BufCustom) × ℕ)
  dump input buf_pool count = if d.is_empty input then value ([], input, buf_pool, count) else (do
    count ← add checks 64 count (d.len input)
    let (drained, input) = d.drain_all input
    value (drained, input, push_all buf_pool drained, count))

module _ (sys : Sys) (checks : Bool) (d : ArrayDeque (BufMmap BufCustom)) where
  -- "Receive"
  unfoldable pub receive_part : ℕ → Dumper sys d → Outcome (Dumper sys d)
  receive_part batch_size w = do
    (r, rx, pending) ← try_recv sys.rx checks d w.state.rx w.pending batch_size buf_custom
    n ← or_panic r
    if ltb 0 n
        then (do
          packets ← add checks 64 w.stats.rx_packets n
          deficit ← add checks 64 w.state.fq_deficit n
          value (record w {
            state = record (w.state) { rx = rx; fq_deficit = deficit };
            stats = record (w.stats) { rx_packets = packets };
            pending = pending;
          }))
        else value (record w {
          state = record (w.state) { rx = rx };
          pending = pending;
          world = if needs_wakeup sys.fill w.state.fq then wake sys w.world rx else w.world;
        })

  -- "Dump the packet headers"
  pub dump_part : Dumper sys d → Outcome (List (BufMmap BufCustom) × Dumper sys d)
  dump_part w = do
    (shown, pending, bufs, count) ← dump checks d w.pending w.bufs 0
    value (shown, record w { pending = pending; bufs = bufs })

  -- "Fill buffers if required"
  unfoldable pub fill_part : Dumper sys d → Outcome (Dumper sys d)
  fill_part w =
      if leb fill_threshold w.state.fq_deficit
      then (do
        (r, fq, bufs) ← fill sys.fill checks w.state.fq w.bufs w.state.fq_deficit
        n ← or_panic r
        filled ← add checks 64 w.stats.fq_bufs n
        deficit ← sub checks 64 w.state.fq_deficit n
        value (record w {
          state = record (w.state) { fq = fq; fq_deficit = deficit };
          stats = record (w.stats) { fq_bufs = filled };
          bufs = bufs;
        }))
      else value w

  -- The body of `loop`, and what it prints.
  unfoldable pub round : ℕ → Dumper sys d → Outcome (List (BufMmap BufCustom) × Dumper sys d)
  round batch_size w = do
    w ← receive_part batch_size w
    (shown, w) ← dump_part w
    w ← fill_part w
    value (shown, w)
