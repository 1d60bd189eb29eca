-- ===== src/OneLink.antt =====
-- examples/l2fwd-1link.rs: the forwarder that swaps the addresses of each packet and sends it back.
pub mod Swap
pub mod Setup
pub mod Kept
pub mod Turn
pub mod Kernel
pub mod Apart
pub mod Visits
pub mod Clocked
pub mod Ends
use afxdp_rs.Prelude.{ℕ, ◌+◌, Bool, List, [], ◌∷◌, if◌then◌else◌, leb, ltb, take, drop}
use afxdp_rs.Rust.{Outcome, value, panic, bounds, ◌>>=◌, Result, ok, err, add, sub}
use afxdp_rs.Rust.Vec.{Vec}
use afxdp_rs.Memory.{Memory, load, store, store_all}
use afxdp_rs.Buf.Mmap.{BufMmap}
use afxdp_rs.Extern.Deque.{ArrayDeque}
use afxdp_rs.Extern.Sys.{Sys}
use afxdp_rs.Umem.{UmemCompletionQueue, UmemFillQueue, service, fill, needs_wakeup}
use afxdp_rs.Socket.{SocketRx, SocketTx}
use afxdp_rs.Socket.Rx.{wake, try_recv}
use afxdp_rs.Socket.Tx.{try_send}
use afxdp_rs.L2fwd.{BufCustom, buf_custom, or_panic}

-- One round of `swap_macs`, on a packet at `p`; `tmp` is `tmp1`.
pub swap_packet : Memory → ℕ → Memory
swap_packet m p =
    let tmp = load m p 12 in store_all (store_all m p (drop 6 tmp)) (p + 6) (take 6 tmp)

-- `swap_macs`, over the buffers of the deque. A slice of fewer than 12 bytes panics.
pub swap_macs : Memory → List (BufMmap BufCustom) → Outcome Memory
swap_macs m [] = value m
swap_macs m (buf ∷ bufs) =
    let rest = swap_macs (swap_packet m buf.bytes.ptr) bufs in
    if leb 12 buf.bytes.len then rest else panic bounds

pub record State (sys : Sys) : Type 0 where
  pub cq : UmemCompletionQueue sys.comp
  pub fq : UmemFillQueue sys.fill
  pub rx : SocketRx sys.rx
  pub tx : SocketTx sys.tx
  pub fq_deficit : ℕ

pub record Stats : Type 0 where
  pub cq_bufs : ℕ
  pub fq_bufs : ℕ
  pub rx_packets : ℕ
  pub tx_packets : ℕ

-- What the loop of `main` changes: `state`, `stats`, the deque `v`, the spare buffers, the bytes of the
-- area, and the world.
pub record Loop (sys : Sys) (d : ArrayDeque (BufMmap BufCustom)) : Type 0 where
  pub state : State sys
  pub stats : Stats
  pub v : d.Deque
  pub bufs : Vec (BufMmap BufCustom)
  pub memory : Memory
  pub world : sys.World

module _ (sys : Sys) (checks : Bool) (d : ArrayDeque (BufMmap BufCustom)) (batch_size : ℕ) where
  unfoldable pub forward :
      sys.World
      → SocketTx sys.tx
      → d.Deque
      → Outcome (Result ℕ (Unit {0}) × SocketTx sys.tx × d.Deque × sys.World)
  forward world tx bufs = if d.is_empty bufs then value (ok 0, tx, bufs, world) else do
    (r, tx', bufs', world') ← try_send sys checks d world tx bufs batch_size
    n ← or_panic r
    value (ok n, tx', bufs', world')

  -- "Service completion queue"
  unfoldable pub service_part : Loop sys d → Outcome (Loop sys d)
  service_part s = do
    (r, cq, bufs) ← service sys.comp checks buf_custom s.state.cq s.bufs batch_size
    n ← or_panic r
    cq_bufs ← add checks 64 s.stats.cq_bufs n
    value (record s {
      state = record (s.state) { cq = cq };
      stats = record (s.stats) { cq_bufs = cq_bufs };
      bufs = bufs;
    })

  -- "Receive": the addresses of every packet in the deque are swapped.
  unfoldable pub receive_part : Loop sys d → Outcome (Loop sys d)
  receive_part s = do
    (r, rx, v) ← try_recv sys.rx checks d s.state.rx s.v batch_size buf_custom
    n ← or_panic r
    if ltb 0 n
        then (do
          rx_packets ← add checks 64 s.stats.rx_packets n
          memory ← swap_macs s.memory (d.iter v)
          fq_deficit ← add checks 64 s.state.fq_deficit n
          value (record s {
            state = record (s.state) { rx = rx; fq_deficit = fq_deficit };
            stats = record (s.stats) { rx_packets = rx_packets };
            v = v;
            memory = memory;
          }))
        else value (record s {
          state = record (s.state) { rx = rx };
          v = v;
          world = if needs_wakeup sys.fill s.state.fq then wake sys s.world rx else s.world;
        })

  -- "Forward"; an error is only printed.
  unfoldable pub forward_part : Loop sys d → Outcome (Loop sys d)
  forward_part s = do
    (r, tx, v, world) ← forward s.world s.state.tx s.v
    tx_packets ← elim r [
      | ok n ↦ add checks 64 s.stats.tx_packets n
      | err e ↦ value s.stats.tx_packets
    ]
    value (record s {
      state = record (s.state) { tx = tx };
      stats = record (s.stats) { tx_packets = tx_packets };
      v = v;
      world = world;
    })

  -- "Fill buffers if required"
  unfoldable pub fill_part : Loop sys d → Outcome (Loop sys d)
  fill_part s =
      if ltb 0 s.state.fq_deficit
      then (do
        (r, fq, bufs) ← fill sys.fill checks s.state.fq s.bufs s.state.fq_deficit
        n ← or_panic r
        fq_bufs ← add checks 64 s.stats.fq_bufs n
        fq_deficit ← sub checks 64 s.state.fq_deficit n
        value (record s {
          state = record (s.state) { fq = fq; fq_deficit = fq_deficit };
          stats = record (s.stats) { fq_bufs = fq_bufs };
          bufs = bufs;
        }))
      else value s

  -- The body of `loop`, after the statistics are passed to the thread that prints them.
  unfoldable pub round : Loop sys d → Outcome (Loop sys d)
  round s = do s ← service_part s; s ← receive_part s; s ← forward_part s; fill_part s
