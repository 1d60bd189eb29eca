-- ===== src/L2fwd.antt =====
-- examples/l2fwd-2link.rs: the forwarder between two links, and its main loop.
pub mod Invariant
pub mod Spare
pub mod Refill
pub mod Receive
pub mod Forward
pub mod Turn
pub mod Kernel
pub mod Setup
pub mod Serves
pub mod Ready
use afxdp_rs.Prelude.{ℕ, ◌+◌, ◌%◌, Bool, true, false, List, if◌then◌else◌, ◌==◌, leb, ltb}
use afxdp_rs.Rust.{Outcome, value, panic, explicit, ◌>>=◌, Result, ok, err, add, sub}
use afxdp_rs.Rust.Vec.{Vec}
use afxdp_rs.Buf.Mmap.{BufMmap}
use afxdp_rs.Extern.Deque.{ArrayDeque}
use afxdp_rs.Extern.Sys.{Sys}
use afxdp_rs.Umem.{UmemCompletionQueue, UmemFillQueue, service, fill, needs_wakeup}
use afxdp_rs.Socket.{SocketRx, SocketTx}
use afxdp_rs.Socket.Rx.{wake, try_recv}
use afxdp_rs.Socket.Tx.{try_send}

abbrev pub socket_batch_size : ℕ
socket_batch_size = 64

abbrev pub service_batch_size : ℕ
service_batch_size = 64

abbrev pub fill_threshold : ℕ
fill_threshold = 64

pub data BufCustom : Type 0 where
  buf_custom : BufCustom

pub record State (sys : Sys) : Type 0 where
  pub cq : UmemCompletionQueue sys.comp
  pub fq : UmemFillQueue sys.fill
  pub rx : SocketRx sys.rx
  pub tx : SocketTx sys.tx
  pub fq_deficit : ℕ

pub record Stats : Type 0 where
  pub cq_bufs_received : ℕ
  pub fq_bufs_filled : ℕ
  pub rx_packets : ℕ
  pub tx_packets : ℕ

-- What the loop keeps of one link: its entries of the arrays `state`, `stats` and `pending`.
pub record Link (sys : Sys) (d : ArrayDeque (BufMmap BufCustom)) : Type 0 where
  pub state : State sys
  pub stats : Stats
  pub pending : d.Deque

-- The arrays' two links, with the loop's other variables.
pub record Forwarder (sys : Sys) (d : ArrayDeque (BufMmap BufCustom)) : Type 0 where
  pub first : Link sys d
  pub second : Link sys d
  pub bufs : Vec (BufMmap BufCustom)
  pub pos : ℕ
  pub world : sys.World

-- `match r { Ok(n) => .., Err(err) => panic!(..) }`
abbrev pub or_panic {ℓ κ} : {A : Type ℓ} {E : Type κ} → Result A E → Outcome A
or_panic (ok a) = value a
or_panic (err e) = panic explicit

module _ (sys : Sys) (checks : Bool) (d : ArrayDeque (BufMmap BufCustom)) where
  -- `forward`; its error is of the type `()`.
  unfoldable pub forward :
      sys.World
      → SocketTx sys.tx
      → d.Deque
      → Outcome (Result ℕ (Unit {0}) × SocketTx sys.tx × d.Deque × sys.World)
  forward world tx bufs = if d.is_empty bufs then value (ok 0, tx, bufs, world) else do
    (r, tx', bufs', world') ← try_send sys checks d world tx bufs socket_batch_size
    n ← or_panic r
    value (ok n, tx', bufs', world')

  -- "Service completion queue"
  unfoldable pub service_part :
      Link sys d → Vec (BufMmap BufCustom) → Outcome (Link sys d × Vec (BufMmap BufCustom))
  service_part own bufs = do
    (r, cq, bufs') ← service sys.comp checks buf_custom own.state.cq bufs service_batch_size
    n ← or_panic r
    received ← add checks 64 own.stats.cq_bufs_received n
    value (
      record own {
        state = record (own.state) { cq = cq };
        stats = record (own.stats) { cq_bufs_received = received };
      },
      bufs',
    )

  -- "Receive"
  unfoldable pub receive_part : sys.World → Link sys d → Outcome (Link sys d × sys.World)
  receive_part world own = do
    (r, rx, pending) ←
        try_recv sys.rx checks d own.state.rx own.pending socket_batch_size buf_custom
    n ← or_panic r
    if ltb 0 n
        then (do
          packets ← add checks 64 own.stats.rx_packets n
          deficit ← add checks 64 own.state.fq_deficit n
          value (
            record {
              state = record (own.state) { rx = rx; fq_deficit = deficit };
              stats = record (own.stats) { rx_packets = packets };
              pending = pending;
            },
            world,
          ))
        else value (
          record own { state = record (own.state) { rx = rx }; pending = pending },
          if needs_wakeup sys.fill own.state.fq then wake sys world rx else world,
        )

  -- "Forward packets": from the own deque to the other link. An error is only printed.
  unfoldable pub forward_part :
      sys.World → Link sys d → Link sys d → Outcome (Link sys d × Link sys d × sys.World)
  forward_part world own other = do
    (r, tx, pending, world') ← forward world other.state.tx own.pending
    sent ← elim r [
      | ok n ↦ add checks 64 other.stats.tx_packets n
      | err e ↦ value other.stats.tx_packets
    ]
    value (
      record own { pending = pending },
      record other {
        state = record (other.state) { tx = tx };
        stats = record (other.stats) { tx_packets = sent };
      },
      world',
    )

  -- "Fill buffers if required"
  unfoldable pub fill_part :
      Link sys d → Vec (BufMmap BufCustom) → Outcome (Link sys d × Vec (BufMmap BufCustom))
  fill_part own bufs =
      if leb fill_threshold own.state.fq_deficit
      then (do
        (r, fq, bufs') ← fill sys.fill checks own.state.fq bufs own.state.fq_deficit
        n ← or_panic r
        filled ← add checks 64 own.stats.fq_bufs_filled n
        deficit ← sub checks 64 own.state.fq_deficit n
        value (
          record own {
            state = record (own.state) { fq = fq; fq_deficit = deficit };
            stats = record (own.stats) { fq_bufs_filled = filled };
          },
          bufs',
        ))
      else value (own, bufs)

  -- One round of the loop: `own` is at `pos`, `other` at the other position.
  pub turn :
      sys.World
      → Link sys d
      → Link sys d
      → Vec (BufMmap BufCustom)
      → Outcome (Link sys d × Link sys d × Vec (BufMmap BufCustom) × sys.World)
  turn world own other bufs = do
    (own₁, bufs₁) ← service_part own bufs
    (own₂, world₁) ← receive_part world own₁
    (own₃, other₁, world₂) ← forward_part world₁ own₂ other
    (own₄, bufs₂) ← fill_part own₃ bufs₁
    value (own₄, other₁, bufs₂, world₂)

  -- The body of `loop`, at the positions 0 and 1.
  unfoldable pub round : Forwarder sys d → Outcome (Forwarder sys d)
  round f =
      if f.pos == 0
      then (do
        (own, other, bufs, world) ← turn f.world f.first f.second f.bufs
        value (record {
          first = own;
          second = other;
          bufs = bufs;
          pos = (f.pos + 1) % 2;
          world = world;
        }))
      else (do
        (own, other, bufs, world) ← turn f.world f.second f.first f.bufs
        value (record {
          first = other;
          second = own;
          bufs = bufs;
          pos = (f.pos + 1) % 2;
          world = world;
        }))
