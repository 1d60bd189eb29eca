-- ===== src/L2fwd/Setup.antt =====
-- examples/l2fwd-2link.rs: `main` up to its loop.
use afxdp_rs.Prelude.{ℕ, ◌/◌, min, Bool, not, List, ◌==◌}
use afxdp_rs.Rust.{Outcome, value, explicit, ◌>>=◌, ◌>>◌, panic_if, ok, err}
use afxdp_rs.Rust.Vec.{Vec}
use afxdp_rs.Buf.Mmap.{BufMmap}
use afxdp_rs.Area.{MmapArea, MmapAreaOptions}
use afxdp_rs.Area
use afxdp_rs.Extern.Deque.{ArrayDeque}
use afxdp_rs.Extern.Sys.{Sys}
use afxdp_rs.Umem.{UmemCompletionQueue, UmemFillQueue, fill}
use afxdp_rs.Umem
use afxdp_rs.Socket.{SocketRx, SocketTx, SocketOptions}
use afxdp_rs.Socket
use afxdp_rs.L2fwd.{BufCustom, buf_custom, Link, Forwarder, or_panic}

abbrev pub ring_size : ℕ
ring_size = 2048

-- The command line, parsed.
pub record Opt : Type 0 where
  pub bufsize : ℕ
  pub bufnum : ℕ
  pub link1_name : List ℕ
  pub link1_channel : ℕ
  pub link2_name : List ℕ
  pub link2_channel : ℕ
  pub huge_tlb : Bool
  pub zero_copy : Bool
  pub copy : Bool

abbrev pub area_options : Opt → MmapAreaOptions
area_options opt = record { huge_tlb = opt.huge_tlb }

-- `SocketOptions::default()`, with the two modes set.
abbrev pub socket_options : Opt → SocketOptions
socket_options opt = record {
  zero_copy_mode = opt.zero_copy;
  copy_mode = opt.copy;
  tx_ring_size = 0;
  rx_ring_size = 0;
}

-- `State` and `Stats` of a link before the loop, and its deque.
abbrev pub new_link :
    (sys : Sys) (d : ArrayDeque (BufMmap BufCustom))
    → UmemCompletionQueue sys.comp
    → UmemFillQueue sys.fill
    → SocketRx sys.rx
    → SocketTx sys.tx
    → Link sys d
new_link sys d cq fq rx tx = record {
  state = record { cq = cq; fq = fq; rx = rx; tx = tx; fq_deficit = 0 };
  stats = record { cq_bufs_received = 0; fq_bufs_filled = 0; rx_packets = 0; tx_packets = 0 };
  pending = d.new;
}

module _ (sys : Sys) (checks : Bool) where
  -- The initial fill of one queue; an error is only printed.
  unfoldable pub initial_fill :
      UmemFillQueue sys.fill
      → Vec (BufMmap BufCustom)
      → ℕ
      → Outcome (UmemFillQueue sys.fill × Vec (BufMmap BufCustom))
  initial_fill fq bufs initial_fill_num = do
    (r, fq', bufs') ← fill sys.fill checks fq bufs initial_fill_num
    elim r [ ok n ↦ panic_if (not (n == initial_fill_num)) explicit | err e ↦ value tt ]
    value (fq', bufs')

-- `setrlimit`: `setrlimit(MEMLOCK, INFINITY, INFINITY).is_ok()`.
module _ (sys : Sys) (checks : Bool) (d : ArrayDeque (BufMmap BufCustom))
    (setrlimit : sys.World → sys.World × Bool) where
  unfoldable pub start : sys.World → Opt → Outcome (Forwarder sys d)
  start world opt = do
    let initial_fill_num = min (opt.bufnum / 2) ring_size
    let (world, limited) = setrlimit world
    panic_if (not limited) explicit
    (r, world) ← Area.new checks buf_custom sys world opt.bufnum opt.bufsize (area_options opt)
    (area, bufs) ← or_panic r
    (r, world) ← Umem.new sys checks world area ring_size ring_size
    (umem1, umem1cq, umem1fq) ← or_panic r
    (r, world) ← Umem.new sys checks world area ring_size ring_size
    (umem2, umem2cq, umem2fq) ← or_panic r
    (r, world) ←
        Socket.new sys world umem1 opt.link1_name opt.link1_channel ring_size ring_size
          (socket_options opt)
    (skt1, skt1rx, skt1tx) ← or_panic r
    (r, world) ←
        Socket.new sys world umem2 opt.link2_name opt.link2_channel ring_size ring_size
          (socket_options opt)
    (skt2, skt2rx, skt2tx) ← or_panic r
    (umem1fq, bufs) ← initial_fill sys checks umem1fq bufs initial_fill_num
    (umem2fq, bufs) ← initial_fill sys checks umem2fq bufs initial_fill_num
    value (record {
      first = new_link sys d umem1cq umem1fq skt1rx skt1tx;
      second = new_link sys d umem2cq umem2fq skt2rx skt2tx;
      bufs = bufs;
      pos = 0;
      world = world;
    })
