-- ===== src/OneLink/Setup.antt =====
-- examples/l2fwd-1link.rs: `main` up to its loop, without the thread that prints the statistics.
use afxdp_rs.Prelude.{ℕ, min, Bool, not, List, ◌==◌}
use afxdp_rs.Rust.{Outcome, value, explicit, ◌>>=◌, ◌>>◌, panic_if}
use afxdp_rs.Memory.{Memory}
use afxdp_rs.Buf.Mmap.{BufMmap}
use afxdp_rs.Area.{MmapAreaOptions}
use afxdp_rs.Area
use afxdp_rs.Extern.Deque.{ArrayDeque}
use afxdp_rs.Extern.Sys.{Sys}
use afxdp_rs.Umem.{fill}
use afxdp_rs.Umem
use afxdp_rs.Socket.{SocketOptions}
use afxdp_rs.Socket
use afxdp_rs.L2fwd.{BufCustom, buf_custom, or_panic}
use afxdp_rs.OneLink.{Loop}

-- The command line, parsed.
pub record Opt : Type 0 where
  pub bufsize : ℕ
  pub bufnum : ℕ
  pub batch_size : ℕ
  pub link_name : List ℕ
  pub link_channel : ℕ
  pub huge_tlb : Bool
  pub zero_copy : Bool
  pub copy : Bool

abbrev pub area_options : Opt → MmapAreaOptions
area_options opt = record { huge_tlb = opt.huge_tlb }

abbrev pub socket_options : Opt → SocketOptions
socket_options opt = record {
  zero_copy_mode = opt.zero_copy;
  copy_mode = opt.copy;
  tx_ring_size = 0;
  rx_ring_size = 0;
}

-- `cons_descs` and `prod_descs`: libbpf's `XSK_RING_CONS__DEFAULT_NUM_DESCS` and
-- `XSK_RING_PROD__DEFAULT_NUM_DESCS`. `setrlimit`: `setrlimit(MEMLOCK, INFINITY, INFINITY).is_ok()`.
-- `memory`: the bytes of the area before the loop.
module _ (sys : Sys) (checks : Bool) (d : ArrayDeque (BufMmap BufCustom))
    (setrlimit : sys.World → sys.World × Bool) (cons_descs prod_descs : ℕ) (memory : Memory) where
  unfoldable pub start : sys.World → Opt → Outcome (Loop sys d)
  start world opt = do
    let (world, limited) = setrlimit world
    panic_if (not limited) explicit
    (r, world) ← Area.new checks buf_custom sys world opt.bufnum opt.bufsize (area_options opt)
    (area, bufs) ← or_panic r
    (r, world) ← Umem.new sys checks world area cons_descs prod_descs
    (umem1, umem1cq, umem1fq) ← or_panic r
    (r, world) ←
        Socket.new sys world umem1 opt.link_name opt.link_channel cons_descs prod_descs
          (socket_options opt)
    (skt1, skt1rx, skt1tx) ← or_panic r
    (r, umem1fq, bufs) ← fill sys.fill checks umem1fq bufs (min prod_descs opt.bufnum)
    n ← or_panic r
    panic_if (not (n == min prod_descs opt.bufnum)) explicit
    value (record {
      state = record { cq = umem1cq; fq = umem1fq; rx = skt1rx; tx = skt1tx; fq_deficit = 0 };
      stats = record { cq_bufs = 0; fq_bufs = 0; rx_packets = 0; tx_packets = 0 };
      v = d.new;
      bufs = bufs;
      memory = memory;
      world = world;
    })
