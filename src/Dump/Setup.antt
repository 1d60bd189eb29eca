-- ===== src/Dump/Setup.antt =====
-- examples/dump.rs: `main` up to its loop. `cons_descs` and `prod_descs` are the default ring sizes of libbpf.
use afxdp_rs.Prelude.{ℕ, min, not, ◌==◌, Bool, List}
use afxdp_rs.Rust.{Outcome, value, explicit, ◌>>=◌, ◌>>◌, panic_if}
use afxdp_rs.Rust.Vec
use afxdp_rs.Buf.Mmap.{BufMmap}
use afxdp_rs.Area.{MmapAreaOptions}
use afxdp_rs.Area
use afxdp_rs.Extern.Deque.{ArrayDeque}
use afxdp_rs.Extern.Sys.{Sys}
use afxdp_rs.Umem.{fill}
use afxdp_rs.Umem
use afxdp_rs.Socket.{SocketOptions, new_rx}
use afxdp_rs.L2fwd.{BufCustom, buf_custom, or_panic}
use afxdp_rs.Dump.{Dumper}

-- The command line, parsed.
pub record Opt : Type 0 where
  pub bufsize : ℕ
  pub bufnum : ℕ
  pub batch_size : ℕ
  pub link_name : List ℕ
  pub link_channel : ℕ
  pub huge_tlb : Bool
  pub zero_copy : Bool
  pub copy : Bool

abbrev pub area_options : Opt → MmapAreaOptions
area_options opt = record { huge_tlb = opt.huge_tlb }

-- `SocketOptions::default()`, with the two modes set.
abbrev pub socket_options : Opt → SocketOptions
socket_options opt = record {
  zero_copy_mode = opt.zero_copy;
  copy_mode = opt.copy;
  tx_ring_size = 0;
  rx_ring_size = 0;
}

-- `setrlimit`: `setrlimit(MEMLOCK, INFINITY, INFINITY).is_ok()`.
module _ (sys : Sys) (checks : Bool) (d : ArrayDeque (BufMmap BufCustom))
    (cons_descs prod_descs : ℕ) (setrlimit : sys.World → sys.World × Bool) where
  unfoldable pub start : sys.World → Opt → Outcome (Dumper sys d)
  start world opt = do
    let (world, limited) = setrlimit world
    panic_if (not limited) explicit
    (r, world) ← Area.new checks buf_custom sys world opt.bufnum opt.bufsize (area_options opt)
    (area, bufs) ← or_panic r
    panic_if (not (Vec.len bufs == opt.bufnum)) explicit
    (r, world) ← Umem.new sys checks world area cons_descs prod_descs
    (umem1, umem1cq, umem1fq) ← or_panic r
    (r, world) ←
        new_rx sys world umem1 opt.link_name opt.link_channel cons_descs (socket_options opt)
    (skt1, skt1rx) ← or_panic r
    let fill_size = min prod_descs opt.bufnum
    (r, umem1fq, bufs) ← fill sys.fill checks umem1fq bufs fill_size
    n ← or_panic r
    panic_if (not (n == fill_size)) explicit
    value (record {
      state = record { fq = umem1fq; rx = skt1rx; fq_deficit = 0 };
      stats = record { cq_bufs = 0; fq_bufs = 0; rx_packets = 0; tx_packets = 0 };
      pending = d.new;
      bufs = bufs;
      world = world;
    })
