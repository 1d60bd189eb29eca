-- ===== src/Control/Shared.antt =====
-- examples/l2fwd-2link-multicore.rs and examples/rxdrop.rs: the buffers that the worker threads share, and the
-- mailboxes, which `main` makes alike in both.
use afxdp_rs.Prelude.{ℕ, not, ◌==◌, Bool, List, replicate}
use afxdp_rs.Rust.{Outcome, value, explicit, ◌>>=◌, ◌>>◌, panic_if}
use afxdp_rs.Rust.Vec.{Vec, with_capacity}
use afxdp_rs.Rust.Vec
use afxdp_rs.Buf.Mmap.{BufMmap}
use afxdp_rs.Area.{MmapArea, MmapAreaOptions}
use afxdp_rs.Area
use afxdp_rs.Pool.{BufPoolVec}
use afxdp_rs.Pool
use afxdp_rs.Extern.Sys.{Sys}
use afxdp_rs.Extern.Channel.{Channel}
use afxdp_rs.Socket.{SocketOptions}
use afxdp_rs.L2fwd.{BufCustom, buf_custom, or_panic}
use afxdp_rs.Control.{Command, Mailbox, new_mailbox}

-- The buffers that a worker takes from the shared pool when it starts.
abbrev pub start_bufs : ℕ
start_bufs = 8192

-- The command line, parsed. The file that `config_file` names is read by a library.
pub record Opt : Type 0 where
  pub bufsize : ℕ
  pub bufnum : ℕ
  pub huge_tlb : Bool
  pub zero_copy : Bool
  pub copy : Bool

abbrev pub area_options : Opt → MmapAreaOptions
area_options opt = record { huge_tlb = opt.huge_tlb }

-- `SocketOptions::default()`, with the two modes set.
abbrev pub socket_options : Opt → SocketOptions
socket_options opt = record {
  zero_copy_mode = opt.zero_copy;
  copy_mode = opt.copy;
  tx_ring_size = 0;
  rx_ring_size = 0;
}

-- `BufPoolVec<BufMmap<BufCustom>, BufCustom>`, under the lock.
abbrev pub BufferPool : Type 0
BufferPool = BufPoolVec (BufMmap BufCustom)

-- "Add all the Bufs to the global Buf pool"
unfoldable pub stock_pool : Vec (BufMmap BufCustom) → Outcome BufferPool
stock_pool bufs = do
  let len = Vec.len bufs
  let (r, rest, bp) = Pool.put (Pool.new len) bufs len
  panic_if (not (r == len)) explicit
  value bp

-- "Create local buf pool": a shortfall is only printed.
unfoldable pub take_bufs : BufferPool → Vec (BufMmap BufCustom) × BufferPool
take_bufs bp = let (r, bufs, bp') = Pool.get bp (with_capacity start_bufs) start_bufs in (bufs, bp')

-- `setrlimit`: `setrlimit(MEMLOCK, INFINITY, INFINITY).is_ok()`.
module _ (sys : Sys) (checks : Bool) (setrlimit : sys.World → sys.World × Bool) where
  -- From the limit to the pool.
  unfoldable pub make_stock : sys.World → Opt → Outcome (MmapArea × BufferPool × sys.World)
  make_stock world opt = do
    let (world, limited) = setrlimit world
    panic_if (not limited) explicit
    (r, world) ← Area.new checks buf_custom sys world opt.bufnum opt.bufsize (area_options opt)
    (area, bufs) ← or_panic r
    bp ← stock_pool bufs
    value (area, bp, world)

-- "For each worker create the ring buffers we'll use to talk to them": the `n` mailboxes.
abbrev pub make_mailboxes :
    {R : Type 0} → (cmd : Channel Command) (resp : Channel R) → ℕ → List (Mailbox cmd resp)
make_mailboxes cmd resp n = replicate n (new_mailbox cmd resp)
