-- ===== src/UnitTests.antt =====
-- The unit tests in the sources of src/, as programs: an assertion that fails is a panic. What a test makes is dropped at
-- its end.
pub mod Mapped
pub mod Areas
pub mod Umems
pub mod Sockets
pub mod Pools
pub mod Powers
use afxdp_rs.Prelude.{ℕ, Bool, false, not}
use afxdp_rs.Rust.{Outcome, value, explicit, ◌>>=◌, panic_if}
use afxdp_rs.Rust.Vec.{Vec}
use afxdp_rs.Buf.Mmap.{BufMmap}
use afxdp_rs.Area.{MmapArea, MmapAreaOptions}
use afxdp_rs.Area
use afxdp_rs.Extern.Sys.{Sys}
use afxdp_rs.L2fwd.{or_panic}

-- `assert!(test)`
abbrev pub assert : Bool → Outcome (Unit {0})
assert test = panic_if (not test) explicit

abbrev pub small_pages : MmapAreaOptions
small_pages = record { huge_tlb = false }

-- "MmapArea::new(BUF_NUM, BUF_LEN, options)", with which the tests begin
pub new_area :
    (sys : Sys)
    → Bool
    → {T : Type 0} → T
    → sys.World
    → ℕ
    → ℕ
    → Outcome (MmapArea × Vec (BufMmap T) × sys.World)
new_area sys checks default world buf_num buf_len = do
  (r, world) ← Area.new checks default sys world buf_num buf_len small_pages
  (area, bufs) ← or_panic r
  value (area, bufs, world)
