-- ===== src/UnitTests/Areas.antt =====
-- src/mmap_area.rs: its tests `bufs_to_pool`, `buf_values` and `buf_values2`. What they make is dropped at their end.
pub mod Bytes
pub mod Written
pub mod Loops
pub mod Passes
use mathlib.Core.List.{reverse}
use afxdp_rs.Prelude.{
  ℕ, zero, suc, ◌+◌, ◌-◌, ◌*◌, ◌/◌, ◌%◌, ◌==◌, if◌then◌else◌, leb, Bool, false, not, List, [], ◌∷◌,
  take, length, get_elem?,
}
use afxdp_rs.Rust.{
  Outcome, value, panic, bounds, explicit, ◌>>=◌, ◌>>◌, panic_if, unwrap_some, add, cast,
}
use afxdp_rs.Rust.Vec.{Vec}
use afxdp_rs.Rust.Vec
use afxdp_rs.Memory.{Memory}
use afxdp_rs.Buf.Mmap.{BufMmap, get_data, write_data}
use afxdp_rs.Area.{MmapArea, MmapAreaOptions, af_xdp_reserved}
use afxdp_rs.Area
use afxdp_rs.Extern.Sys.{Sys}
use afxdp_rs.L2fwd.{or_panic}
use afxdp_rs.UnitTests.{assert, new_area}

-- the `n` lowest bytes of a number, the lowest first
abbrev pub to_le_bytes : ℕ → ℕ → List ℕ
to_le_bytes zero v = []
to_le_bytes (suc n) v = v % 256 ∷ to_le_bytes n (v / 256)

abbrev pub from_le_bytes : List ℕ → ℕ
from_le_bytes [] = 0
from_le_bytes (b ∷ bs) = b + 256 * from_le_bytes bs

-- `u64::to_ne_bytes` and `u64::from_ne_bytes`. `big`: whether the machine stores the highest byte first.
pub to_ne_bytes : Bool → ℕ → List ℕ
to_ne_bytes big v = if big then reverse (to_le_bytes 8 v) else to_le_bytes 8 v

pub from_ne_bytes : Bool → List ℕ → ℕ
from_ne_bytes big bs = from_le_bytes (if big then reverse bs else bs)

-- `base` of `buf_values`
abbrev pub base : ℕ
base = 3983989832773837873

module _ {T : Type 0} where
  -- `for buf in bufs`
  pub check_lengths : ℕ → List (BufMmap T) → Outcome (Unit {0})
  check_lengths buf_len [] = value tt
  check_lengths buf_len (buf ∷ bufs) = do
    panic_if (not (buf.bytes.len == buf_len - af_xdp_reserved)) explicit
    check_lengths buf_len bufs

  -- `buf.data[j] = ..`, for the bytes from `j` on
  pub write_bytes : Memory → BufMmap T → ℕ → List ℕ → Outcome Memory
  write_bytes m buf j [] = value m
  write_bytes m buf j (v ∷ vs) = do (m, buf) ← write_data m buf j v; write_bytes m buf (j + 1) vs

  module _ (checks big : Bool) where
    -- `for (i, buf) in bufs.iter_mut().enumerate()`, which writes a number to each
    pub write_values : ℕ → List (BufMmap T) → Memory → Outcome Memory
    write_values i [] m = value m
    write_values i (buf ∷ bufs) m = do
      val ← add checks 64 i base
      m ← write_bytes m buf 0 (to_ne_bytes big val)
      write_values (i + 1) bufs m

    -- The loop that reads it again. `split_at` panics where there are fewer bytes.
    pub read_values : ℕ → List (BufMmap T) → Memory → Outcome (Unit {0})
    read_values i [] m = value tt
    read_values i (buf ∷ bufs) m = do
      val ← add checks 64 i base
      panic_if (not (leb 8 (length (get_data m buf)))) explicit
      assert (val == from_ne_bytes big (take 8 (get_data m buf)))
      read_values (i + 1) bufs m

  -- `for j in 0..BUF_LEN - AF_XDP_RESERVED`: the rounds left, and `j`.
  pub write_same : Memory → BufMmap T → ℕ → ℕ → ℕ → Outcome Memory
  write_same m buf zero j v = value m
  write_same m buf (suc rounds) j v = do
    (m, buf) ← write_data m buf j v
    write_same m buf rounds (j + 1) v

  pub read_same : Memory → BufMmap T → ℕ → ℕ → ℕ → Outcome (Unit {0})
  read_same m buf zero j v = value tt
  read_same m buf (suc rounds) j v = do
    x ← unwrap_some (get_elem? (get_data m buf) j) bounds
    assert (x == v)
    read_same m buf rounds (j + 1) v

  -- "Write the buf number into every byte of each buf"
  pub write_numbers : ℕ → ℕ → List (BufMmap T) → Memory → Outcome Memory
  write_numbers n i [] m = value m
  write_numbers n i (buf ∷ bufs) m = do
    m ← write_same m buf n 0 (cast 8 i)
    write_numbers n (i + 1) bufs m

  -- "Validate that the buf number is present in every byte of each buf"
  pub read_numbers : ℕ → ℕ → List (BufMmap T) → Memory → Outcome (Unit {0})
  read_numbers n i [] m = value tt
  read_numbers n i (buf ∷ bufs) m = do read_same m buf n 0 (cast 8 i); read_numbers n (i + 1) bufs m

module _ (sys : Sys) (checks big : Bool) {T : Type 0} (default : T) where
  -- What the three tests begin with.
  pub map_bufs : sys.World → ℕ → ℕ → Outcome (MmapArea × Vec (BufMmap T) × sys.World)
  map_bufs world buf_num buf_len = do
    (area, bufs, world) ← new_area sys checks default world buf_num buf_len
    assert (area.buf_num == buf_num)
    assert (area.buf_len == buf_len)
    assert (Vec.len bufs == buf_num)
    value (area, bufs, world)

  pub bufs_to_pool : sys.World → Outcome sys.World
  bufs_to_pool world = do
    (area, bufs, world) ← map_bufs world 1024 2048
    check_lengths 2048 bufs.items
    Area.drop sys checks world area

  pub buf_values : sys.World → Memory → Outcome (Memory × sys.World)
  buf_values world m = do
    (area, bufs, world) ← map_bufs world 1024 2048
    m ← write_values checks big 0 bufs.items m
    read_values checks big 0 bufs.items m
    world ← Area.drop sys checks world area
    value (m, world)

  pub buf_values2 : sys.World → Memory → Outcome (Memory × sys.World)
  buf_values2 world m = do
    (area, bufs, world) ← map_bufs world 256 2048
    m ← write_numbers (2048 - af_xdp_reserved) 0 bufs.items m
    read_numbers (2048 - af_xdp_reserved) 0 bufs.items m
    world ← Area.drop sys checks world area
    value (m, world)
