-- ===== src/Area.antt =====
-- src/mmap_area.rs: the mapped area and its buffers.
pub mod New
pub mod Layout
pub mod Isolation
pub mod Unchecked
pub mod Unmap
use afxdp_rs.Prelude.{ℕ, zero, suc, ◌+◌, ◌*◌, Bool, List, [], bit_or, if◌then◌else◌, ◌==◌}
use afxdp_rs.Prelude.Int.{ℤ}
use afxdp_rs.Rust.{Outcome, value, ◌>>=◌, Result, ok, err, add, mul, sub, offset, Slice}
use afxdp_rs.Rust.Vec.{Vec, with_capacity, push}
use afxdp_rs.Buf.Mmap.{BufMmap}
use afxdp_rs.Extern.Sys.{Sys}

-- `AF_XDP_RESERVED` of src/lib.rs
abbrev pub af_xdp_reserved : ℕ
af_xdp_reserved = 256

pub record MmapArea : Type 0 where
  pub buf_num : ℕ
  pub buf_len : ℕ
  pub ptr : ℕ

pub data MmapError : Type 0 where
  failed : MmapError

pub record MmapAreaOptions : Type 0 where
  pub huge_tlb : Bool

unfoldable pub get_ptr : MmapArea → ℕ
get_ptr a = a.ptr

unfoldable pub get_buf_num : MmapArea → ℕ
get_buf_num a = a.buf_num

unfoldable pub get_buf_len : MmapArea → ℕ
get_buf_len a = a.buf_len

-- A buffer over the `available` bytes at `addr` in the mapping at `ptr`, as `new` makes it and as the
-- queues make it again from an address that the kernel returns.
abbrev pub buf_at : {T : Type 0} → ℕ → ℕ → ℕ → ℕ → T → BufMmap T
buf_at ptr addr available len user = record {
  addr = addr;
  len = len;
  bytes = record { ptr = offset ptr addr; len = available };
  user = user;
}

-- The flags that `new` passes to `mmap`.
pub map_flags : Sys → MmapAreaOptions → ℕ
map_flags sys options =
    let flags = bit_or sys.map_private sys.map_anonymous in
    if options.huge_tlb then bit_or flags sys.map_hugetlb else flags

-- `checks`: whether the build has overflow checks. `default`: `T::default()`.
module _ {T : Type 0} (checks : Bool) (default : T) where
  -- `for i in 0..buf_num`: the rounds left, and `i`.
  pub make_bufs : ℕ → ℕ → ℕ → ℕ → ℕ → Vec (BufMmap T) → Outcome (Vec (BufMmap T))
  make_bufs ptr buf_len available zero i bufs = value bufs
  make_bufs ptr buf_len available (suc rounds) i bufs = do
    start ← mul checks 64 i buf_len
    addr ← add checks 64 start af_xdp_reserved
    make_bufs ptr buf_len available rounds (i + 1) (push bufs (buf_at ptr addr available 0 default))

  module _ (sys : Sys) where
    unfoldable pub new :
        sys.World
        → ℕ
        → ℕ
        → MmapAreaOptions
        → Outcome (Result (MmapArea × Vec (BufMmap T)) MmapError × sys.World)
    unfolding map_flags
    new world buf_num buf_len options = do
      size ← mul checks 64 buf_num buf_len
      let (world', ptr) =
          sys.mmap world size (bit_or sys.prot_read sys.prot_write) (map_flags sys options)
      if ptr == sys.map_failed then value (err failed, world') else do
        available ← sub checks 64 buf_len af_xdp_reserved
        bufs ← make_bufs ptr buf_len available buf_num 0 (with_capacity buf_num)
        value (ok (record { buf_num = buf_num; buf_len = buf_len; ptr = ptr }, bufs), world')

-- `Drop`. The result of `munmap` is only printed; the size was computed without overflow by `new`.
unfoldable pub drop : (sys : Sys) → Bool → sys.World → MmapArea → Outcome (sys.World)
drop sys checks world a =
    if a.ptr == sys.map_failed
    then value world
    else do size ← mul checks 64 a.buf_num a.buf_len; value (sys.munmap world a.ptr size).0
