-- ===== src/Area/Unmap.antt =====
-- src/mmap_area.rs: `Drop for MmapArea`.
use afxdp_rs.Prelude.{arith, ℕ, ◌≡◌, ◌≢◌, Bool, inl, inr, Bool-cases, ◌==◌, ==_of_ne}
use afxdp_rs.Rust.{value, ok, mul, Outcome-cases}
use afxdp_rs.Rust.Vec.{Vec}
use afxdp_rs.Buf.Mmap.{BufMmap}
use afxdp_rs.Extern.Sys.{Sys}
use afxdp_rs.Area.{MmapArea, MmapAreaOptions, new, drop}

module _ (sys : Sys) (checks : Bool) (world : sys.World) (a : MmapArea) {size : ℕ}
    (sized : mul checks 64 a.buf_num a.buf_len ≡ value size) where
  pub drop_unmaps :
      a.ptr ≢ sys.map_failed → drop sys checks world a ≡ value (sys.munmap world a.ptr size).0
  unfolding drop
  drop_unmaps ne = rw (==_of_ne _ _ ne, sized)

  pub drop_returns : (w : sys.World) × (drop sys checks world a ≡ value w)
  unfolding drop
  drop_returns = elim (Bool-cases (a.ptr == sys.map_failed)) [
    | inl failed ↦ (world, rw failed)
    | inr mapped ↦ ((sys.munmap world a.ptr size).0, rw (mapped, sized))
  ]

module _ {T : Type 0} (checks : Bool) (default : T) (sys : Sys) (world world' : sys.World)
    (buf_num buf_len : ℕ) (options : MmapAreaOptions) (a : MmapArea) (bufs : Vec (BufMmap T))
    (made : new checks default sys world buf_num buf_len options
      ≡ value (ok (a, bufs), world')) where
  new_dimensions : (a.buf_num ≡ buf_num) × (a.buf_len ≡ buf_len)
  unfolding new
  new_dimensions = ground arith

  -- The size of an area that `MmapArea::new` returned was computed without a panic.
  pub new-sized : (size : ℕ) × (mul checks 64 a.buf_num a.buf_len ≡ value size)
  unfolding new
  new-sized = elim (Outcome-cases (mul checks 64 buf_num buf_len)) [
    | inl (size, e) ↦ (size, rw (new_dimensions.0, new_dimensions.1) e)
    | inr (p, e) ↦ absurd (ground arith)
  ]
