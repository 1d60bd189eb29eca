-- ===== src/UnitTests/Mapped.antt =====
-- src/mmap_area.rs, src/umem.rs and src/socket.rs, in their tests: the area that a test makes, and its end.
use afxdp_rs.Prelude.{ℕ, ◌+◌, ◌*◌, ◌^◌, ◌<◌, ◌≡◌, ◌≢◌, refl, Bool, arith, bit_or}
use afxdp_rs.Rust.{value}
use afxdp_rs.Rust.Vec.{Vec}
use afxdp_rs.Rust.Vec
use afxdp_rs.Rust.Fits.{mul_fits}
use afxdp_rs.Buf.Mmap.{BufMmap}
use afxdp_rs.Area.{MmapArea, map_flags}
use afxdp_rs.Area
use afxdp_rs.Area.New.{Frames, area_mapped}
use afxdp_rs.Area.Unmap.{drop_unmaps}
use afxdp_rs.Extern.Sys.{Sys}
use afxdp_rs.UnitTests.{small_pages, new_area}

module _ (sys : Sys) (checks : Bool) (world : sys.World) (buf_num : ℕ) where
  -- The mapping that a test with `buf_num` buffers of 2048 bytes gets, and what is left when it is given back.
  abbrev pub mapping : sys.World × ℕ
  mapping =
      sys.mmap world (buf_num * 2048) (bit_or sys.prot_read sys.prot_write)
        (map_flags sys small_pages)

  abbrev pub mapped_area : MmapArea
  mapped_area = record { buf_num = buf_num; buf_len = 2048; ptr = mapping.1 }

  abbrev pub unmapped : sys.World → sys.World
  unmapped after = (sys.munmap after mapping.1 (buf_num * 2048)).0

  -- `mmap` works, and what it returns lies below the end of the address space.
  pub record IsMapped : Type 0 where
    pub works : mapping.1 ≢ sys.map_failed
    pub top : mapping.1 + buf_num * 2048 < 2 ^ 64

  module _ (m : IsMapped) where
    pub new_area_lem :
        {T : Type 0} (default : T)
        → (bufs : Vec (BufMmap T)) × (new_area sys checks default world buf_num 2048
            ≡ value (mapped_area, bufs, mapping.0))
          × Frames default mapped_area 0 bufs.items
          × (Vec.len bufs ≡ buf_num)
    unfolding new_area
    new_area_lem default =
        let (bufs, made, frames, full, _) =
          area_mapped default checks sys world small_pages mapped_area
            (record { room = omega arith; top = m.top }) refl m.works in
        (bufs, rw made, frames, full)

    pub unmapped_lem :
        (after : sys.World) → Area.drop sys checks after mapped_area ≡ value (unmapped after)
    unmapped_lem after =
        drop_unmaps sys checks after mapped_area
          (mul_fits checks 64 buf_num 2048 (omega (arith, m.top))) m.works
