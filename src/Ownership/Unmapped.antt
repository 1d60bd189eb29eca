-- ===== src/Ownership/Unmapped.antt =====
-- src/mmap_area.rs: the buffers of an area are not among its owners.
use afxdp_rs.Prelude.{◌*◌, ◌≡◌, ◌≢◌, refl, subst, Bool, [], ◌∷◌, bit_or, arith}
use afxdp_rs.Rust.{value, ok}
use afxdp_rs.Rust.Vec.{Vec}
use afxdp_rs.Rust.Fits.{mul_fits}
use afxdp_rs.Buf.Mmap.{BufMmap}
use afxdp_rs.Area.{MmapArea, MmapAreaOptions, map_flags}
use afxdp_rs.Area
use afxdp_rs.Area.Layout.{IsArea}
use afxdp_rs.Area.New.{Frames, area_mapped}
use afxdp_rs.Area.Unmap.{drop_unmaps}
use afxdp_rs.Extern.Sys.{Sys}
use afxdp_rs.Ownership.Counts.{strong_at, set_strong, get_item}
use afxdp_rs.Ownership.{Heap, area, drop_handle, drop_area}
use afxdp_rs.Ownership.Make.{map_area}
use afxdp_rs.Ownership.Reach.{empty}

-- The program's `Arc` is the only owner of the area that `MmapArea::new` returns: dropping it unmaps the area, though
-- the program has all of its buffers, whose bytes lie there.
pub bufs_unmapped :
    {T : Type 0} (default : T) (checks : Bool) (sys : Sys) (world : sys.World)
    (options : MmapAreaOptions) (a : MmapArea)
    → IsArea a
    → let (world', ptr) =
        sys.mmap world
          (a.buf_num * a.buf_len)
          (bit_or sys.prot_read sys.prot_write)
          (map_flags sys options) in
      let h : Heap sys = record {
        areas = record { strong = 1; item = a } ∷ [];
        umems = [];
        sockets = [];
        log = [];
        world = world';
      } in
      ptr ≡ a.ptr
      → ptr ≢ sys.map_failed
      → (bufs : Vec (BufMmap T)) × (Area.new checks default sys world a.buf_num a.buf_len options
          ≡ value (ok (a, bufs), world'))
        × Frames default a 0 bufs.items
        × (map_area sys checks default (empty world).heap a.buf_num a.buf_len options
            ≡ value (area 0 ∷ [], h))
        × ((h' : Heap sys) × (drop_handle sys checks (area 0) h ≡ value h')
            × (h'.log ≡ area 0 ∷ [])
            × (h'.world ≡ (sys.munmap world' a.ptr (a.buf_num * a.buf_len)).0))
unfolding map_area drop_handle drop_area strong_at set_strong get_item
bufs_unmapped default checks sys world options a v e ne =
    let (bufs, made, frames, _, _) = area_mapped default checks sys world options a v e ne in
    let sized = mul_fits checks 64 a.buf_num a.buf_len (omega (arith, v.top)) in
    let w =
      (sys.mmap world (a.buf_num * a.buf_len) (bit_or sys.prot_read sys.prot_write)
        (map_flags sys options)).0 in
    let unmapped = drop_unmaps sys checks w a sized (subst (λ p. p ≢ sys.map_failed) e ne) in
    (
      bufs,
      made,
      frames,
      rw made,
      (
        record {
          areas = record { strong = 0; item = a } ∷ [];
          umems = [];
          sockets = [];
          log = area 0 ∷ [];
          world = (sys.munmap w a.ptr (a.buf_num * a.buf_len)).0;
        },
        rw unmapped,
        refl,
        refl,
      ),
    )
