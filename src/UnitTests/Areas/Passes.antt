-- ===== src/UnitTests/Areas/Passes.antt =====
-- src/mmap_area.rs: its tests pass.
use afxdp_rs.Prelude.{ℕ, ◌+◌, ◌≡◌, refl, Bool, arith, length-replicate, ==_of_eq}
use afxdp_rs.Rust.{value, cast}
use afxdp_rs.Rust.Vec.{Vec}
use afxdp_rs.Memory.{Memory}
use afxdp_rs.Buf.Mmap.{BufMmap}
use afxdp_rs.Area.New.{Frames}
use afxdp_rs.Extern.Sys.{Sys}
use afxdp_rs.UnitTests.Mapped.{IsMapped, mapping, mapped_area, unmapped, new_area_lem, unmapped_lem}
use afxdp_rs.UnitTests.Areas.{base, map_bufs, bufs_to_pool, buf_values, buf_values2}
use afxdp_rs.UnitTests.Areas.Bytes.{length-to_ne_bytes}
use afxdp_rs.UnitTests.Areas.Written.{put_each, put_each-Holds}
use afxdp_rs.UnitTests.Areas.Loops.{
  value_bytes, number_bytes, check_lengths_lem, write_values_lem, read_values_lem,
  write_numbers_lem, read_numbers_lem,
}

module _ (sys : Sys) (checks big : Bool) {T : Type 0} (default : T) (world : sys.World) where
  map_bufs_lem :
      (n : ℕ) (m : IsMapped sys checks world n)
      → (bufs : Vec (BufMmap T)) × (map_bufs sys checks big default world n 2048
          ≡ value (mapped_area sys checks world n, bufs, (mapping sys checks world n).0))
        × Frames default (mapped_area sys checks world n) 0 bufs.items
  unfolding map_bufs
  map_bufs_lem n m =
      let (bufs, made, frames, full) = new_area_lem sys checks world n m default in
      (bufs, rw (made, ==_of_eq n n refl, ==_of_eq _ _ full), frames)

  -- Where `mmap` works, all three tests pass, in every build and on either kind of machine: each buffer has the
  -- length that is wanted, and the number that is written to a buffer is read from it after all buffers are
  -- written. The areas are unmapped at the end.
  pub area_tests_pass :
      (m : Memory)
      → IsMapped sys checks world 1024
      → IsMapped sys checks world 256
      → let w = unmapped sys checks world 1024 (mapping sys checks world 1024).0 in
        let w2 = unmapped sys checks world 256 (mapping sys checks world 256).0 in
        (bufs_to_pool sys checks big default world ≡ value w)
        × ((m' : Memory) × (buf_values sys checks big default world m ≡ value (m', w)))
        × ((m' : Memory) × (buf_values2 sys checks big default world m ≡ value (m', w2)))
  unfolding bufs_to_pool buf_values buf_values2
  area_tests_pass m h h2 =
      let (bufs, e, frames) = map_bufs_lem 1024 h in
      let a = mapped_area sys checks world 1024 in
      let end = unmapped_lem sys checks world 1024 h (mapping sys checks world 1024).0 in
      let (bufs2, e2, frames2) = map_bufs_lem 256 h2 in
      let a2 = mapped_area sys checks world 256 in
      let end2 = unmapped_lem sys checks world 256 h2 (mapping sys checks world 256).0 in
      let sized = λ (i : ℕ). length-to_ne_bytes big (i + base) in
      let m1 = put_each 8 (value_bytes big) sized 0 bufs.items m in
      let sized2 = λ (i : ℕ). length-replicate 1792 (cast 8 i) in
      let m2 = put_each 1792 (number_bytes 1792) sized2 0 bufs2.items m in
      (
        rw (e, check_lengths_lem default a 0 bufs.items frames, end),
        (
          m1,
          rw (
            e,
            write_values_lem default a checks big (omega arith) (omega arith) 0 bufs.items m frames,
            read_values_lem default a checks big (omega arith) (omega arith) 0 bufs.items m1 frames
                (put_each-Holds 8 (value_bytes big) sized a default (omega arith) m 0 bufs.items
                  frames),
            end,
          ),
        ),
        (
          m2,
          rw (
            e2,
            write_numbers_lem default a2 1792 (omega arith) 0 bufs2.items m frames2,
            read_numbers_lem default a2 1792 (omega arith) 0 bufs2.items m2 frames2 (
                put_each-Holds 1792 (number_bytes 1792) sized2 a2 default (omega arith) m 0
                  bufs2.items frames2),
            end2,
          ),
        ),
      )
