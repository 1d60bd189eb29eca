-- ===== src/Tests/Areas.antt =====
-- The theorems on src/mmap_area.rs, src/buf_mmap.rs and src/util.rs at concrete inputs.
use afxdp_rs.Prelude.{ℕ, ◌<◌, ◌≤◌, ◌≡◌, ◌↔◌, refl, true, false, arith}
use afxdp_rs.Util.{is_pow_of_two}
use afxdp_rs.Util.PowOfTwo.{IsPowerOfTwo, is_pow_of_two_iff}
use afxdp_rs.Rust.{value, panic, overflow, ok}
use afxdp_rs.Rust.Vec.{Vec}
use afxdp_rs.Rust.Vec
use afxdp_rs.Memory.{Memory, store}
use afxdp_rs.Buf.{BufLaws}
use afxdp_rs.Buf.Contract.{buf_mmap, buf_mmap-BufLaws, mmap-set_len_iff}
use afxdp_rs.Buf.Mmap.{BufMmap, get_data, write_data}
use afxdp_rs.Buf.Mmap
use afxdp_rs.Area.{new}
use afxdp_rs.Area.New.{area_mapped, Frames}
use afxdp_rs.Area.Isolation.{write-isolated}
use afxdp_rs.Area.Unchecked.{short_bufs, Spans}
use afxdp_rs.Tests.Sample.{sys, area, small_pages, frame}

is_pow_of_two_iff_example : (is_pow_of_two 1024 ≡ true) ↔ IsPowerOfTwo 1024
is_pow_of_two_iff_example = is_pow_of_two_iff 1024

area_mapped_example :
    (bufs : Vec (BufMmap ℕ)) × (new {T = ℕ} true 0 sys 0 4 2048 small_pages
      ≡ value (ok (area, bufs), 0))
    × Frames 0 area 0 bufs.items
    × (Vec.len bufs ≡ 4)
    × (bufs.capacity ≡ 4)
area_mapped_example =
    area_mapped 0 true sys 0 small_pages area (record { room = omega arith; top = omega arith })
      refl (omega arith)

short_bufs_example :
    (new {T = ℕ} true 0 sys 0 4 64 small_pages ≡ panic overflow)
    × ((bufs : Vec (BufMmap ℕ)) × (new {T = ℕ} false 0 sys 0 4 64 small_pages
          ≡ value (ok (record { buf_num = 4; buf_len = 64; ptr = 65536 }, bufs), 0))
        × Spans 0 18446744073709551424 bufs)
short_bufs_example = short_bufs 0 sys 0 4 64 small_pages (omega arith) (omega arith) (omega arith)

abbrev zeroed : Memory
zeroed a = 0

write-isolated_example : get_data (store zeroed 65802 171) (frame 2 0) ≡ get_data zeroed (frame 2 0)
write-isolated_example =
    write-isolated {a = area} zeroed (store zeroed 65802 171) 0 2 (frame 0 0) (frame 0 0)
      (frame 2 0) 10 171 (record { inside = omega arith; addr = refl; ptr = refl; size = refl })
      (record { inside = omega arith; addr = refl; ptr = refl; size = refl }) (omega arith)
      (unfold write_data in refl)

buf_mmap-BufLaws_example : BufLaws (buf_mmap ℕ)
buf_mmap-BufLaws_example = buf_mmap-BufLaws ℕ

mmap-set_len_iff_example :
    (Mmap.set_len (frame 1 60) 1500 ≡ value (frame 1 1500)) ↔ ((1792 < 65536) × (1500 ≤ 1792))
mmap-set_len_iff_example = mmap-set_len_iff (frame 1 60) 1500
