-- ===== src/Tests/Umems.antt =====
-- The theorems on src/umem.rs at concrete inputs.
use afxdp_rs.Prelude.{ℕ, ◌≤◌, ◌≡◌, ◌↔◌, ◌⊎◌, refl, true, false, inr, arith}
use afxdp_rs.Util.PowOfTwo.{IsPowerOfTwo}
use afxdp_rs.Rust.{value, ok, err}
use afxdp_rs.Rust.Vec.{Vec}
use afxdp_rs.Buf.Mmap.{BufMmap}
use afxdp_rs.Area.{get_buf_num, get_buf_len}
use afxdp_rs.Umem.{
  UmemCompletionQueue, UmemFillQueue, create, ring_not_power_of_two, new, service, fill,
}
use afxdp_rs.Umem.New.{umem_new_iff}
use afxdp_rs.Umem.Service.{Serviced, service-Serviced}
use afxdp_rs.Umem.Fill.{Filled, fill-Filled}
use afxdp_rs.Tests.Cons.{window, window_laws}
use afxdp_rs.Tests.Prod.{slots, slots_laws}
use afxdp_rs.Tests.Sample.{sys, area, umem, completion, filling, two_bufs}

umem_new_iff_example :
    ((new sys true 0 area 32 64 ≡ value (err ring_not_power_of_two, 0))
      ↔ ((¬ IsPowerOfTwo 32) ⊎ (¬ IsPowerOfTwo 64)))
    × ((new sys true 0 area 32 64
          ≡ value (
            ok (
              umem,
              record { umem = umem; cq = (window 0).blank },
              record { umem = umem; fq = (slots 0).blank },
            ),
            0,
          ))
        ↔ (IsPowerOfTwo 32 × IsPowerOfTwo 64 × (true ≡ true)))
    × ((new sys true 0 area 32 64 ≡ value (err (create 0), 0))
        ↔ (IsPowerOfTwo 32 × IsPowerOfTwo 64 × (true ≡ false)))
umem_new_iff_example =
    umem_new_iff sys true 0 area 32 64 (unfold get_buf_num get_buf_len in omega arith)

service-Serviced_example :
    (q : UmemCompletionQueue (window 0)) × (bufs : Vec (BufMmap ℕ)) × (service
        (window 0)
        true
        3
        completion
        two_bufs
        64
      ≡ value (ok 2, q, bufs))
    × Serviced (window 0) 3 (window_laws 0) completion q two_bufs bufs 2
    × (2 ≤ 2)
service-Serviced_example =
    service-Serviced (window 0) 3 true (window_laws 0) completion two_bufs 64 (omega arith)
      (unfold get_buf_len in omega arith) refl (inr (omega arith))

fill-Filled_example :
    (q : UmemFillQueue (slots 0)) × (bufs : Vec (BufMmap ℕ)) × (fill
        (slots 0)
        true
        filling
        two_bufs
        64
      ≡ value (ok 2, q, bufs))
    × Filled (slots_laws 0) filling q two_bufs bufs 2
    × (2 ≤ 2)
fill-Filled_example =
    fill-Filled (slots 0) true (slots_laws 0) filling two_bufs 64 refl (inr (omega arith))
