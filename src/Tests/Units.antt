-- ===== src/Tests/Units.antt =====
-- The theorems on the unit tests of src/ on a concrete system.
use afxdp_rs.Prelude.{ℕ, ◌≡◌, ◌↔◌, refl, Bool, true, false, arith}
use afxdp_rs.Rust.{value, panic, explicit}
use afxdp_rs.Memory.{Memory}
use afxdp_rs.UnitTests.Mapped.{IsMapped}
use afxdp_rs.UnitTests.Areas.{bufs_to_pool, buf_values, buf_values2}
use afxdp_rs.UnitTests.Areas.Passes.{area_tests_pass}
use afxdp_rs.UnitTests.Umems.{ring_size1, ring_size2, ring_size3, ring_size4}
use afxdp_rs.UnitTests.Umems.Passes.{umem_tests_iff}
use afxdp_rs.UnitTests.Sockets
use afxdp_rs.UnitTests.Sockets.Passes.{socket_test_iff}
use afxdp_rs.Tests.Sample.{sys}

abbrev zeroed : Memory
zeroed a = 0

abbrev unlimited : ℕ → ℕ × Bool
unlimited world = (world, true)

large : IsMapped sys true 0 1024
large = record { works = omega arith; top = omega arith }

area_tests_pass_example :
    (bufs_to_pool sys true false {T = ℕ} 0 0 ≡ value 0)
    × ((m' : Memory) × (buf_values sys true false {T = ℕ} 0 0 zeroed ≡ value (m', 0)))
    × ((m' : Memory) × (buf_values2 sys true false {T = ℕ} 0 0 zeroed ≡ value (m', 0)))
area_tests_pass_example =
    area_tests_pass sys true false 0 0 zeroed large
      (record { works = omega arith; top = omega arith })

umem_tests_iff_example :
    (ring_size1 sys true {T = ℕ} 0 0 ≡ value 0)
    × (ring_size2 sys true {T = ℕ} 0 0 ≡ value 0)
    × (ring_size3 sys true {T = ℕ} 0 0 ≡ value 0)
    × ((ring_size4 sys true {T = ℕ} 0 unlimited 0 ≡ panic explicit)
        ↔ ((true ≡ true) × (true ≡ false)))
umem_tests_iff_example = umem_tests_iff sys true 0 unlimited 0 large large

socket_test_iff_example :
    (Sockets.ring_size1 sys true {T = ℕ} 0 unlimited 0 ≡ panic explicit) ↔ (true ≡ true)
socket_test_iff_example = socket_test_iff sys true 0 unlimited 0 large refl refl
