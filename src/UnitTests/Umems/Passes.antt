-- ===== src/UnitTests/Umems/Passes.antt =====
-- src/umem.rs: when its tests pass.
use afxdp_rs.Prelude.{ℕ, ◌≡◌, ◌↔◌, refl, Bool, true, false, not, Bool-cases, inl, inr, ◌||◌, arith}
use afxdp_rs.Prelude.Int.{is_zero}
use afxdp_rs.Util.{is_pow_of_two}
use afxdp_rs.Util.PowOfTwo.{IsPowerOfTwo}
use afxdp_rs.Rust.{value, panic, explicit}
use afxdp_rs.Area.{get_buf_num, get_buf_len}
use afxdp_rs.Umem.{create, ring_not_power_of_two}
use afxdp_rs.Umem
use afxdp_rs.Umem.New.{created, fresh_umem, umem_creates, umem_fails}
use afxdp_rs.Extern.Sys.{Sys}
use afxdp_rs.UnitTests.Mapped.{IsMapped, mapping, mapped_area, unmapped, new_area_lem, unmapped_lem}
use afxdp_rs.UnitTests.Umems.{refused, ring_size1, ring_size2, ring_size3, ring_size4}

module _ (sys : Sys) (checks : Bool) {T : Type 0} (default : T) where
  refused_lem :
      (world : sys.World) (comp_size fill_size : ℕ)
      → IsMapped sys checks world 1024
      → (not (is_pow_of_two comp_size) || not (is_pow_of_two fill_size)) ≡ true
      → refused sys checks default world comp_size fill_size
        ≡ value (unmapped sys checks world 1024 (mapping sys checks world 1024).0)
  unfolding refused Umem.new
  refused_lem world comp_size fill_size m bad =
      let (bufs, made, _, _) = new_area_lem sys checks world 1024 m default in
      rw (made, bad, unmapped_lem sys checks world 1024 m (mapping sys checks world 1024).0)

  module _ (setrlimit : sys.World → sys.World × Bool) (world : sys.World) where
    abbrev limited : sys.World
    limited = (setrlimit world).0

    -- libbpf's answer to the last test
    abbrev answer : Bool
    answer =
        is_zero
          (created sys checks (mapping sys checks limited 1024).0
            (mapped_area sys checks limited 1024) 1024 1024).ret

    module _ (m : IsMapped sys checks limited 1024) where
      run_works :
          (setrlimit world).1 ≡ true
          → answer ≡ true
          → (end : sys.World) × (ring_size4 sys checks default setrlimit world ≡ value end)
      unfolding ring_size4 get_buf_num get_buf_len
      run_works e r =
          let (bufs, made, _, _) = new_area_lem sys checks limited 1024 m default in
          let a = mapped_area sys checks limited 1024 in
          let w = (mapping sys checks limited 1024).0 in
          let power : IsPowerOfTwo 1024 = (10, refl) in
          let umem = umem_creates sys checks w a 1024 1024 power power (omega arith) r in
          let after =
            Umem.drop sys (created sys checks w a 1024 1024).world
              (fresh_umem sys checks w a 1024 1024) in
          (
            unmapped sys checks limited 1024 after,
            rw (e, made, umem, unmapped_lem sys checks limited 1024 m after),
          )

      run_fails :
          (setrlimit world).1 ≡ true
          → answer ≡ false
          → ring_size4 sys checks default setrlimit world ≡ panic explicit
      unfolding ring_size4 get_buf_num get_buf_len
      run_fails e r =
          let (bufs, made, _, _) = new_area_lem sys checks limited 1024 m default in
          let a = mapped_area sys checks limited 1024 in
          let w = (mapping sys checks limited 1024).0 in
          let power : IsPowerOfTwo 1024 = (10, refl) in
          rw (e, made, umem_fails sys checks w a 1024 1024 power power (omega arith) r)

      skipped :
          (setrlimit world).1 ≡ false
          → ring_size4 sys checks default setrlimit world ≡ value limited
      unfolding ring_size4
      skipped e = rw e

      ring_size4_iff :
          (ring_size4 sys checks default setrlimit world ≡ panic explicit)
          ↔ (((setrlimit world).1 ≡ true) × (answer ≡ false))
      ring_size4_iff = (
        λ e. elim (Bool-cases (setrlimit world).1) [
          | inl set ↦ elim (Bool-cases answer) [
            | inl zero ↦ absurd (cc (run_works set zero).1)
            | inr other ↦ (set, other)
          ]
          | inr not_set ↦ absurd (cc (skipped not_set))
        ],
        λ h. run_fails h.0 h.1,
      )

    -- Where `mmap` works, the first three tests pass, and unmap their areas: sizes that are no powers of two are
    -- refused, whatever libbpf would say. The last one panics exactly if it is run, since the limit could be set,
    -- and libbpf does not return 0.
    pub umem_tests_iff :
        IsMapped sys checks world 1024
        → IsMapped sys checks limited 1024
        → let end = unmapped sys checks world 1024 (mapping sys checks world 1024).0 in
          (ring_size1 sys checks default world ≡ value end)
          × (ring_size2 sys checks default world ≡ value end)
          × (ring_size3 sys checks default world ≡ value end)
          × ((ring_size4 sys checks default setrlimit world ≡ panic explicit)
              ↔ (((setrlimit world).1 ≡ true) × (answer ≡ false)))
    umem_tests_iff m m' = (
      refused_lem world 97 997 m (unfold is_pow_of_two in refl),
      refused_lem world 100 1024 m (unfold is_pow_of_two in refl),
      refused_lem world 1024 100 m (unfold is_pow_of_two in refl),
      ring_size4_iff m',
    )
