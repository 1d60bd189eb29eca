-- ===== src/Umem/New.antt =====
-- src/umem.rs: what `Umem::new` returns.
use afxdp_rs.Prelude.{ℕ, ◌*◌, ◌^◌, ◌<◌, ◌≡◌, ◌⊎◌, ◌↔◌, inl, inr, Bool, true, false, arith}
use afxdp_rs.Prelude.Int.{is_zero}
use afxdp_rs.Util.PowOfTwo.{IsPowerOfTwo, is_pow_of_two_iff, is_pow_of_two-false}
use afxdp_rs.Rust.{value, ok, err}
use afxdp_rs.Rust.Fits.{mul_fits}
use afxdp_rs.Area.{MmapArea, get_ptr, get_buf_num, get_buf_len}
use afxdp_rs.Extern.Sys.{Sys, Created}
use afxdp_rs.Umem.{Umem, create, ring_not_power_of_two, umem_config, new}

module _ (sys : Sys) (checks : Bool) (world : sys.World) (area : MmapArea)
    (comp_size fill_size : ℕ) where
  -- The call of libbpf that `new` makes, with the exact size of the area.
  abbrev pub created : Created sys.World sys.comp.Ring sys.fill.Ring
  created =
      sys.umem_create world (get_ptr area) (get_buf_num area * get_buf_len area)
        (umem_config sys area comp_size fill_size)

  abbrev pub fresh_umem : Umem
  fresh_umem = record { area = area; umem = created.handle }

  -- A ring size that is no power of two is refused before anything is created: the world is as it was.
  pub umem_rejects :
      (¬ IsPowerOfTwo comp_size) ⊎ (¬ IsPowerOfTwo fill_size)
      → new sys checks world area comp_size fill_size ≡ value (err ring_not_power_of_two, world)
  unfolding new
  umem_rejects (inl h) = rw (is_pow_of_two-false comp_size h)
  umem_rejects (inr h) = rw (is_pow_of_two-false fill_size h) (ground arith)

  module _ (comp_power : IsPowerOfTwo comp_size) (fill_power : IsPowerOfTwo fill_size)
      (fits : get_buf_num area * get_buf_len area < 2 ^ 64) where
    -- With powers of two, and where libbpf returns 0, the umem and both queues share the new handle and
    -- the area, and each queue owns the ring that libbpf set up for it.
    pub umem_creates :
        is_zero created.ret ≡ true
        → new sys checks world area comp_size fill_size
          ≡ value (
            ok (
              fresh_umem,
              record { umem = fresh_umem; cq = created.cons sys.comp.blank },
              record { umem = fresh_umem; fq = created.prod sys.fill.blank },
            ),
            created.world,
          )
    unfolding new
    umem_creates e = rw (
      (is_pow_of_two_iff comp_size).1 comp_power,
      (is_pow_of_two_iff fill_size).1 fill_power,
      mul_fits checks 64 (get_buf_num area) (get_buf_len area) fits,
      e,
    )

    -- Where it returns anything else, `new` returns the error with the value of `errno`.
    pub umem_fails :
        is_zero created.ret ≡ false
        → new sys checks world area comp_size fill_size
          ≡ value (err (create (sys.errno created.world)), created.world)
    unfolding new
    umem_fails e = rw (
      (is_pow_of_two_iff comp_size).1 comp_power,
      (is_pow_of_two_iff fill_size).1 fill_power,
      mul_fits checks 64 (get_buf_num area) (get_buf_len area) fits,
      e,
    )

  -- Where the size of the area fits 64 bits, `new` has three outcomes. It refuses the ring sizes, with the world
  -- as it was, exactly if one of them is no power of two. Otherwise it returns the umem and its two queues
  -- exactly if libbpf returns 0, and the value of `errno` exactly if not; the queues share the new handle and the
  -- area, and each owns the ring that libbpf set up for it.
  pub umem_new_iff :
      get_buf_num area * get_buf_len area < 2 ^ 64
      → ((new sys checks world area comp_size fill_size ≡ value (err ring_not_power_of_two, world))
          ↔ ((¬ IsPowerOfTwo comp_size) ⊎ (¬ IsPowerOfTwo fill_size)))
        × ((new sys checks world area comp_size fill_size
              ≡ value (
                ok (
                  fresh_umem,
                  record { umem = fresh_umem; cq = created.cons sys.comp.blank },
                  record { umem = fresh_umem; fq = created.prod sys.fill.blank },
                ),
                created.world,
              ))
            ↔ (IsPowerOfTwo comp_size × IsPowerOfTwo fill_size × (is_zero created.ret ≡ true)))
        × ((new sys checks world area comp_size fill_size
              ≡ value (err (create (sys.errno created.world)), created.world))
            ↔ (IsPowerOfTwo comp_size × IsPowerOfTwo fill_size × (is_zero created.ret ≡ false)))
  unfolding new
  umem_new_iff fits =
      let sized = mul_fits checks 64 (get_buf_num area) (get_buf_len area) fits in
      rw sized (ground (arith, is_pow_of_two_iff comp_size, is_pow_of_two_iff fill_size))
