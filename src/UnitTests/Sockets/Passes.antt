-- ===== src/UnitTests/Sockets/Passes.antt =====
-- src/socket.rs: when its test passes.
use afxdp_rs.Prelude.{ℕ, ◌≡◌, ◌↔◌, refl, Bool, true, false, Bool-cases, inl, inr, some, arith}
use afxdp_rs.Prelude.Int.{is_zero}
use afxdp_rs.Util.{is_pow_of_two}
use afxdp_rs.Util.PowOfTwo.{IsPowerOfTwo, is_pow_of_two_iff}
use afxdp_rs.Rust.{value, panic, explicit}
use afxdp_rs.Area.{get_buf_num, get_buf_len}
use afxdp_rs.Umem
use afxdp_rs.Umem.New.{created, fresh_umem, umem_creates}
use afxdp_rs.Socket.New.{socket_rejects, socket_creates, created as socket_created}
use afxdp_rs.Socket.Outcomes.{socket_new_iff}
use afxdp_rs.Extern.Sys.{Sys, Created}
use afxdp_rs.UnitTests.Mapped.{IsMapped, mapping, mapped_area, unmapped, new_area_lem, unmapped_lem}
use afxdp_rs.UnitTests.Sockets.{ring_size1, link1, default_options}

refuses : (size : ℕ) → is_pow_of_two size ≡ false → ¬ IsPowerOfTwo size
refuses size e h = cc ((is_pow_of_two_iff size).1 h)

module _ (sys : Sys) (checks : Bool) {T : Type 0} (default : T)
    (setrlimit : sys.World → sys.World × Bool) (world : sys.World) where
  abbrev limited : sys.World
  limited = (setrlimit world).0

  abbrev umem_made : Created sys.World sys.comp.Ring sys.fill.Ring
  umem_made =
      created sys checks (mapping sys checks limited 1024).0 (mapped_area sys checks limited 1024)
        1024 1024

  abbrev umem : Umem.Umem
  umem =
      fresh_umem sys checks (mapping sys checks limited 1024).0
        (mapped_area sys checks limited 1024) 1024 1024

  -- libbpf's socket on the link of the test
  abbrev socket_made : Created sys.World sys.rx.Ring sys.tx.Ring
  socket_made =
      socket_created sys umem_made.world umem link1 1 default_options (some sys.rx.blank)
        (some sys.tx.blank) 2048 2048

  module _ (m : IsMapped sys checks limited 1024) (set : (setrlimit world).1 ≡ true)
      (made : is_zero umem_made.ret ≡ true) where
    no_link_passes :
        is_zero socket_made.ret ≡ false
        → (end : sys.World) × (ring_size1 sys checks default setrlimit world ≡ value end)
    unfolding ring_size1 get_buf_num get_buf_len
    no_link_passes e =
        let (bufs, mapped, _, _) = new_area_lem sys checks limited 1024 m default in
        let w = (mapping sys checks limited 1024).0 in
        let power : IsPowerOfTwo 1024 = (10, refl) in
        let power' : IsPowerOfTwo 2048 = (11, refl) in
        let after = Umem.drop sys socket_made.world umem in
        let rejects =
          λ (rx tx : ℕ). socket_rejects sys socket_made.world umem link1 1 default_options rx tx in
        let odd = λ (size : ℕ). refuses size in
        (
          unmapped sys checks limited 1024 after,
          rw (
            set,
            mapped,
            umem_creates sys checks w (mapped_area sys checks limited 1024) 1024 1024 power power
                (omega arith) made,
            (socket_new_iff sys umem_made.world umem link1 1 default_options 2048 2048).3.1
                (power', power', refl, e),
            rejects 101 2048 (inl (odd 101 (unfold is_pow_of_two in refl))),
            rejects 2048 149 (inr (odd 149 (unfold is_pow_of_two in refl))),
            rejects 1999 149 (inl (odd 1999 (unfold is_pow_of_two in refl))),
            unmapped_lem sys checks limited 1024 m after,
          ),
        )

    link_panics :
        is_zero socket_made.ret ≡ true
        → ring_size1 sys checks default setrlimit world ≡ panic explicit
    unfolding ring_size1 get_buf_num get_buf_len
    link_panics e =
        let (bufs, mapped, _, _) = new_area_lem sys checks limited 1024 m default in
        let w = (mapping sys checks limited 1024).0 in
        let power : IsPowerOfTwo 1024 = (10, refl) in
        let power' : IsPowerOfTwo 2048 = (11, refl) in
        rw (
          set,
          mapped,
          umem_creates sys checks w (mapped_area sys checks limited 1024) 1024 1024 power power
              (omega arith) made,
          socket_creates sys umem_made.world umem link1 1 default_options refl 2048 2048 power'
              power' e,
        )

    -- Where the limit can be set, `mmap` works and libbpf makes the umem, the test panics exactly if libbpf makes the
    -- first socket, as it may where there is a link of the name "link1": the refusals that follow are never the
    -- reason.
    pub socket_test_iff :
        (ring_size1 sys checks default setrlimit world ≡ panic explicit)
        ↔ (is_zero socket_made.ret ≡ true)
    socket_test_iff = (
      λ e. elim (Bool-cases (is_zero socket_made.ret)) [
        | inl works ↦ works
        | inr fails ↦ absurd (cc (no_link_passes fails).1)
      ],
      link_panics,
    )
