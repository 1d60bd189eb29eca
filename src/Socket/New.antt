-- ===== src/Socket/New.antt =====
-- src/socket.rs: what `Socket::new`, `new_rx` and `new_tx` return.
use afxdp_rs.Prelude.{
  ℕ, ◌≡◌, ◌↔◌, ◌⊎◌, inl, inr, refl, Bool, true, false, Option, some, none, List, arith, bit_and,
  bit_or, if◌then◌else◌,
}
use afxdp_rs.Prelude.Int.{is_zero}
use afxdp_rs.Util.PowOfTwo.{IsPowerOfTwo, is_pow_of_two_iff, is_pow_of_two-false}
use afxdp_rs.Rust.{value, panic, unwrap, ok, err, cast}
use afxdp_rs.Umem.{Umem}
use afxdp_rs.Extern.Sys.{Sys, Created}
use afxdp_rs.Socket.{
  Socket, SocketOptions, create, ring_not_power_of_two, has_nul, bind_flags, socket_config, new,
  new_rx, new_tx,
}

module _ (sys : Sys) (world : sys.World) (umem : Umem) (name : List ℕ) (queue : ℕ)
    (options : SocketOptions) where
  -- The call of libbpf that the constructors make.
  abbrev pub created :
      Option sys.rx.Ring → Option sys.tx.Ring → ℕ → ℕ → Created sys.World sys.rx.Ring sys.tx.Ring
  created rx tx rx_size tx_size =
      sys.socket_create world name (cast 32 queue) umem.umem rx tx
        (socket_config sys rx_size tx_size options)

  abbrev pub made_socket : ℕ → Socket
  made_socket handle = record { umem = umem; socket = handle; if_name_c = name }

  -- A ring size that is no power of two is refused before anything is created, whatever the name: the world
  -- is as it was.
  pub socket_rejects :
      (rx_size tx_size : ℕ)
      → (¬ IsPowerOfTwo rx_size) ⊎ (¬ IsPowerOfTwo tx_size)
      → new sys world umem name queue rx_size tx_size options
        ≡ value (err ring_not_power_of_two, world)
  unfolding new
  socket_rejects rx_size tx_size (inl h) = rw (is_pow_of_two-false rx_size h)
  socket_rejects rx_size tx_size (inr h) = rw (is_pow_of_two-false tx_size h) (ground arith)

  -- So it is by the two constructors of a single half.
  pub halves_reject :
      (size : ℕ)
      → ¬ IsPowerOfTwo size
      → (new_rx sys world umem name queue size options ≡ value (err ring_not_power_of_two, world))
        × (new_tx sys world umem name queue size options ≡ value (err ring_not_power_of_two, world))
  unfolding new_rx new_tx
  halves_reject size h = (rw (is_pow_of_two-false size h), rw (is_pow_of_two-false size h))

  -- A name with a zero byte makes every constructor panic, before anything is created.
  pub nul_panics :
      (rx_size tx_size : ℕ)
      → IsPowerOfTwo rx_size
      → IsPowerOfTwo tx_size
      → has_nul name ≡ true
      → (new sys world umem name queue rx_size tx_size options ≡ panic unwrap)
        × (new_rx sys world umem name queue rx_size options ≡ panic unwrap)
        × (new_tx sys world umem name queue tx_size options ≡ panic unwrap)
  unfolding new new_rx new_tx
  nul_panics rx_size tx_size r t e =
      let rx = (is_pow_of_two_iff rx_size).1 r in
      let tx = (is_pow_of_two_iff tx_size).1 t in (rw (rx, tx, e), rw (rx, e), rw (tx, e))

  module _ (clean : has_nul name ≡ false) where
    -- With ring sizes that are powers of two and a name with no zero byte, where libbpf returns 0 the
    -- socket and its two halves share the new handle and the umem, both halves have the socket's
    -- descriptor, and each owns the ring that libbpf set up for it.
    pub socket_creates :
        (rx_size tx_size : ℕ)
        → IsPowerOfTwo rx_size
        → IsPowerOfTwo tx_size
        → let made = created (some sys.rx.blank) (some sys.tx.blank) rx_size tx_size in
          let socket = made_socket made.handle in
          let fd = sys.socket_fd made.world made.handle in
          is_zero made.ret ≡ true
          → new sys world umem name queue rx_size tx_size options
            ≡ value (
              ok (
                socket,
                record { socket = socket; fd = fd; rx = made.cons sys.rx.blank },
                record { socket = socket; fd = fd; tx = made.prod sys.tx.blank },
              ),
              made.world,
            )
    unfolding new
    socket_creates rx_size tx_size r t e =
        rw ((is_pow_of_two_iff rx_size).1 r, (is_pow_of_two_iff tx_size).1 t, clean, e)

    -- A socket of one half is made with a ring of size 0, and no ring given to libbpf, for the half that it
    -- lacks; where libbpf returns 0, the half it has shares the new handle and the umem with the socket, has
    -- its descriptor, and owns the ring that libbpf set up.
    pub halves_create :
        (size : ℕ)
        → IsPowerOfTwo size
        → let rx_only = created (some sys.rx.blank) none size 0 in
          let tx_only = created none (some sys.tx.blank) 0 size in
          is_zero rx_only.ret ≡ true
          → is_zero tx_only.ret ≡ true
          → let receiver = made_socket rx_only.handle in
            let sender = made_socket tx_only.handle in
            (new_rx sys world umem name queue size options
              ≡ value (
                ok (
                  receiver,
                  record {
                    socket = receiver;
                    fd = sys.socket_fd rx_only.world rx_only.handle;
                    rx = rx_only.cons sys.rx.blank;
                  },
                ),
                rx_only.world,
              ))
            × (new_tx sys world umem name queue size options
                ≡ value (
                  ok (
                    sender,
                    record {
                      socket = sender;
                      fd = sys.socket_fd tx_only.world tx_only.handle;
                      tx = tx_only.prod sys.tx.blank;
                    },
                  ),
                  tx_only.world,
                ))
    unfolding new_rx new_tx
    halves_create size power e f =
        let p = (is_pow_of_two_iff size).1 power in (rw (p, clean, e), rw (p, clean, f))

    -- Where libbpf returns anything but 0, each constructor returns the error with the value of `errno`.
    pub socket_fails :
        (rx_size tx_size : ℕ)
        → IsPowerOfTwo rx_size
        → IsPowerOfTwo tx_size
        → let both = created (some sys.rx.blank) (some sys.tx.blank) rx_size tx_size in
          let rx_only = created (some sys.rx.blank) none rx_size 0 in
          let tx_only = created none (some sys.tx.blank) 0 tx_size in
          is_zero both.ret ≡ false
          → is_zero rx_only.ret ≡ false
          → is_zero tx_only.ret ≡ false
          → (new sys world umem name queue rx_size tx_size options
              ≡ value (err (create (sys.errno both.world)), both.world))
            × (new_rx sys world umem name queue rx_size options
                ≡ value (err (create (sys.errno rx_only.world)), rx_only.world))
            × (new_tx sys world umem name queue tx_size options
                ≡ value (err (create (sys.errno tx_only.world)), tx_only.world))
    unfolding new new_rx new_tx
    socket_fails rx_size tx_size r t e f g =
        let rx = (is_pow_of_two_iff rx_size).1 r in
        let tx = (is_pow_of_two_iff tx_size).1 t in
        (rw (rx, tx, clean, e), rw (rx, clean, f), rw (tx, clean, g))

-- The ring sizes in the options have no effect on any constructor: only the arguments count.
pub sizes_ignored :
    (sys : Sys) (world : sys.World) (umem : Umem) (name : List ℕ) (queue rx_size tx_size : ℕ)
    (options : SocketOptions) (rx tx : ℕ)
    → let other : SocketOptions = record options { rx_ring_size = rx; tx_ring_size = tx } in
      (new sys world umem name queue rx_size tx_size other
        ≡ new sys world umem name queue rx_size tx_size options)
      × (new_rx sys world umem name queue rx_size other
          ≡ new_rx sys world umem name queue rx_size options)
      × (new_tx sys world umem name queue tx_size other
          ≡ new_tx sys world umem name queue tx_size options)
unfolding new new_rx new_tx socket_config bind_flags
sizes_ignored sys world umem name queue rx_size tx_size options rx tx = (refl, refl, refl)

flag_table :
    (zero_copy copy : Bool)
    → let first : ℕ = if zero_copy then 12 else 8 in
      let flags : ℕ = if copy then bit_or first 2 else first in
      ((bit_and flags 4 ≡ 4) ↔ (zero_copy ≡ true))
      × ((bit_and flags 2 ≡ 2) ↔ (copy ≡ true))
      × (bit_and flags 8 ≡ 8)
flag_table true true = ground arith
flag_table true false = ground arith
flag_table false true = ground arith
flag_table false false = ground arith

module _ (sys : Sys) where
  -- With the kernel's values of the three flags, each mode's flag is set exactly if its option is, and the
  -- wakeup flag is always set.
  pub bind_flags_iff :
      (options : SocketOptions)
      → sys.xdp_copy ≡ 2
      → sys.xdp_zerocopy ≡ 4
      → sys.xdp_use_need_wakeup ≡ 8
      → ((bit_and (bind_flags sys options) 4 ≡ 4) ↔ (options.zero_copy_mode ≡ true))
        × ((bit_and (bind_flags sys options) 2 ≡ 2) ↔ (options.copy_mode ≡ true))
        × (bit_and (bind_flags sys options) 8 ≡ 8)
  unfolding bind_flags
  bind_flags_iff options c z w = rw (c, z, w) (flag_table options.zero_copy_mode options.copy_mode)
