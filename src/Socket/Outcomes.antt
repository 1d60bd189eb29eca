-- ===== src/Socket/Outcomes.antt =====
-- src/socket.rs: exactly when `Socket::new`, `new_rx` and `new_tx` return what.
use afxdp_rs.Prelude.{ℕ, ◌≡◌, ◌↔◌, ◌⊎◌, true, false, some, none, List, arith}
use afxdp_rs.Prelude.Int.{is_zero}
use afxdp_rs.Util.PowOfTwo.{IsPowerOfTwo, is_pow_of_two_iff}
use afxdp_rs.Rust.{value, panic, unwrap, ok, err}
use afxdp_rs.Umem.{Umem}
use afxdp_rs.Extern.Sys.{Sys}
use afxdp_rs.Socket.{SocketOptions, create, ring_not_power_of_two, has_nul, new, new_rx, new_tx}
use afxdp_rs.Socket.New.{created, made_socket}

module _ (sys : Sys) (world : sys.World) (umem : Umem) (name : List ℕ) (queue : ℕ)
    (options : SocketOptions) where
  -- `new` has four outcomes. It refuses the ring sizes, with the world as it was, exactly if one of them is no
  -- power of two; otherwise it panics exactly if the name has a zero byte; otherwise it returns the socket
  -- and its two halves exactly if libbpf returns 0, and the value of `errno` exactly if not. The halves share the
  -- new handle, its descriptor and the umem, and each owns the ring that libbpf set up for it.
  pub socket_new_iff :
      (rx_size tx_size : ℕ)
      → let made =
          created sys world umem name queue options
            (some sys.rx.blank)
            (some sys.tx.blank)
            rx_size
            tx_size in
        let socket = made_socket sys world umem name queue options made.handle in
        let fd = sys.socket_fd made.world made.handle in
        ((new sys world umem name queue rx_size tx_size options
            ≡ value (err ring_not_power_of_two, world))
          ↔ ((¬ IsPowerOfTwo rx_size) ⊎ (¬ IsPowerOfTwo tx_size)))
        × ((new sys world umem name queue rx_size tx_size options ≡ panic unwrap)
            ↔ (IsPowerOfTwo rx_size × IsPowerOfTwo tx_size × (has_nul name ≡ true)))
        × ((new sys world umem name queue rx_size tx_size options
              ≡ value (
                ok (
                  socket,
                  record { socket = socket; fd = fd; rx = made.cons sys.rx.blank },
                  record { socket = socket; fd = fd; tx = made.prod sys.tx.blank },
                ),
                made.world,
              ))
            ↔ (IsPowerOfTwo rx_size
                × IsPowerOfTwo tx_size
                × (has_nul name ≡ false)
                × (is_zero made.ret ≡ true)))
        × ((new sys world umem name queue rx_size tx_size options
              ≡ value (err (create (sys.errno made.world)), made.world))
            ↔ (IsPowerOfTwo rx_size
                × IsPowerOfTwo tx_size
                × (has_nul name ≡ false)
                × (is_zero made.ret ≡ false)))
  unfolding new
  socket_new_iff rx_size tx_size =
      ground (arith, is_pow_of_two_iff rx_size, is_pow_of_two_iff tx_size)

  -- `new_rx` and `new_tx` each have the same four outcomes, exactly in the same cases. `new_rx` makes the socket with
  -- a transmit ring of size 0 and gives libbpf none; `new_tx`, with a receive ring of size 0 and none of these.
  pub new_halves_iff :
      (rx_size tx_size : ℕ)
      → (let made = created sys world umem name queue options (some sys.rx.blank) none rx_size 0 in
          let socket = made_socket sys world umem name queue options made.handle in
          let fd = sys.socket_fd made.world made.handle in
          ((new_rx sys world umem name queue rx_size options
              ≡ value (err ring_not_power_of_two, world))
            ↔ (¬ IsPowerOfTwo rx_size))
          × ((new_rx sys world umem name queue rx_size options ≡ panic unwrap)
              ↔ (IsPowerOfTwo rx_size × (has_nul name ≡ true)))
          × ((new_rx sys world umem name queue rx_size options
                ≡ value (
                  ok (socket, record { socket = socket; fd = fd; rx = made.cons sys.rx.blank }),
                  made.world,
                ))
              ↔ (IsPowerOfTwo rx_size × (has_nul name ≡ false) × (is_zero made.ret ≡ true)))
          × ((new_rx sys world umem name queue rx_size options
                ≡ value (err (create (sys.errno made.world)), made.world))
              ↔ (IsPowerOfTwo rx_size × (has_nul name ≡ false) × (is_zero made.ret ≡ false))))
        × (let made =
              created sys world umem name queue options none (some sys.tx.blank) 0 tx_size in
            let socket = made_socket sys world umem name queue options made.handle in
            let fd = sys.socket_fd made.world made.handle in
            ((new_tx sys world umem name queue tx_size options
                ≡ value (err ring_not_power_of_two, world))
              ↔ (¬ IsPowerOfTwo tx_size))
            × ((new_tx sys world umem name queue tx_size options ≡ panic unwrap)
                ↔ (IsPowerOfTwo tx_size × (has_nul name ≡ true)))
            × ((new_tx sys world umem name queue tx_size options
                  ≡ value (
                    ok (socket, record { socket = socket; fd = fd; tx = made.prod sys.tx.blank }),
                    made.world,
                  ))
                ↔ (IsPowerOfTwo tx_size × (has_nul name ≡ false) × (is_zero made.ret ≡ true)))
            × ((new_tx sys world umem name queue tx_size options
                  ≡ value (err (create (sys.errno made.world)), made.world))
                ↔ (IsPowerOfTwo tx_size × (has_nul name ≡ false) × (is_zero made.ret ≡ false))))
  unfolding new_rx new_tx
  new_halves_iff rx_size tx_size =
      (ground (arith, is_pow_of_two_iff rx_size), ground (arith, is_pow_of_two_iff tx_size))
