-- ===== src/Socket.antt =====
-- src/socket.rs: the socket and its two halves.
pub mod New
pub mod Outcomes
pub mod Rx
pub mod Tx
use afxdp_rs.Prelude.{
  ℕ, zero, suc, ◌+◌, ◌-◌, min, Bool, true, false, not, ◌||◌, Option, none, some, List, [], ◌∷◌,
  bit_or, if◌then◌else◌, ◌==◌,
}
use afxdp_rs.Prelude.Int.{ℤ, is_zero, is_neg}
use afxdp_rs.Util.{is_pow_of_two}
use afxdp_rs.Rust.{
  Outcome, value, panic, unwrap, explicit, ◌>>=◌, ◌>>◌, panic_if, unwrap_some, Result, ok, err, add,
  sub, try_into, cast,
}
use afxdp_rs.Buf.Mmap.{BufMmap}
use afxdp_rs.Area.{get_buf_len, get_ptr, af_xdp_reserved, buf_at}
use afxdp_rs.Umem.{Umem}
use afxdp_rs.Extern.Cons.{ConsRing, XdpDesc}
use afxdp_rs.Extern.Prod.{ProdRing}
use afxdp_rs.Extern.Deque.{ArrayDeque}
use afxdp_rs.Extern.Sys.{Sys, SocketConfig, Created}

pub record Socket : Type 0 where
  pub umem : Umem
  -- the address of the `xsk_socket`
  pub socket : ℕ
  pub if_name_c : List ℕ

pub record SocketRx (c : ConsRing XdpDesc) : Type 0 where
  pub socket : Socket
  pub fd : ℤ
  pub rx : c.Ring

pub record SocketTx (p : ProdRing XdpDesc) : Type 0 where
  pub socket : Socket
  pub fd : ℤ
  pub tx : p.Ring

pub data SocketNewError : Type 0 where
  create : ℕ → SocketNewError
  ring_not_power_of_two : SocketNewError

pub data SocketError : Type 0 where
  failed : SocketError

pub record SocketOptions : Type 0 where
  pub zero_copy_mode : Bool
  pub copy_mode : Bool
  pub tx_ring_size : ℕ
  pub rx_ring_size : ℕ

-- `CString::new(name).unwrap()` panics at a zero byte.
abbrev pub has_nul : List ℕ → Bool
has_nul [] = false
has_nul (c ∷ cs) = c == 0 || has_nul cs

abbrev pub cstring : List ℕ → Outcome (List ℕ)
cstring name = if has_nul name then panic unwrap else value name

module _ (sys : Sys) where
  pub bind_flags : SocketOptions → ℕ
  bind_flags options =
      let flags = cast 16 sys.xdp_use_need_wakeup in
      let flags =
        if options.zero_copy_mode then bit_or flags (cast 16 sys.xdp_zerocopy) else flags in
      if options.copy_mode then bit_or flags (cast 16 sys.xdp_copy) else flags

  pub socket_config : ℕ → ℕ → SocketOptions → SocketConfig
  socket_config rx_size tx_size options = record {
    rx_size = rx_size;
    tx_size = tx_size;
    xdp_flags = sys.xdp_flags_update_if_noexist;
    bind_flags = bind_flags options;
    libbpf_flags = 0;
  }

  -- `Socket::new`
  unfoldable pub new :
      sys.World
      → Umem
      → List ℕ
      → ℕ
      → ℕ
      → ℕ
      → SocketOptions
      → Outcome (Result (Socket × SocketRx sys.rx × SocketTx sys.tx) SocketNewError × sys.World)
  new world umem if_name queue rx_ring_size tx_ring_size options =
      if not (is_pow_of_two rx_ring_size) || not (is_pow_of_two tx_ring_size)
      then value (err ring_not_power_of_two, world)
      else do
        if_name_c ← cstring if_name
        let made =
            sys.socket_create world if_name_c (cast 32 queue) umem.umem (some sys.rx.blank)
              (some sys.tx.blank) (socket_config rx_ring_size tx_ring_size options)
        let socket : Socket = record { umem = umem; socket = made.handle; if_name_c = if_name_c }
        let fd = sys.socket_fd made.world made.handle
        if is_zero made.ret
            then value (
              ok (
                socket,
                record { socket = socket; fd = fd; rx = made.cons sys.rx.blank },
                record { socket = socket; fd = fd; tx = made.prod sys.tx.blank },
              ),
              made.world,
            )
            else value (err (create (sys.errno made.world)), made.world)

  -- `Socket::new_rx`
  pub new_rx :
      sys.World
      → Umem
      → List ℕ
      → ℕ
      → ℕ
      → SocketOptions
      → Outcome (Result (Socket × SocketRx sys.rx) SocketNewError × sys.World)
  new_rx world umem if_name queue rx_ring_size options =
      if not (is_pow_of_two rx_ring_size) then value (err ring_not_power_of_two, world) else do
        if_name_c ← cstring if_name
        let made =
            sys.socket_create world if_name_c (cast 32 queue) umem.umem (some sys.rx.blank) none
              (socket_config rx_ring_size 0 options)
        let socket : Socket = record { umem = umem; socket = made.handle; if_name_c = if_name_c }
        let fd = sys.socket_fd made.world made.handle
        if is_zero made.ret
            then value (
              ok (socket, record { socket = socket; fd = fd; rx = made.cons sys.rx.blank }),
              made.world,
            )
            else value (err (create (sys.errno made.world)), made.world)

  -- `Socket::new_tx`
  pub new_tx :
      sys.World
      → Umem
      → List ℕ
      → ℕ
      → ℕ
      → SocketOptions
      → Outcome (Result (Socket × SocketTx sys.tx) SocketNewError × sys.World)
  new_tx world umem if_name queue tx_ring_size options =
      if not (is_pow_of_two tx_ring_size) then value (err ring_not_power_of_two, world) else do
        if_name_c ← cstring if_name
        let made =
            sys.socket_create world if_name_c (cast 32 queue) umem.umem none (some sys.tx.blank)
              (socket_config 0 tx_ring_size options)
        let socket : Socket = record { umem = umem; socket = made.handle; if_name_c = if_name_c }
        let fd = sys.socket_fd made.world made.handle
        if is_zero made.ret
            then value (
              ok (socket, record { socket = socket; fd = fd; tx = made.prod sys.tx.blank }),
              made.world,
            )
            else value (err (create (sys.errno made.world)), made.world)

  -- `Drop for Socket`
  unfoldable pub drop : sys.World → Socket → sys.World
  drop world s = sys.socket_delete world s.socket
