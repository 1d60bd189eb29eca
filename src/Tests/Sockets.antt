-- ===== src/Tests/Sockets.antt =====
-- The theorems on src/socket.rs at concrete inputs.
use afxdp_rs.Prelude.{◌+◌, ℕ, ◌≤◌, ◌≡◌, ◌↔◌, ◌⊎◌, refl, true, false, inl, inr, List, [], ◌∷◌, arith}
use afxdp_rs.Prelude.Int.{pos}
use afxdp_rs.Rust.{value, panic, overflow, unwrap, explicit, ok, err}
use afxdp_rs.Buf.Mmap.{BufMmap}
use afxdp_rs.Area.{get_buf_len}
use afxdp_rs.Socket.{
  SocketRx, SocketTx, create, ring_not_power_of_two, has_nul, new, new_rx, new_tx,
}
use afxdp_rs.Util.PowOfTwo.{IsPowerOfTwo}
use afxdp_rs.Socket.Outcomes.{socket_new_iff, new_halves_iff}
use afxdp_rs.Socket.Rx.{try_recv}
use afxdp_rs.Socket.Rx.Recv.{Received, try_recv-Received}
use afxdp_rs.Socket.Rx.Overflow.{try_recv-overflow_iff}
use afxdp_rs.Socket.Tx.{needs_wakeup, wakeup_if_required, try_send}
use afxdp_rs.Socket.Tx.Wakeup.{Tolerated, wakeup_iff}
use afxdp_rs.Socket.Tx.Send.{Sent, try_send-Sent}
use afxdp_rs.Tests.Cons.{window, window_laws}
use afxdp_rs.Tests.Prod.{slots, slots_laws}
use afxdp_rs.Tests.Queue.{queue, queue_laws}
use afxdp_rs.Tests.Sample.{no_desc, sys, umem, socket, copying, rx, tx, frame}

abbrev lo : List ℕ
lo = 108 ∷ 111 ∷ []

try_recv-Received_example :
    (s : SocketRx (window no_desc)) × (bufs : List (BufMmap ℕ)) × (try_recv
        (window no_desc)
        true
        queue
        rx
        (frame 0 0 ∷ [])
        64
        5
      ≡ value (ok 2, s, bufs))
    × Received
        (window no_desc)
        queue
        (window_laws no_desc)
        queue_laws
        rx
        s
        5
        (frame 0 0 ∷ [])
        bufs
        2
    × (2 ≤ 64)
try_recv-Received_example =
    try_recv-Received (window no_desc) queue true queue_laws (window_laws no_desc) rx
      (frame 0 0 ∷ []) 64 5 (unfold get_buf_len in omega arith) refl
      (omega arith, (omega arith, tt)) (inr (omega arith))

-- The first of the two packets stands at the last index.
abbrev last_index : SocketRx (window no_desc)
last_index = record rx { rx = record (rx.rx) { start = 4294967295 } }

try_recv-overflow_iff_example :
    (try_recv (window no_desc) true queue last_index (frame 0 0 ∷ []) 64 5 ≡ panic overflow)
    ↔ (4294967296 ≤ 4294967295 + 2)
try_recv-overflow_iff_example =
    try_recv-overflow_iff (window no_desc) queue queue_laws (window_laws no_desc) last_index
      (frame 0 0 ∷ []) 64 5 (unfold get_buf_len in omega arith) refl
      (omega arith, (omega arith, tt))

try_send-Sent_example :
    (s : SocketTx (slots no_desc)) × (bufs : List (BufMmap ℕ)) × (world : ℕ) × (try_send sys true
        queue 11 tx
        (frame 1 60 ∷ frame 3 1500 ∷ [])
        64
      ≡ value (ok 2, s, bufs, world))
    × Sent sys queue (slots_laws no_desc) queue_laws tx s (frame 1 60 ∷ frame 3 1500 ∷ []) bufs 2
    × (2 ≤ 2)
try_send-Sent_example =
    try_send-Sent sys queue (slots_laws no_desc) queue_laws true tx (frame 1 60 ∷ frame 3 1500 ∷ [])
      11 64 refl (inr (inr (inl refl))) (inr (omega arith))

wakeup_iff_example :
    ((wakeup_if_required sys 16 tx ≡ value (false, 16)) ↔ (needs_wakeup (slots no_desc) tx ≡ false))
    × ((wakeup_if_required sys 16 tx ≡ value (true, 16))
        ↔ ((needs_wakeup (slots no_desc) tx ≡ true) × ((true ≡ false) ⊎ Tolerated sys 16)))
    × ((wakeup_if_required sys 16 tx ≡ panic explicit)
        ↔ ((needs_wakeup (slots no_desc) tx ≡ true) × (true ≡ true) × (¬ Tolerated sys 16)))
wakeup_iff_example = wakeup_iff sys 16 tx

socket_new_iff_example :
    ((new sys 0 umem lo 0 32 64 copying ≡ value (err ring_not_power_of_two, 0))
      ↔ ((¬ IsPowerOfTwo 32) ⊎ (¬ IsPowerOfTwo 64)))
    × ((new sys 0 umem lo 0 32 64 copying ≡ panic unwrap)
        ↔ (IsPowerOfTwo 32 × IsPowerOfTwo 64 × (has_nul lo ≡ true)))
    × ((new sys 0 umem lo 0 32 64 copying
          ≡ value (
            ok (
              socket,
              record { socket = socket; fd = pos 3; rx = (window no_desc).blank },
              record { socket = socket; fd = pos 3; tx = (slots no_desc).blank },
            ),
            0,
          ))
        ↔ (IsPowerOfTwo 32 × IsPowerOfTwo 64 × (has_nul lo ≡ false) × (true ≡ true)))
    × ((new sys 0 umem lo 0 32 64 copying ≡ value (err (create 0), 0))
        ↔ (IsPowerOfTwo 32 × IsPowerOfTwo 64 × (has_nul lo ≡ false) × (true ≡ false)))
socket_new_iff_example = socket_new_iff sys 0 umem lo 0 copying 32 64

new_halves_iff_example :
    (((new_rx sys 0 umem lo 0 32 copying ≡ value (err ring_not_power_of_two, 0))
        ↔ (¬ IsPowerOfTwo 32))
      × ((new_rx sys 0 umem lo 0 32 copying ≡ panic unwrap)
          ↔ (IsPowerOfTwo 32 × (has_nul lo ≡ true)))
      × ((new_rx sys 0 umem lo 0 32 copying
            ≡ value (
              ok (socket, record { socket = socket; fd = pos 3; rx = (window no_desc).blank }),
              0,
            ))
          ↔ (IsPowerOfTwo 32 × (has_nul lo ≡ false) × (true ≡ true)))
      × ((new_rx sys 0 umem lo 0 32 copying ≡ value (err (create 0), 0))
          ↔ (IsPowerOfTwo 32 × (has_nul lo ≡ false) × (true ≡ false))))
    × (((new_tx sys 0 umem lo 0 64 copying ≡ value (err ring_not_power_of_two, 0))
          ↔ (¬ IsPowerOfTwo 64))
        × ((new_tx sys 0 umem lo 0 64 copying ≡ panic unwrap)
            ↔ (IsPowerOfTwo 64 × (has_nul lo ≡ true)))
        × ((new_tx sys 0 umem lo 0 64 copying
              ≡ value (
                ok (socket, record { socket = socket; fd = pos 3; tx = (slots no_desc).blank }),
                0,
              ))
            ↔ (IsPowerOfTwo 64 × (has_nul lo ≡ false) × (true ≡ true)))
        × ((new_tx sys 0 umem lo 0 64 copying ≡ value (err (create 0), 0))
            ↔ (IsPowerOfTwo 64 × (has_nul lo ≡ false) × (true ≡ false))))
new_halves_iff_example = new_halves_iff sys 0 umem lo 0 copying 32 64
