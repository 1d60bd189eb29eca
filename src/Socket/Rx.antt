-- ===== src/Socket/Rx.antt =====
-- src/socket.rs: the receiving half of a socket.
pub mod Recv
pub mod Overflow
use afxdp_rs.Prelude.{ℕ, zero, suc, min, Bool, true, false, Option, none, some, if◌then◌else◌, ◌==◌}
use afxdp_rs.Rust.{Outcome, value, explicit, ◌>>=◌, ◌>>◌, panic_if, Result, ok, add, sub, try_into}
use afxdp_rs.Buf.Mmap.{BufMmap}
use afxdp_rs.Area.{get_buf_len, get_ptr, af_xdp_reserved, buf_at}
use afxdp_rs.Extern.Cons.{ConsRing, XdpDesc}
use afxdp_rs.Extern.Deque.{ArrayDeque}
use afxdp_rs.Extern.Sys.{Sys}
use afxdp_rs.Socket.{SocketRx, SocketError}

abbrev pub is_some {ℓ} : {A : Type ℓ} → Option A → Bool
is_some none = false
is_some (some a) = true

-- `SocketRx::wake`. `POLL_TIMEOUT` is 0; a failure is only printed.
pub wake : (sys : Sys) → sys.World → SocketRx sys.rx → sys.World
wake sys world s = (sys.poll world s.fd sys.pollin 0).0

module _ (c : ConsRing XdpDesc) (checks : Bool) {T : Type 0} (d : ArrayDeque (BufMmap T)) where
  -- `for _ in 0..rcvd`: the rounds left, and `idx_rx`.
  pub recv_loop : SocketRx c → ℕ → T → ℕ → ℕ → d.Deque → Outcome (d.Deque)
  recv_loop s available user zero idx bufs = value bufs
  recv_loop s available user (suc rounds) idx bufs = do
    let desc = c.entry s.rx idx
    len ← try_into 16 desc.len
    let pushed = d.push_back bufs (buf_at (get_ptr s.socket.umem.area) desc.addr available len user)
    panic_if (is_some pushed.0) explicit
    idx' ← add checks 32 idx 1
    recv_loop s available user rounds idx' pushed.1

  -- `SocketRx::try_recv`: its result, the socket, and the caller's deque.
  pub try_recv :
      SocketRx c → d.Deque → ℕ → T → Outcome (Result ℕ SocketError × SocketRx c × d.Deque)
  try_recv s bufs batch_size user = do
    room ← sub checks 64 (d.capacity bufs) (d.len bufs)
    let (rcvd, idx, rx) = c.peek s.rx (min room batch_size) 0
    if rcvd == 0 then value (ok 0, record s { rx = rx }, bufs) else do
      available ← sub checks 64 (get_buf_len s.socket.umem.area) af_xdp_reserved
      bufs' ← recv_loop (record s { rx = rx }) available user rcvd idx bufs
      value (ok rcvd, record s { rx = c.release rx rcvd }, bufs')
