-- ===== src/Socket/Tx.antt =====
-- src/socket.rs: the sending half of a socket.
pub mod Send
pub mod Wakeup
use afxdp_rs.Prelude.{
  ℕ, zero, suc, min, Bool, true, false, not, ◌||◌, Option, none, some, if◌then◌else◌, ◌==◌,
}
use afxdp_rs.Prelude.Int.{is_zero, is_neg}
use afxdp_rs.Rust.{Outcome, value, panic, unwrap, explicit, ◌>>=◌, unwrap_some, Result, ok, add}
use afxdp_rs.Buf.Mmap.{BufMmap}
use afxdp_rs.Extern.Cons.{XdpDesc}
use afxdp_rs.Extern.Prod.{ProdRing}
use afxdp_rs.Extern.Deque.{ArrayDeque}
use afxdp_rs.Extern.Sys.{Sys}
use afxdp_rs.Socket.{SocketTx, SocketError}

-- `SocketTx::needs_wakeup`
pub needs_wakeup : (p : ProdRing XdpDesc) → SocketTx p → Bool
needs_wakeup p s = not (is_zero (p.needs_wakeup s.tx))

-- The values of `errno` after a failed `sendto` that are passed over.
pub is_tolerated : Sys → ℕ → Bool
is_tolerated sys e = e == sys.enobufs || e == sys.eagain || e == sys.ebusy || e == sys.enetdown

-- `SocketTx::wakeup_if_required`
pub wakeup_if_required : (sys : Sys) → sys.World → SocketTx sys.tx → Outcome (Bool × sys.World)
wakeup_if_required sys world s =
    if not (is_zero (sys.tx.needs_wakeup s.tx))
    then (let (world', ret) = sys.sendto world s.fd sys.msg_dontwait in
        if not (is_neg ret)
        then value (true, world')
        else if is_tolerated sys (sys.errno world')
        then value (true, world')
        else panic explicit)
    else value (false, world)

module _ (p : ProdRing XdpDesc) (checks : Bool) {T : Type 0} (d : ArrayDeque (BufMmap T)) where
  -- `for _ in 0..ready`: the rounds left, and `idx_tx`. The descriptor's other field stays; a `u16` length
  -- always converts to `u32`.
  pub send_loop : p.Ring → ℕ → ℕ → d.Deque → Outcome (p.Ring × d.Deque)
  send_loop tx zero idx bufs = value (tx, bufs)
  send_loop tx (suc rounds) idx bufs = do
    b ← unwrap_some (d.pop_front bufs).0 unwrap
    let desc = p.slot tx idx
    let tx' = p.store tx idx (record desc { addr = b.addr; len = b.len })
    idx' ← add checks 32 idx 1
    send_loop tx' rounds idx' (d.pop_front bufs).1

module _ (sys : Sys) (checks : Bool) {T : Type 0} (d : ArrayDeque (BufMmap T)) where
  -- `SocketTx::try_send`: its result, the socket, the caller's deque, and the world.
  pub try_send :
      sys.World
      → SocketTx sys.tx
      → d.Deque
      → ℕ
      → Outcome (Result ℕ SocketError × SocketTx sys.tx × d.Deque × sys.World)
  try_send world s bufs batch_size =
      let batch = min (d.len bufs) batch_size in
      if batch == 0 then value (ok 0, s, bufs, world) else do
        let (ready, idx, tx) = sys.tx.reserve s.tx batch 0
        (tx', bufs') ← send_loop sys.tx checks d tx ready idx bufs
        let s' : SocketTx sys.tx = record s {
          tx = if ready == 0 then tx' else sys.tx.submit tx' ready;
        }
        (woken, world') ← wakeup_if_required sys world s'
        value (ok ready, s', bufs', world')
