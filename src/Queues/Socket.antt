-- ===== src/Queues/Socket.antt =====
-- src/socket.rs: each call of a queue keeps its queue and the caller's buffers in order, and neither loses nor
-- doubles an address, in a build without overflow checks.
use afxdp_rs.Prelude.{
  ℕ, ◌+◌, ◌-◌, ◌≡◌, min, refl, ap, ◌∙◌, subst, inl, false, map, All, All-imp, arith, length, List,
  ◌++◌, take, length-map,
}
use afxdp_rs.Rust.{value, ok}
use afxdp_rs.Buf.Mmap.{BufMmap}
use afxdp_rs.Area.{MmapArea, get_buf_len}
use afxdp_rs.Area.Layout.{IsArea}
use afxdp_rs.Extern.Cons.{XdpDesc}
use afxdp_rs.Extern.Deque.{ArrayDeque, pending_len}
use afxdp_rs.Extern.Sys.{Sys}
use afxdp_rs.Ring.Reads.{peek-length}
use afxdp_rs.Socket.{SocketRx, SocketTx}
use afxdp_rs.Socket.Rx.{try_recv}
use afxdp_rs.Socket.Rx.Recv.{IsShort, received, try_recv-Received}
use afxdp_rs.Socket.Tx.{try_send}
use afxdp_rs.Socket.Tx.Send.{try_send-Sent, wire}
use afxdp_rs.Frames.{IsPacket, IsWire, IsBuf, Received-IsBuf, Sent-IsBuf}
use afxdp_rs.Queues.Count.{count, addr_of, desc_addr, wire_addr, Received-count, Sent-count}
use afxdp_rs.Queues.Umem.{room_at}
use afxdp_rs.Queues.Invariant.{Laws, IsSmallArea, IsRx, IsTx, Works}

module _ {sys : Sys} {T : Type 0} {d : ArrayDeque (BufMmap T)} (l : Laws sys d) {a : MmapArea}
    (area : IsSmallArea a) where
  IsPacket-IsShort : (e : XdpDesc) → IsPacket a e → IsShort e
  IsPacket-IsShort e p = omega (arith, p.1, area.small)

  pub record RecvKept (s s' : SocketRx sys.rx) (bufs bufs' : d.Deque) (n : ℕ) : Type 0 where
    pub new : List (BufMmap T)
    pub items : l.deque.items bufs' ≡ l.deque.items bufs ++ new
    pub size : length new ≡ n
    pub rx : IsRx l a s'
    pub frames : All (IsBuf a) (l.deque.items bufs')
    pub held :
        (x : ℕ)
        → count addr_of x (l.deque.items bufs') + count desc_addr x (l.rx.ready s'.rx)
          ≡ count addr_of x (l.deque.items bufs) + count desc_addr x (l.rx.ready s.rx)

  pub recv_kept :
      (s : SocketRx sys.rx) (bufs : d.Deque) (batch_size : ℕ) (user : T)
      → IsRx l a s
      → All (IsBuf a) (l.deque.items bufs)
      → (n : ℕ) × (s' : SocketRx sys.rx) × (bufs' : d.Deque) × (try_recv sys.rx false d s bufs
            batch_size user
          ≡ value (ok n, s', bufs'))
        × RecvKept s s' bufs bufs' n
  unfolding get_buf_len
  recv_kept s bufs batch_size user v h =
      let (s', bufs', r, done, le) =
        try_recv-Received sys.rx d false l.deque l.rx s bufs batch_size user
          (room_at l area s.socket.umem.area v.area) v.released
          (All-imp (IsPacket a) IsShort IsPacket-IsShort (l.rx.ready s.rx) v.ready) (inl refl) in
      let (kept, ready) =
        subst
          (λ b.
            IsArea b
            → All (IsPacket b) (l.rx.ready s.rx)
            → All (IsBuf b) (l.deque.items bufs)
            → All (IsBuf b) (l.deque.items bufs') × All (IsPacket b) (l.rx.ready s'.rx))
          v.area (Received-IsBuf sys.rx d l.rx l.deque s s' user bufs bufs' _ done) area.valid
          v.ready h in
      let most = min (pending_len - length (l.deque.items bufs)) batch_size in
      let n = (sys.rx.peek s.rx most 0).0 in
      let new = map (received sys.rx d s user) (take n (l.rx.ready s.rx)) in
      (
        n,
        s',
        bufs',
        r,
        record {
          new = new;
          items = done.items;
          size = length-map (take n (l.rx.ready s.rx)) _ ∙ peek-length sys.rx l.rx s.rx most 0;
          rx = record {
            area = ap (λ k. k.umem.area) done.socket ∙ v.area;
            released = done.released;
            ready = ready;
          };
          frames = kept;
          held = λ x. Received-count x sys.rx d l.rx l.deque s s' user bufs bufs' _ done;
        },
      )

  pub record SendKept (s s' : SocketTx sys.tx) (bufs bufs' : d.Deque) : Type 0 where
    pub tx : IsTx l a s'
    pub frames : All (IsBuf a) (l.deque.items bufs')
    pub held :
        (x : ℕ)
        → count addr_of x (l.deque.items bufs') + count wire_addr x (map wire (l.tx.sent s'.tx))
          ≡ count addr_of x (l.deque.items bufs) + count wire_addr x (map wire (l.tx.sent s.tx))

  pub send_kept :
      Works sys
      → (world : sys.World) (s : SocketTx sys.tx) (bufs : d.Deque) (batch_size : ℕ) → IsTx l a s
      → All (IsBuf a) (l.deque.items bufs)
      → (n : ℕ) × (s' : SocketTx sys.tx) × (bufs' : d.Deque) × (world' : sys.World) × (try_send sys
            false d world s bufs batch_size
          ≡ value (ok n, s', bufs', world'))
        × SendKept s s' bufs bufs'
  send_kept works world s bufs batch_size v h =
      let (s', bufs', world', r, done, le) =
        try_send-Sent sys d l.tx l.deque false s bufs world batch_size v.submitted
          (works world s.fd) (inl refl) in
      let (kept, sent) =
        subst
          (λ b.
            All (IsBuf b) (l.deque.items bufs)
            → All (IsWire b) (map wire (l.tx.sent s.tx))
            → All (IsBuf b) (l.deque.items bufs') × All (IsWire b) (map wire (l.tx.sent s'.tx)))
          v.area (Sent-IsBuf sys d l.tx l.deque s s' bufs bufs' _ done) h v.sent in
      (
        (sys.tx.reserve s.tx (min (length (l.deque.items bufs)) batch_size) 0).0,
        s',
        bufs',
        world',
        r,
        record {
          tx = record {
            area = ap (λ k. k.umem.area) done.socket ∙ v.area;
            submitted = done.submitted;
            sent = sent;
          };
          frames = kept;
          held = λ x. Sent-count x sys d l.tx l.deque s s' bufs bufs' _ done;
        },
      )
