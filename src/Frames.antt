-- ===== src/Frames.antt =====
-- src/mmap_area.rs, src/umem.rs and src/socket.rs together: the addresses that the queues pass between the
-- program and the kernel are those of frames.
use afxdp_rs.Prelude.{
  ℕ, ◌+◌, ◌-◌, ◌≤◌, ◌<◌, ◌≡◌, sym, subst, List, [], ◌∷◌, map, take, arith, All, All-append,
  All-take, All-drop, All-split, All-map, All-reverse,
}
use afxdp_rs.Rust.Vec.{Vec}
use afxdp_rs.Buf.Mmap.{BufMmap}
use afxdp_rs.Area.{MmapArea, af_xdp_reserved, buf_at, get_ptr, get_buf_len}
use afxdp_rs.Area.Layout.{IsArea, IsFrame, frame_addr, product_mono}
use afxdp_rs.Area.New.{Frames}
use afxdp_rs.Extern.Cons.{ConsRing, ConsLaws, XdpDesc}
use afxdp_rs.Extern.Prod.{ProdRing, ProdLaws}
use afxdp_rs.Extern.Deque.{ArrayDeque, DequeLaws}
use afxdp_rs.Extern.Sys.{Sys}
use afxdp_rs.Umem.{UmemCompletionQueue, UmemFillQueue}
use afxdp_rs.Umem.Service.{Serviced, completed}
use afxdp_rs.Umem.Fill.{Filled}
use afxdp_rs.Socket.{SocketRx, SocketTx}
use afxdp_rs.Socket.Rx.Recv.{Received, received}
use afxdp_rs.Socket.Tx.Send.{Sent, wire, packet}

-- The address of a frame's first byte after the reserved ones.
abbrev pub IsFrameAddr : MmapArea → ℕ → Type 0
IsFrameAddr a addr = (k : ℕ) × (k < a.buf_num) × (addr ≡ frame_addr a k)

-- An address and a length: a packet within its frame.
abbrev pub IsWire : MmapArea → ℕ × ℕ → Type 0
IsWire a (addr, len) = IsFrameAddr a addr × (len + af_xdp_reserved ≤ a.buf_len)

abbrev pub IsPacket : MmapArea → XdpDesc → Type 0
IsPacket a e = IsWire a (wire e)

-- A buffer that is a frame of the area, with its packet inside.
abbrev pub IsBuf : {T : Type 0} → MmapArea → BufMmap T → Type 0
IsBuf a b = ((k : ℕ) × IsFrame a k b) × (b.len ≤ b.bytes.len)

module _ {T : Type 0} (a : MmapArea) where
  buf_at-IsBuf :
      (addr len : ℕ) (user : T)
      → IsArea a
      → IsWire a (addr, len)
      → IsBuf a (buf_at a.ptr addr (a.buf_len - af_xdp_reserved) len user)
  buf_at-IsBuf addr len user v ((k, inside, e), short) = (
    (
      k,
      record {
        inside = inside;
        addr = e;
        ptr = ground (arith, v.room, v.top, product_mono k a.buf_num a.buf_len inside);
        size = omega (arith, v.room);
      },
    ),
    omega (arith, v.room),
  )

  -- The buffers of a new area are frames with nothing in them.
  pub Frames-IsBuf :
      (default : T) (i : ℕ) (bs : List (BufMmap T)) → Frames default a i bs → All (IsBuf a) bs
  Frames-IsBuf default i [] h = tt
  Frames-IsBuf default i (b ∷ bs) h =
      (((i, h.0), omega (arith, h.1)), Frames-IsBuf default (i + 1) bs h.3)

  IsBuf-IsFrameAddr : (b : BufMmap T) → IsBuf a b → IsFrameAddr a b.addr
  IsBuf-IsFrameAddr b ((k, f), short) = (k, f.inside, f.addr)

  IsBuf-IsWire : (b : BufMmap T) → IsBuf a b → IsWire a (packet b)
  IsBuf-IsWire b ((k, f), short) = ((k, f.inside, f.addr), omega (arith, f.size))

-- Where the kernel returns packets within their frames, every buffer that `try_recv` adds to the deque is
-- the frame that the kernel named, in bounds and with its packet inside; so a deque of such buffers stays
-- one.
pub Received-IsBuf :
    {T : Type 0} (c : ConsRing XdpDesc) (d : ArrayDeque (BufMmap T)) (l : ConsLaws c)
    (dl : DequeLaws d) (s s' : SocketRx c) (user : T) (bufs bufs' : d.Deque) (n : ℕ)
    → Received c d l dl s s' user bufs bufs' n
    → let a = s.socket.umem.area in
      IsArea a
      → All (IsPacket a) (l.ready s.rx)
      → All (IsBuf a) (dl.items bufs)
      → All (IsBuf a) (dl.items bufs') × All (IsPacket a) (l.ready s'.rx)
unfolding get_ptr get_buf_len
Received-IsBuf {T} c d l dl s s' user bufs bufs' n r v packets held =
    let a = s.socket.umem.area in
    let new : All (IsBuf a) (map (received c d s user) (take n (l.ready s.rx))) =
      All-map (received c d s user) (IsPacket a) (IsBuf a)
        (λ e p. buf_at-IsBuf a e.addr e.len user v p) (take n (l.ready s.rx))
        (All-take (IsPacket a) n (l.ready s.rx) packets) in
    (
      subst (All (IsBuf a)) (sym r.items) (All-append (IsBuf a) (dl.items bufs) _ held new),
      subst (All (IsPacket a)) (sym r.ready) (All-drop (IsPacket a) n (l.ready s.rx) packets),
    )

-- Where the kernel returns frame addresses as completed, every buffer that `service` adds is that frame,
-- empty; so a vector of such buffers stays one.
pub Serviced-IsBuf :
    {T : Type 0} (c : ConsRing ℕ) (default : T) (l : ConsLaws c) (q q' : UmemCompletionQueue c)
    (bufs bufs' : Vec (BufMmap T)) (n : ℕ)
    → Serviced c default l q q' bufs bufs' n
    → let a = q.umem.area in
      IsArea a
      → All (IsFrameAddr a) (l.ready q.cq)
      → All (IsBuf a) bufs.items
      → All (IsBuf a) bufs'.items × All (IsFrameAddr a) (l.ready q'.cq)
unfolding get_ptr get_buf_len
Serviced-IsBuf c default l q q' bufs bufs' n r v addrs held =
    let a = q.umem.area in
    let new : All (IsBuf a) (map (completed c default q) (take n (l.ready q.cq))) =
      All-map (completed c default q) (IsFrameAddr a) (IsBuf a)
        (λ addr p. buf_at-IsBuf a addr 0 default v (p, v.room)) (take n (l.ready q.cq))
        (All-take (IsFrameAddr a) n (l.ready q.cq) addrs) in
    (
      subst (All (IsBuf a)) (sym r.items) (All-append (IsBuf a) bufs.items _ held new),
      subst (All (IsFrameAddr a)) (sym r.ready) (All-drop (IsFrameAddr a) n (l.ready q.cq) addrs),
    )

-- `fill` hands the kernel only addresses of frames, if the vector holds only frames; the rest of the vector
-- still does.
pub Filled-IsBuf :
    {T : Type 0} {p : ProdRing ℕ} (l : ProdLaws p) (q q' : UmemFillQueue p)
    (bufs bufs' : Vec (BufMmap T)) (n : ℕ)
    → Filled l q q' bufs bufs' n
    → let a = q.umem.area in
      All (IsBuf a) bufs.items
      → All (IsFrameAddr a) (l.sent q.fq)
      → All (IsBuf a) bufs'.items × All (IsFrameAddr a) (l.sent q'.fq)
Filled-IsBuf l q q' bufs bufs' n r held sent =
    let a = q.umem.area in
    let parts = All-split (IsBuf a) bufs'.items _ (subst (All (IsBuf a)) r.items held) in
    let addrs =
      All-map (λ (b : BufMmap _). b.addr) (IsBuf a) (IsFrameAddr a) (IsBuf-IsFrameAddr a) r.outs
        (All-reverse (IsBuf a) r.outs parts.1) in
    (
      parts.0,
      subst (All (IsFrameAddr a)) (sym r.sent)
          (All-append (IsFrameAddr a) (l.sent q.fq) _ sent addrs),
    )

-- `try_send` hands the kernel only packets within their frames, if the deque holds only such buffers; the
-- rest of the deque still does.
pub Sent-IsBuf :
    {T : Type 0} (sys : Sys) (d : ArrayDeque (BufMmap T)) (l : ProdLaws (sys.tx)) (dl : DequeLaws d)
    (s s' : SocketTx sys.tx) (bufs bufs' : d.Deque) (n : ℕ)
    → Sent sys d l dl s s' bufs bufs' n
    → let a = s.socket.umem.area in
      All (IsBuf a) (dl.items bufs)
      → All (IsWire a) (map wire (l.sent s.tx))
      → All (IsBuf a) (dl.items bufs') × All (IsWire a) (map wire (l.sent s'.tx))
Sent-IsBuf sys d l dl s s' bufs bufs' n r held sent =
    let a = s.socket.umem.area in
    let parts = All-split (IsBuf a) r.outs _ (subst (All (IsBuf a)) r.items held) in
    let wires = All-map packet (IsBuf a) (IsWire a) (IsBuf-IsWire a) r.outs parts.0 in
    (
      parts.1,
      subst (All (IsWire a)) (sym r.queued)
          (All-append (IsWire a) (map wire (l.sent s.tx)) _ sent wires),
    )
