-- ===== src/Queues/Invariant.antt =====
-- What a queue keeps between two calls of a program that serves it, and the spare buffers with it.
use afxdp_rs.Prelude.{◌≤◌, ◌≡◌, ◌^◌, [], map, All, ◌⊎◌, false}
use afxdp_rs.Prelude.Int.{ℤ, is_neg}
use afxdp_rs.Socket.Tx.Wakeup.{Tolerated}
use afxdp_rs.Rust.Vec.{Vec, IsVec}
use afxdp_rs.Buf.Mmap.{BufMmap}
use afxdp_rs.Area.{MmapArea}
use afxdp_rs.Area.Layout.{IsArea}
use afxdp_rs.Extern.Cons.{ConsLaws}
use afxdp_rs.Extern.Prod.{ProdLaws}
use afxdp_rs.Extern.Deque.{ArrayDeque, DequeLaws}
use afxdp_rs.Extern.Sys.{Sys}
use afxdp_rs.Umem.{UmemCompletionQueue, UmemFillQueue}
use afxdp_rs.Socket.{SocketRx, SocketTx}
use afxdp_rs.Socket.Tx.Send.{wire}
use afxdp_rs.Frames.{IsFrameAddr, IsWire, IsPacket, IsBuf}

pub record Laws (sys : Sys) {T : Type 0} (d : ArrayDeque (BufMmap T)) : Type 0 where
  pub rx : ConsLaws sys.rx
  pub tx : ProdLaws sys.tx
  pub comp : ConsLaws sys.comp
  pub fill : ProdLaws sys.fill
  pub deque : DequeLaws d

-- An area whose frames hold at most 2^16 bytes, so that a packet's length fits 16 bits.
pub record IsSmallArea (a : MmapArea) : Type 0 where
  pub valid : IsArea a
  pub small : a.buf_len ≤ 2 ^ 16

module _ {sys : Sys} {T : Type 0} {d : ArrayDeque (BufMmap T)} (l : Laws sys d) where
  -- A queue between two calls: it is over the area, holds or reserves nothing, and passes only frames of
  -- the area, or packets within them.
  pub record IsCq (a : MmapArea) (q : UmemCompletionQueue sys.comp) : Type 0 where
    pub area : q.umem.area ≡ a
    pub released : l.comp.held q.cq ≡ []
    pub ready : All (IsFrameAddr a) (l.comp.ready q.cq)

  pub record IsFq (a : MmapArea) (q : UmemFillQueue sys.fill) : Type 0 where
    pub area : q.umem.area ≡ a
    pub submitted : l.fill.slots q.fq ≡ []
    pub sent : All (IsFrameAddr a) (l.fill.sent q.fq)

  pub record IsRx (a : MmapArea) (s : SocketRx sys.rx) : Type 0 where
    pub area : s.socket.umem.area ≡ a
    pub released : l.rx.held s.rx ≡ []
    pub ready : All (IsPacket a) (l.rx.ready s.rx)

  pub record IsTx (a : MmapArea) (s : SocketTx sys.tx) : Type 0 where
    pub area : s.socket.umem.area ≡ a
    pub submitted : l.tx.slots s.tx ≡ []
    pub sent : All (IsWire a) (map wire (l.tx.sent s.tx))

-- The spare buffers.
pub record IsSpare {T : Type 0} (a : MmapArea) (bufs : Vec (BufMmap T)) : Type 0 where
  pub vec : IsVec bufs
  pub frames : All (IsBuf a) bufs.items

-- Every `sendto` works, or fails with an `errno` that is passed over.
abbrev pub Works : Sys → Type 0
Works sys =
    (world : sys.World) (fd : ℤ)
    → let (world', ret) = sys.sendto world fd sys.msg_dontwait in
      (is_neg ret ≡ false) ⊎ Tolerated sys (sys.errno world')
