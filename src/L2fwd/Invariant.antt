-- ===== src/L2fwd/Invariant.antt =====
-- examples/l2fwd-2link.rs: what its loop keeps.
use afxdp_rs.Prelude.{ℕ, ◌+◌, ◌%◌, ◌≡◌, ◌^◌, map, All}
use afxdp_rs.Buf.Mmap.{BufMmap}
use afxdp_rs.Area.{MmapArea}
use afxdp_rs.Extern.Deque.{ArrayDeque}
use afxdp_rs.Extern.Sys.{Sys}
use afxdp_rs.Socket.Tx.Send.{wire}
use afxdp_rs.Frames.{IsBuf}
use afxdp_rs.L2fwd.{Link, Forwarder, BufCustom}
use afxdp_rs.Queues.Invariant.{Laws, IsCq, IsFq, IsRx, IsTx, IsSpare}
use afxdp_rs.Queues.Count.{count, addr_of, desc_addr, wire_addr, itself}

module _ {sys : Sys} {d : ArrayDeque (BufMmap BufCustom)} (l : Laws sys d) where
  -- A link between two calls: so are its four queues, and its deque has only frames with packets inside.
  pub record IsLink (a : MmapArea) (k : Link sys d) : Type 0 where
    pub cq : IsCq l a k.state.cq
    pub fq : IsFq l a k.state.fq
    pub rx : IsRx l a k.state.rx
    pub tx : IsTx l a k.state.tx
    pub pending : All (IsBuf a) (l.deque.items k.pending)

  pub record IsForwarder (a : MmapArea) (f : Forwarder sys d) : Type 0 where
    pub first : IsLink a f.first
    pub second : IsLink a f.second
    pub spare : IsSpare a f.bufs

  -- How often a link has the address `x`: in its four queues, and in its deque.
  abbrev pub held_by : ℕ → Link sys d → ℕ
  held_by x k =
      count itself x (l.comp.ready k.state.cq.cq)
      + count itself x (l.fill.sent k.state.fq.fq)
      + count desc_addr x (l.rx.ready k.state.rx.rx)
      + count wire_addr x (map wire (l.tx.sent k.state.tx.tx))
      + count addr_of x (l.deque.items k.pending)

  -- How often the forwarder has it.
  abbrev pub held : ℕ → Forwarder sys d → ℕ
  held x f = held_by x f.first + held_by x f.second + count addr_of x f.bufs.items

  -- The packets of a link that are received and not yet made up for by a fill are its deficit, in the
  -- 64 bits of the counters.
  abbrev pub IsDeficit : Link sys d → Type 0
  IsDeficit k = (k.state.fq_deficit + k.stats.fq_bufs_filled) % 2 ^ 64 ≡ k.stats.rx_packets % 2 ^ 64
