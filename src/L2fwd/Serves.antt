-- ===== src/L2fwd/Serves.antt =====
-- examples/l2fwd-2link.rs: new queues and links, and their initial fill.
use afxdp_rs.Prelude.{
  ℕ, ◌+◌, ◌≤◌, ◌≡◌, ◌≢◌, min, refl, ap, sym, ◌∙◌, subst, true, false, Bool, List, [], map, All,
  arith, ==_of_eq, ==_of_ne, ◌<◌,
}
use afxdp_rs.Prelude.Int.{is_zero}
use afxdp_rs.Rust.{value, panic, explicit}
use afxdp_rs.Rust.Vec.{Vec, IsVec}
use afxdp_rs.Rust.Vec
use afxdp_rs.Buf.Mmap.{BufMmap}
use afxdp_rs.Area.{MmapArea}
use afxdp_rs.Extern.Deque.{ArrayDeque}
use afxdp_rs.Extern.Sys.{Sys, UmemConfig}
use afxdp_rs.Umem.{Umem, UmemCompletionQueue, UmemFillQueue}
use afxdp_rs.Socket.{SocketRx, SocketTx}
use afxdp_rs.Socket.Tx.Send.{wire}
use afxdp_rs.Frames.{IsBuf, IsFrameAddr, IsPacket, IsWire}
use afxdp_rs.L2fwd.{BufCustom}
use afxdp_rs.Queues.Umem.{fill_kept}
use afxdp_rs.Queues.Count.{count, addr_of, itself}
use afxdp_rs.L2fwd.Invariant.{IsLink}
use afxdp_rs.Queues.Invariant.{IsSmallArea, Laws, IsFq, IsSpare}
use afxdp_rs.L2fwd.Setup.{ring_size, initial_fill, new_link}

-- A kernel and a libbpf that do what is asked: the limit is set, `mmap` maps at the area's address, umems and
-- sockets are made with empty rings, and a fill ring with nothing in it gives as many slots as asked for,
-- up to its size.
pub record Serves {sys : Sys} {d : ArrayDeque (BufMmap BufCustom)} (l : Laws sys d) (a : MmapArea)
    (setrlimit : sys.World → sys.World × Bool) : Type 0 where
  pub limited : (world : sys.World) → (setrlimit world).1 ≡ true
  pub mapped : (world : sys.World) (len prot flags : ℕ) → (sys.mmap world len prot flags).1 ≡ a.ptr
  pub address : a.ptr ≢ sys.map_failed
  pub umem_ret :
      (world : sys.World) (ptr size : ℕ) (config : UmemConfig)
      → is_zero (sys.umem_create world ptr size config).ret ≡ true
  pub comp_ready :
      (world : sys.World) (ptr size : ℕ) (config : UmemConfig)
      → let r = (sys.umem_create world ptr size config).cons sys.comp.blank in
        (l.comp.ready r ≡ []) × (l.comp.held r ≡ [])
  pub fill_sent :
      (world : sys.World) (ptr size : ℕ) (config : UmemConfig)
      → let r = (sys.umem_create world ptr size config).prod sys.fill.blank in
        (l.fill.sent r ≡ []) × (l.fill.slots r ≡ [])
  pub socket_ret :
      (world : sys.World) (name : List ℕ) (queue umem : ℕ) (rx : _) (tx : _) (config : _)
      → is_zero (sys.socket_create world name queue umem rx tx config).ret ≡ true
  pub rx_ready :
      (world : sys.World) (name : List ℕ) (queue umem : ℕ) (rx : _) (tx : _) (config : _)
      → let r = (sys.socket_create world name queue umem rx tx config).cons sys.rx.blank in
        (l.rx.ready r ≡ []) × (l.rx.held r ≡ [])
  pub tx_sent :
      (world : sys.World) (name : List ℕ) (queue umem : ℕ) (rx : _) (tx : _) (config : _)
      → let r = (sys.socket_create world name queue umem rx tx config).prod sys.tx.blank in
        (l.tx.sent r ≡ []) × (l.tx.slots r ≡ [])
  pub reserves :
      (r : sys.fill.Ring) (nb idx : ℕ)
      → l.fill.sent r ≡ []
      → l.fill.slots r ≡ []
      → nb ≤ ring_size
      → (sys.fill.reserve r nb idx).0 ≡ nb

module _ {sys : Sys} {d : ArrayDeque (BufMmap BufCustom)} (l : Laws sys d) {a : MmapArea}
    {setrlimit : sys.World → sys.World × Bool} (serves : Serves l a setrlimit) where
  pub empty_fq :
      (u : Umem) (r : sys.fill.Ring)
      → u.area ≡ a
      → l.fill.slots r ≡ []
      → l.fill.sent r ≡ []
      → IsFq l a (record { umem = u; fq = r })
  empty_fq u r at slots sent = record {
    area = at;
    submitted = slots;
    sent = subst (All (IsFrameAddr a)) (sym sent) tt;
  }

  pub new_link-IsLink :
      (cq : UmemCompletionQueue sys.comp) (fq : UmemFillQueue sys.fill) (rx : SocketRx sys.rx)
      (tx : SocketTx sys.tx)
      → cq.umem.area ≡ a
      → (l.comp.ready cq.cq ≡ []) × (l.comp.held cq.cq ≡ [])
      → IsFq l a fq
      → rx.socket.umem.area ≡ a
      → (l.rx.ready rx.rx ≡ []) × (l.rx.held rx.rx ≡ [])
      → tx.socket.umem.area ≡ a
      → (l.tx.sent tx.tx ≡ []) × (l.tx.slots tx.tx ≡ [])
      → IsLink l a (new_link sys d cq fq rx tx)
  new_link-IsLink cq fq rx tx at_cq (ready, held) q at_rx (arrived, unread) at_tx (sent, slots) =
      record {
        cq = record {
          area = at_cq;
          released = held;
          ready = subst (All (IsFrameAddr a)) (sym ready) tt;
        };
        fq = q;
        rx = record {
          area = at_rx;
          released = unread;
          ready = subst (All (IsPacket a)) (sym arrived) tt;
        };
        tx = record {
          area = at_tx;
          submitted = slots;
          sent = subst (λ es. All (IsWire a) (map wire es)) (sym sent) tt;
        };
        pending = subst (All (IsBuf a)) (sym l.deque.new_items) tt;
      }

  -- From fewer buffers than it wants, the initial fill panics.
  pub initial_fill-panic :
      IsSmallArea a
      → (q : UmemFillQueue sys.fill) (bufs : Vec (BufMmap BufCustom)) (num : ℕ) → IsFq l a q
      → IsSpare a bufs
      → Vec.len bufs < num
      → initial_fill sys false q bufs num ≡ panic explicit
  unfolding initial_fill
  initial_fill-panic area q bufs num v s short =
      let (n, q', bufs', r, given, le, k) = fill_kept l area q bufs num v s in
      let fewer : n ≢ num = λ e. absurd (omega (arith, k.size, e, short)) in
      rw (r, ==_of_ne n num fewer)

  -- The initial fill of a new queue from enough buffers succeeds, and is right.
  pub initial_fill_lem :
      IsSmallArea a
      → (q : UmemFillQueue sys.fill) (bufs : Vec (BufMmap BufCustom)) (num : ℕ) → IsFq l a q
      → IsSpare a bufs
      → l.fill.sent q.fq ≡ []
      → num ≤ Vec.len bufs
      → num ≤ ring_size
      → (q' : UmemFillQueue sys.fill) × (bufs' : Vec (BufMmap BufCustom)) × (initial_fill sys false
            q bufs num
          ≡ value (q', bufs'))
        × IsFq l a q'
        × IsSpare a bufs'
        × (Vec.len bufs' + num ≡ Vec.len bufs)
        × ((x : ℕ)
            → count addr_of x bufs'.items + count itself x (l.fill.sent q'.fq)
              ≡ count addr_of x bufs.items)
  unfolding initial_fill
  initial_fill_lem area q bufs num v s new enough small =
      let (n, q', bufs', r, given, le, k) = fill_kept l area q bufs num v s in
      let least : min (Vec.len bufs) num ≡ num = omega arith in
      let all : n ≡ num =
        given
        ∙ serves.reserves q.fq (min (Vec.len bufs) num) 0 new v.submitted (omega arith)
        ∙ least in
      (
        q',
        bufs',
        rw (r, all, ==_of_eq num num refl),
        k.fq,
        k.spare,
        omega (arith, k.size, all),
        λ x. omega (arith, k.held x, ap (count itself x) new),
      )
