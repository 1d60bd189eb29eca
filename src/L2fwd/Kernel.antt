-- ===== src/L2fwd/Kernel.antt =====
-- examples/l2fwd-2link.rs: any number of rounds, with moves of the kernel between them.
use afxdp_rs.Prelude.{
  ℕ, ◌+◌, ◌≤◌, ◌≡◌, refl, ap, sym, ◌∙◌, subst, false, List, [], ◌∷◌, ◌++◌, map, All, All-append,
  arith,
}
use afxdp_rs.Rust.{Outcome, value, panic}
use afxdp_rs.Buf.Mmap.{BufMmap}
use afxdp_rs.Area.{MmapArea, af_xdp_reserved}
use afxdp_rs.Extern.Cons.{XdpDesc}
use afxdp_rs.Extern.Deque.{ArrayDeque}
use afxdp_rs.Extern.Sys.{Sys}
use afxdp_rs.Socket.Tx.Send.{wire}
use afxdp_rs.Frames.{IsFrameAddr, IsPacket, IsWire}
use afxdp_rs.L2fwd.{Link, Forwarder, BufCustom, round}
use afxdp_rs.Queues.Count.{count, count-append, itself, desc_addr, wire_addr}
use afxdp_rs.L2fwd.Invariant.{IsLink, IsForwarder, held_by, held, IsDeficit}
use afxdp_rs.Queues.Invariant.{Works, Laws, IsSmallArea}
use afxdp_rs.L2fwd.Turn.{round-IsForwarder}

module _ {sys : Sys} {d : ArrayDeque (BufMmap BufCustom)} where
  -- The link with other contents of its four rings.
  abbrev pub set_rings :
      Link sys d → sys.comp.Ring → sys.fill.Ring → sys.rx.Ring → sys.tx.Ring → Link sys d
  set_rings k cq fq rx tx = record k {
    state = record (k.state) {
      cq = record (k.state.cq) { cq = cq };
      fq = record (k.state.fq) { fq = fq };
      rx = record (k.state.rx) { rx = rx };
      tx = record (k.state.tx) { tx = tx };
    };
  }

  module _ (l : Laws sys d) (a : MmapArea) where
    -- What the kernel does to a link: it sends the oldest packet that was submitted and puts its address into
    -- the completion ring, or it takes the oldest frame of the fill ring and puts a packet in it into the
    -- receive ring.
    pub data KernelMove (k : Link sys d) : Link sys d → Type 0 where
      completes :
          (cq : sys.comp.Ring) (tx : sys.tx.Ring) (e : XdpDesc) (rest : List XdpDesc)
          → l.tx.sent k.state.tx.tx ≡ e ∷ rest
          → l.tx.sent tx ≡ rest
          → l.tx.slots tx ≡ l.tx.slots k.state.tx.tx
          → l.comp.ready cq ≡ l.comp.ready k.state.cq.cq ++ e.addr ∷ []
          → l.comp.held cq ≡ l.comp.held k.state.cq.cq
          → KernelMove k (set_rings k cq k.state.fq.fq k.state.rx.rx tx)
      receives :
          (fq : sys.fill.Ring) (rx : sys.rx.Ring) (e : XdpDesc) (rest : List ℕ)
          → e.len + af_xdp_reserved ≤ a.buf_len
          → l.fill.sent k.state.fq.fq ≡ e.addr ∷ rest
          → l.fill.sent fq ≡ rest
          → l.fill.slots fq ≡ l.fill.slots k.state.fq.fq
          → l.rx.ready rx ≡ l.rx.ready k.state.rx.rx ++ e ∷ []
          → l.rx.held rx ≡ l.rx.held k.state.rx.rx
          → KernelMove k (set_rings k k.state.cq.cq fq rx k.state.tx.tx)

    pub move-IsLink : (k k' : Link sys d) → KernelMove k k' → IsLink l a k → IsLink l a k'
    move-IsLink k _ (completes cq tx e rest first left slots ready held) v =
        let sent = subst (λ es. All (IsWire a) (map wire es)) first v.tx.sent in
        record {
          cq = record {
            area = v.cq.area;
            released = held ∙ v.cq.released;
            ready =
                subst (All (IsFrameAddr a)) (sym ready)
                  (All-append (IsFrameAddr a) _ (e.addr ∷ []) v.cq.ready (sent.0.0, tt));
          };
          fq = v.fq;
          rx = v.rx;
          tx = record {
            area = v.tx.area;
            submitted = slots ∙ v.tx.submitted;
            sent = subst (λ es. All (IsWire a) (map wire es)) (sym left) sent.1;
          };
          pending = v.pending;
        }
    move-IsLink k _ (receives fq rx e rest short first left slots ready held) v =
        let sent = subst (All (IsFrameAddr a)) first v.fq.sent in
        record {
          cq = v.cq;
          fq = record {
            area = v.fq.area;
            submitted = slots ∙ v.fq.submitted;
            sent = subst (All (IsFrameAddr a)) (sym left) sent.1;
          };
          rx = record {
            area = v.rx.area;
            released = held ∙ v.rx.released;
            ready =
                subst (All (IsPacket a)) (sym ready)
                  (All-append (IsPacket a) _ (e ∷ []) v.rx.ready ((sent.0, short), tt));
          };
          tx = v.tx;
          pending = v.pending;
        }

    pub move-held_by :
        (k k' : Link sys d) (x : ℕ) → KernelMove k k' → held_by l x k' ≡ held_by l x k
    move-held_by k _ x (completes cq tx e rest first left slots ready held) = omega (
      arith,
      ap (λ es. count wire_addr x (map wire es)) first,
      ap (λ es. count wire_addr x (map wire es)) left,
      ap (count itself x) ready,
      count-append itself x (l.comp.ready k.state.cq.cq) (e.addr ∷ []),
    )
    move-held_by k _ x (receives fq rx e rest short first left slots ready held) = omega (
      arith,
      ap (count itself x) first,
      ap (count itself x) left,
      ap (count desc_addr x) ready,
      count-append desc_addr x (l.rx.ready k.state.rx.rx) (e ∷ []),
    )

    pub move-IsDeficit : (k k' : Link sys d) → KernelMove k k' → IsDeficit l k → IsDeficit l k'
    move-IsDeficit k _ (completes cq tx e rest first left slots ready held) h = h
    move-IsDeficit k _ (receives fq rx e rest short first left slots ready held) h = h

    -- The states that rounds of the loop and moves of the kernel lead to, in any order.
    pub data Runs (f : Forwarder sys d) : Forwarder sys d → Type 0 where
      still : Runs f f
      rounds : (g h : Forwarder sys d) → Runs f g → round sys false d g ≡ value h → Runs f h
      kernel_first :
          (g : Forwarder sys d) (k : Link sys d)
          → Runs f g
          → KernelMove g.first k
          → Runs f (record g { first = k })
      kernel_second :
          (g : Forwarder sys d) (k : Link sys d)
          → Runs f g
          → KernelMove g.second k
          → Runs f (record g { second = k })

  module _ (l : Laws sys d) {a : MmapArea} (area : IsSmallArea a) (works : Works sys) where
    value_or : Forwarder sys d → Outcome (Forwarder sys d) → Forwarder sys d
    value_or f (value g) = g
    value_or f (panic p) = f

    run-IsForwarder :
        (f g : Forwarder sys d)
        → IsForwarder l a f
        → Runs l a f g
        → IsForwarder l a g × ((x : ℕ) → held l x g ≡ held l x f)
    unfolding value_or
    run-IsForwarder f _ v still = (v, λ x. refl)
    run-IsForwarder f _ v (rounds g h runs e) =
        let (w, same) = run-IsForwarder f g v runs in
        let (h', e', w', turned, deficit, same') = round-IsForwarder l area works g w in
        let at : h' ≡ h = ap (value_or h) (sym e' ∙ e) in
        (subst (IsForwarder l a) at w', λ x. ap (held l x) (sym at) ∙ same' x ∙ same x)
    run-IsForwarder f _ v (kernel_first g k runs move) =
        let (w, same) = run-IsForwarder f g v runs in
        (
          record {
            first = move-IsLink l a g.first k move w.first;
            second = w.second;
            spare = w.spare;
          },
          λ x. omega (arith, move-held_by l a g.first k x move, same x),
        )
    run-IsForwarder f _ v (kernel_second g k runs move) =
        let (w, same) = run-IsForwarder f g v runs in
        (
          record {
            first = w.first;
            second = move-IsLink l a g.second k move w.second;
            spare = w.spare;
          },
          λ x. omega (arith, move-held_by l a g.second k x move, same x),
        )

    -- In a build without overflow checks, over an area of frames of at most 2^16 bytes and with a `sendto`
    -- that works or fails as it may: whatever rounds of the loop and moves of the kernel lead from a state in
    -- order to another, the next round from there does not panic, and every address is held as often as
    -- at the start; so no frame is lost or gets a second owner, however long the forwarder runs.
    pub run_safe :
        (f g : Forwarder sys d)
        → IsForwarder l a f
        → Runs l a f g
        → ((h : Forwarder sys d) × (round sys false d g ≡ value h))
          × ((x : ℕ) → held l x g ≡ held l x f)
    run_safe f g v runs =
        let (w, same) = run-IsForwarder f g v runs in
        let next = round-IsForwarder l area works g w in ((next.0, next.1), same)
