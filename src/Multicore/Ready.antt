-- ===== src/Multicore/Ready.antt =====
-- examples/l2fwd-2link-multicore.rs: workers that start with new queues and the shared pool, in a build without
-- overflow checks.
use afxdp_rs.Prelude.{
  ℕ, ◌+◌, ◌*◌, ◌≤◌, ◌<◌, ◌≡◌, ◌↔◌, min, refl, ap₂, ap, false, Bool, List, [], ◌∷◌, All, map, length,
  arith, dec_lt,
}
use afxdp_rs.Rust.{value, panic, explicit}
use afxdp_rs.Rust.Vec.{Vec}
use afxdp_rs.Rust.Vec
use afxdp_rs.Buf.Mmap.{BufMmap}
use afxdp_rs.Area.{MmapArea}
use afxdp_rs.Extern.Deque.{ArrayDeque}
use afxdp_rs.Extern.Sys.{Sys}
use afxdp_rs.Umem.{UmemCompletionQueue, UmemFillQueue}
use afxdp_rs.Socket.{SocketRx, SocketTx}
use afxdp_rs.Socket.Tx.Send.{wire}
use afxdp_rs.L2fwd.{BufCustom}
use afxdp_rs.L2fwd.Setup.{ring_size, new_link}
use afxdp_rs.L2fwd.Serves.{Serves, new_link-IsLink, initial_fill-panic, initial_fill_lem}
use afxdp_rs.L2fwd.Invariant.{held_by}
use afxdp_rs.Queues.Count.{count, addr_of, itself, desc_addr, wire_addr}
use afxdp_rs.Queues.Invariant.{Laws, IsSmallArea, IsSpare, IsFq}
use afxdp_rs.Control.Shared.{BufferPool, start_bufs, take_bufs}
use afxdp_rs.Control.Stock.{take_bufs-Taken}
use afxdp_rs.Multicore.{WorkerConfig, Worker, begin}
use afxdp_rs.Multicore.Setup.{start_workers}
use afxdp_rs.Multicore.Serving.{IsWorker, held, held_all}

module _ {sys : Sys} {d : ArrayDeque (BufMmap BufCustom)} (l : Laws sys d) (a : MmapArea) where
  -- The queues of a link as they are made: over the area, and with nothing in them.
  pub record IsFresh (cq : UmemCompletionQueue sys.comp) (fq : UmemFillQueue sys.fill)
      (rx : SocketRx sys.rx) (tx : SocketTx sys.tx) : Type 0 where
    pub cq_area : cq.umem.area ≡ a
    pub cq_empty : (l.comp.ready cq.cq ≡ []) × (l.comp.held cq.cq ≡ [])
    pub fq_queue : IsFq l a fq
    pub fq_empty : l.fill.sent fq.fq ≡ []
    pub rx_area : rx.socket.umem.area ≡ a
    pub rx_empty : (l.rx.ready rx.rx ≡ []) × (l.rx.held rx.rx ≡ [])
    pub tx_area : tx.socket.umem.area ≡ a
    pub tx_empty : (l.tx.sent tx.tx ≡ []) × (l.tx.slots tx.tx ≡ [])

  -- A new link has the addresses of its fill queue.
  fresh-held_by :
      (x : ℕ) (cq : UmemCompletionQueue sys.comp) (fq fq' : UmemFillQueue sys.fill)
      (rx : SocketRx sys.rx) (tx : SocketTx sys.tx)
      → IsFresh cq fq rx tx
      → held_by l x (new_link sys d cq fq' rx tx) ≡ count itself x (l.fill.sent fq'.fq)
  fresh-held_by x cq fq fq' rx tx v = omega (
    arith,
    ap (count itself x) v.cq_empty.0,
    ap (count desc_addr x) v.rx_empty.0,
    ap (λ es. count wire_addr x (map wire es)) v.tx_empty.0,
    ap (count addr_of x) l.deque.new_items,
  )

  abbrev pub IsConfig : WorkerConfig sys → Type 0
  IsConfig c =
      IsFresh c.link1_cq c.link1_fq c.link1_rx c.link1_tx
      × IsFresh c.link2_cq c.link2_fq c.link2_rx c.link2_tx

  -- A worker has started from a pool and left another.
  pub record Begun (bp bp' : BufferPool) (w : Worker sys d) : Type 0 where
    pub worker : IsWorker l a w
    pub rest : IsSpare a bp'.bufs
    pub left : Vec.len bp'.bufs + min start_bufs (Vec.len bp.bufs) ≡ Vec.len bp.bufs
    pub same : (x : ℕ) → held l x w + count addr_of x bp'.bufs.items ≡ count addr_of x bp.bufs.items

  module _ {setrlimit : sys.World → sys.World × Bool} (serves : Serves l a setrlimit)
      (area : IsSmallArea a) where
    begin-Begun :
        (c : WorkerConfig sys) (bp : BufferPool) (world : sys.World)
        → IsConfig c
        → IsSpare a bp.bufs
        → 2 * ring_size ≤ Vec.len bp.bufs
        → (w : Worker sys d) × (bp' : BufferPool) × (begin sys false d c bp world ≡ value (w, bp'))
          × (w.core ≡ c.core)
          × Begun bp bp' w
    unfolding begin
    begin-Begun c bp world (v₁, v₂) s enough =
        let t = take_bufs-Taken a bp s in
        let (bufs, bp') = take_bufs bp in
        let (fq1, bufs1, e1, q1, spare1, size1, same1) =
          initial_fill_lem l serves area c.link1_fq bufs ring_size v₁.fq_queue t.spare v₁.fq_empty
            (omega (arith, t.taken)) (omega arith) in
        let (fq2, bufs2, e2, q2, spare2, size2, same2) =
          initial_fill_lem l serves area c.link2_fq bufs1 ring_size v₂.fq_queue spare1 v₂.fq_empty
            (omega (arith, t.taken, size1)) (omega arith) in
        (
          record {
            core = c.core;
            first = new_link sys d c.link1_cq fq1 c.link1_rx c.link1_tx;
            second = new_link sys d c.link2_cq fq2 c.link2_rx c.link2_tx;
            bufs = bufs2;
            world = world;
          },
          bp',
          rw (e1, e2),
          refl,
          record {
            worker = record {
              first =
                  new_link-IsLink l serves c.link1_cq fq1 c.link1_rx c.link1_tx v₁.cq_area
                    v₁.cq_empty q1 v₁.rx_area v₁.rx_empty v₁.tx_area v₁.tx_empty;
              second =
                  new_link-IsLink l serves c.link2_cq fq2 c.link2_rx c.link2_tx v₂.cq_area
                    v₂.cq_empty q2 v₂.rx_area v₂.rx_empty v₂.tx_area v₂.tx_empty;
              spare = spare2;
              deficits = (refl, refl);
            };
            rest = t.rest;
            left = omega (arith, t.left, t.taken);
            same = λ x. omega (
              arith,
              t.held x,
              same1 x,
              same2 x,
              fresh-held_by x c.link1_cq c.link1_fq fq1 c.link1_rx c.link1_tx v₁,
              fresh-held_by x c.link2_cq c.link2_fq fq2 c.link2_rx c.link2_tx v₂,
            );
          },
        )

    -- A worker needs 4096 buffers in the pool for its two initial fills.
    short-panic :
        (c : WorkerConfig sys) (bp : BufferPool) (world : sys.World)
        → IsConfig c
        → IsSpare a bp.bufs
        → Vec.len bp.bufs < 2 * ring_size
        → begin sys false d c bp world ≡ panic explicit
    unfolding begin
    short-panic c bp world (v₁, v₂) s short =
        let t = take_bufs-Taken a bp s in
        let bufs = (take_bufs bp).0 in
        elim (dec_lt (Vec.len bufs) ring_size) [
          | yes first ↦
              rw (
                initial_fill-panic l serves area c.link1_fq bufs ring_size v₁.fq_queue t.spare
                  first)
          | no enough ↦
              let (fq1, bufs1, e1, q1, spare1, size1, same1) =
                initial_fill_lem l serves area c.link1_fq bufs ring_size v₁.fq_queue t.spare
                  v₁.fq_empty (omega arith) (omega arith) in
              rw (
                e1,
                initial_fill-panic l serves area c.link2_fq bufs1 ring_size v₂.fq_queue spare1
                    (omega (arith, t.taken, size1, short)),
              )
        ]

    -- In a build without overflow checks, where the kernel and libbpf do what is asked, a worker with new
    -- queues panics before its loop exactly if the shared pool, which has frames of the area only, has fewer
    -- than the 4096 buffers of its two initial fills.
    pub begin_iff :
        (c : WorkerConfig sys) (bp : BufferPool) (world : sys.World)
        → IsConfig c
        → IsSpare a bp.bufs
        → (begin sys false d c bp world ≡ panic explicit) ↔ (Vec.len bp.bufs < 2 * ring_size)
    begin_iff c bp world v s = (
      λ e. elim (dec_lt (Vec.len bp.bufs) (2 * ring_size)) [
        | yes short ↦ short
        | no enough ↦
            let (w, bp', e', core, b) = begin-Begun c bp world v s (omega arith) in absurd (cc)
      ],
      short-panic c bp world v s,
    )

    -- In a build without overflow checks, where the kernel and libbpf do what is asked and the pool has 8192
    -- buffers for each worker: all workers with new queues get to their loops, in order, and every
    -- address of the pool is afterwards with one worker or still in the pool, as often as before, so that no
    -- two workers share a frame.
    pub start_workers-IsWorker :
        (cs : List (WorkerConfig sys)) (bp : BufferPool) (world : sys.World)
        → All IsConfig cs
        → IsSpare a bp.bufs
        → start_bufs * length cs ≤ Vec.len bp.bufs
        → (ws : List (Worker sys d)) × (bp' : BufferPool) × (start_workers sys false d cs bp world
            ≡ value (ws, bp'))
          × All (IsWorker l a) ws
          × IsSpare a bp'.bufs
          × (map (λ (w : Worker sys d). w.core) ws ≡ map (λ (c : WorkerConfig sys). c.core) cs)
          × (Vec.len bp'.bufs + start_bufs * length cs ≡ Vec.len bp.bufs)
          × ((x : ℕ)
              → held_all l x ws + count addr_of x bp'.bufs.items ≡ count addr_of x bp.bufs.items)
    unfolding start_workers
    start_workers-IsWorker [] bp world v s enough =
        ([], bp, refl, tt, s, refl, omega arith, λ x. omega arith)
    start_workers-IsWorker (c ∷ cs) bp world v s enough =
        let (w, bp₁, e, core, b) = begin-Begun c bp world v.0 s (omega arith) in
        let (ws, bp', e', vs, s', cores, left, same) =
          start_workers-IsWorker cs bp₁ world v.1 b.rest (omega (arith, b.left)) in
        (
          w ∷ ws,
          bp',
          rw (e, e'),
          (b.worker, vs),
          s',
          ap₂ (λ (n : ℕ) (ns : List ℕ). n ∷ ns) core cores,
          omega (arith, left, b.left),
          λ x. omega (arith, same x, b.same x),
        )
