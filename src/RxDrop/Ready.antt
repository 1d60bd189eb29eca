-- ===== src/RxDrop/Ready.antt =====
-- examples/rxdrop.rs: workers that start with new queues and the shared pool, in a build without overflow checks.
use afxdp_rs.Prelude.{
  ℕ, ◌+◌, ◌*◌, ◌≤◌, ◌≡◌, min, refl, ap, ap₂, sym, subst, false, Bool, List, [], ◌∷◌, All, map,
  length, arith,
}
use afxdp_rs.Rust.{value}
use afxdp_rs.Rust.Vec
use afxdp_rs.Buf.Mmap.{BufMmap}
use afxdp_rs.Area.{MmapArea}
use afxdp_rs.Extern.Deque.{ArrayDeque}
use afxdp_rs.Extern.Sys.{Sys}
use afxdp_rs.Frames.{IsPacket, IsBuf}
use afxdp_rs.L2fwd.{BufCustom}
use afxdp_rs.L2fwd.Setup.{ring_size}
use afxdp_rs.L2fwd.Serves.{Serves, initial_fill_lem}
use afxdp_rs.Queues.Count.{count, addr_of, desc_addr}
use afxdp_rs.Queues.Invariant.{Laws, IsSmallArea, IsSpare, IsFq}
use afxdp_rs.Control.Shared.{BufferPool, start_bufs, take_bufs}
use afxdp_rs.Control.Stock.{take_bufs-Taken}
use afxdp_rs.RxDrop.{WorkerConfig, Worker, begin}
use afxdp_rs.RxDrop.Setup.{start_workers}
use afxdp_rs.RxDrop.Serving.{IsWorker, held, held_all}

module _ {sys : Sys} {d : ArrayDeque (BufMmap BufCustom)} (l : Laws sys d) (a : MmapArea) where
  -- Queues as they are made: over the area, and with nothing in them.
  pub record IsConfig (c : WorkerConfig sys) : Type 0 where
    pub fq_queue : IsFq l a c.link_fq
    pub fq_empty : l.fill.sent c.link_fq.fq ≡ []
    pub rx_area : c.link_rx.socket.umem.area ≡ a
    pub rx_empty : (l.rx.ready c.link_rx.rx ≡ []) × (l.rx.held c.link_rx.rx ≡ [])

  -- A worker has started from a pool and left another.
  pub record Begun (bp bp' : BufferPool) (w : Worker sys d) : Type 0 where
    pub worker : IsWorker l a w
    pub rest : IsSpare a bp'.bufs
    pub left : Vec.len bp'.bufs + min start_bufs (Vec.len bp.bufs) ≡ Vec.len bp.bufs
    pub same : (x : ℕ) → held l x w + count addr_of x bp'.bufs.items ≡ count addr_of x bp.bufs.items

module _ {sys : Sys} {d : ArrayDeque (BufMmap BufCustom)} (l : Laws sys d) {a : MmapArea}
    {setrlimit : sys.World → sys.World × Bool} (serves : Serves l a setrlimit)
    (area : IsSmallArea a) where
  begin-Begun :
      (c : WorkerConfig sys) (bp : BufferPool) (world : sys.World)
      → IsConfig l a c
      → IsSpare a bp.bufs
      → ring_size ≤ Vec.len bp.bufs
      → (w : Worker sys d) × (bp' : BufferPool) × (begin sys false d c bp world ≡ value (w, bp'))
        × (w.core ≡ c.core)
        × Begun l a bp bp' w
  unfolding begin
  begin-Begun c bp world v s enough =
      let t = take_bufs-Taken a bp s in
      let (bufs, bp') = take_bufs bp in
      let (fq, bufs', e, q, spare, size, same) =
        initial_fill_lem l serves area c.link_fq bufs ring_size v.fq_queue t.spare v.fq_empty
          (omega (arith, t.taken)) (omega arith) in
      (
        record {
          core = c.core;
          state = record { fq = fq; rx = c.link_rx; fq_deficit = 0 };
          stats = record {
            cq_bufs_received = 0;
            fq_bufs_filled = 0;
            rx_packets = 0;
            tx_packets = 0;
          };
          pending = d.new;
          bufs = bufs';
          world = world;
        },
        bp',
        rw e,
        refl,
        record {
          worker = record {
            fq = q;
            rx = record {
              area = v.rx_area;
              released = v.rx_empty.1;
              ready = subst (All (IsPacket a)) (sym v.rx_empty.0) tt;
            };
            pending = subst (All (IsBuf a)) (sym l.deque.new_items) tt;
            spare = spare;
            deficit = refl;
          };
          rest = t.rest;
          left = omega (arith, t.left, t.taken);
          same = λ x. omega (
            arith,
            t.held x,
            same x,
            ap (count desc_addr x) v.rx_empty.0,
            ap (count addr_of x) l.deque.new_items,
          );
        },
      )

  pub start_workers-IsWorker :
      (cs : List (WorkerConfig sys)) (bp : BufferPool) (world : sys.World)
      → All (IsConfig l a) cs
      → IsSpare a bp.bufs
      → start_bufs * length cs ≤ Vec.len bp.bufs
      → (ws : List (Worker sys d)) × (bp' : BufferPool) × (start_workers sys false d cs bp world
          ≡ value (ws, bp'))
        × All (IsWorker l a) ws
        × (map (λ (w : Worker sys d). w.core) ws ≡ map (λ (c : WorkerConfig sys). c.core) cs)
        × ((x : ℕ)
            → held_all l x ws + count addr_of x bp'.bufs.items ≡ count addr_of x bp.bufs.items)
  unfolding start_workers
  start_workers-IsWorker [] bp world v s enough = ([], bp, refl, tt, refl, λ x. omega arith)
  start_workers-IsWorker (c ∷ cs) bp world v s enough =
      let (w, bp₁, e, core, b) = begin-Begun c bp world v.0 s (omega arith) in
      let (ws, bp', e', vs, cores, same) =
        start_workers-IsWorker cs bp₁ world v.1 b.rest (omega (arith, b.left)) in
      (
        w ∷ ws,
        bp',
        rw (e, e'),
        (b.worker, vs),
        ap₂ (λ (n : ℕ) (ns : List ℕ). n ∷ ns) core cores,
        λ x. omega (arith, same x, b.same x),
      )
