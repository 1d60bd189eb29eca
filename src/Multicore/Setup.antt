-- ===== src/Multicore/Setup.antt =====
-- examples/l2fwd-2link-multicore.rs: `main` up to the start of its threads, and the start of the workers.
use afxdp_rs.Prelude.{ℕ, Bool, List, [], ◌∷◌, ◌++◌}
use afxdp_rs.Rust.{Outcome, value, ◌>>=◌}
use afxdp_rs.Buf.Mmap.{BufMmap}
use afxdp_rs.Area.{MmapArea}
use afxdp_rs.Extern.Deque.{ArrayDeque}
use afxdp_rs.Extern.Sys.{Sys}
use afxdp_rs.Umem
use afxdp_rs.Socket
use afxdp_rs.L2fwd.{BufCustom, or_panic}
use afxdp_rs.L2fwd.Setup.{ring_size}
use afxdp_rs.Control.Shared.{Opt, BufferPool, socket_options, make_stock}
use afxdp_rs.Multicore.{WorkerConfig, Worker, begin}

-- An entry of the configuration file, as a library reads it.
pub record YamlWorker : Type 0 where
  pub core : ℕ
  pub link1_name : List ℕ
  pub link1_channel : ℕ
  pub link2_name : List ℕ
  pub link2_channel : ℕ

-- What `main` has made when it starts its threads: the workers' configurations, the names of their links, and
-- the shared pool.
pub record Prepared (sys : Sys) : Type 0 where
  pub workers : List (WorkerConfig sys)
  pub link_names : List (List ℕ)
  pub bp : BufferPool
  pub world : sys.World

module _ (sys : Sys) (checks : Bool) where
  -- "Create the AF_XDP umem and sockets for each worker": the body of the loop over the entries.
  unfoldable pub make_worker :
      MmapArea → Opt → sys.World → YamlWorker → Outcome (WorkerConfig sys × sys.World)
  make_worker area opt world w = do
    (r, world) ← Umem.new sys checks world area ring_size ring_size
    (umem1, umem1cq, umem1fq) ← or_panic r
    (r, world) ← Umem.new sys checks world area ring_size ring_size
    (umem2, umem2cq, umem2fq) ← or_panic r
    (r, world) ←
        Socket.new sys world umem1 w.link1_name w.link1_channel ring_size ring_size
          (socket_options opt)
    (skt1, skt1rx, skt1tx) ← or_panic r
    (r, world) ←
        Socket.new sys world umem2 w.link2_name w.link2_channel ring_size ring_size
          (socket_options opt)
    (skt2, skt2rx, skt2tx) ← or_panic r
    value (
      record {
        core = w.core;
        link1_rx = skt1rx;
        link1_tx = skt1tx;
        link1_cq = umem1cq;
        link1_fq = umem1fq;
        link2_rx = skt2rx;
        link2_tx = skt2tx;
        link2_cq = umem2cq;
        link2_fq = umem2fq;
      },
      world,
    )

  -- The loop, from what it has pushed so far.
  unfoldable pub make_workers :
      MmapArea
      → Opt
      → sys.World
      → List YamlWorker
      → List (WorkerConfig sys)
      → List (List ℕ)
      → Outcome (List (WorkerConfig sys) × List (List ℕ) × sys.World)
  make_workers area opt world [] workers link_names = value (workers, link_names, world)
  make_workers area opt world (w ∷ ws) workers link_names = do
    (worker, world) ← make_worker area opt world w
    make_workers area opt world ws (workers ++ worker ∷ [])
        (link_names ++ w.link1_name ∷ w.link2_name ∷ [])

  unfoldable pub prepare :
      (sys.World → sys.World × Bool) → sys.World → Opt → List YamlWorker → Outcome (Prepared sys)
  prepare setrlimit world opt yaml_workers = do
    (area, bp, world) ← make_stock sys checks setrlimit world opt
    (workers, link_names, world) ← make_workers area opt world yaml_workers [] []
    value (record { workers = workers; link_names = link_names; bp = bp; world = world })

  -- "Start the workers": each takes its buffers from the pool, here in the order in which they are spawned.
  unfoldable pub start_workers :
      (d : ArrayDeque (BufMmap BufCustom))
      → List (WorkerConfig sys)
      → BufferPool
      → sys.World
      → Outcome (List (Worker sys d) × BufferPool)
  start_workers d [] bp world = value ([], bp)
  start_workers d (c ∷ cs) bp world = do
    (w, bp) ← begin sys checks d c bp world
    (ws, bp) ← start_workers d cs bp world
    value (w ∷ ws, bp)
