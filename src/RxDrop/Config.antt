-- ===== src/RxDrop/Config.antt =====
-- examples/rxdrop.rs: what `main` has made when it starts its threads, in a build without overflow checks.
use afxdp_rs.Prelude.{
  ℕ, ◌+◌, ◌*◌, ◌^◌, ◌≤◌, ◌<◌, ◌≡◌, refl, ap, ap₂, sym, ◌∙◌, false, Bool, some, List, [], ◌∷◌, ◌++◌,
  All, map, length, length-map, append-nil, append_assoc, arith,
}
use afxdp_rs.Rust.{value}
use afxdp_rs.Rust.Vec
use afxdp_rs.Buf.Mmap.{BufMmap}
use afxdp_rs.Area.{MmapArea, get_buf_num, get_buf_len}
use afxdp_rs.Extern.Deque.{ArrayDeque}
use afxdp_rs.Extern.Sys.{Sys}
use afxdp_rs.Umem.New.{umem_creates, created, fresh_umem}
use afxdp_rs.Util.PowOfTwo.{IsPowerOfTwo}
use afxdp_rs.Socket.{has_nul}
use afxdp_rs.Socket.New.{socket_creates, made_socket, created as socket_created}
use afxdp_rs.L2fwd.{BufCustom}
use afxdp_rs.L2fwd.Setup.{ring_size}
use afxdp_rs.L2fwd.Serves.{Serves, empty_fq}
use afxdp_rs.Queues.Count.{count, addr_of}
use afxdp_rs.Queues.Invariant.{Laws, IsSmallArea}
use afxdp_rs.Control.Shared.{Opt, BufferPool, socket_options, start_bufs}
use afxdp_rs.Control.Stock.{make_stock-value}
use afxdp_rs.RxDrop.{WorkerConfig, Worker}
use afxdp_rs.RxDrop.Setup.{YamlWorker, Prepared, make_worker, make_workers, prepare, start_workers}
use afxdp_rs.RxDrop.Serving.{IsWorker, held_all}
use afxdp_rs.RxDrop.Ready.{IsConfig, start_workers-IsWorker}

module _ {sys : Sys} {d : ArrayDeque (BufMmap BufCustom)} (l : Laws sys d) {a : MmapArea}
    {setrlimit : sys.World → sys.World × Bool} (serves : Serves l a setrlimit)
    (area : IsSmallArea a) where
  make_worker-IsConfig :
      (opt : Opt) (world : sys.World) (w : YamlWorker)
      → has_nul w.link_name ≡ false
      → (c : WorkerConfig sys) × (world' : sys.World) × (make_worker sys false a opt world w
          ≡ value (c, world'))
        × IsConfig l a c
        × (c.core ≡ w.core)
  unfolding make_worker get_buf_num get_buf_len
  make_worker-IsConfig opt w1 w clean =
      let power : IsPowerOfTwo ring_size = (11, refl) in
      let fits : get_buf_num a * get_buf_len a < 2 ^ 64 = omega (arith, area.valid.top) in
      let e1 =
        umem_creates sys false w1 a ring_size ring_size power power fits
          (serves.umem_ret w1 _ _ _) in
      let c1 = created sys false w1 a ring_size ring_size in
      let u1 = fresh_umem sys false w1 a ring_size ring_size in
      let options = socket_options opt in
      let e2 =
        socket_creates sys c1.world u1 w.link_name w.link_channel options clean ring_size ring_size
          power power (serves.socket_ret c1.world _ _ _ _ _ _) in
      let s1 =
        socket_created sys c1.world u1 w.link_name w.link_channel options (some sys.rx.blank)
          (some sys.tx.blank) ring_size ring_size in
      let (fill1, slots1) = serves.fill_sent w1 _ _ _ in
      (
        record {
          core = w.core;
          link_rx = record {
            socket = made_socket sys c1.world u1 w.link_name w.link_channel options s1.handle;
            fd = sys.socket_fd s1.world s1.handle;
            rx = s1.cons sys.rx.blank;
          };
          link_fq = record { umem = u1; fq = c1.prod sys.fill.blank };
        },
        s1.world,
        rw (e1, e2),
        record {
          fq_queue = empty_fq l serves u1 _ refl slots1 fill1;
          fq_empty = fill1;
          rx_area = refl;
          rx_empty = serves.rx_ready c1.world _ _ _ _ _ _;
        },
        refl,
      )

  make_workers-IsConfig :
      (opt : Opt) (world : sys.World) (ws : List YamlWorker) (workers : List (WorkerConfig sys))
      (link_names : List (List ℕ))
      → All (λ (w : YamlWorker). has_nul w.link_name ≡ false) ws
      → (cs : List (WorkerConfig sys)) × (world' : sys.World) × (make_workers sys false a opt world
            ws workers link_names
          ≡ value (workers ++ cs, link_names ++ map (λ (w : YamlWorker). w.link_name) ws, world'))
        × All (IsConfig l a) cs
        × (map (λ (c : WorkerConfig sys). c.core) cs ≡ map (λ (w : YamlWorker). w.core) ws)
  unfolding make_workers
  make_workers-IsConfig opt world [] workers link_names named =
      ([], world, rw (append-nil workers, append-nil link_names), tt, refl)
  make_workers-IsConfig opt world (w ∷ ws) workers link_names named =
      let (c, world₁, e, v, core) = make_worker-IsConfig opt world w named.0 in
      let link = w.link_name ∷ [] in
      let names = map (λ (u : YamlWorker). u.link_name) ws in
      let (cs, world', e', vs, cores) =
        make_workers-IsConfig opt world₁ ws (workers ++ c ∷ []) (link_names ++ link) named.1 in
      (
        c ∷ cs,
        world',
        rw e e'
            ∙ ap₂ (λ (ks : List (WorkerConfig sys)) (ns : List (List ℕ)). value (ks, ns, world'))
                (append_assoc workers (c ∷ []) cs) (append_assoc link_names link names),
        (v, vs),
        ap₂ (λ (n : ℕ) (ns : List ℕ). n ∷ ns) core cores,
      )

  -- In a build without overflow checks, where the kernel and libbpf do what is asked, no name of a link has a
  -- zero byte, and the area has 8192 frames for each entry of the configuration: `main` prepares a
  -- worker for each entry, on its core, and all workers get to their loops. Each is in order, and every
  -- address is held, by a worker or by the shared pool, exactly as often as the stocked pool held it.
  pub drop_main-IsWorker :
      (world : sys.World) (opt : Opt) (entries : List YamlWorker)
      → opt.bufnum ≡ a.buf_num
      → opt.bufsize ≡ a.buf_len
      → All (λ (w : YamlWorker). has_nul w.link_name ≡ false) entries
      → start_bufs * length entries ≤ a.buf_num
      → (p : Prepared sys) × (ws : List (Worker sys d)) × (bp' : BufferPool) × (prepare sys false
            setrlimit world opt entries
          ≡ value p)
        × (start_workers sys false d p.workers p.bp p.world ≡ value (ws, bp'))
        × (p.link_names ≡ map (λ (w : YamlWorker). w.link_name) entries)
        × (map (λ (w : Worker sys d). w.core) ws ≡ map (λ (w : YamlWorker). w.core) entries)
        × All (IsWorker l a) ws
        × (Vec.len p.bp.bufs ≡ a.buf_num)
        × ((x : ℕ)
            → held_all l x ws + count addr_of x bp'.bufs.items ≡ count addr_of x p.bp.bufs.items)
  unfolding prepare
  drop_main-IsWorker world opt entries num len named enough =
      let (bp, world₁, e, spare, all) = make_stock-value l serves world opt area num len in
      let (cs, world₂, e', vs, cores) = make_workers-IsConfig opt world₁ entries [] [] named in
      let as_many : length cs ≡ length entries =
        sym (length-map cs _) ∙ ap length cores ∙ length-map entries _ in
      let (ws, bp', e'', us, cores', same) =
        start_workers-IsWorker l serves area cs bp world₂ vs spare
          (omega (arith, enough, as_many, all)) in
      (
        record {
          workers = cs;
          link_names = map (λ (w : YamlWorker). w.link_name) entries;
          bp = bp;
          world = world₂;
        },
        ws,
        bp',
        rw (e, e'),
        e'',
        refl,
        cores' ∙ cores,
        us,
        all,
        same,
      )
