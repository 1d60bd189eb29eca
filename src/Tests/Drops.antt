-- ===== src/Tests/Drops.antt =====
-- The theorems on examples/rxdrop.rs and examples/dump.rs at concrete states, and on the end of `main`.
use afxdp_rs.Prelude.{ℕ, ◌++◌, ◌+◌, ◌≡◌, refl, true, false, List, [], ◌∷◌, All, map, arith}
use afxdp_rs.Rust.{value}
use afxdp_rs.Rust.Vec
use afxdp_rs.Buf.Mmap.{BufMmap}
use afxdp_rs.Extern.Cons.{XdpDesc}
use afxdp_rs.Frames.{IsBuf}
use afxdp_rs.Queues.Count.{count, addr_of}
use afxdp_rs.L2fwd.{BufCustom}
use afxdp_rs.Control.{Command, exit, get_stats, Mailbox, run_worker}
use afxdp_rs.Control.Worker.{served}
use afxdp_rs.Control.Shared.{BufferPool}
use afxdp_rs.RxDrop.{StatsMessage, Worker, serve, report}
use afxdp_rs.RxDrop.Setup.{YamlWorker, Prepared, prepare, start_workers}
use afxdp_rs.RxDrop.Serving.{IsWorker, Keeps, held_all}
use afxdp_rs.RxDrop.Kernel.{Moved, still, receives, drop_worker-Keeps}
use afxdp_rs.RxDrop.Config.{drop_main-IsWorker}
use afxdp_rs.Dump.{Dumper, round}
use afxdp_rs.Dump.Shows.{IsDumper, owned, arrived, round-shows}
use afxdp_rs.Control.Unlink.{Links}
use afxdp_rs.Tests.Queue.{queue}
use afxdp_rs.Tests.Sample.{area}
use afxdp_rs.Tests.Channels.{channel, channel_laws}
use afxdp_rs.Tests.Forwarding.{
  steady, started, started-IsForwarder, laws, link, one_arrived, area-IsSmallArea, limit,
}
use afxdp_rs.Tests.Workers.{large, large-IsSmallArea, large-Serves, options}

abbrev worker : Worker steady queue
worker = record {
  core = 2;
  state = record { fq = started.first.state.fq; rx = started.first.state.rx; fq_deficit = 0 };
  stats = record { cq_bufs_received = 0; fq_bufs_filled = 0; rx_packets = 0; tx_packets = 0 };
  pending = [];
  bufs = started.bufs;
  world = 0;
}

worker-IsWorker : IsWorker laws area worker
worker-IsWorker = record {
  fq = started-IsForwarder.first.fq;
  rx = started-IsForwarder.first.rx;
  pending = tt;
  spare = started-IsForwarder.spare;
  deficit = refl;
}

abbrev box : Mailbox (channel Command) (channel StatsMessage)
box = record { commands = (get_stats ∷ exit ∷ [], 2); responses = ([], 2) }

-- Between two rounds, the kernel puts a packet into the oldest frame of the fill ring, if there is one.
abbrev receive_next :
    (w : Worker steady queue) (addrs : List ℕ)
    → w.state.fq.fq.sent ≡ addrs
    → (w' : Worker steady queue) × Moved laws area w w'
receive_next w [] e = (w, still)
receive_next w (addr ∷ rest) e =
    let desc : XdpDesc = record { addr = addr; len = 60; options = 0 } in
    (
      _,
      receives w (record (w.state.fq.fq) { sent = rest })
          (record (w.state.rx.rx) { ready = w.state.rx.rx.ready ++ desc ∷ [] }) desc rest still
          (omega arith) e refl refl refl refl,
    )

abbrev kernel : Worker steady queue → Worker steady queue
kernel w = (receive_next w w.state.fq.fq.sent refl).0

drop_worker-Keeps_example :
    (m : Mailbox (channel Command) (channel StatsMessage)) × (w : Worker steady queue) × (run_worker
        (channel Command)
        (channel StatsMessage)
        (served (serve steady false queue) kernel)
        (report steady queue)
        (1 + 1)
        box
        worker
      ≡ value (true, m, w))
    × Keeps laws area worker w
drop_worker-Keeps_example =
    drop_worker-Keeps laws area-IsSmallArea (channel Command) (channel StatsMessage)
      (channel_laws Command) kernel (λ w. (receive_next w w.state.fq.fq.sent refl).1) 1 0 box worker
      [] refl worker-IsWorker

abbrev entries : List YamlWorker
entries = record { core = 1; link_name = 108 ∷ 111 ∷ []; link_channel = 0 } ∷ []

drop_main-IsWorker_example :
    (p : Prepared steady) × (ws : List (Worker steady queue)) × (bp : BufferPool) × (prepare steady
        false limit 0 options entries
      ≡ value p)
    × (start_workers steady false queue p.workers p.bp p.world ≡ value (ws, bp))
    × (p.link_names ≡ (108 ∷ 111 ∷ []) ∷ [])
    × (map (λ (w : Worker steady queue). w.core) ws ≡ 1 ∷ [])
    × All (IsWorker laws large) ws
    × (Vec.len p.bp.bufs ≡ 10000)
    × ((x : ℕ)
        → held_all laws x ws + count addr_of x bp.bufs.items ≡ count addr_of x p.bp.bufs.items)
drop_main-IsWorker_example =
    drop_main-IsWorker laws large-Serves large-IsSmallArea 0 options entries refl refl (refl, tt)
      (omega arith)

-- One packet has arrived in frame 0.
abbrev dumper : Dumper steady queue
dumper = record {
  state = record {
    fq = (link [] one_arrived).state.fq;
    rx = (link [] one_arrived).state.rx;
    fq_deficit = 0;
  };
  stats = record { cq_bufs = 0; fq_bufs = 0; rx_packets = 0; tx_packets = 0 };
  pending = [];
  bufs = started.bufs;
  world = 0;
}

dumper-IsDumper : IsDumper laws area dumper
dumper-IsDumper = record {
  fq = record { area = refl; submitted = refl; sent = tt };
  rx = record { area = refl; released = refl; ready = (((0, omega arith, refl), omega arith), tt) };
  pending = tt;
  spare = started-IsForwarder.spare;
  deficit = refl;
}

round-shows_example :
    (shown : List (BufMmap BufCustom)) × (w : Dumper steady queue) × (round steady false queue 64
        dumper
      ≡ value (shown, w))
    × IsDumper laws area w
    × (laws.deque.items w.pending ≡ [])
    × All (IsBuf area) shown
    × ((x : ℕ)
        → (count addr_of x shown + arrived laws x w ≡ arrived laws x dumper)
          × (owned laws x w ≡ owned laws x dumper + count addr_of x shown))
round-shows_example = round-shows laws area-IsSmallArea 64 dumper dumper-IsDumper refl

-- Every link has the index 7, and the world counts the removals.
abbrev counted : Links steady
counted = record {
  if_nametoindex = λ world name. (world, 7);
  set_link_xdp_fd = λ world index fd flags. world + 1;
}

abbrev repeated : List (List ℕ)
repeated = (108 ∷ 111 ∷ []) ∷ (101 ∷ 110 ∷ []) ∷ (108 ∷ 111 ∷ []) ∷ []
