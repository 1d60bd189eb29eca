-- ===== src/Tests/Workers.antt =====
-- The theorems on examples/l2fwd-2link-multicore.rs at concrete workers.
use afxdp_rs.Prelude.{
  ℕ, ◌++◌, ◌+◌, ◌<◌, ◌≡◌, ◌↔◌, refl, true, false, List, [], ◌∷◌, All, map, arith,
}
use afxdp_rs.Rust.{value, panic, explicit}
use afxdp_rs.Rust.Vec
use afxdp_rs.Area.{MmapArea}
use afxdp_rs.Extern.Cons.{XdpDesc}
use afxdp_rs.L2fwd.Kernel.{receives}
use afxdp_rs.Queues.Count.{count, addr_of}
use afxdp_rs.Queues.Invariant.{IsSmallArea}
use afxdp_rs.L2fwd.Serves.{Serves}
use afxdp_rs.Control.{Command, exit, get_stats, Mailbox, run_worker}
use afxdp_rs.Control.Worker.{served}
use afxdp_rs.Control.Shared.{Opt, BufferPool}
use afxdp_rs.Multicore.{StatsMessage, Worker, WorkerConfig, begin, serve, report}
use afxdp_rs.Multicore.Setup.{YamlWorker, Prepared, prepare, start_workers}
use afxdp_rs.Multicore.Serving.{IsWorker, Keeps, held_all, Moved, still, moves_first, worker-Keeps}
use afxdp_rs.Multicore.Ready.{begin_iff}
use afxdp_rs.Multicore.Config.{main-IsWorker}
use afxdp_rs.Tests.Queue.{queue}
use afxdp_rs.Tests.Sample.{area}
use afxdp_rs.Tests.Channels.{channel, channel_laws}
use afxdp_rs.Tests.Forwarding.{
  steady, started, started-IsForwarder, laws, link, quiet, area-IsSmallArea, steady-Works, spare,
  spare-IsBuf, limit, limit-Serves,
}

abbrev worker : Worker steady queue
worker = record {
  core = 1;
  first = started.first;
  second = started.second;
  bufs = started.bufs;
  world = 0;
}

worker-IsWorker : IsWorker laws area worker
worker-IsWorker = record {
  first = started-IsForwarder.first;
  second = started-IsForwarder.second;
  spare = started-IsForwarder.spare;
  deficits = (refl, refl);
}

abbrev box : Mailbox (channel Command) (channel StatsMessage)
box = record { commands = (get_stats ∷ exit ∷ [], 2); responses = ([], 2) }

-- Between two rounds, the kernel puts a packet into the oldest frame of the first link's fill ring, if there is
-- one.
abbrev receive_next :
    (w : Worker steady queue) (addrs : List ℕ)
    → w.first.state.fq.fq.sent ≡ addrs
    → (w' : Worker steady queue) × Moved laws area w w'
receive_next w [] e = (w, still)
receive_next w (addr ∷ rest) e =
    let desc : XdpDesc = record { addr = addr; len = 60; options = 0 } in
    (
      _,
      moves_first w _ still (
          receives (record (w.first.state.fq.fq) { sent = rest })
            (record (w.first.state.rx.rx) { ready = w.first.state.rx.rx.ready ++ desc ∷ [] }) desc
            rest (omega arith) e refl refl refl refl),
    )

abbrev kernel : Worker steady queue → Worker steady queue
kernel w = (receive_next w w.first.state.fq.fq.sent refl).0

worker-Keeps_example :
    (m : Mailbox (channel Command) (channel StatsMessage)) × (w : Worker steady queue) × (run_worker
        (channel Command)
        (channel StatsMessage)
        (served (serve steady false queue) kernel)
        (report steady queue)
        (1 + 1)
        box
        worker
      ≡ value (true, m, w))
    × Keeps laws area worker w
worker-Keeps_example =
    worker-Keeps laws area-IsSmallArea steady-Works (channel Command) (channel StatsMessage)
      (channel_laws Command) kernel (λ w. (receive_next w w.first.state.fq.fq.sent refl).1) 1 0 box
      worker [] refl worker-IsWorker

abbrev config : WorkerConfig steady
config = record {
  core = 1;
  link1_rx = (link [] quiet).state.rx;
  link1_tx = (link [] quiet).state.tx;
  link1_cq = (link [] quiet).state.cq;
  link1_fq = (link [] quiet).state.fq;
  link2_rx = (link [] quiet).state.rx;
  link2_tx = (link [] quiet).state.tx;
  link2_cq = (link [] quiet).state.cq;
  link2_fq = (link [] quiet).state.fq;
}

abbrev two_left : BufferPool
two_left = record { bufs = record { items = spare 2 ∷ spare 3 ∷ []; capacity = 4 } }

begin_iff_example : (begin steady false queue config two_left 0 ≡ panic explicit) ↔ (2 < 4096)
begin_iff_example =
    begin_iff laws area limit-Serves area-IsSmallArea config two_left 0
      (
        record {
          cq_area = refl;
          cq_empty = (refl, refl);
          fq_queue = record { area = refl; submitted = refl; sent = tt };
          fq_empty = refl;
          rx_area = refl;
          rx_empty = (refl, refl);
          tx_area = refl;
          tx_empty = (refl, refl);
        },
        record {
          cq_area = refl;
          cq_empty = (refl, refl);
          fq_queue = record { area = refl; submitted = refl; sent = tt };
          fq_empty = refl;
          rx_area = refl;
          rx_empty = (refl, refl);
          tx_area = refl;
          tx_empty = (refl, refl);
        },
      )
      (record {
        vec = omega arith;
        frames = (spare-IsBuf 2 (omega arith), (spare-IsBuf 3 (omega arith), tt));
      })

abbrev pub large : MmapArea
large = record { buf_num = 10000; buf_len = 2048; ptr = 65536 }

pub large-IsSmallArea : IsSmallArea large
large-IsSmallArea = record {
  valid = record { room = omega arith; top = omega arith };
  small = omega arith;
}

abbrev pub large-Serves : Serves laws large limit
large-Serves = record {
  limited = λ world. refl;
  mapped = λ world len prot flags. refl;
  address = omega arith;
  umem_ret = λ world ptr size config. refl;
  comp_ready = λ world ptr size config. (refl, refl);
  fill_sent = λ world ptr size config. (refl, refl);
  socket_ret = λ world name queue umem rx tx config. refl;
  rx_ready = λ world name queue umem rx tx config. (refl, refl);
  tx_sent = λ world name queue umem rx tx config. (refl, refl);
  reserves = λ r nb idx sent slots fits. omega arith;
}

abbrev pub options : Opt
options = record {
  bufsize = 2048;
  bufnum = 10000;
  huge_tlb = false;
  zero_copy = false;
  copy = true;
}

abbrev entries : List YamlWorker
entries =
    record {
      core = 1;
      link1_name = 108 ∷ 111 ∷ [];
      link1_channel = 0;
      link2_name = 101 ∷ 110 ∷ [];
      link2_channel = 1;
    }
    ∷ []

main-IsWorker_example :
    (p : Prepared steady) × (ws : List (Worker steady queue)) × (bp : BufferPool) × (prepare steady
        false limit 0 options entries
      ≡ value p)
    × (start_workers steady false queue p.workers p.bp p.world ≡ value (ws, bp))
    × (p.link_names ≡ (108 ∷ 111 ∷ []) ∷ (101 ∷ 110 ∷ []) ∷ [])
    × (map (λ (w : Worker steady queue). w.core) ws ≡ 1 ∷ [])
    × All (IsWorker laws large) ws
    × (Vec.len p.bp.bufs ≡ 10000)
    × ((x : ℕ)
        → held_all laws x ws + count addr_of x bp.bufs.items ≡ count addr_of x p.bp.bufs.items)
main-IsWorker_example =
    main-IsWorker laws large-Serves large-IsSmallArea 0 options entries refl refl ((refl, refl), tt)
      (omega arith)
