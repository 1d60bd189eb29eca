-- ===== src/Tests/Forwarding.antt =====
-- The theorems on examples/l2fwd-2link.rs at a concrete forwarder.
use afxdp_rs.Prelude.{true, Bool, ℕ, ◌+◌, ◌*◌, ◌<◌, ◌≡◌, refl, false, inl, List, [], ◌∷◌, arith}
use afxdp_rs.Prelude.Int.{pos}
use afxdp_rs.Rust.{value}
use afxdp_rs.Buf.Mmap.{BufMmap}
use afxdp_rs.Area.{buf_at}
use afxdp_rs.Extern.Sys.{Sys}
use afxdp_rs.Extern.Cons.{XdpDesc}
use afxdp_rs.Frames.{IsBuf}
use afxdp_rs.L2fwd.{BufCustom, buf_custom, Link, Forwarder, round}
use afxdp_rs.L2fwd.Invariant.{IsForwarder, IsDeficit, held}
use afxdp_rs.Queues.Invariant.{Works, Laws, IsSmallArea}
use afxdp_rs.L2fwd.Turn.{round-IsForwarder}
use afxdp_rs.Rust.Vec
use afxdp_rs.L2fwd.Setup.{Opt, start}
use afxdp_rs.L2fwd.Serves.{Serves}
use afxdp_rs.L2fwd.Kernel.{Runs, still, kernel_first, receives, run_safe}
use afxdp_rs.Tests.Cons.{Window, window_laws}
use afxdp_rs.Tests.Prod.{slots_laws}
use afxdp_rs.Tests.Queue.{queue, queue_laws}
use afxdp_rs.Tests.Sample.{no_desc, set_up, sys, area, umem, socket}

abbrev pub steady : Sys
steady = record sys {
  sendto = λ world fd flags. (world, pos 0);
  mmap = λ world len prot flags. (world, 65536);
  umem_create = λ world ptr size config. set_up 0 7;
  socket_create = λ world name queue umem rx tx config. set_up 0 9;
}

abbrev pub spare : ℕ → BufMmap BufCustom
spare k = buf_at 65536 (k * 2048 + 256) 1792 0 buf_custom

-- A link whose fill ring has the given frames, and whose receive ring the given packets.
abbrev pub link : List ℕ → Window XdpDesc → Link steady queue
link filling arriving = record {
  state = record {
    cq = record { umem = umem; cq = record { held = []; ready = []; latest = []; start = 0 } };
    fq = record {
      umem = umem;
      fq = record { sent = filling; reserved = []; start = 0; wakeup = 0 };
    };
    rx = record { socket = socket; fd = pos 3; rx = arriving };
    tx = record {
      socket = socket;
      fd = pos 3;
      tx = record { sent = []; reserved = []; start = 0; wakeup = 1 };
    };
    fq_deficit = 0;
  };
  stats = record { cq_bufs_received = 0; fq_bufs_filled = 0; rx_packets = 0; tx_packets = 0 };
  pending = [];
}

abbrev pub quiet : Window XdpDesc
quiet = record { held = []; ready = []; latest = []; start = 0 }

abbrev pub one_arrived : Window XdpDesc
one_arrived = record {
  held = [];
  ready = record { addr = 256; len = 60; options = 0 } ∷ [];
  latest = [];
  start = 0;
}

abbrev pub started : Forwarder steady queue
started = record {
  first = link (256 ∷ []) quiet;
  second = link (2304 ∷ []) quiet;
  bufs = record { items = spare 2 ∷ spare 3 ∷ []; capacity = 4 };
  pos = 0;
  world = 0;
}

abbrev arrived : Forwarder steady queue
arrived = record started { first = link [] one_arrived }

abbrev pub laws : Laws steady {T = BufCustom} queue
laws = record {
  rx = window_laws no_desc;
  tx = slots_laws no_desc;
  comp = window_laws 0;
  fill = slots_laws 0;
  deque = queue_laws;
}

pub area-IsSmallArea : IsSmallArea area
area-IsSmallArea = record {
  valid = record { room = omega arith; top = omega arith };
  small = omega arith;
}

pub steady-Works : Works steady
steady-Works world fd = inl refl

pub spare-IsBuf : (k : ℕ) → k < 4 → IsBuf area (spare k)
spare-IsBuf k h =
    ((k, record { inside = h; addr = refl; ptr = omega arith; size = refl }), omega arith)

pub started-IsForwarder : IsForwarder laws area started
started-IsForwarder = record {
  first = record {
    cq = record { area = refl; released = refl; ready = tt };
    fq = record { area = refl; submitted = refl; sent = ((0, omega arith, refl), tt) };
    rx = record { area = refl; released = refl; ready = tt };
    tx = record { area = refl; submitted = refl; sent = tt };
    pending = tt;
  };
  second = record {
    cq = record { area = refl; released = refl; ready = tt };
    fq = record { area = refl; submitted = refl; sent = ((1, omega arith, refl), tt) };
    rx = record { area = refl; released = refl; ready = tt };
    tx = record { area = refl; submitted = refl; sent = tt };
    pending = tt;
  };
  spare = record {
    vec = omega arith;
    frames = (spare-IsBuf 2 (omega arith), (spare-IsBuf 3 (omega arith), tt));
  };
}

round-IsForwarder_example :
    (f : Forwarder steady queue) × (round steady false queue started ≡ value f)
    × IsForwarder laws area f
    × (f.pos ≡ 1)
    × (IsDeficit laws started.first × IsDeficit laws started.second
        → IsDeficit laws f.first × IsDeficit laws f.second)
    × ((x : ℕ) → held laws x f ≡ held laws x started)
round-IsForwarder_example =
    round-IsForwarder laws area-IsSmallArea steady-Works started started-IsForwarder

one_packet : Runs laws area started arrived
one_packet = kernel_first started arrived.first still (
    receives (arrived.first.state.fq.fq) one_arrived (record { addr = 256; len = 60; options = 0 })
      [] (omega arith) refl refl refl refl refl)

run_safe_example :
    ((h : Forwarder steady queue) × (round steady false queue arrived ≡ value h))
    × ((x : ℕ) → held laws x arrived ≡ held laws x started)
run_safe_example =
    run_safe laws area-IsSmallArea steady-Works started arrived started-IsForwarder one_packet

abbrev pub limit : ℕ → ℕ × Bool
limit world = (world, true)

pub limit-Serves : Serves laws area limit
limit-Serves = record {
  limited = λ world. refl;
  mapped = λ world len prot flags. refl;
  address = omega arith;
  umem_ret = λ world ptr size config. refl;
  comp_ready = λ world ptr size config. (refl, refl);
  fill_sent = λ world ptr size config. (refl, refl);
  socket_ret = λ world name queue umem rx tx config. refl;
  rx_ready = λ world name queue umem rx tx config. (refl, refl);
  tx_sent = λ world name queue umem rx tx config. (refl, refl);
  reserves = λ r nb idx sent slots fits. omega arith;
}

abbrev four_frames : Opt
four_frames = record {
  bufsize = 2048;
  bufnum = 4;
  link1_name = 108 ∷ 111 ∷ [];
  link1_channel = 0;
  link2_name = 101 ∷ 110 ∷ [];
  link2_channel = 1;
  huge_tlb = false;
  zero_copy = false;
  copy = true;
}
