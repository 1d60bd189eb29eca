-- ===== src/Tests/Swapping.antt =====
-- The theorems on examples/l2fwd-1link.rs at a concrete state.
use afxdp_rs.Prelude.{
  ◌+◌, ℕ, ◌≡◌, ◌⊎◌, refl, inl, true, false, List, [], ◌∷◌, ◌++◌, All, All-imp, arith, if◌then◌else◌,
  ◌%◌, ◌==◌,
}
use afxdp_rs.Rust.{value}
use afxdp_rs.Memory.{store, store-other, load-store_outside}
use afxdp_rs.Buf.Mmap.{BufMmap}
use afxdp_rs.Area.{buf_at}
use afxdp_rs.Area.Layout.{IsFrame-within}
use afxdp_rs.Extern.Cons.{XdpDesc}
use afxdp_rs.Frames.{IsBuf}
use afxdp_rs.L2fwd.{BufCustom, buf_custom}
use afxdp_rs.OneLink.{Loop, receive_part}
use afxdp_rs.OneLink.Clocked.{run}
use afxdp_rs.OneLink.Ends.{run-Keeps}
use afxdp_rs.OneLink.Kept.{IsLoop, Keeps}
use afxdp_rs.OneLink.Kernel.{Moved, still, completes, receives, Moved-Keeps}
use afxdp_rs.OneLink.Swap.{Outside}
use afxdp_rs.OneLink.Visits.{Single, Visited, Unwritten, receive_part-Visited, received_twice}
use afxdp_rs.Tests.Queue.{queue}
use afxdp_rs.Tests.Sample.{area}
use afxdp_rs.Tests.Channels.{moving, moving_laws}
use afxdp_rs.Tests.Forwarding.{
  steady, laws, link, one_arrived, area-IsSmallArea, steady-Works, spare, spare-IsBuf,
}

-- A packet in frame 1 waits to be sent, one in frame 0 has arrived, and the kernel may fill frame 2.
abbrev one_link : Loop steady queue
one_link = record {
  state = record {
    cq = (link [] one_arrived).state.cq;
    fq = (link (4352 ∷ []) one_arrived).state.fq;
    rx = (link [] one_arrived).state.rx;
    tx = (link [] one_arrived).state.tx;
    fq_deficit = 0;
  };
  stats = record { cq_bufs = 0; fq_bufs = 0; rx_packets = 0; tx_packets = 0 };
  v = buf_at 65536 2304 1792 60 buf_custom ∷ [];
  bufs = record { items = spare 3 ∷ []; capacity = 4 };
  memory = λ x. x;
  world = 0;
}

one_link-IsLoop : IsLoop laws area one_link
one_link-IsLoop = record {
  cq = record { area = refl; released = refl; ready = tt };
  fq = record { area = refl; submitted = refl; sent = ((2, omega arith, refl), tt) };
  rx = record { area = refl; released = refl; ready = (((0, omega arith, refl), omega arith), tt) };
  tx = record { area = refl; submitted = refl; sent = tt };
  pending = (
    ((1, record { inside = omega arith; addr = refl; ptr = refl; size = refl }), omega arith),
    tt,
  );
  spare = record { vec = omega arith; frames = (spare-IsBuf 3 (omega arith), tt) };
  deficit = refl;
}

one_link-Single : Single laws one_link
one_link-Single x = ground arith

-- The kernel sends the oldest packet, if there is one.
abbrev send_next :
    (s : Loop steady queue) (es : List XdpDesc)
    → s.state.tx.tx.sent ≡ es
    → (s' : Loop steady queue) × Moved laws area s s'
send_next s [] e = (s, still)
send_next s (desc ∷ rest) e = (
  _,
  completes s (record (s.state.cq.cq) { ready = s.state.cq.cq.ready ++ desc.addr ∷ [] })
      (record (s.state.tx.tx) { sent = rest }) desc rest still e refl refl refl refl,
)

writes_inside : (m : _) (x : ℕ) → Outside area x → store m 65536 171 x ≡ m x
writes_inside m x out = store-other m 65536 171 x (ground (arith, out))

-- It puts a packet into the oldest frame of the fill ring, if there is one, and writes to the first byte of the
-- area.
abbrev receive_next :
    (s : Loop steady queue) (addrs : List ℕ)
    → s.state.fq.fq.sent ≡ addrs
    → (s' : Loop steady queue) × Moved laws area s s'
receive_next s [] e = (s, still)
receive_next s (addr ∷ rest) e =
    let desc : XdpDesc = record { addr = addr; len = 60; options = 0 } in
    (
      _,
      receives s (record (s.state.fq.fq) { sent = rest })
          (record (s.state.rx.rx) { ready = s.state.rx.rx.ready ++ desc ∷ [] }) desc rest
          (store s.memory 65536 171) still (omega arith) e refl refl refl refl
          (writes_inside s.memory),
    )

-- At an odd time it sends, at an even one it receives.
abbrev kernel_at : ℕ → (s : Loop steady queue) → (s' : Loop steady queue) × Moved laws area s s'
kernel_at t s = if t % 2 == 0 then receive_next s _ refl else send_next s _ refl

abbrev kernel : ℕ → Loop steady queue → Loop steady queue
kernel t s = (kernel_at t s).0

-- Three rounds, until the last second has passed.
run-Keeps_example :
    (t : ℕ) × (s : Loop steady queue) × (run steady false queue 64 moving kernel 4
        (record { last = 0; ticks = 301 })
        999999997
        one_link
      ≡ value (true, t, s))
    × Keeps laws area one_link s
run-Keeps_example =
    run-Keeps laws area-IsSmallArea 64 moving moving_laws steady-Works (omega arith)
      (λ t. omega arith) kernel (λ t s. (kernel_at t s).1) 4 (record { last = 0; ticks = 301 })
      999999997 one_link one_link-IsLoop (omega arith) (omega arith) (omega arith) (omega arith)

receive_part-Visited_example :
    (s : Loop steady queue) × (receive_part steady false queue 64 one_link ≡ value s)
    × Visited laws one_link s
receive_part-Visited_example =
    receive_part-Visited laws area-IsSmallArea (omega arith) 64 one_link one_link-IsLoop
      one_link-Single

-- Between two rounds, the kernel receives.
abbrev between : Loop steady queue → Loop steady queue
between s = (receive_next s s.state.fq.fq.sent refl).0

apart : (m : _) (b : BufMmap BufCustom) → IsBuf area b → Unwritten m (store m 65536 171) b
apart m b ((k, f), _) =
    let within = IsFrame-within k b f in
    (
      load-store_outside m 65536 171 b.bytes.ptr 6 (inl (omega (arith, within.0))),
      load-store_outside m 65536 171 (b.bytes.ptr + 6) 6 (inl (omega (arith, within.0))),
    )

-- What `receive_next` leaves of the deque and of the packets in it.
abbrev Stays : Loop steady queue → Loop steady queue → Type 0
Stays s s' =
    (laws.deque.items s'.v ≡ laws.deque.items s.v)
    × All (Unwritten s.memory s'.memory) (laws.deque.items s.v)

stays :
    (s : Loop steady queue) (addrs : List ℕ) (e : s.state.fq.fq.sent ≡ addrs)
    → IsLoop laws area s
    → Stays s (receive_next s addrs e).0
stays s [] e v = (
  refl,
  All-imp (IsBuf area) (Unwritten s.memory s.memory) (λ b h. (refl, refl)) (laws.deque.items s.v)
      v.pending,
)
stays s (addr ∷ rest) e v = (
  refl,
  All-imp (IsBuf area) (Unwritten s.memory (store s.memory 65536 171)) (apart s.memory)
      (laws.deque.items s.v) v.pending,
)

received_twice_example :
    (s : Loop steady queue) × (u : Loop steady queue) × (receive_part steady false queue 64 one_link
      ≡ value s)
    × (receive_part steady false queue 64 (between s) ≡ value u)
    × ((laws.deque.items s.v ≡ laws.deque.items one_link.v)
        ⊎ (laws.deque.items u.v ≡ laws.deque.items s.v)
        ⊎ All (Unwritten one_link.memory u.memory) (laws.deque.items s.v))
received_twice_example =
    received_twice laws area-IsSmallArea (omega arith) 64 between
      (λ s v.
        let same = stays s s.state.fq.fq.sent refl v in
        (
          Moved-Keeps laws area s (between s) v (receive_next s s.state.fq.fq.sent refl).1,
          same.0,
          same.1,
        ))
      one_link one_link-IsLoop one_link-Single
