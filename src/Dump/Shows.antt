-- ===== src/Dump/Shows.antt =====
-- examples/dump.rs: what a round of the loop prints and keeps, in a build without overflow checks.
use afxdp_rs.Prelude.{
  ℕ, ◌+◌, ◌-◌, ◌%◌, ◌^◌, ◌≡◌, refl, ap, sym, ◌∙◌, subst, inl, inr, false, List, [], ◌++◌, All,
  All-append, nil_of_length, arith, ltb, leb, if◌then◌else◌, Bool-cases, ==_iff,
}
use afxdp_rs.Rust.{value}
use afxdp_rs.Rust.Vec.{push_all, push_all-items}
use afxdp_rs.Rust.Fits.{add_wraps, sub_fits}
use afxdp_rs.Buf.Mmap.{BufMmap}
use afxdp_rs.Area.{MmapArea}
use afxdp_rs.Extern.Deque.{ArrayDeque}
use afxdp_rs.Extern.Sys.{Sys}
use afxdp_rs.Umem.{needs_wakeup}
use afxdp_rs.Socket.Rx.{wake}
use afxdp_rs.Frames.{IsBuf}
use afxdp_rs.L2fwd.{BufCustom, buf_custom}
use afxdp_rs.Queues.Count.{count, count-append, addr_of, itself, desc_addr}
use afxdp_rs.Queues.Invariant.{Laws, IsSmallArea, IsSpare, IsFq, IsRx}
use afxdp_rs.Queues.Umem.{fill_kept}
use afxdp_rs.Queues.Socket.{recv_kept}
use afxdp_rs.Dump.{Dumper, dump, receive_part, dump_part, fill_part, round, fill_threshold}

module _ {sys : Sys} {d : ArrayDeque (BufMmap BufCustom)} (l : Laws sys d) where
  -- The queues and the spare buffers are in order.
  pub record IsDumper (a : MmapArea) (w : Dumper sys d) : Type 0 where
    pub fq : IsFq l a w.state.fq
    pub rx : IsRx l a w.state.rx
    pub pending : All (IsBuf a) (l.deque.items w.pending)
    pub spare : IsSpare a w.bufs
    pub deficit : (w.state.fq_deficit + w.stats.fq_bufs) % 2 ^ 64 ≡ w.stats.rx_packets % 2 ^ 64

  -- How often the program has the address `x` outside the receive ring.
  abbrev pub owned : ℕ → Dumper sys d → ℕ
  owned x w =
      count itself x (l.fill.sent w.state.fq.fq)
      + count addr_of x (l.deque.items w.pending)
      + count addr_of x w.bufs.items

  abbrev pub arrived : ℕ → Dumper sys d → ℕ
  arrived x w = count desc_addr x (l.rx.ready w.state.rx.rx)

  -- The buffers of the deque are printed, in their order, and go to the spare ones.
  dump_part-IsDumper :
      (a : MmapArea) (w : Dumper sys d)
      → IsDumper a w
      → (w' : Dumper sys d) × (dump_part sys false d w ≡ value (l.deque.items w.pending, w'))
        × IsDumper a w'
        × (l.deque.items w'.pending ≡ [])
        × ((x : ℕ) → (owned x w' ≡ owned x w) × (arrived x w' ≡ arrived x w))
  unfolding dump_part dump
  dump_part-IsDumper a w v = elim (Bool-cases (d.is_empty w.pending)) [
    | inl empty ↦
        let none_left : l.deque.items w.pending ≡ [] =
          nil_of_length (l.deque.items w.pending)
            ((==_iff _ 0).0 (sym (l.deque.is_empty_lem w.pending) ∙ empty)) in
        (w, rw (empty, none_left), v, none_left, λ x. (refl, refl))
    | inr some_left ↦
        let drained = (d.drain_all w.pending).0 in
        let all : drained ≡ l.deque.items w.pending = l.deque.drain_all_lem w.pending in
        let none_left = l.deque.drain_all_items w.pending in
        let (items, room) = push_all-items w.bufs drained v.spare.vec in
        let now : (push_all w.bufs drained).items ≡ w.bufs.items ++ l.deque.items w.pending =
          items ∙ ap (λ (bs : List (BufMmap BufCustom)). w.bufs.items ++ bs) all in
        (
          record w { pending = (d.drain_all w.pending).1; bufs = push_all w.bufs drained },
          rw (some_left, add_wraps 0 (d.len w.pending), all),
          record {
            fq = v.fq;
            rx = v.rx;
            pending = subst (All (IsBuf a)) (sym none_left) tt;
            spare = record {
              vec = room;
              frames =
                  subst (All (IsBuf a)) (sym now)
                    (All-append (IsBuf a) w.bufs.items _ v.spare.frames v.pending);
            };
            deficit = v.deficit;
          },
          none_left,
          λ x. (
            omega (
              arith,
              ap (count addr_of x) now,
              count-append addr_of x w.bufs.items (l.deque.items w.pending),
              ap (count addr_of x) none_left,
            ),
            refl,
          ),
        )
  ]

  module _ {a : MmapArea} (area : IsSmallArea a) where
    receive_part-IsDumper :
        (batch_size : ℕ) (w : Dumper sys d)
        → IsDumper a w
        → (w' : Dumper sys d) × (receive_part sys false d batch_size w ≡ value w')
          × IsDumper a w'
          × ((x : ℕ)
              → (owned x w' + arrived x w' ≡ owned x w + arrived x w)
                × (count addr_of x (l.deque.items w'.pending) + arrived x w'
                    ≡ count addr_of x (l.deque.items w.pending) + arrived x w))
    unfolding receive_part
    receive_part-IsDumper batch_size w v =
        let (n, rx, pending, r, k) =
          recv_kept l area w.state.rx w.pending batch_size buf_custom v.rx v.pending in
        elim (Bool-cases (ltb 0 n)) [
          | inl some_received ↦ (
            record w {
              state = record (w.state) { rx = rx; fq_deficit = (w.state.fq_deficit + n) % 2 ^ 64 };
              stats = record (w.stats) { rx_packets = (w.stats.rx_packets + n) % 2 ^ 64 };
              pending = pending;
            },
            rw (r, some_received, add_wraps w.stats.rx_packets n, add_wraps w.state.fq_deficit n),
            record {
              fq = v.fq;
              rx = k.rx;
              pending = k.frames;
              spare = v.spare;
              deficit = omega (arith, v.deficit);
            },
            λ x. (omega (arith, k.held x), k.held x),
          )
          | inr none_received ↦ (
            record w {
              state = record (w.state) { rx = rx };
              pending = pending;
              world = if needs_wakeup sys.fill w.state.fq then wake sys w.world rx else w.world;
            },
            rw (r, none_received),
            record {
              fq = v.fq;
              rx = k.rx;
              pending = k.frames;
              spare = v.spare;
              deficit = v.deficit;
            },
            λ x. (omega (arith, k.held x), k.held x),
          )
        ]

    fill_part-IsDumper :
        (w : Dumper sys d)
        → IsDumper a w
        → (w' : Dumper sys d) × (fill_part sys false d w ≡ value w')
          × IsDumper a w'
          × (w'.pending ≡ w.pending)
          × ((x : ℕ) → (owned x w' ≡ owned x w) × (arrived x w' ≡ arrived x w))
    unfolding fill_part
    fill_part-IsDumper w v =
        let deficit = w.state.fq_deficit in
        let (n, fq, bufs, r, given, le, k) =
          fill_kept l area w.state.fq w.bufs deficit v.fq v.spare in
        elim (Bool-cases (leb fill_threshold deficit)) [
          | inl due ↦ (
            record w {
              state = record (w.state) { fq = fq; fq_deficit = deficit - n };
              stats = record (w.stats) { fq_bufs = (w.stats.fq_bufs + n) % 2 ^ 64 };
              bufs = bufs;
            },
            rw (due, r, add_wraps, sub_fits false 64 deficit n le),
            record {
              fq = k.fq;
              rx = v.rx;
              pending = v.pending;
              spare = k.spare;
              deficit = omega (arith, v.deficit, le);
            },
            refl,
            λ x. (omega (arith, k.held x), refl),
          )
          | inr early ↦ (w, rw early, v, refl, λ x. (refl, refl))
        ]

    -- In a build without overflow checks and over an area of frames of at most 2^16 bytes, a round with nothing
    -- in its deque never panics. Each packet that it takes from the receive ring is printed exactly once,
    -- nothing else is, and its frame is given back: no address is lost or doubled, the deque is empty again,
    -- and the queues, the spare buffers and the deficit are in order.
    pub round-shows :
        (batch_size : ℕ) (w : Dumper sys d)
        → IsDumper a w
        → l.deque.items w.pending ≡ []
        → (shown : List (BufMmap BufCustom)) × (w' : Dumper sys d) × (round sys false d batch_size w
            ≡ value (shown, w'))
          × IsDumper a w'
          × (l.deque.items w'.pending ≡ [])
          × All (IsBuf a) shown
          × ((x : ℕ)
              → (count addr_of x shown + arrived x w' ≡ arrived x w)
                × (owned x w' ≡ owned x w + count addr_of x shown))
    unfolding round
    round-shows batch_size w v empty =
        let (w₁, e₁, v₁, k₁) = receive_part-IsDumper batch_size w v in
        let (w₂, e₂, v₂, none_left, k₂) = dump_part-IsDumper a w₁ v₁ in
        let (w₃, e₃, v₃, same, k₃) = fill_part-IsDumper w₂ v₂ in
        (
          l.deque.items w₁.pending,
          w₃,
          rw (e₁, e₂, e₃),
          v₃,
          ap l.deque.items same ∙ none_left,
          v₁.pending,
          λ x.
              let nothing = ap (count addr_of x) empty in
              (
                omega (arith, (k₁ x).1, (k₂ x).1, (k₃ x).1, nothing),
                omega (arith, (k₁ x).0, (k₁ x).1, (k₂ x).0, (k₃ x).0, nothing),
              ),
        )
