-- ===== src/RxDrop/Serving.antt =====
-- examples/rxdrop.rs: what the loop of a worker keeps, in a build without overflow checks.
use afxdp_rs.Prelude.{
  ℕ, ◌+◌, ◌-◌, ◌%◌, ◌^◌, ◌≡◌, refl, ap, sym, ◌∙◌, subst, inl, inr, false, List, [], ◌∷◌, ◌++◌, All,
  All-append, arith, ltb, leb, if◌then◌else◌, Bool-cases,
}
use afxdp_rs.Rust.{value}
use afxdp_rs.Rust.Vec.{push_all, push_all-items}
use afxdp_rs.Rust.Fits.{add_wraps, sub_fits}
use afxdp_rs.Buf.Mmap.{BufMmap}
use afxdp_rs.Area.{MmapArea}
use afxdp_rs.Extern.Deque.{ArrayDeque}
use afxdp_rs.Extern.Sys.{Sys}
use afxdp_rs.Umem.{needs_wakeup}
use afxdp_rs.Socket.Rx.{wake}
use afxdp_rs.Frames.{IsBuf}
use afxdp_rs.L2fwd.{BufCustom, buf_custom, socket_batch_size, fill_threshold}
use afxdp_rs.Queues.Count.{count, count-append, addr_of, itself, desc_addr}
use afxdp_rs.Queues.Invariant.{Laws, IsSmallArea, IsSpare, IsFq, IsRx}
use afxdp_rs.Queues.Umem.{fill_kept}
use afxdp_rs.Queues.Socket.{recv_kept}
use afxdp_rs.RxDrop.{Worker, receive_part, drop_part, fill_part, serve}

module _ {sys : Sys} {d : ArrayDeque (BufMmap BufCustom)} (l : Laws sys d) where
  pub record IsWorker (a : MmapArea) (w : Worker sys d) : Type 0 where
    pub fq : IsFq l a w.state.fq
    pub rx : IsRx l a w.state.rx
    pub pending : All (IsBuf a) (l.deque.items w.pending)
    pub spare : IsSpare a w.bufs
    pub deficit :
        (w.state.fq_deficit + w.stats.fq_bufs_filled) % 2 ^ 64 ≡ w.stats.rx_packets % 2 ^ 64

  -- How often a worker has the address `x`.
  abbrev pub held : ℕ → Worker sys d → ℕ
  held x w =
      count itself x (l.fill.sent w.state.fq.fq)
      + count desc_addr x (l.rx.ready w.state.rx.rx)
      + count addr_of x (l.deque.items w.pending)
      + count addr_of x w.bufs.items

  -- What several workers have together.
  abbrev pub held_all : ℕ → List (Worker sys d) → ℕ
  held_all x [] = 0
  held_all x (w ∷ ws) = held x w + held_all x ws

  -- What a worker is and has does not change.
  pub record Keeps (a : MmapArea) (w w' : Worker sys d) : Type 0 where
    pub worker : IsWorker a w'
    pub core : w'.core ≡ w.core
    pub same : (x : ℕ) → held x w' ≡ held x w

  pub Keeps-trans : (a : MmapArea) (u v w : Worker sys d) → Keeps a u v → Keeps a v w → Keeps a u w
  Keeps-trans a u v w h g = record {
    worker = g.worker;
    core = g.core ∙ h.core;
    same = λ x. g.same x ∙ h.same x;
  }

  drop_part-Keeps :
      (a : MmapArea) (w : Worker sys d) → IsWorker a w → Keeps a w (drop_part sys false d w)
  unfolding drop_part
  drop_part-Keeps a w v =
      let drained = (d.drain_all w.pending).0 in
      let all : drained ≡ l.deque.items w.pending = l.deque.drain_all_lem w.pending in
      let none_left = l.deque.drain_all_items w.pending in
      let (items, room) = push_all-items w.bufs drained v.spare.vec in
      let now : (push_all w.bufs drained).items ≡ w.bufs.items ++ l.deque.items w.pending =
        items ∙ ap (λ (bs : List (BufMmap BufCustom)). w.bufs.items ++ bs) all in
      record {
        worker = record {
          fq = v.fq;
          rx = v.rx;
          pending = subst (All (IsBuf a)) (sym none_left) tt;
          spare = record {
            vec = room;
            frames =
                subst (All (IsBuf a)) (sym now)
                  (All-append (IsBuf a) w.bufs.items _ v.spare.frames v.pending);
          };
          deficit = v.deficit;
        };
        core = refl;
        same = λ x. omega (
          arith,
          ap (count addr_of x) now,
          count-append addr_of x w.bufs.items (l.deque.items w.pending),
          ap (count addr_of x) none_left,
        );
      }

  module _ {a : MmapArea} (area : IsSmallArea a) where
    receive_part-Keeps :
        (w : Worker sys d)
        → IsWorker a w
        → (w' : Worker sys d) × (receive_part sys false d w ≡ value w') × Keeps a w w'
    unfolding receive_part
    receive_part-Keeps w v =
        let (n, rx, pending, r, k) =
          recv_kept l area w.state.rx w.pending socket_batch_size buf_custom v.rx v.pending in
        elim (Bool-cases (ltb 0 n)) [
          | inl some_received ↦ (
            record w {
              state = record (w.state) { rx = rx; fq_deficit = (w.state.fq_deficit + n) % 2 ^ 64 };
              stats = record (w.stats) { rx_packets = (w.stats.rx_packets + n) % 2 ^ 64 };
              pending = pending;
            },
            rw (r, some_received, add_wraps w.stats.rx_packets n, add_wraps w.state.fq_deficit n),
            record {
              worker = record {
                fq = v.fq;
                rx = k.rx;
                pending = k.frames;
                spare = v.spare;
                deficit = omega (arith, v.deficit);
              };
              core = refl;
              same = λ x. omega (arith, k.held x);
            },
          )
          | inr none_received ↦ (
            record w {
              state = record (w.state) { rx = rx };
              pending = pending;
              world = if needs_wakeup sys.fill w.state.fq then wake sys w.world rx else w.world;
            },
            rw (r, none_received),
            record {
              worker = record {
                fq = v.fq;
                rx = k.rx;
                pending = k.frames;
                spare = v.spare;
                deficit = v.deficit;
              };
              core = refl;
              same = λ x. omega (arith, k.held x);
            },
          )
        ]

    fill_part-Keeps :
        (w : Worker sys d)
        → IsWorker a w
        → (w' : Worker sys d) × (fill_part sys false d w ≡ value w') × Keeps a w w'
    unfolding fill_part
    fill_part-Keeps w v =
        let deficit = w.state.fq_deficit in
        let (n, fq, bufs, r, given, le, k) =
          fill_kept l area w.state.fq w.bufs deficit v.fq v.spare in
        elim (Bool-cases (leb fill_threshold deficit)) [
          | inl due ↦ (
            record w {
              state = record (w.state) { fq = fq; fq_deficit = deficit - n };
              stats = record (w.stats) { fq_bufs_filled = (w.stats.fq_bufs_filled + n) % 2 ^ 64 };
              bufs = bufs;
            },
            rw (due, r, add_wraps, sub_fits false 64 deficit n le),
            record {
              worker = record {
                fq = k.fq;
                rx = v.rx;
                pending = v.pending;
                spare = k.spare;
                deficit = omega (arith, v.deficit, le);
              };
              core = refl;
              same = λ x. omega (arith, k.held x);
            },
          )
          | inr early ↦ (w, rw early, record { worker = v; core = refl; same = λ x. refl })
        ]

    -- In a build without overflow checks and over an area of frames of at most 2^16 bytes, a round of a worker
    -- never panics: the queues, the deque and the spare buffers are in order again, the deficit right,
    -- and every address is held exactly as often as before.
    pub serve-Keeps :
        (w : Worker sys d)
        → IsWorker a w
        → (w' : Worker sys d) × (serve sys false d w ≡ value w') × Keeps a w w'
    unfolding serve
    serve-Keeps w v =
        let (w₁, e₁, k₁) = receive_part-Keeps w v in
        let k₂ = drop_part-Keeps a w₁ k₁.worker in
        let w₂ = drop_part sys false d w₁ in
        let (w₃, e₃, k₃) = fill_part-Keeps w₂ k₂.worker in
        (w₃, rw (e₁, e₃), Keeps-trans a w w₁ w₃ k₁ (Keeps-trans a w₁ w₂ w₃ k₂ k₃))
