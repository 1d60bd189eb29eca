-- ===== src/OneLink/Kept.antt =====
-- examples/l2fwd-1link.rs: what its loop keeps, in a build without overflow checks.
use afxdp_rs.Prelude.{
  ℕ, ◌+◌, ◌%◌, ◌^◌, ◌≤◌, ◌≡◌, refl, ◌∙◌, inl, inr, false, map, All, arith, ltb, ◌==◌, if◌then◌else◌,
  Bool-cases, length,
}
use afxdp_rs.Rust.{value}
use afxdp_rs.Rust.Fits.{add_wraps}
use afxdp_rs.Buf.Mmap.{BufMmap}
use afxdp_rs.Area.{MmapArea, af_xdp_reserved}
use afxdp_rs.Extern.Deque.{ArrayDeque}
use afxdp_rs.Extern.Sys.{Sys}
use afxdp_rs.Umem.{needs_wakeup}
use afxdp_rs.Socket.Rx.{wake}
use afxdp_rs.Socket.Tx.Send.{wire}
use afxdp_rs.Frames.{IsBuf}
use afxdp_rs.L2fwd.{BufCustom, buf_custom}
use afxdp_rs.Queues.Count.{count, addr_of, itself, desc_addr, wire_addr}
use afxdp_rs.Queues.Invariant.{Laws, IsSmallArea, IsSpare, IsCq, IsFq, IsRx, IsTx, Works}
use afxdp_rs.Queues.Umem.{service_kept}
use afxdp_rs.Queues.Socket.{recv_kept, send_kept}
use afxdp_rs.OneLink.{Loop, service_part, receive_part, forward, forward_part}
use afxdp_rs.OneLink.Swap.{Outside, swap_macs-value}

module _ {sys : Sys} {d : ArrayDeque (BufMmap BufCustom)} (l : Laws sys d) where
  pub record IsLoop (a : MmapArea) (s : Loop sys d) : Type 0 where
    pub cq : IsCq l a s.state.cq
    pub fq : IsFq l a s.state.fq
    pub rx : IsRx l a s.state.rx
    pub tx : IsTx l a s.state.tx
    pub pending : All (IsBuf a) (l.deque.items s.v)
    pub spare : IsSpare a s.bufs
    pub deficit : (s.state.fq_deficit + s.stats.fq_bufs) % 2 ^ 64 ≡ s.stats.rx_packets % 2 ^ 64

  -- How often the program and its queues have the address `x`.
  abbrev pub held : ℕ → Loop sys d → ℕ
  held x s =
      count itself x (l.comp.ready s.state.cq.cq)
      + count itself x (l.fill.sent s.state.fq.fq)
      + count desc_addr x (l.rx.ready s.state.rx.rx)
      + count wire_addr x (map wire (l.tx.sent s.state.tx.tx))
      + count addr_of x (l.deque.items s.v)
      + count addr_of x s.bufs.items

  pub record Keeps (a : MmapArea) (s s' : Loop sys d) : Type 0 where
    pub loop : IsLoop a s'
    pub same : (x : ℕ) → held x s' ≡ held x s
    pub outside : (x : ℕ) → Outside a x → s'.memory x ≡ s.memory x

  pub Keeps-trans : (a : MmapArea) (s t u : Loop sys d) → Keeps a s t → Keeps a t u → Keeps a s u
  Keeps-trans a s t u h g = record {
    loop = g.loop;
    same = λ x. g.same x ∙ h.same x;
    outside = λ x out. g.outside x out ∙ h.outside x out;
  }

  module _ {a : MmapArea} (area : IsSmallArea a) (batch_size : ℕ) where
    pub service_part-Keeps :
        (s : Loop sys d)
        → IsLoop a s
        → (s' : Loop sys d) × (service_part sys false d batch_size s ≡ value s') × Keeps a s s'
    unfolding service_part
    service_part-Keeps s v =
        let (n, cq, bufs, r, k) =
          service_kept l area buf_custom s.state.cq s.bufs batch_size v.cq v.spare in
        (
          record s {
            state = record (s.state) { cq = cq };
            stats = record (s.stats) { cq_bufs = (s.stats.cq_bufs + n) % 2 ^ 64 };
            bufs = bufs;
          },
          rw (r, add_wraps),
          record {
            loop = record {
              cq = k.cq;
              fq = v.fq;
              rx = v.rx;
              tx = v.tx;
              pending = v.pending;
              spare = k.spare;
              deficit = v.deficit;
            };
            same = λ x. omega (arith, k.held x);
            outside = λ x out. refl;
          },
        )

    pub receive_part-Keeps :
        (s : Loop sys d)
        → af_xdp_reserved + 12 ≤ a.buf_len
        → IsLoop a s
        → (s' : Loop sys d) × (receive_part sys false d batch_size s ≡ value s') × Keeps a s s'
    unfolding receive_part
    receive_part-Keeps s long v =
        let (n, rx, pending, r, k) =
          recv_kept l area s.state.rx s.v batch_size buf_custom v.rx v.pending in
        let (memory, swapped, apart) =
          swap_macs-value a s.memory (l.deque.items pending) long k.frames in
        elim (Bool-cases (ltb 0 n)) [
          | inl some_received ↦ (
            record s {
              state = record (s.state) { rx = rx; fq_deficit = (s.state.fq_deficit + n) % 2 ^ 64 };
              stats = record (s.stats) { rx_packets = (s.stats.rx_packets + n) % 2 ^ 64 };
              v = pending;
              memory = memory;
            },
            rw (
              r,
              some_received,
              add_wraps s.stats.rx_packets n,
              l.deque.iter_lem pending,
              swapped,
              add_wraps s.state.fq_deficit n,
            ),
            record {
              loop = record {
                cq = v.cq;
                fq = v.fq;
                rx = k.rx;
                tx = v.tx;
                pending = k.frames;
                spare = v.spare;
                deficit = omega (arith, v.deficit);
              };
              same = λ x. omega (arith, k.held x);
              outside = apart;
            },
          )
          | inr none_received ↦ (
            record s {
              state = record (s.state) { rx = rx };
              v = pending;
              world = if needs_wakeup sys.fill s.state.fq then wake sys s.world rx else s.world;
            },
            rw (r, none_received),
            record {
              loop = record {
                cq = v.cq;
                fq = v.fq;
                rx = k.rx;
                tx = v.tx;
                pending = k.frames;
                spare = v.spare;
                deficit = v.deficit;
              };
              same = λ x. omega (arith, k.held x);
              outside = λ x out. refl;
            },
          )
        ]

    pub forward_part-Keeps :
        (s : Loop sys d)
        → Works sys
        → IsLoop a s
        → (s' : Loop sys d) × (forward_part sys false d batch_size s ≡ value s') × Keeps a s s'
    unfolding forward_part forward
    forward_part-Keeps s works v =
        let (n, tx, pending, world, r, k) =
          send_kept l area works s.world s.state.tx s.v batch_size v.tx v.pending in
        elim (Bool-cases (length (l.deque.items s.v) == 0)) [
          | inl empty ↦ (
            record s {
              stats = record (s.stats) { tx_packets = (s.stats.tx_packets + 0) % 2 ^ 64 };
            },
            rw (l.deque.is_empty_lem, empty, add_wraps),
            record {
              loop = record {
                cq = v.cq;
                fq = v.fq;
                rx = v.rx;
                tx = v.tx;
                pending = v.pending;
                spare = v.spare;
                deficit = v.deficit;
              };
              same = λ x. refl;
              outside = λ x out. refl;
            },
          )
          | inr some_pending ↦ (
            record s {
              state = record (s.state) { tx = tx };
              stats = record (s.stats) { tx_packets = (s.stats.tx_packets + n) % 2 ^ 64 };
              v = pending;
              world = world;
            },
            rw (l.deque.is_empty_lem, some_pending, r, add_wraps),
            record {
              loop = record {
                cq = v.cq;
                fq = v.fq;
                rx = v.rx;
                tx = k.tx;
                pending = k.frames;
                spare = v.spare;
                deficit = v.deficit;
              };
              same = λ x. omega (arith, k.held x);
              outside = λ x out. refl;
            },
          )
        ]
