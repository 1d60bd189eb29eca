-- ===== src/L2fwd/Forward.antt =====
-- examples/l2fwd-2link.rs: what the part keeps that sends to the other link, in a build without overflow checks.
use afxdp_rs.Prelude.{ℕ, ◌+◌, ◌%◌, ◌^◌, ◌≡◌, refl, inl, inr, false, arith, length, ◌==◌, Bool-cases}
use afxdp_rs.Rust.{value}
use afxdp_rs.Rust.Fits.{add_wraps}
use afxdp_rs.Buf.Mmap.{BufMmap}
use afxdp_rs.Area.{MmapArea}
use afxdp_rs.Extern.Deque.{ArrayDeque}
use afxdp_rs.Extern.Sys.{Sys}
use afxdp_rs.L2fwd.{Link, BufCustom, forward_part, forward, socket_batch_size}
use afxdp_rs.Queues.Socket.{send_kept}
use afxdp_rs.L2fwd.Invariant.{IsLink, held_by, IsDeficit}
use afxdp_rs.Queues.Invariant.{Works, Laws, IsSmallArea}

module _ {sys : Sys} {d : ArrayDeque (BufMmap BufCustom)} (l : Laws sys d) {a : MmapArea}
    (area : IsSmallArea a) where
  -- Forwarding moves packets from one link's deque to the other link's queue.
  pub record KeptPair (own own' other other' : Link sys d) : Type 0 where
    pub own_link : IsLink l a own'
    pub other_link : IsLink l a other'
    pub held : (x : ℕ) → held_by l x own' + held_by l x other' ≡ held_by l x own + held_by l x other
    pub own_deficit : IsDeficit l own → IsDeficit l own'
    pub other_deficit : IsDeficit l other → IsDeficit l other'

  pub forward_part-KeptPair :
      (world : sys.World) (own other : Link sys d)
      → Works sys
      → IsLink l a own
      → IsLink l a other
      → (own' : Link sys d) × (other' : Link sys d) × (world' : sys.World) × (forward_part sys false
            d world own other
          ≡ value (own', other', world'))
        × KeptPair own own' other other'
  unfolding forward_part forward
  forward_part-KeptPair world own other works v w =
      let (n, tx, pending, world', r, k) =
        send_kept l area works world other.state.tx own.pending socket_batch_size w.tx v.pending in
      let own' : Link sys d = record own { pending = pending } in
      let other' : Link sys d = record other {
        state = record (other.state) { tx = tx };
        stats = record (other.stats) { tx_packets = (other.stats.tx_packets + n) % 2 ^ 64 };
      } in
      elim (Bool-cases (length (l.deque.items own.pending) == 0)) [
        | inl empty ↦
            let same : Link sys d = record other {
              stats = record (other.stats) { tx_packets = (other.stats.tx_packets + 0) % 2 ^ 64 };
            } in
            (
              own,
              same,
              world,
              rw (l.deque.is_empty_lem, empty, add_wraps),
              record {
                own_link = v;
                other_link = record {
                  cq = w.cq;
                  fq = w.fq;
                  rx = w.rx;
                  tx = w.tx;
                  pending = w.pending;
                };
                held = λ x. refl;
                own_deficit = λ h. h;
                other_deficit = λ h. h;
              },
            )
        | inr some_pending ↦ (
          own',
          other',
          world',
          rw (l.deque.is_empty_lem, some_pending, r, add_wraps),
          record {
            own_link = record { cq = v.cq; fq = v.fq; rx = v.rx; tx = v.tx; pending = k.frames };
            other_link = record { cq = w.cq; fq = w.fq; rx = w.rx; tx = k.tx; pending = w.pending };
            held = λ x. omega (arith, k.held x);
            own_deficit = λ h. h;
            other_deficit = λ h. h;
          },
        )
      ]
