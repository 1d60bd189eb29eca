-- ===== src/L2fwd/Receive.antt =====
-- examples/l2fwd-2link.rs: what the part keeps that receives, in a build without overflow checks.
use afxdp_rs.Prelude.{ℕ, ◌+◌, ◌%◌, ◌^◌, ◌≡◌, inl, inr, false, arith, ltb, if◌then◌else◌, Bool-cases}
use afxdp_rs.Rust.{value}
use afxdp_rs.Rust.Fits.{add_wraps}
use afxdp_rs.Buf.Mmap.{BufMmap}
use afxdp_rs.Area.{MmapArea}
use afxdp_rs.Extern.Deque.{ArrayDeque}
use afxdp_rs.Extern.Sys.{Sys}
use afxdp_rs.Umem.{needs_wakeup}
use afxdp_rs.Socket.Rx.{wake}
use afxdp_rs.L2fwd.{Link, BufCustom, buf_custom, receive_part, socket_batch_size}
use afxdp_rs.Queues.Socket.{recv_kept}
use afxdp_rs.L2fwd.Invariant.{IsLink, held_by, IsDeficit}
use afxdp_rs.Queues.Invariant.{Laws, IsSmallArea}

module _ {sys : Sys} {d : ArrayDeque (BufMmap BufCustom)} (l : Laws sys d) {a : MmapArea}
    (area : IsSmallArea a) where
  -- Receiving does not touch the spare buffers.
  pub record KeptLink (own own' : Link sys d) : Type 0 where
    pub link : IsLink l a own'
    pub held : (x : ℕ) → held_by l x own' ≡ held_by l x own
    pub deficit : IsDeficit l own → IsDeficit l own'

  pub receive_part-KeptLink :
      (world : sys.World) (own : Link sys d)
      → IsLink l a own
      → (own' : Link sys d) × (world' : sys.World) × (receive_part sys false d world own
          ≡ value (own', world'))
        × KeptLink own own'
  unfolding receive_part
  receive_part-KeptLink world own v =
      let (n, rx, pending, r, k) =
        recv_kept l area own.state.rx own.pending socket_batch_size buf_custom v.rx v.pending in
      elim (Bool-cases (ltb 0 n)) [
        | inl some_received ↦
            let own' : Link sys d = record {
              state = record (own.state) {
                rx = rx;
                fq_deficit = (own.state.fq_deficit + n) % 2 ^ 64;
              };
              stats = record (own.stats) { rx_packets = (own.stats.rx_packets + n) % 2 ^ 64 };
              pending = pending;
            } in
            (
              own',
              world,
              rw (
                r,
                some_received,
                add_wraps own.stats.rx_packets n,
                add_wraps own.state.fq_deficit n,
              ),
              record {
                link = record { cq = v.cq; fq = v.fq; rx = k.rx; tx = v.tx; pending = k.frames };
                held = λ x. omega (arith, k.held x);
                deficit = λ h. omega arith;
              },
            )
        | inr none_received ↦ (
          record own { state = record (own.state) { rx = rx }; pending = pending },
          if needs_wakeup sys.fill own.state.fq then wake sys world rx else world,
          rw (r, none_received),
          record {
            link = record { cq = v.cq; fq = v.fq; rx = k.rx; tx = v.tx; pending = k.frames };
            held = λ x. omega (arith, k.held x);
            deficit = λ h. h;
          },
        )
      ]
