-- ===== src/L2fwd/Refill.antt =====
-- examples/l2fwd-2link.rs: what the part keeps that fills, in a build without overflow checks.
use afxdp_rs.Prelude.{◌+◌, ◌-◌, ◌%◌, ◌^◌, ◌≡◌, refl, inl, inr, false, arith, leb, Bool-cases}
use afxdp_rs.Rust.{value}
use afxdp_rs.Rust.Vec.{Vec}
use afxdp_rs.Rust.Fits.{sub_fits, add_wraps}
use afxdp_rs.Buf.Mmap.{BufMmap}
use afxdp_rs.Area.{MmapArea}
use afxdp_rs.Extern.Deque.{ArrayDeque}
use afxdp_rs.Extern.Sys.{Sys}
use afxdp_rs.L2fwd.{Link, BufCustom, fill_part, fill_threshold}
use afxdp_rs.Queues.Umem.{fill_kept}
use afxdp_rs.L2fwd.Invariant.{IsLink}
use afxdp_rs.Queues.Invariant.{Laws, IsSmallArea, IsSpare}
use afxdp_rs.L2fwd.Spare.{Kept}

module _ {sys : Sys} {d : ArrayDeque (BufMmap BufCustom)} (l : Laws sys d) {a : MmapArea}
    (area : IsSmallArea a) where
  pub fill_part-Kept :
      (own : Link sys d) (bufs : Vec (BufMmap BufCustom))
      → IsLink l a own
      → IsSpare a bufs
      → (own' : Link sys d) × (bufs' : Vec (BufMmap BufCustom)) × (fill_part sys false d own bufs
          ≡ value (own', bufs'))
        × Kept l area own own' bufs bufs'
  unfolding fill_part
  fill_part-Kept own bufs v s =
      let deficit = own.state.fq_deficit in
      let (n, fq, bufs', r, given, le, k) = fill_kept l area own.state.fq bufs deficit v.fq s in
      let own' : Link sys d = record own {
        state = record (own.state) { fq = fq; fq_deficit = deficit - n };
        stats = record (own.stats) { fq_bufs_filled = (own.stats.fq_bufs_filled + n) % 2 ^ 64 };
      } in
      elim (Bool-cases (leb fill_threshold deficit)) [
        | inl due ↦ (
          own',
          bufs',
          rw (due, r, add_wraps, sub_fits false 64 deficit n le),
          record {
            link = record { cq = v.cq; fq = k.fq; rx = v.rx; tx = v.tx; pending = v.pending };
            spare = k.spare;
            held = λ x. omega (arith, k.held x);
            deficit = λ h. omega (arith, le);
          },
        )
        | inr early ↦ (
          own,
          bufs,
          rw early,
          record { link = v; spare = s; held = λ x. refl; deficit = λ h. h },
        )
      ]
