-- ===== src/OneLink/Turn.antt =====
-- examples/l2fwd-1link.rs: a whole round of its loop, in a build without overflow checks.
use afxdp_rs.Prelude.{
  ◌+◌, ◌-◌, ◌%◌, ◌^◌, ◌≤◌, ◌≡◌, refl, inl, inr, false, arith, ltb, Bool-cases, ℕ,
}
use afxdp_rs.Rust.{value}
use afxdp_rs.Rust.Fits.{add_wraps, sub_fits}
use afxdp_rs.Buf.Mmap.{BufMmap}
use afxdp_rs.Area.{MmapArea, af_xdp_reserved}
use afxdp_rs.Extern.Deque.{ArrayDeque}
use afxdp_rs.Extern.Sys.{Sys}
use afxdp_rs.L2fwd.{BufCustom}
use afxdp_rs.Queues.Invariant.{Laws, IsSmallArea, Works}
use afxdp_rs.Queues.Umem.{fill_kept}
use afxdp_rs.OneLink.{Loop, fill_part, round}
use afxdp_rs.OneLink.Kept.{
  IsLoop, Keeps, Keeps-trans, service_part-Keeps, receive_part-Keeps, forward_part-Keeps,
}

module _ {sys : Sys} {d : ArrayDeque (BufMmap BufCustom)} (l : Laws sys d) {a : MmapArea}
    (area : IsSmallArea a) (batch_size : ℕ) where
  fill_part-Keeps :
      (s : Loop sys d)
      → IsLoop l a s
      → (s' : Loop sys d) × (fill_part sys false d batch_size s ≡ value s') × Keeps l a s s'
  unfolding fill_part
  fill_part-Keeps s v =
      let deficit = s.state.fq_deficit in
      let (n, fq, bufs, r, given, le, k) =
        fill_kept l area s.state.fq s.bufs deficit v.fq v.spare in
      elim (Bool-cases (ltb 0 deficit)) [
        | inl due ↦ (
          record s {
            state = record (s.state) { fq = fq; fq_deficit = deficit - n };
            stats = record (s.stats) { fq_bufs = (s.stats.fq_bufs + n) % 2 ^ 64 };
            bufs = bufs;
          },
          rw (due, r, add_wraps, sub_fits false 64 deficit n le),
          record {
            loop = record {
              cq = v.cq;
              fq = k.fq;
              rx = v.rx;
              tx = v.tx;
              pending = v.pending;
              spare = k.spare;
              deficit = omega (arith, v.deficit, le);
            };
            same = λ x. omega (arith, k.held x);
            outside = λ x out. refl;
          },
        )
        | inr even ↦ (s, rw even, record { loop = v; same = λ x. refl; outside = λ x out. refl })
      ]

  -- In a build without overflow checks, over an area of frames of at most 2^16 bytes with room for the two
  -- addresses of a packet, and with a `sendto` that works or fails as it may, a round of the loop never panics:
  -- the queues, the deque and the spare buffers are in order again, the deficit right, every address is held
  -- exactly as often as before, and no byte outside the area has changed.
  pub one_round-Keeps :
      (s : Loop sys d)
      → Works sys
      → af_xdp_reserved + 12 ≤ a.buf_len
      → IsLoop l a s
      → (s' : Loop sys d) × (round sys false d batch_size s ≡ value s') × Keeps l a s s'
  unfolding round
  one_round-Keeps s works long v =
      let (s₁, e₁, k₁) = service_part-Keeps l area batch_size s v in
      let (s₂, e₂, k₂) = receive_part-Keeps l area batch_size s₁ long k₁.loop in
      let (s₃, e₃, k₃) = forward_part-Keeps l area batch_size s₂ works k₂.loop in
      let (s₄, e₄, k₄) = fill_part-Keeps s₃ k₃.loop in
      (
        s₄,
        rw (e₁, e₂, e₃, e₄),
        Keeps-trans l a s s₁ s₄ k₁ (Keeps-trans l a s₁ s₂ s₄ k₂ (Keeps-trans l a s₂ s₃ s₄ k₃ k₄)),
      )
