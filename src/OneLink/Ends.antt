-- ===== src/OneLink/Ends.antt =====
-- examples/l2fwd-1link.rs: its loop ends, in a build without overflow checks.
use afxdp_rs.Prelude.{
  ℕ, zero, suc, ◌+◌, ◌-◌, ◌*◌, ◌≤◌, ◌<◌, ◌≡◌, refl, inl, inr, true, false, arith, ltb, Bool-cases,
}
use afxdp_rs.Rust.{value}
use afxdp_rs.Rust.Fits.{add_fits}
use afxdp_rs.Buf.Mmap.{BufMmap}
use afxdp_rs.Area.{MmapArea, af_xdp_reserved}
use afxdp_rs.Extern.Deque.{ArrayDeque}
use afxdp_rs.Extern.Sys.{Sys}
use afxdp_rs.Extern.Clock.{Clock, ClockLaws, second}
use afxdp_rs.L2fwd.{BufCustom}
use afxdp_rs.Queues.Invariant.{Laws, IsSmallArea, Works}
use afxdp_rs.OneLink.{Loop}
use afxdp_rs.OneLink.Kept.{IsLoop, Keeps, Keeps-trans}
use afxdp_rs.OneLink.Turn.{one_round-Keeps}
use afxdp_rs.OneLink.Kernel.{Moved, Moved-Keeps}
use afxdp_rs.OneLink.Clocked.{Timer, tick, run}

module _ {sys : Sys} {d : ArrayDeque (BufMmap BufCustom)} (l : Laws sys d) {a : MmapArea}
    (area : IsSmallArea a) (batch_size : ℕ) (k : Clock) (kl : ClockLaws k) where
  -- In a build without overflow checks, over an area of frames of at most 2^16 bytes with room for the two
  -- addresses of a packet, with a `sendto` that works or fails as it may, and with a clock that has moved on
  -- between two readings, whatever the kernel moves between the rounds: the loop, from a state in order with 301 ticks at most and the last tick at most a
  -- second old, is left without a panic once it has had 10^9 + 1 rounds for each tick up to the 302nd, less
  -- the nanoseconds since the last. The state is in order then, every address is held exactly as often as
  -- at the start, and no byte outside the area has changed.
  pub run-Keeps :
      Works sys
      → af_xdp_reserved + 12 ≤ a.buf_len
      → ((t : k.Time) → kl.latest t < (k.now t).0)
      → (kernel : k.Time → Loop sys d → Loop sys d)
      → ((t : k.Time) (s : Loop sys d) → Moved l a s (kernel t s))
      → (fuel : ℕ) (timer : Timer) (t : k.Time) (s : Loop sys d) → IsLoop l a s
      → timer.ticks ≤ 301
      → timer.last ≤ kl.latest t
      → kl.latest t ≤ timer.last + second
      → (302 - timer.ticks) * (second + 1) + timer.last ≤ fuel + kl.latest t
      → (t' : k.Time) × (s' : Loop sys d) × (run sys false d batch_size k kernel fuel timer t s
          ≡ value (true, t', s'))
        × Keeps l a s s'
  unfolding run tick
  run-Keeps works long moves kernel may zero timer t s v few past recent enough =
      absurd (omega arith)
  run-Keeps works long moves kernel may (suc fuel) timer t s v few past recent enough =
      let now = (k.now t).0 in
      let t' = (k.now t).1 in
      let at : kl.latest t' ≡ now = kl.now_latest t in
      let later = moves t in
      let (s₁, e, kept) = one_round-Keeps l area batch_size s works long v in
      let s₂ = kernel t' s₁ in
      let moved = Keeps-trans l a s s₁ s₂ kept (Moved-Keeps l a s₁ s₂ kept.loop (may t' s₁)) in
      elim (Bool-cases (ltb second (now - timer.last))) [
        | inl due ↦ elim (Bool-cases (ltb 300 timer.ticks)) [
          | inl last_tick ↦ (
            t',
            s,
            rw (due, last_tick),
            record { loop = v; same = λ x. refl; outside = λ x out. refl },
          )
          | inr more ↦
              let next : Timer = record { last = now; ticks = timer.ticks + 1 } in
              let small : timer.ticks + 1 ≤ 301 = ground arith in
              let (t₃, s₃, r, kept₃) =
                run-Keeps works long moves kernel may fuel next t' s₂ moved.loop small (omega arith)
                  (omega arith) (omega (arith, at, later, recent, enough, small)) in
              (
                t₃,
                s₃,
                rw (due, more, add_fits false 64 timer.ticks 1 (omega arith), e) r,
                Keeps-trans l a s s₂ s₃ moved kept₃,
              )
        ]
        | inr early ↦
            let soon : now ≤ timer.last + second = ground arith in
            let (t₃, s₃, r, kept₃) =
              run-Keeps works long moves kernel may fuel timer t' s₂ moved.loop few
                (omega (arith, at, later, past)) (omega (arith, at, soon))
                (omega (arith, at, later, enough)) in
            (t₃, s₃, rw (early, e) r, Keeps-trans l a s s₂ s₃ moved kept₃)
      ]
