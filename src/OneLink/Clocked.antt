-- ===== src/OneLink/Clocked.antt =====
-- examples/l2fwd-1link.rs: the clock that ends the loop. `Instant::now()` is the clock of Extern; the thread to
-- which the statistics go only prints them.
use afxdp_rs.Prelude.{ℕ, zero, suc, ◌-◌, Bool, true, false, Option, none, some, if◌then◌else◌, ltb}
use afxdp_rs.Rust.{Outcome, value, ◌>>=◌, add}
use afxdp_rs.Buf.Mmap.{BufMmap}
use afxdp_rs.Extern.Deque.{ArrayDeque}
use afxdp_rs.Extern.Sys.{Sys}
use afxdp_rs.Extern.Clock.{Clock, second}
use afxdp_rs.L2fwd.{BufCustom}
use afxdp_rs.OneLink.{Loop, round}

pub record Timer : Type 0 where
  pub last : ℕ
  pub ticks : ℕ

-- The head of a round, at the time `now`: the timer, or `none` where the loop is left. An `Instant` that is
-- earlier than `last` is no time after it.
unfoldable pub tick : Bool → ℕ → Timer → Outcome (Option Timer)
tick checks now timer =
    if ltb second (now - timer.last)
    then if ltb 300 timer.ticks then value none else (do
      ticks ← add checks 64 timer.ticks 1
      value (some (record { last = now; ticks = ticks })))
    else value (some timer)

module _ (sys : Sys) (checks : Bool) (d : ArrayDeque (BufMmap BufCustom)) (batch_size : ℕ)
    (k : Clock) where
  -- Where the head of a round does not leave the loop, the rest follows.
  abbrev pub go_on :
      Option Timer
      → k.Time
      → Loop sys d
      → (Timer → Outcome (Bool × k.Time × Loop sys d))
      → Outcome (Bool × k.Time × Loop sys d)
  go_on none t s later = value (true, t, s)
  go_on (some timer) t s later = later timer

  -- `loop`, for `fuel` rounds at most: whether it was left. `kernel` is what the kernel does after a round that
  -- began at a given time.
  unfoldable pub run :
      (k.Time → Loop sys d → Loop sys d)
      → ℕ
      → Timer
      → k.Time
      → Loop sys d
      → Outcome (Bool × k.Time × Loop sys d)
  run kernel zero timer t s = value (false, t, s)
  run kernel (suc fuel) timer t s = tick checks (k.now t).0 timer >>= λ next.
      go_on next (k.now t).1 s (λ timer'. round sys checks d batch_size s >>= λ s'.
      run kernel fuel timer' (k.now t).1 (kernel (k.now t).1 s'))
