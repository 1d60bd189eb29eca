-- ===== src/Extern/Clock.antt =====
-- The system's clock: `SystemTime::now()` in nanoseconds, and `thread::sleep`.
use afxdp_rs.Prelude.{ℕ, ◌+◌, ◌*◌, ◌≤◌, ◌≡◌}

pub record Clock : Type 1 where
  pub Time : Type 0
  pub now : Time → ℕ × Time
  -- `sleep(Duration::from_secs(s))`
  pub sleep : ℕ → Time → Time

-- A second, in nanoseconds.
abbrev pub second : ℕ
second = 1000000000

-- A clock that is not set back; a sleep lasts as long as it is asked to, at least.
pub record ClockLaws (k : Clock) : Type 0 where
  pub latest : k.Time → ℕ
  pub now_later : (t : k.Time) → latest t ≤ (k.now t).0
  pub now_latest : (t : k.Time) → latest (k.now t).1 ≡ (k.now t).0
  pub sleep_later : (s : ℕ) (t : k.Time) → latest t + s * second ≤ latest (k.sleep s t)
