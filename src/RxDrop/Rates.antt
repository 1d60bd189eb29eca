-- ===== src/RxDrop/Rates.antt =====
-- examples/rxdrop.rs: when `StatState::diff` returns, and when it divides by zero.
use afxdp_rs.Prelude.{ℕ, ◌+◌, ◌-◌, ◌/◌, ◌^◌, ◌≤◌, ◌<◌, ◌≡◌, ◌↔◌, Bool, false, arith}
use afxdp_rs.Rust.{value, panic, division}
use afxdp_rs.Rust.Fits.{sub_returns}
use afxdp_rs.Extern.Clock.{second}
use afxdp_rs.Control.{secs_since}
use afxdp_rs.RxDrop.{StatsRow, StatState, diff}

-- Where the clock and the counter did not go back, `diff` divides by zero exactly if less than a second has
-- passed since the older state.
pub diff-division_iff :
    (checks : Bool) (now : ℕ) (self b : StatState)
    → b.time ≤ now
    → b.stats.stats.rx_packets ≤ self.stats.stats.rx_packets
    → (diff checks now self b ≡ panic division) ↔ (now - b.time < 10 ^ 9)
unfolding diff
diff-division_iff checks now self b h g = ground arith

-- Once a second has passed since the older state was made, `diff` returns, in a build without overflow checks.
pub diff-value :
    (now : ℕ) (self b : StatState)
    → b.time + second ≤ now
    → (row : StatsRow) × (diff false now self b ≡ value row)
unfolding diff
diff-value now self b h =
    let seconds = (now - b.time) / second in
    let whole : 1 ≤ seconds = omega arith in
    let since : secs_since now b.time ≡ value seconds = ground arith in
    let (packets, e) = sub_returns self.stats.stats.rx_packets b.stats.stats.rx_packets in
    (
      record {
        core = self.stats.core;
        rx_packets = self.stats.stats.rx_packets;
        rx_packets_rate = packets / seconds;
      },
      rw (since, e) (ground arith),
    )

-- Less than a second after, it divides by zero, in a build without overflow checks.
pub diff-panic :
    (now : ℕ) (self b : StatState)
    → b.time ≤ now
    → now < b.time + second
    → diff false now self b ≡ panic division
unfolding diff
diff-panic now self b h early = ground arith
