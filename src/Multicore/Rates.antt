-- ===== src/Multicore/Rates.antt =====
-- examples/l2fwd-2link-multicore.rs and examples/rxdrop.rs: when `StatState::diff` returns.
use afxdp_rs.Prelude.{ℕ, ◌+◌, ◌-◌, ◌/◌, ◌≤◌, ◌<◌, ◌≡◌, false, arith}
use afxdp_rs.Rust.{value, panic, division}
use afxdp_rs.Extern.Clock.{second}
use afxdp_rs.Rust.Fits.{sub_returns}
use afxdp_rs.Control.{secs_since}
use afxdp_rs.Multicore.{StatsRow, StatState, diff, diff_row, per_second}
use afxdp_rs.L2fwd.{Stats}

per_second-value :
    (packets seconds : ℕ) → 1 ≤ seconds → per_second packets seconds ≡ value (packets / seconds)
per_second-value packets seconds h = ground arith

diff_row-value :
    (core seconds : ℕ) (stats b : Stats)
    → 1 ≤ seconds
    → (row : StatsRow) × (diff_row false core seconds stats b ≡ value row)
unfolding diff_row
diff_row-value core seconds stats b h =
    let (sent, e₁) = sub_returns stats.tx_packets b.tx_packets in
    let (received, e₂) = sub_returns stats.rx_packets b.rx_packets in
    (
      record {
        core = core;
        tx_packets = stats.tx_packets;
        tx_packets_rate = sent / seconds;
        rx_packets = stats.rx_packets;
        rx_packets_rate = received / seconds;
      },
      rw (e₁, per_second-value sent seconds h, e₂, per_second-value received seconds h),
    )

-- Once a second has passed since the older state was made, `diff` returns, in a build without overflow checks.
pub diff-value :
    (now : ℕ) (self b : StatState)
    → b.time + second ≤ now
    → (rows : StatsRow × StatsRow) × (diff false now self b ≡ value rows)
unfolding diff
diff-value now self b h =
    let seconds = (now - b.time) / second in
    let whole : 1 ≤ seconds = omega arith in
    let since : secs_since now b.time ≡ value seconds = ground arith in
    let (first, e₁) =
      diff_row-value self.stats.core seconds self.stats.stats.0 b.stats.stats.0 whole in
    let (other, e₂) =
      diff_row-value self.stats.core seconds self.stats.stats.1 b.stats.stats.1 whole in
    ((first, other), rw (since, e₁, e₂))

-- Less than a second after the older state was made, `diff` divides by zero, in a build without overflow checks.
pub diff-panic :
    (now : ℕ) (self b : StatState)
    → b.time ≤ now
    → now < b.time + second
    → diff false now self b ≡ panic division
unfolding diff diff_row
diff-panic now self b h early = ground arith
