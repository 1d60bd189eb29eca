-- ===== src/Tests/Rates.antt =====
-- The theorem on examples/rxdrop.rs at concrete counters.
use afxdp_rs.Prelude.{ℕ, ◌<◌, ◌≡◌, ◌↔◌, true, arith}
use afxdp_rs.Rust.{panic, division}
use afxdp_rs.RxDrop.{StatState, diff}
use afxdp_rs.RxDrop.Rates.{diff-division_iff}

abbrev counted : ℕ → ℕ → StatState
counted time packets = record {
  time = time;
  stats = record {
    core = 2;
    stats = record {
      cq_bufs_received = 0;
      fq_bufs_filled = 0;
      rx_packets = packets;
      tx_packets = 0;
    };
  };
}

diff-division_iff_example :
    (diff true 1500000000 (counted 1500000000 90) (counted 1000000000 20) ≡ panic division)
    ↔ (500000000 < 1000000000)
diff-division_iff_example =
    diff-division_iff true 1500000000 (counted 1500000000 90) (counted 1000000000 20) (omega arith)
      (omega arith)
