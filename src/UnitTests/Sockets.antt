-- ===== src/UnitTests/Sockets.antt =====
-- src/socket.rs: its test `ring_size1`.
pub mod Passes
use afxdp_rs.Prelude.{ℕ, Bool, if◌then◌else◌, List, [], ◌∷◌, false}
use afxdp_rs.Rust.{Outcome, value, panic, explicit, ◌>>=◌, ◌>>◌, Result, ok, err}
use afxdp_rs.Area
use afxdp_rs.Umem
use afxdp_rs.Socket.{SocketOptions, SocketNewError, create, ring_not_power_of_two}
use afxdp_rs.Socket
use afxdp_rs.Extern.Sys.{Sys}
use afxdp_rs.L2fwd.{or_panic}
use afxdp_rs.UnitTests.{new_area}

-- "link1"
abbrev pub link1 : List ℕ
link1 = 108 ∷ 105 ∷ 110 ∷ 107 ∷ 49 ∷ []

-- `SocketOptions::default()`
abbrev pub default_options : SocketOptions
default_options = record {
  zero_copy_mode = false;
  copy_mode = false;
  tx_ring_size = 0;
  rx_ring_size = 0;
}

-- The first call has good sizes, and is expected to fail for another reason.
abbrev pub expect_failed : {A : Type 0} → Result A SocketNewError → Outcome (Unit {0})
expect_failed (err ring_not_power_of_two) = panic explicit
expect_failed (err (create e)) = value tt
expect_failed (ok made) = panic explicit

abbrev pub expect_refused : {A : Type 0} → Result A SocketNewError → Outcome (Unit {0})
expect_refused (err ring_not_power_of_two) = value tt
expect_refused (err (create e)) = panic explicit
expect_refused (ok made) = panic explicit

-- It is skipped where the limit cannot be set.
module _ (sys : Sys) (checks : Bool) {T : Type 0} (default : T) where
  pub ring_size1 : (sys.World → sys.World × Bool) → sys.World → Outcome sys.World
  ring_size1 setrlimit world =
      let (world, limited) = setrlimit world in
      if limited
      then (do
        (area, bufs, world) ← new_area sys checks default world 1024 2048
        (r, world) ← Umem.new sys checks world area 1024 1024
        (umem, cq, fq) ← or_panic r
        (r, world) ← Socket.new sys world umem link1 1 2048 2048 default_options
        expect_failed r
        (r, world) ← Socket.new sys world umem link1 1 101 2048 default_options
        expect_refused r
        (r, world) ← Socket.new sys world umem link1 1 2048 149 default_options
        expect_refused r
        (r, world) ← Socket.new sys world umem link1 1 1999 149 default_options
        expect_refused r
        Area.drop sys checks (Umem.drop sys world umem) area)
      else value world
