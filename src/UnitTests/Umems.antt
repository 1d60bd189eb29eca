-- ===== src/UnitTests/Umems.antt =====
-- src/umem.rs: its tests `ring_size1` to `ring_size4`.
pub mod Passes
use afxdp_rs.Prelude.{ℕ, Bool, if◌then◌else◌}
use afxdp_rs.Rust.{Outcome, value, panic, explicit, ◌>>=◌, ◌>>◌, Result, ok, err}
use afxdp_rs.Area
use afxdp_rs.Umem.{UmemNewError, create, ring_not_power_of_two}
use afxdp_rs.Umem
use afxdp_rs.Extern.Sys.{Sys}
use afxdp_rs.L2fwd.{or_panic}
use afxdp_rs.UnitTests.{new_area}

-- The match of the first three: only this error is expected.
abbrev pub expect_refused : {A : Type 0} → Result A UmemNewError → Outcome (Unit {0})
expect_refused (err ring_not_power_of_two) = value tt
expect_refused (err (create e)) = panic explicit
expect_refused (ok made) = panic explicit

module _ (sys : Sys) (checks : Bool) {T : Type 0} (default : T) where
  -- The three differ in the sizes. `Umem::new` takes the area, and drops it where it fails.
  pub refused : sys.World → ℕ → ℕ → Outcome sys.World
  refused world comp_size fill_size = do
    (area, bufs, world) ← new_area sys checks default world 1024 2048
    (r, world) ← Umem.new sys checks world area comp_size fill_size
    expect_refused r
    Area.drop sys checks world area

  abbrev pub ring_size1 : sys.World → Outcome sys.World
  ring_size1 world = refused world 97 997

  abbrev pub ring_size2 : sys.World → Outcome sys.World
  ring_size2 world = refused world 100 1024

  abbrev pub ring_size3 : sys.World → Outcome sys.World
  ring_size3 world = refused world 1024 100

  -- It is skipped where the limit cannot be set.
  pub ring_size4 : (sys.World → sys.World × Bool) → sys.World → Outcome sys.World
  ring_size4 setrlimit world =
      let (world, limited) = setrlimit world in
      if limited
      then (do
        (area, bufs, world) ← new_area sys checks default world 1024 2048
        (r, world) ← Umem.new sys checks world area 1024 1024
        (umem, cq, fq) ← or_panic r
        Area.drop sys checks (Umem.drop sys world umem) area)
      else value world
