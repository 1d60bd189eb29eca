-- ===== src/Control/Unlink.antt =====
-- examples/l2fwd-2link-multicore.rs and examples/rxdrop.rs: "Remove the XDP program from the links", at the end of
-- `main`.
use afxdp_rs.Prelude.{ℕ, ◌-◌, ◌^◌, List, [], ◌∷◌, if◌then◌else◌, ltb}
use afxdp_rs.Prelude.Int.{ℤ, pos, negsuc}
use afxdp_rs.Rust.{Outcome, value, ◌>>=◌, cast}
use afxdp_rs.Extern.Sys.{Sys}
use afxdp_rs.Socket.{cstring}
use afxdp_rs.Control.Names.{Name, sort, dedup}

-- `if_nametoindex`, and `bpf_set_link_xdp_fd` of libbpf with the index, the descriptor and the flags.
pub record Links (sys : Sys) : Type 0 where
  pub if_nametoindex : sys.World → Name → sys.World × ℕ
  pub set_link_xdp_fd : sys.World → ℤ → ℤ → ℕ → sys.World

-- `index as i32`: an index of 2^31 or more becomes negative.
abbrev pub as_i32 : ℕ → ℤ
as_i32 index = let n = cast 32 index in if ltb n (2 ^ 31) then pos n else negsuc (2 ^ 32 - 1 - n)

module _ (sys : Sys) (links : Links sys) where
  -- One link; one without an index is left alone.
  abbrev pub unlink : sys.World → Name → sys.World
  unlink world name =
      let (world, link_index) = links.if_nametoindex world name in
      if ltb 0 link_index
      then links.set_link_xdp_fd world (as_i32 link_index) (negsuc 0) 0
      else world

  pub unlink_all : sys.World → List Name → Outcome sys.World
  unlink_all world [] = value world
  unlink_all world (link_name ∷ link_names) = do
    link_name_c ← cstring link_name
    unlink_all (unlink world link_name_c) link_names

  pub remove_programs : sys.World → List Name → Outcome sys.World
  remove_programs world link_names = unlink_all world (dedup (sort link_names))

  -- The world after the links of a list, in its order.
  abbrev pub unlinked : sys.World → List Name → sys.World
  unlinked world [] = world
  unlinked world (n ∷ ns) = unlinked (unlink world n) ns
