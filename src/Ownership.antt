-- ===== src/Ownership.antt =====
-- src/mmap_area.rs, src/umem.rs and src/socket.rs: who owns what. An area, a umem and a socket are each behind an
-- `Arc`, which counts its owners: the last of them to go runs the thing's `Drop`, and then gives up what the
-- thing itself owns. `Drop` of the two queues and of the two halves of a socket does nothing of its own.
pub mod Counts
pub mod Make
pub mod Invariant
pub mod Fewer
pub mod Release
pub mod Fresh
pub mod Clone
pub mod Reach
pub mod Always
pub mod Safe
pub mod Unmapped
use afxdp_rs.Prelude.{
  ℕ, ◌+◌, ◌-◌, Bool, Option, none, some, List, [], ◌∷◌, ◌++◌, if◌then◌else◌, ◌==◌, length,
}
use afxdp_rs.Rust.{Outcome, value, ◌>>=◌, Result, ok, err}
use afxdp_rs.Rust.Vec.{Vec}
use afxdp_rs.Buf.Mmap.{BufMmap}
use afxdp_rs.Area.{MmapArea, MmapAreaOptions, MmapError}
use afxdp_rs.Area
use afxdp_rs.Umem.{Umem, UmemCompletionQueue, UmemFillQueue, UmemNewError}
use afxdp_rs.Umem
use afxdp_rs.Socket.{Socket, SocketRx, SocketTx, SocketOptions, SocketNewError}
use afxdp_rs.Socket
use afxdp_rs.Extern.Sys.{Sys}
use afxdp_rs.Ownership.Counts.{Counted, strong_at, set_strong, get_item}

-- A umem, and the place of the area that it owns.
pub record OwnedUmem : Type 0 where
  pub area : ℕ
  pub umem : Umem

-- A socket, and the place of the umem that it owns.
pub record OwnedSocket : Type 0 where
  pub umem : ℕ
  pub socket : Socket

-- What an `Arc` points to.
pub data Ref : Type 0 where
  area umem socket : ℕ → Ref

-- What the program holds: an `Arc` itself, or a value with an `Arc` in it.
pub data Handle : Type 0 where
  area umem cq fq socket rx tx : ℕ → Handle

pub target : Handle → Ref
target (Handle.area r) = Ref.area r
target (Handle.umem u) = Ref.umem u
target (cq u) = Ref.umem u
target (fq u) = Ref.umem u
target (Handle.socket s) = Ref.socket s
target (rx s) = Ref.socket s
target (tx s) = Ref.socket s

-- All that was ever made, what was dropped (the latest first), and the world.
pub record Heap (sys : Sys) : Type 0 where
  pub areas : List (Counted MmapArea)
  pub umems : List (Counted OwnedUmem)
  pub sockets : List (Counted OwnedSocket)
  pub log : List Ref
  pub world : sys.World

module _ (sys : Sys) (checks : Bool) where
  -- The last owner of an area is gone.
  end_area : ℕ → Heap sys → Option MmapArea → Outcome (Heap sys)
  end_area r h none = value h
  end_area r h (some a) = do
    world ← Area.drop sys checks h.world a
    value (record h { log = Ref.area r ∷ h.log; world = world })

  -- `Drop` of an `Arc<MmapArea>`
  pub drop_area : ℕ → Heap sys → Outcome (Heap sys)
  unfolding end_area
  drop_area r h =
      let areas = set_strong h.areas r (strong_at h.areas r - 1) in
      if strong_at areas r == 0
      then end_area r (record h { areas = areas }) (get_item areas r)
      else value (record h { areas = areas })

  -- The last owner of a umem is gone: its `Drop`, then its field `area`.
  end_umem : ℕ → Heap sys → Option OwnedUmem → Outcome (Heap sys)
  end_umem u h none = value h
  end_umem u h (some o) =
      drop_area o.area (record h { log = Ref.umem u ∷ h.log; world = Umem.drop sys h.world o.umem })

  -- `Drop` of an `Arc<Umem>`
  pub drop_umem : ℕ → Heap sys → Outcome (Heap sys)
  unfolding end_umem
  drop_umem u h =
      let umems = set_strong h.umems u (strong_at h.umems u - 1) in
      if strong_at umems u == 0
      then end_umem u (record h { umems = umems }) (get_item umems u)
      else value (record h { umems = umems })

  -- The last owner of a socket is gone: its `Drop`, then its field `umem`.
  end_socket : ℕ → Heap sys → Option OwnedSocket → Outcome (Heap sys)
  end_socket s h none = value h
  end_socket s h (some o) =
      drop_umem o.umem
        (record h { log = Ref.socket s ∷ h.log; world = Socket.drop sys h.world o.socket })

  -- `Drop` of an `Arc<Socket>`
  pub drop_socket : ℕ → Heap sys → Outcome (Heap sys)
  unfolding end_socket
  drop_socket s h =
      let sockets = set_strong h.sockets s (strong_at h.sockets s - 1) in
      if strong_at sockets s == 0
      then end_socket s (record h { sockets = sockets }) (get_item sockets s)
      else value (record h { sockets = sockets })

  pub drop_ref : Ref → Heap sys → Outcome (Heap sys)
  drop_ref (Ref.area r) h = drop_area r h
  drop_ref (Ref.umem u) h = drop_umem u h
  drop_ref (Ref.socket s) h = drop_socket s h

  -- `Drop` of what the program holds. That of a queue or a half of a socket is empty, and its `Arc` follows.
  unfoldable pub drop_handle : Handle → Heap sys → Outcome (Heap sys)
  unfolding target drop_ref drop_area drop_umem drop_socket
  drop_handle x h = drop_ref (target x) h

-- `Arc::clone`
pub clone : {sys : Sys} → Ref → Heap sys → Heap sys
clone (Ref.area r) h = record h { areas = set_strong h.areas r (strong_at h.areas r + 1) }
clone (Ref.umem u) h = record h { umems = set_strong h.umems u (strong_at h.umems u + 1) }
clone (Ref.socket s) h = record h { sockets = set_strong h.sockets s (strong_at h.sockets s + 1) }
