-- ===== src/Ownership/Make.antt =====
-- src/mmap_area.rs, src/umem.rs and src/socket.rs: what the constructors do to the counts. Each takes the `Arc` of
-- what it builds on, moves it into the new value, and gives it up where the call fails.
pub mod Kept
use afxdp_rs.Prelude.{ℕ, Bool, Option, none, some, List, [], ◌∷◌, ◌++◌, length}
use afxdp_rs.Rust.{Outcome, value, ◌>>=◌, Result, ok, err}
use afxdp_rs.Rust.Vec.{Vec}
use afxdp_rs.Buf.Mmap.{BufMmap}
use afxdp_rs.Area.{MmapArea, MmapAreaOptions, MmapError}
use afxdp_rs.Area
use afxdp_rs.Umem.{Umem, UmemCompletionQueue, UmemFillQueue, UmemNewError}
use afxdp_rs.Umem
use afxdp_rs.Socket.{Socket, SocketRx, SocketTx, SocketOptions, SocketNewError}
use afxdp_rs.Socket
use afxdp_rs.Extern.Sys.{Sys}
use afxdp_rs.Ownership.Counts.{Counted, get_item}
use afxdp_rs.Ownership.{OwnedUmem, OwnedSocket, Handle, area, umem, cq, fq, socket, rx, tx, Heap}
use afxdp_rs.Ownership.{drop_area, drop_umem}

-- What a constructor hands to the program: a buffer owns nothing of the area.
abbrev pub Made : Sys → Type 0
Made sys = List Handle × Heap sys

-- The new thing, where the call made one.
abbrev pub made_of : {A B E : Type 0} → (A → B) → Result A E → Option B
made_of f (ok a) = some (f a)
made_of f (err e) = none

module _ (sys : Sys) (checks : Bool) where
  -- `Arc::new`, for an area
  pub new_area : {T : Type 0} → Heap sys → Result (MmapArea × Vec (BufMmap T)) MmapError → Made sys
  new_area h (ok (a, bufs)) = (
    area (length h.areas) ∷ [],
    record h { areas = h.areas ++ record { strong = 1; item = a } ∷ [] },
  )
  new_area h (err e) = ([], h)

  -- `MmapArea::new`
  unfoldable pub map_area :
      {T : Type 0} (default : T) → Heap sys → ℕ → ℕ → MmapAreaOptions → Outcome (Made sys)
  unfolding new_area
  map_area default h buf_num buf_len options = do
    (r, world) ← Area.new checks default sys h.world buf_num buf_len options
    value (new_area (record h { world = world }) r)

  -- `Arc::new` and its two clones, for a umem on the area at `r`
  pub new_umem :
      ℕ
      → Heap sys
      → Result (Umem × UmemCompletionQueue sys.comp × UmemFillQueue sys.fill) UmemNewError
      → Outcome (Made sys)
  new_umem r h (ok (u, completion, fill)) =
      let k = length h.umems in
      value (
        umem k ∷ cq k ∷ fq k ∷ [],
        record h {
          umems = h.umems ++ record { strong = 3; item = record { area = r; umem = u } } ∷ [];
        },
      )
  new_umem r h (err e) = do h ← drop_area sys checks r h; value ([], h)

  pub make_umem_on : ℕ → Heap sys → ℕ → ℕ → Option MmapArea → Outcome (Made sys)
  unfolding new_umem
  make_umem_on r h comp_size fill_size none = value ([], h)
  make_umem_on r h comp_size fill_size (some a) = do
    (made, world) ← Umem.new sys checks h.world a comp_size fill_size
    new_umem r (record h { world = world }) made

  -- `Umem::new`
  unfoldable pub make_umem : ℕ → Heap sys → ℕ → ℕ → Outcome (Made sys)
  unfolding make_umem_on
  make_umem r h comp_size fill_size = make_umem_on r h comp_size fill_size (get_item h.areas r)

  -- `Arc::new`, and a clone for each half, for a socket on the umem at `u`
  pub new_socket : ℕ → (ℕ → List Handle) → Heap sys → Option Socket → Outcome (Made sys)
  new_socket u halves h (some s) =
      let k = length h.sockets in
      let handles = socket k ∷ halves k in
      value (
        handles,
        record h {
          sockets =
              h.sockets
              ++ record { strong = length handles; item = record { umem = u; socket = s } } ∷ [];
        },
      )
  new_socket u halves h none = do h ← drop_umem sys checks u h; value ([], h)

  pub make_on :
      ℕ
      → (ℕ → List Handle)
      → (Umem → Outcome (Option Socket × sys.World))
      → Heap sys
      → Option OwnedUmem
      → Outcome (Made sys)
  unfolding new_socket
  make_on u halves call h none = value ([], h)
  make_on u halves call h (some o) = do
    (made, world) ← call o.umem
    new_socket u halves (record h { world = world }) made

  -- `Socket::new`, `Socket::new_rx` and `Socket::new_tx`
  unfoldable pub make_socket :
      ℕ → Heap sys → List ℕ → ℕ → ℕ → ℕ → SocketOptions → Outcome (Made sys)
  unfolding make_on
  make_socket u h name queue rx_size tx_size options =
      make_on u (λ k. rx k ∷ tx k ∷ [])
        (λ m. do
          (r, world) ← Socket.new sys h.world m name queue rx_size tx_size options
          value (made_of (λ x. x.0) r, world))
        h (get_item h.umems u)

  pub make_rx : ℕ → Heap sys → List ℕ → ℕ → ℕ → SocketOptions → Outcome (Made sys)
  unfolding make_on
  make_rx u h name queue rx_size options =
      make_on u (λ k. rx k ∷ [])
        (λ m. do
          (r, world) ← Socket.new_rx sys h.world m name queue rx_size options
          value (made_of (λ x. x.0) r, world))
        h (get_item h.umems u)

  pub make_tx : ℕ → Heap sys → List ℕ → ℕ → ℕ → SocketOptions → Outcome (Made sys)
  unfolding make_on
  make_tx u h name queue tx_size options =
      make_on u (λ k. tx k ∷ [])
        (λ m. do
          (r, world) ← Socket.new_tx sys h.world m name queue tx_size options
          value (made_of (λ x. x.0) r, world))
        h (get_item h.umems u)
