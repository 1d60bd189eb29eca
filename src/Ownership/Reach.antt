-- ===== src/Ownership/Reach.antt =====
-- src/mmap_area.rs, src/umem.rs and src/socket.rs: all that a program can do with areas, umems and sockets, in any order.
use afxdp_rs.Prelude.{ℕ, ◌≡◌, Bool, List, [], ◌∷◌, ◌++◌}
use afxdp_rs.Rust.{value}
use afxdp_rs.Area.{MmapAreaOptions}
use afxdp_rs.Socket.{SocketOptions}
use afxdp_rs.Extern.Sys.{Sys}
use afxdp_rs.Ownership.{Ref, Handle, Heap, clone, drop_handle}
use afxdp_rs.Ownership.Make.{map_area, make_umem, make_socket, make_rx, make_tx}

-- What the program holds, and what there is.
pub record Program (sys : Sys) : Type 0 where
  pub held : List Handle
  pub heap : Heap sys

-- An `Arc` itself, to what `x` is to.
abbrev pub arc : Ref → Handle
arc (Ref.area r) = Handle.area r
arc (Ref.umem u) = Handle.umem u
arc (Ref.socket s) = Handle.socket s

-- before the first call
abbrev pub empty : {sys : Sys} → sys.World → Program sys
empty world = record {
  held = [];
  heap = record { areas = []; umems = []; sockets = []; log = []; world = world };
}

module _ (sys : Sys) (checks : Bool) {T : Type 0} (default : T) where
  -- A call of the program. What it takes by value stands between `front` and `back`.
  pub data Step (p : Program sys) : Program sys → Type 0 where
    map_new :
        (buf_num buf_len : ℕ) (options : MmapAreaOptions) {new : List Handle} {h : Heap sys}
        → map_area sys checks default p.heap buf_num buf_len options ≡ value (new, h)
        → Step p (record { held = new ++ p.held; heap = h })
    register :
        (front back : List Handle) (r comp_size fill_size : ℕ) {new : List Handle} {h : Heap sys}
        → p.held ≡ front ++ Handle.area r ∷ back
        → make_umem sys checks r p.heap comp_size fill_size ≡ value (new, h)
        → Step p (record { held = new ++ (front ++ back); heap = h })
    open_both :
        (front back : List Handle) (u : ℕ) (name : List ℕ) (queue rx_size tx_size : ℕ)
        (options : SocketOptions) {new : List Handle} {h : Heap sys}
        → p.held ≡ front ++ Handle.umem u ∷ back
        → make_socket sys checks u p.heap name queue rx_size tx_size options ≡ value (new, h)
        → Step p (record { held = new ++ (front ++ back); heap = h })
    open_rx :
        (front back : List Handle) (u : ℕ) (name : List ℕ) (queue rx_size : ℕ)
        (options : SocketOptions) {new : List Handle} {h : Heap sys}
        → p.held ≡ front ++ Handle.umem u ∷ back
        → make_rx sys checks u p.heap name queue rx_size options ≡ value (new, h)
        → Step p (record { held = new ++ (front ++ back); heap = h })
    open_tx :
        (front back : List Handle) (u : ℕ) (name : List ℕ) (queue tx_size : ℕ)
        (options : SocketOptions) {new : List Handle} {h : Heap sys}
        → p.held ≡ front ++ Handle.umem u ∷ back
        → make_tx sys checks u p.heap name queue tx_size options ≡ value (new, h)
        → Step p (record { held = new ++ (front ++ back); heap = h })
    share :
        (front back : List Handle) (x : Ref)
        → p.held ≡ front ++ arc x ∷ back
        → Step p (record { held = arc x ∷ p.held; heap = clone x p.heap })
    discard :
        (front back : List Handle) (x : Handle) {h : Heap sys}
        → p.held ≡ front ++ x ∷ back
        → drop_handle sys checks x p.heap ≡ value h
        → Step p (record { held = front ++ back; heap = h })

  pub data Reach (world : sys.World) : Program sys → Type 0 where
    here : Reach world (empty world)
    next : {p q : Program sys} → Reach world p → Step p q → Reach world q
