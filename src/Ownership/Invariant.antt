-- ===== src/Ownership/Invariant.antt =====
-- src/mmap_area.rs, src/umem.rs and src/socket.rs: what the counts of owners keep.
use afxdp_rs.Prelude.{ℕ, ◌+◌, ◌<◌, ◌≡◌, refl, Bool, Option, some, List, [], ◌∷◌, ◌++◌, arith}
use afxdp_rs.Rust.{value, mul}
use afxdp_rs.Area.{MmapArea}
use afxdp_rs.Extern.Sys.{Sys}
use afxdp_rs.Ownership.Counts.{
  strong_at, get_item, alive, made, made-le, made_of_item, owners, owners_of_alive, one_if,
}
use afxdp_rs.Ownership.{OwnedUmem, OwnedSocket, Ref, area, umem, socket, Heap}

-- 1 where the reference is to that area, umem or socket
abbrev pub to_area : Ref → ℕ → ℕ
to_area (area a) r = one_if a r
to_area (umem u) r = 0
to_area (socket s) r = 0

abbrev pub to_umem : Ref → ℕ → ℕ
to_umem (area a) r = 0
to_umem (umem u) r = one_if u r
to_umem (socket s) r = 0

abbrev pub to_socket : Ref → ℕ → ℕ
to_socket (area a) r = 0
to_socket (umem u) r = 0
to_socket (socket s) r = one_if s r

-- How many of the references are to the place `r`.
abbrev pub tally : (Ref → ℕ → ℕ) → List Ref → ℕ → ℕ
tally f [] r = 0
tally f (x ∷ xs) r = f x r + tally f xs r

pub tally-append :
    (f : Ref → ℕ → ℕ) (xs ys : List Ref) (r : ℕ)
    → tally f (xs ++ ys) r ≡ tally f xs r + tally f ys r
tally-append f [] ys r = omega arith
tally-append f (x ∷ xs) ys r = omega (arith, tally-append f xs ys r)

-- What was built on something is dropped whenever that is.
abbrev pub Closed : (ℕ → Option OwnedUmem) → (ℕ → Option OwnedSocket) → List Ref → Type 0
Closed umems sockets log =
    ((u : ℕ) (o : OwnedUmem)
      → umems u ≡ some o
      → 0 < tally to_area log o.area
      → 0 < tally to_umem log u)
    × ((s : ℕ) (o : OwnedSocket)
        → sockets s ≡ some o
        → 0 < tally to_umem log o.umem
        → 0 < tally to_socket log s)

-- It was so after each single drop: a socket goes before its umem, and a umem before its area.
abbrev pub InOrder : (ℕ → Option OwnedUmem) → (ℕ → Option OwnedSocket) → List Ref → Type 0
InOrder umems sockets [] = Unit {0}
InOrder umems sockets (x ∷ log) = Closed umems sockets (x ∷ log) × InOrder umems sockets log

-- `held`: the references that the program holds.
pub record IsCounted {sys : Sys} (held : List Ref) (h : Heap sys) : Type 0 where
  -- Each count is the number of owners, those in the program and those among the things themselves.
  pub areas_owned :
      (r : ℕ) → strong_at h.areas r ≡ tally to_area held r + owners (λ o. o.area) h.umems r
  pub umems_owned :
      (u : ℕ) → strong_at h.umems u ≡ tally to_umem held u + owners (λ o. o.umem) h.sockets u
  pub sockets_owned : (s : ℕ) → strong_at h.sockets s ≡ tally to_socket held s
  -- What was made either has an owner or was dropped, exactly once.
  pub areas_once : (r : ℕ) → alive h.areas r + tally to_area h.log r ≡ made h.areas r
  pub umems_once : (u : ℕ) → alive h.umems u + tally to_umem h.log u ≡ made h.umems u
  pub sockets_once : (s : ℕ) → alive h.sockets s + tally to_socket h.log s ≡ made h.sockets s

pub record IsHeap {sys : Sys} (checks : Bool) (held : List Ref) (h : Heap sys) : Type 0 where
  pub counted : IsCounted held h
  pub in_order : InOrder (get_item h.umems) (get_item h.sockets) h.log
  -- The size of each area was computed without overflow, or wraps in this build.
  pub sized :
      (r : ℕ) (a : MmapArea)
      → get_item h.areas r ≡ some a
      → (size : ℕ) × (mul checks 64 a.buf_num a.buf_len ≡ value size)

-- The order in which the program holds its references does not matter.
pub IsHeap-held :
    {sys : Sys} {checks : Bool} {held held' : List Ref} {h : Heap sys}
    → ((f : Ref → ℕ → ℕ) (q : ℕ) → tally f held q ≡ tally f held' q)
    → IsHeap checks held h
    → IsHeap checks held' h
IsHeap-held same v = record {
  counted = record {
    areas_owned = λ q. omega (arith, v.counted.areas_owned q, same to_area q);
    umems_owned = λ q. omega (arith, v.counted.umems_owned q, same to_umem q);
    sockets_owned = λ q. omega (arith, v.counted.sockets_owned q, same to_socket q);
    areas_once = v.counted.areas_once;
    umems_once = v.counted.umems_once;
    sockets_once = v.counted.sockets_once;
  };
  in_order = v.in_order;
  sized = v.sized;
}

-- The world does not matter either.
pub IsHeap-world :
    {sys : Sys} {checks : Bool} {held : List Ref} {h : Heap sys} (world : sys.World)
    → IsHeap checks held h
    → IsHeap checks held (record h { world = world })
IsHeap-world world v = record {
  counted = record {
    areas_owned = v.counted.areas_owned;
    umems_owned = v.counted.umems_owned;
    sockets_owned = v.counted.sockets_owned;
    areas_once = v.counted.areas_once;
    umems_once = v.counted.umems_once;
    sockets_once = v.counted.sockets_once;
  };
  in_order = v.in_order;
  sized = v.sized;
}

-- Where the counts are right, what was built on something that is dropped is dropped too.
pub closed :
    {sys : Sys} {held : List Ref} {h : Heap sys}
    → IsCounted held h
    → Closed (get_item h.umems) (get_item h.sockets) h.log
closed {sys} {held} {h} v = (
  λ u o e gone. ground (
    arith,
    v.areas_once o.area,
    made-le h.areas o.area,
    v.areas_owned o.area,
    owners_of_alive (λ (o : OwnedUmem). o.area) h.umems u o.area e refl,
    v.umems_once u,
    made_of_item h.umems u e,
  ),
  λ s o e gone. ground (
    arith,
    v.umems_once o.umem,
    made-le h.umems o.umem,
    v.umems_owned o.umem,
    owners_of_alive (λ (o : OwnedSocket). o.umem) h.sockets s o.umem e refl,
    v.sockets_once s,
    made_of_item h.sockets s e,
  ),
)
