-- ===== src/Ownership/Safe.antt =====
-- src/mmap_area.rs, src/umem.rs and src/socket.rs: whatever a program does with areas, umems and sockets, nothing is
-- dropped too early, twice, or not at all.
use afxdp_rs.Prelude.{ℕ, ◌≡◌, subst, Bool, some, List, [], ◌∷◌, ◌++◌, map, arith}
use afxdp_rs.Rust.{value}
use afxdp_rs.Extern.Sys.{Sys}
use afxdp_rs.Ownership.Counts.{strong_at, get_item, made, made-le, owners_of_dead}
use afxdp_rs.Ownership.{Ref, Handle, OwnedUmem, OwnedSocket, Heap, target, drop_handle}
use afxdp_rs.Ownership.Invariant.{IsHeap, InOrder, closed, tally, to_area, to_umem, to_socket}
use afxdp_rs.Ownership.Release.{drop_ref-IsHeap}
use afxdp_rs.Ownership.Always.{to_front, Reach-IsHeap}
use afxdp_rs.Ownership.Reach.{Program, discard, Reach, next}

-- Neither the thing nor what it is built on was dropped.
module _ {sys : Sys} (h : Heap sys) where
  abbrev pub IsIntactArea : ℕ → Type 0
  IsIntactArea r = tally to_area h.log r ≡ 0

  abbrev pub IsIntactUmem : ℕ → Type 0
  IsIntactUmem u =
      (tally to_umem h.log u ≡ 0)
      × ((o : OwnedUmem) → get_item h.umems u ≡ some o → IsIntactArea o.area)

  abbrev pub IsIntact : Ref → Type 0
  IsIntact (Ref.area r) = IsIntactArea r
  IsIntact (Ref.umem u) = IsIntactUmem u
  IsIntact (Ref.socket s) =
      (tally to_socket h.log s ≡ 0)
      × ((o : OwnedSocket) → get_item h.sockets s ≡ some o → IsIntactUmem o.umem)

intact :
    {sys : Sys} {checks : Bool} (x : Ref) (rest : List Ref) (h : Heap sys)
    → IsHeap checks (x ∷ rest) h
    → IsIntact h x
intact (Ref.area r) rest h v =
    ground (arith, v.counted.areas_owned r, v.counted.areas_once r, made-le h.areas r)
intact (Ref.umem u) rest h v =
    let c = v.counted in
    let here : tally to_umem h.log u ≡ 0 =
      ground (arith, c.umems_owned u, c.umems_once u, made-le h.umems u) in
    (here, λ o e. ground (arith, (closed c).0 u o e))
intact (Ref.socket s) rest h v =
    let c = v.counted in
    let here : tally to_socket h.log s ≡ 0 =
      ground (arith, c.sockets_owned s, c.sockets_once s, made-le h.sockets s) in
    let umem : (o : OwnedSocket) → get_item h.sockets s ≡ some o → tally to_umem h.log o.umem ≡ 0 =
      λ o e. ground (arith, (closed c).1 s o e) in
    (here, λ o e. (umem o e, λ a f. ground (arith, umem o e, (closed c).0 o.umem a f)))

module _ {sys : Sys} {checks : Bool} {T : Type 0} {default : T} where
  -- Whatever a program has done with areas, umems and sockets, what it still holds was not dropped: not the area,
  -- umem or socket itself, nor the umem that a socket is on, nor the area that a umem is on. And it can be dropped:
  -- `Drop` returns without a panic, in every build, and the program goes on from there.
  pub held_safe :
      {world : sys.World} {p : Program sys} (front back : List Handle) (x : Handle)
      → Reach sys checks default world p
      → p.held ≡ front ++ x ∷ back
      → IsIntact p.heap (target x)
        × ((h : Heap sys) × (drop_handle sys checks x p.heap ≡ value h)
            × Reach sys checks default world (record { held = front ++ back; heap = h }))
  unfolding drop_handle
  held_safe {p = p} front back x r e =
      let rest = map target (front ++ back) in
      let first = to_front p front back x e (Reach-IsHeap r) in
      let (h, returned, _) = drop_ref-IsHeap rest (target x) p.heap first in
      (intact (target x) rest p.heap first, (h, returned, next r (discard front back x e returned)))

  -- When a program holds nothing any more, whatever it has done, each area, umem and socket that it made was dropped
  -- exactly once; and it was so after each single drop that all sockets on a dropped umem had been dropped, and all
  -- umems on a dropped area.
  pub dropped_once :
      {world : sys.World} {p : Program sys}
      → Reach sys checks default world p
      → p.held ≡ []
      → ((r : ℕ) → tally to_area p.heap.log r ≡ made p.heap.areas r)
        × ((u : ℕ) → tally to_umem p.heap.log u ≡ made p.heap.umems u)
        × ((s : ℕ) → tally to_socket p.heap.log s ≡ made p.heap.sockets s)
        × InOrder (get_item p.heap.umems) (get_item p.heap.sockets) p.heap.log
  dropped_once {p = p} r e =
      let v : IsHeap checks [] p.heap =
        subst (λ hs. IsHeap checks (map target hs) p.heap) e (Reach-IsHeap r) in
      let c = v.counted in
      let no_sockets : (s : ℕ) → strong_at p.heap.sockets s ≡ 0 =
        λ s. omega (arith, c.sockets_owned s) in
      let no_umems : (u : ℕ) → strong_at p.heap.umems u ≡ 0 = λ u. omega (
        arith,
        c.umems_owned u,
        owners_of_dead (λ (o : OwnedSocket). o.umem) p.heap.sockets no_sockets u,
      ) in
      let no_areas : (r : ℕ) → strong_at p.heap.areas r ≡ 0 = λ r. omega (
        arith,
        c.areas_owned r,
        owners_of_dead (λ (o : OwnedUmem). o.area) p.heap.umems no_umems r,
      ) in
      (
        λ r. ground (arith, no_areas r, c.areas_once r),
        λ u. ground (arith, no_umems u, c.umems_once u),
        λ s. ground (arith, no_sockets s, c.sockets_once s),
        v.in_order,
      )
