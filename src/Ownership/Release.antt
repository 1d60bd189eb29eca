-- ===== src/Ownership/Release.antt =====
-- src/mmap_area.rs, src/umem.rs and src/socket.rs: `Drop` of an `Arc` returns, and keeps the counts and the order.
use afxdp_rs.Prelude.{
  ℕ, ◌-◌, ◌<◌, ◌≡◌, sym, subst, inl, inr, Bool, List, ◌∷◌, arith, Bool-cases, ◌==◌,
}
use mathlib.Core.Path.{fun_ext}
use afxdp_rs.Rust.{value}
use afxdp_rs.Extern.Sys.{Sys}
use afxdp_rs.Area.Unmap
use afxdp_rs.Umem
use afxdp_rs.Socket
use afxdp_rs.Ownership.Counts.{
  strong_at, get_item, set_strong, strong-set_strong, item-set_strong, item_of_strong,
}
use afxdp_rs.Ownership.{Ref, area, umem, socket, Heap, drop_area, drop_umem, drop_socket, drop_ref}
use afxdp_rs.Ownership.Invariant.{IsHeap, InOrder, closed}
use afxdp_rs.Ownership.Fewer.{less_area, last_area, less_umem, last_umem, less_socket, last_socket}

module _ {sys : Sys} {checks : Bool} (rest : List Ref) where
  pub area_returns :
      (r : ℕ) (h : Heap sys)
      → IsHeap checks (area r ∷ rest) h
      → (t : Heap sys) × (drop_area sys checks r h ≡ value t) × IsHeap checks rest t
  unfolding drop_area
  area_returns r h v =
      let n = strong_at h.areas r - 1 in
      let areas = set_strong h.areas r n in
      let c = v.counted in
      let pos : 0 < strong_at h.areas r = ground (arith, c.areas_owned r) in
      let same = item-set_strong h.areas r n in
      let left : strong_at areas r ≡ n = ground (arith, strong-set_strong h.areas r n r pos) in
      elim (Bool-cases (n == 0)) [
        | inr more ↦ (
          record h { areas = areas },
          rw (left, more),
          record {
            counted = less_area h rest r c (λ e. ground arith);
            in_order = v.in_order;
            sized = λ q a e. v.sized q a (rw (same q) at e);
          },
        )
        | inl last ↦
            let (a, found) = item_of_strong h.areas r pos in
            let (size, sized) = v.sized r a found in
            let (world, unmapped) = Unmap.drop_returns sys checks h.world a sized in
            let counted = last_area h rest r world c (ground arith) in
            (
              record h { areas = areas; log = area r ∷ h.log; world = world },
              rw (left, last, same r, found, unmapped),
              record {
                counted = counted;
                in_order = (closed counted, v.in_order);
                sized = λ q a e. v.sized q a (rw (same q) at e);
              },
            )
      ]

  pub umem_returns :
      (u : ℕ) (h : Heap sys)
      → IsHeap checks (umem u ∷ rest) h
      → (t : Heap sys) × (drop_umem sys checks u h ≡ value t) × IsHeap checks rest t
  unfolding drop_umem
  umem_returns u h v =
      let n = strong_at h.umems u - 1 in
      let umems = set_strong h.umems u n in
      let c = v.counted in
      let pos : 0 < strong_at h.umems u = ground (arith, c.umems_owned u) in
      let same = fun_ext (item-set_strong h.umems u n) in
      let left : strong_at umems u ≡ n = ground (arith, strong-set_strong h.umems u n u pos) in
      let order = subst (λ f. InOrder f (get_item h.sockets) h.log) (sym same) v.in_order in
      elim (Bool-cases (n == 0)) [
        | inr more ↦ (
          record h { umems = umems },
          rw (left, more),
          record {
            counted = less_umem h rest u c (λ e. ground arith);
            in_order = order;
            sized = v.sized;
          },
        )
        | inl last ↦
            let (o, found) = item_of_strong h.umems u pos in
            let world = Umem.drop sys h.world o.umem in
            let counted = last_umem h rest u o world c (ground arith) found in
            let (t, e, kept) =
              area_returns o.area (record h { umems = umems; log = umem u ∷ h.log; world = world })
                (record {
                  counted = counted;
                  in_order = (closed counted, order);
                  sized = v.sized;
                }) in
            (t, rw (left, last, item-set_strong h.umems u n u, found, e), kept)
      ]

  socket_returns :
      (s : ℕ) (h : Heap sys)
      → IsHeap checks (socket s ∷ rest) h
      → (t : Heap sys) × (drop_socket sys checks s h ≡ value t) × IsHeap checks rest t
  unfolding drop_socket
  socket_returns s h v =
      let n = strong_at h.sockets s - 1 in
      let sockets = set_strong h.sockets s n in
      let c = v.counted in
      let pos : 0 < strong_at h.sockets s = ground (arith, c.sockets_owned s) in
      let same = fun_ext (item-set_strong h.sockets s n) in
      let left : strong_at sockets s ≡ n = ground (arith, strong-set_strong h.sockets s n s pos) in
      let order = subst (λ f. InOrder (get_item h.umems) f h.log) (sym same) v.in_order in
      elim (Bool-cases (n == 0)) [
        | inr more ↦ (
          record h { sockets = sockets },
          rw (left, more),
          record {
            counted = less_socket h rest s c (λ e. ground arith);
            in_order = order;
            sized = v.sized;
          },
        )
        | inl last ↦
            let (o, found) = item_of_strong h.sockets s pos in
            let world = Socket.drop sys h.world o.socket in
            let counted = last_socket h rest s o world c (ground arith) found in
            let (t, e, kept) =
              umem_returns o.umem
                (record h { sockets = sockets; log = socket s ∷ h.log; world = world })
                (record {
                  counted = counted;
                  in_order = (closed counted, order);
                  sized = v.sized;
                }) in
            (t, rw (left, last, item-set_strong h.sockets s n s, found, e), kept)
      ]

  -- Giving up any owner that the program holds returns without a panic, and keeps the heap in order.
  pub drop_ref-IsHeap :
      (x : Ref) (h : Heap sys)
      → IsHeap checks (x ∷ rest) h
      → (t : Heap sys) × (drop_ref sys checks x h ≡ value t) × IsHeap checks rest t
  unfolding drop_ref
  drop_ref-IsHeap (area r) h v = area_returns r h v
  drop_ref-IsHeap (umem u) h v = umem_returns u h v
  drop_ref-IsHeap (socket s) h v = socket_returns s h v
