-- ===== src/Ownership/Clone.antt =====
-- src/mmap_area.rs, src/umem.rs and src/socket.rs: a clone keeps the counts and the order.
use afxdp_rs.Prelude.{◌+◌, ◌<◌, sym, subst, Bool, List, ◌∷◌, arith}
use mathlib.Core.Path.{fun_ext}
use afxdp_rs.Extern.Sys.{Sys}
use afxdp_rs.Ownership.Counts.{
  strong_at, get_item, strong-set_strong, item-set_strong, made-set_strong, owners-set_some,
}
use afxdp_rs.Ownership.{OwnedUmem, OwnedSocket, Ref, area, umem, socket, Heap, clone}
use afxdp_rs.Ownership.Invariant.{IsHeap, InOrder}

module _ {sys : Sys} (h : Heap sys) (rest : List Ref) where
  -- A clone, of what the program holds.
  pub clone-IsHeap :
      {checks : Bool} (x : Ref)
      → IsHeap checks (x ∷ rest) h
      → IsHeap checks (x ∷ x ∷ rest) (clone x h)
  unfolding clone
  clone-IsHeap (area r) v =
      let c = v.counted in
      let n = strong_at h.areas r + 1 in
      let pos : 0 < strong_at h.areas r = ground (arith, c.areas_owned r) in
      record {
        counted = record {
          areas_owned = λ q. ground (arith, c.areas_owned q, strong-set_strong h.areas r n q pos);
          umems_owned = λ q. omega (arith, c.umems_owned q);
          sockets_owned = λ q. omega (arith, c.sockets_owned q);
          areas_once = λ q. ground (
            arith,
            c.areas_once q,
            strong-set_strong h.areas r n q pos,
            made-set_strong h.areas r n q,
          );
          umems_once = c.umems_once;
          sockets_once = c.sockets_once;
        };
        in_order = v.in_order;
        sized = λ q a e. v.sized q a (rw (item-set_strong h.areas r n q) at e);
      }
  clone-IsHeap (umem u) v =
      let c = v.counted in
      let n = strong_at h.umems u + 1 in
      let pos : 0 < strong_at h.umems u = ground (arith, c.umems_owned u) in
      record {
        counted = record {
          areas_owned = λ q. omega (
            arith,
            c.areas_owned q,
            owners-set_some (λ (o : OwnedUmem). o.area) h.umems u n q pos (omega arith),
          );
          umems_owned = λ q. ground (arith, c.umems_owned q, strong-set_strong h.umems u n q pos);
          sockets_owned = λ q. omega (arith, c.sockets_owned q);
          areas_once = c.areas_once;
          umems_once = λ q. ground (
            arith,
            c.umems_once q,
            strong-set_strong h.umems u n q pos,
            made-set_strong h.umems u n q,
          );
          sockets_once = c.sockets_once;
        };
        in_order =
            subst (λ f. InOrder f (get_item h.sockets) h.log)
              (sym (fun_ext (item-set_strong h.umems u n))) v.in_order;
        sized = v.sized;
      }
  clone-IsHeap (socket s) v =
      let c = v.counted in
      let n = strong_at h.sockets s + 1 in
      let pos : 0 < strong_at h.sockets s = ground (arith, c.sockets_owned s) in
      record {
        counted = record {
          areas_owned = λ q. omega (arith, c.areas_owned q);
          umems_owned = λ q. omega (
            arith,
            c.umems_owned q,
            owners-set_some (λ (o : OwnedSocket). o.umem) h.sockets s n q pos (omega arith),
          );
          sockets_owned =
              λ q. ground (arith, c.sockets_owned q, strong-set_strong h.sockets s n q pos);
          areas_once = c.areas_once;
          umems_once = c.umems_once;
          sockets_once = λ q. ground (
            arith,
            c.sockets_once q,
            strong-set_strong h.sockets s n q pos,
            made-set_strong h.sockets s n q,
          );
        };
        in_order =
            subst (λ f. InOrder (get_item h.umems) f h.log)
              (sym (fun_ext (item-set_strong h.sockets s n))) v.in_order;
        sized = v.sized;
      }
