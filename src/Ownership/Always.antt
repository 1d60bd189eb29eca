-- ===== src/Ownership/Always.antt =====
-- src/mmap_area.rs, src/umem.rs and src/socket.rs: whatever a program does with areas, umems and sockets, the
-- counts are right and the order is kept.
use afxdp_rs.Prelude.{
  ℕ, ◌≡◌, refl, sym, subst, ◌∙◌, Bool, List, [], ◌∷◌, ◌++◌, map, map-append, arith,
}
use afxdp_rs.Rust.{value_eq}
use afxdp_rs.Area.{MmapArea}
use afxdp_rs.Extern.Sys.{Sys}
use afxdp_rs.Ownership.Counts.{strong-length, made-length, item-nil, owners_of_dead}
use afxdp_rs.Ownership.{Ref, Handle, OwnedUmem, OwnedSocket, Heap, target, drop_handle}
use afxdp_rs.Ownership.Make.Kept.{
  map_area-Keeps, make_umem-Keeps, make_socket-Keeps, make_rx-Keeps, make_tx-Keeps,
}
use afxdp_rs.Ownership.Invariant.{IsHeap, IsHeap-held, tally}
use afxdp_rs.Ownership.Clone.{clone-IsHeap}
use afxdp_rs.Ownership.Release.{drop_ref-IsHeap}
use afxdp_rs.Ownership.Reach.{
  Program, arc, Step, map_new, register, open_both, open_rx, open_tx, share, discard, Reach, here,
  next,
}

-- What is held among other things may stand first.
tally-middle :
    (f : Ref → ℕ → ℕ) (front back : List Handle) (x : Handle) (q : ℕ)
    → tally f (map target (front ++ x ∷ back)) q ≡ tally f (target x ∷ map target (front ++ back)) q
tally-middle f [] back x q = refl
tally-middle f (y ∷ front) back x q = omega (arith, tally-middle f front back x q)

target-arc : (x : Ref) → target (arc x) ≡ x
unfolding target
target-arc (Ref.area r) = refl
target-arc (Ref.umem u) = refl
target-arc (Ref.socket s) = refl

module _ {sys : Sys} {checks : Bool} where
  pub to_front :
      (p : Program sys) (front back : List Handle) (x : Handle)
      → p.held ≡ front ++ x ∷ back
      → IsHeap checks (map target p.held) p.heap
      → IsHeap checks (target x ∷ map target (front ++ back)) p.heap
  to_front p front back x e v =
      IsHeap-held (λ f q. tally-middle f front back x q)
        (subst (λ hs. IsHeap checks (map target hs) p.heap) e v)

  handed_out :
      (new rest : List Handle) (h : Heap sys)
      → IsHeap checks (map target new ++ map target rest) h
      → IsHeap checks (map target (new ++ rest)) h
  handed_out new rest h v = subst (λ hs. IsHeap checks hs h) (sym (map-append target new rest)) v

  module _ {T : Type 0} {default : T} where
    Step-IsHeap :
        {p q : Program sys}
        → Step sys checks default p q
        → IsHeap checks (map target p.held) p.heap
        → IsHeap checks (map target q.held) q.heap
    unfolding target drop_handle
    Step-IsHeap {p} (map_new n l options {new} {h} e) v =
        handed_out new p.held h
          (map_area-Keeps checks (map target p.held) default p.heap n l options (new, h) v e)
    Step-IsHeap {p} (register front back r c f {new} {h} e called) v =
        handed_out new (front ++ back) h (
          make_umem-Keeps checks _ r p.heap c f (new, h) (to_front p front back (Handle.area r) e v)
            called)
    Step-IsHeap {p} (open_both front back u name queue rx tx options {new} {h} e called) v =
        handed_out new (front ++ back) h (
          make_socket-Keeps checks _ u p.heap name queue rx tx options (new, h)
            (to_front p front back (Handle.umem u) e v) called)
    Step-IsHeap {p} (open_rx front back u name queue rx options {new} {h} e called) v =
        handed_out new (front ++ back) h (
          make_rx-Keeps checks _ u p.heap name queue rx options (new, h)
            (to_front p front back (Handle.umem u) e v) called)
    Step-IsHeap {p} (open_tx front back u name queue tx options {new} {h} e called) v =
        handed_out new (front ++ back) h (
          make_tx-Keeps checks _ u p.heap name queue tx options (new, h)
            (to_front p front back (Handle.umem u) e v) called)
    Step-IsHeap {p} (share front back x e) v =
        let rest = map target (front ++ back) in
        let first = to_front p front back (arc x) e v in
        let front' = subst (λ y. IsHeap checks (y ∷ rest) p.heap) (target-arc x) first in
        IsHeap-held
          (λ f q.
            rw (target-arc x, e)
              (omega (arith, rw (target-arc x) at (tally-middle f front back (arc x) q))))
          (clone-IsHeap p.heap rest x front')
    Step-IsHeap {p} (discard front back x {h} e dropped) v =
        let (t, same, kept) =
          drop_ref-IsHeap (map target (front ++ back)) (target x) p.heap
            (to_front p front back x e v) in
        subst (IsHeap checks (map target (front ++ back))) (value_eq (sym same ∙ dropped)) kept

    pub Reach-IsHeap :
        {world : sys.World} {p : Program sys}
        → Reach sys checks default world p
        → IsHeap checks (map target p.held) p.heap
    Reach-IsHeap here = record {
      counted = record {
        areas_owned = λ q. omega (
          arith,
          strong-length {A = MmapArea} [] q,
          owners_of_dead (λ (o : OwnedUmem). o.area) [] (λ u. strong-length [] u (omega arith)) q,
        );
        umems_owned = λ q. omega (
          arith,
          strong-length {A = OwnedUmem} [] q,
          owners_of_dead (λ (o : OwnedSocket). o.umem) [] (λ u. strong-length [] u (omega arith)) q,
        );
        sockets_owned = λ q. omega (arith, strong-length {A = OwnedSocket} [] q);
        areas_once =
            λ q. ground (arith, strong-length {A = MmapArea} [] q, made-length {A = MmapArea} [] q);
        umems_once = λ q.
            ground (arith, strong-length {A = OwnedUmem} [] q, made-length {A = OwnedUmem} [] q);
        sockets_once = λ q.
            ground
              (arith, strong-length {A = OwnedSocket} [] q, made-length {A = OwnedSocket} [] q);
      };
      in_order = tt;
      sized = λ r a e. absurd (cc (item-nil {A = MmapArea} r));
    }
    Reach-IsHeap (next r s) = Step-IsHeap s (Reach-IsHeap r)
