-- ===== src/Ownership/Make/Kept.antt =====
-- src/mmap_area.rs, src/umem.rs and src/socket.rs: the constructors keep the counts and the order, whether they work or
-- fail.
use afxdp_rs.Prelude.{
  ℕ, suc, ◌≡◌, refl, sym, subst, ◌∙◌, Bool, Option, none, some, List, [], ◌∷◌, ◌++◌, map, length,
  replicate, arith,
}
use afxdp_rs.Rust.{Outcome, value, Result, ok, err, value_eq, >>=-eq-value}
use afxdp_rs.Rust.Vec.{Vec}
use afxdp_rs.Buf.Mmap.{BufMmap}
use afxdp_rs.Area.{MmapArea, MmapAreaOptions, MmapError}
use afxdp_rs.Area
use afxdp_rs.Area.Unmap.{new-sized}
use afxdp_rs.Umem.{Umem, UmemCompletionQueue, UmemFillQueue, UmemNewError}
use afxdp_rs.Umem
use afxdp_rs.Socket.{Socket, SocketOptions}
use afxdp_rs.Extern.Sys.{Sys}
use afxdp_rs.Ownership.Counts.{get_item, item_of_strong}
use afxdp_rs.Ownership.{Ref, Handle, Heap, target, drop_area, drop_umem, rx, tx}
use afxdp_rs.Ownership.Make.{
  Made, new_area, map_area, new_umem, make_umem_on, make_umem, new_socket, make_on, make_socket,
  make_rx, make_tx,
}
use afxdp_rs.Ownership.Invariant.{IsHeap, IsHeap-world}
use afxdp_rs.Ownership.Fresh.{add_area, add_umem, add_socket}
use afxdp_rs.Ownership.Release.{area_returns, umem_returns}

module _ {sys : Sys} (checks : Bool) (rest : List Ref) where
  -- The heap is in order, with what the call handed out held as well.
  abbrev pub Keeps : Made sys → Type 0
  Keeps (handles, h) = IsHeap checks (map target handles ++ rest) h

  pub map_area-Keeps :
      {T : Type 0} (default : T) (h : Heap sys) (buf_num buf_len : ℕ) (options : MmapAreaOptions)
      (made : Made sys)
      → IsHeap checks rest h
      → map_area sys checks default h buf_num buf_len options ≡ value made
      → Keeps made
  unfolding map_area target
  map_area-Keeps {T} default h buf_num buf_len options made v e =
      let ((r, world), called, e) =
        >>=-eq-value (Area.new checks default sys h.world buf_num buf_len options) _ e in
      subst Keeps (value_eq e) (built r world called)
    where
      built :
          (r : Result (MmapArea × Vec (BufMmap T)) MmapError) (world : sys.World)
          → Area.new checks default sys h.world buf_num buf_len options ≡ value (r, world)
          → Keeps (new_area sys checks (record h { world = world }) r)
      built (ok (a, bufs)) world called =
          add_area h rest world a
            (new-sized checks default sys h.world world buf_num buf_len options a bufs called).1 v
      built (err e) world called = IsHeap-world world v

  pub make_umem-Keeps :
      (r : ℕ) (h : Heap sys) (comp_size fill_size : ℕ) (made : Made sys)
      → IsHeap checks (Ref.area r ∷ rest) h
      → make_umem sys checks r h comp_size fill_size ≡ value made
      → Keeps made
  unfolding make_umem make_umem_on target
  make_umem-Keeps r h comp_size fill_size made v e =
      let (a, found) = item_of_strong h.areas r (ground (arith, v.counted.areas_owned r)) in
      let on_a : make_umem_on sys checks r h comp_size fill_size (some a) ≡ value made =
        subst (λ o. make_umem_on sys checks r h comp_size fill_size o ≡ value made) found e in
      let ((res, world), called, e) =
        >>=-eq-value (Umem.new sys checks h.world a comp_size fill_size) _ on_a in
      built res world e
    where
      built :
          (res : Result (Umem × UmemCompletionQueue sys.comp × UmemFillQueue sys.fill) UmemNewError)
          (world : sys.World)
          → new_umem sys checks r (record h { world = world }) res ≡ value made
          → Keeps made
      built (ok (u, completion, fill)) world e =
          subst Keeps (value_eq e) (add_umem h rest world (record { area = r; umem = u }) v)
      built (err x) world e =
          let (t, dropped, e) =
            >>=-eq-value (drop_area sys checks r (record h { world = world })) _ e in
          let (t', same, kept) =
            area_returns rest r (record h { world = world }) (IsHeap-world world v) in
          subst Keeps (value_eq e) (subst (IsHeap checks rest) (value_eq (sym same ∙ dropped)) kept)

  -- A socket call, whichever halves it makes.
  pub make_on-Keeps :
      (u : ℕ) (halves : ℕ → List Handle) (twins : ℕ)
      (call : Umem → Outcome (Option Socket × sys.World)) (h : Heap sys) (made : Made sys)
      → ((k : ℕ) → length (halves k) ≡ twins)
      → ((k : ℕ) → map target (halves k) ≡ replicate twins (Ref.socket k))
      → IsHeap checks (Ref.umem u ∷ rest) h
      → make_on sys checks u halves call h (get_item h.umems u) ≡ value made
      → Keeps made
  unfolding make_on new_socket target
  make_on-Keeps u halves twins call h made count same v e =
      let (o, found) = item_of_strong h.umems u (ground (arith, v.counted.umems_owned u)) in
      let on_o : make_on sys checks u halves call h (some o) ≡ value made =
        subst (λ x. make_on sys checks u halves call h x ≡ value made) found e in
      let ((res, world), called, e) = >>=-eq-value (call o.umem) _ on_o in built res world e
    where
      built :
          (res : Option Socket) (world : sys.World)
          → new_socket sys checks u halves (record h { world = world }) res ≡ value made
          → Keeps made
      built (some s) world e =
          let k = length h.sockets in
          let added =
            add_socket h rest world (record { umem = u; socket = s }) (suc twins) (omega arith) v in
          subst Keeps (value_eq e) (rw (count k, same k) added)
      built none world e =
          let (t, dropped, e) =
            >>=-eq-value (drop_umem sys checks u (record h { world = world })) _ e in
          let (t', same, kept) =
            umem_returns rest u (record h { world = world }) (IsHeap-world world v) in
          subst Keeps (value_eq e) (subst (IsHeap checks rest) (value_eq (sym same ∙ dropped)) kept)

  pub make_socket-Keeps :
      (u : ℕ) (h : Heap sys) (name : List ℕ) (queue rx_size tx_size : ℕ) (options : SocketOptions)
      (made : Made sys)
      → IsHeap checks (Ref.umem u ∷ rest) h
      → make_socket sys checks u h name queue rx_size tx_size options ≡ value made
      → Keeps made
  unfolding make_socket target
  make_socket-Keeps u h name queue rx_size tx_size options made v e =
      make_on-Keeps u (λ k. rx k ∷ tx k ∷ []) 2 _ h made (λ k. refl) (λ k. refl) v e

  pub make_rx-Keeps :
      (u : ℕ) (h : Heap sys) (name : List ℕ) (queue rx_size : ℕ) (options : SocketOptions)
      (made : Made sys)
      → IsHeap checks (Ref.umem u ∷ rest) h
      → make_rx sys checks u h name queue rx_size options ≡ value made
      → Keeps made
  unfolding make_rx target
  make_rx-Keeps u h name queue rx_size options made v e =
      make_on-Keeps u (λ k. rx k ∷ []) 1 _ h made (λ k. refl) (λ k. refl) v e

  pub make_tx-Keeps :
      (u : ℕ) (h : Heap sys) (name : List ℕ) (queue tx_size : ℕ) (options : SocketOptions)
      (made : Made sys)
      → IsHeap checks (Ref.umem u ∷ rest) h
      → make_tx sys checks u h name queue tx_size options ≡ value made
      → Keeps made
  unfolding make_tx target
  make_tx-Keeps u h name queue tx_size options made v e =
      make_on-Keeps u (λ k. tx k ∷ []) 1 _ h made (λ k. refl) (λ k. refl) v e
