-- ===== src/Ownership/Fresh.antt =====
-- src/mmap_area.rs, src/umem.rs and src/socket.rs: a new area, umem or socket keeps the counts and the order.
use afxdp_rs.Prelude.{
  ℕ, zero, suc, replicate, ◌+◌, ◌<◌, ◌≡◌, inl, inr, Bool, Option, some, List, [], ◌∷◌, ◌++◌, length,
  arith, Bool-cases, ◌==◌, if◌then◌else◌,
}
use afxdp_rs.Rust.{value, mul}
use afxdp_rs.Area.{MmapArea}
use afxdp_rs.Extern.Sys.{Sys}
use afxdp_rs.Ownership.Counts.{
  Counted, get_item, alive, made, made-le, strong-append, strong-length, item-append, made-append,
  made-length, owners-append,
}
use afxdp_rs.Ownership.{OwnedUmem, OwnedSocket, Ref, area, umem, socket, Heap}
use afxdp_rs.Ownership.Invariant.{IsHeap, InOrder, tally, tally-append, to_area, to_umem, to_socket}

-- What is built on something that was not dropped yet leaves the order as it is.
module _ (k : ℕ) (umems umems' : ℕ → Option OwnedUmem) (sockets : ℕ → Option OwnedSocket)
    (o : OwnedUmem) (added : (u : ℕ) → umems' u ≡ (if k == u then some o else umems u)) where
  order_umem :
      (log : List Ref)
      → tally to_area log o.area ≡ 0
      → InOrder umems sockets log
      → InOrder umems' sockets log
  order_umem [] new v = tt
  order_umem (x ∷ log) new v = (
    (
      λ u p e gone. elim (Bool-cases (k == u)) [
        | inl same ↦ absurd (ground (arith, added u))
        | inr other ↦ v.0.0 u p (ground (arith, added u)) gone
      ],
      v.0.1,
    ),
    order_umem log (omega arith) v.1,
  )

module _ (k : ℕ) (umems : ℕ → Option OwnedUmem) (sockets sockets' : ℕ → Option OwnedSocket)
    (o : OwnedSocket) (added : (s : ℕ) → sockets' s ≡ (if k == s then some o else sockets s)) where
  order_socket :
      (log : List Ref)
      → tally to_umem log o.umem ≡ 0
      → InOrder umems sockets log
      → InOrder umems sockets' log
  order_socket [] new v = tt
  order_socket (x ∷ log) new v = (
    (
      v.0.0,
      λ u p e gone. elim (Bool-cases (k == u)) [
        | inl same ↦ absurd (ground (arith, added u))
        | inr other ↦ v.0.1 u p (ground (arith, added u)) gone
      ],
    ),
    order_socket log (omega arith) v.1,
  )

-- A new value with an owner is counted once more among those alive, and among those made.
once_new {ℓ} :
    {A : Type ℓ} (cs : List (Counted A)) (c : Counted A) (q gone : ℕ)
    → 0 < c.strong
    → alive cs q + gone ≡ made cs q
    → alive (cs ++ c ∷ []) q + gone ≡ made (cs ++ c ∷ []) q
once_new cs c q gone h e =
    ground (arith, strong-append cs c q, made-append cs c q, strong-length cs q, made-length cs q)

tally_twins :
    (s n q : ℕ)
    → (tally to_area (replicate n (socket s)) q ≡ 0)
      × (tally to_umem (replicate n (socket s)) q ≡ 0)
      × (tally to_socket (replicate n (socket s)) q ≡ (if s == q then n else 0))
tally_twins s zero q = ground arith
tally_twins s (suc n) q = ground (arith, tally_twins s n q)

module _ {sys : Sys} {checks : Bool} (h : Heap sys) (held : List Ref) (world : sys.World) where
  pub add_area :
      (a : MmapArea) {size : ℕ}
      → mul checks 64 a.buf_num a.buf_len ≡ value size
      → IsHeap checks held h
      → IsHeap checks
          (area (length h.areas) ∷ held)
          (record h { areas = h.areas ++ record { strong = 1; item = a } ∷ []; world = world })
  add_area a {size} e v =
      let c : Counted MmapArea = record { strong = 1; item = a } in
      let k = v.counted in
      record {
        counted = record {
          areas_owned = λ q. ground (arith, k.areas_owned q, strong-append h.areas c q);
          umems_owned = λ q. omega (arith, k.umems_owned q);
          sockets_owned = λ q. omega (arith, k.sockets_owned q);
          areas_once = λ q. once_new h.areas c q _ (omega arith) (k.areas_once q);
          umems_once = k.umems_once;
          sockets_once = k.sockets_once;
        };
        in_order = v.in_order;
        sized = λ q b f. elim (Bool-cases (length h.areas == q)) [
          | inl same ↦ (size, ground (arith, item-append h.areas c q))
          | inr other ↦ v.sized q b (ground (arith, item-append h.areas c q))
        ];
      }

  pub add_umem :
      (o : OwnedUmem)
      → IsHeap checks (area o.area ∷ held) h
      → IsHeap checks
          (umem (length h.umems) ∷ umem (length h.umems) ∷ umem (length h.umems) ∷ held)
          (record h { umems = h.umems ++ record { strong = 3; item = o } ∷ []; world = world })
  add_umem o v =
      let c : Counted OwnedUmem = record { strong = 3; item = o } in
      let k = v.counted in
      record {
        counted = record {
          areas_owned = λ q.
              ground
                (arith, k.areas_owned q, owners-append (λ (o : OwnedUmem). o.area) h.umems c q);
          umems_owned = λ q. ground (arith, k.umems_owned q, strong-append h.umems c q);
          sockets_owned = λ q. omega (arith, k.sockets_owned q);
          areas_once = k.areas_once;
          umems_once = λ q. once_new h.umems c q _ (omega arith) (k.umems_once q);
          sockets_once = k.sockets_once;
        };
        in_order =
            order_umem (length h.umems) (get_item h.umems) (get_item (h.umems ++ c ∷ []))
              (get_item h.sockets) o (item-append h.umems c) h.log
              (ground (arith, k.areas_once o.area, k.areas_owned o.area, made-le h.areas o.area))
              v.in_order;
        sized = v.sized;
      }

  -- The socket, and its `n` owners.
  pub add_socket :
      (o : OwnedSocket) (n : ℕ)
      → 0 < n
      → IsHeap checks (umem o.umem ∷ held) h
      → IsHeap checks
          (replicate n (socket (length h.sockets)) ++ held)
          (record h { sockets = h.sockets ++ record { strong = n; item = o } ∷ []; world = world })
  add_socket o n pos v =
      let c : Counted OwnedSocket = record { strong = n; item = o } in
      let k = v.counted in
      let s = length h.sockets in
      let twins : List Ref = replicate n (socket s) in
      record {
        counted = record {
          areas_owned = λ q.
              omega
                (arith, k.areas_owned q, tally-append to_area twins held q, (tally_twins s n q).0);
          umems_owned = λ q. ground (
            arith,
            k.umems_owned q,
            tally-append to_umem twins held q,
            tally_twins s n q,
            owners-append (λ (o : OwnedSocket). o.umem) h.sockets c q,
          );
          sockets_owned = λ q. ground (
            arith,
            k.sockets_owned q,
            tally-append to_socket twins held q,
            tally_twins s n q,
            strong-append h.sockets c q,
          );
          areas_once = k.areas_once;
          umems_once = k.umems_once;
          sockets_once = λ q. once_new h.sockets c q _ pos (k.sockets_once q);
        };
        in_order =
            order_socket s (get_item h.umems) (get_item h.sockets) (get_item (h.sockets ++ c ∷ []))
              o (item-append h.sockets c) h.log
              (ground (arith, k.umems_once o.umem, k.umems_owned o.umem, made-le h.umems o.umem))
              v.in_order;
        sized = v.sized;
      }
