-- ===== src/Ownership/Fewer.antt =====
-- src/mmap_area.rs, src/umem.rs and src/socket.rs: the counts after one owner is given up.
use afxdp_rs.Prelude.{ℕ, ◌-◌, ◌<◌, ◌≡◌, ◌≢◌, some, List, ◌∷◌, arith}
use afxdp_rs.Extern.Sys.{Sys}
use afxdp_rs.Ownership.Counts.{
  strong_at, get_item, set_strong, strong-set_strong, made-set_strong, owners-set_some,
  owners-set_none,
}
use afxdp_rs.Ownership.{OwnedUmem, OwnedSocket, Ref, area, umem, socket, Heap}
use afxdp_rs.Ownership.Invariant.{IsCounted}

module _ {sys : Sys} (h : Heap sys) (rest : List Ref) where
  -- An area that keeps another owner.
  pub less_area :
      (r : ℕ)
      → IsCounted (area r ∷ rest) h
      → strong_at h.areas r ≢ 1
      → IsCounted rest (record h { areas = set_strong h.areas r (strong_at h.areas r - 1) })
  less_area r v more =
      let n = strong_at h.areas r - 1 in
      let pos : 0 < strong_at h.areas r = ground (arith, v.areas_owned r) in
      record {
        areas_owned = λ q. ground (arith, v.areas_owned q, strong-set_strong h.areas r n q pos);
        umems_owned = λ q. omega (arith, v.umems_owned q);
        sockets_owned = λ q. omega (arith, v.sockets_owned q);
        areas_once = λ q. ground (
          arith,
          v.areas_once q,
          strong-set_strong h.areas r n q pos,
          made-set_strong h.areas r n q,
        );
        umems_once = v.umems_once;
        sockets_once = v.sockets_once;
      }

  -- The last owner of an area goes: the area is dropped.
  pub last_area :
      (r : ℕ) (world : sys.World)
      → IsCounted (area r ∷ rest) h
      → strong_at h.areas r ≡ 1
      → IsCounted rest (record h {
        areas = set_strong h.areas r (strong_at h.areas r - 1);
        log = area r ∷ h.log;
        world = world;
      })
  last_area r world v last =
      let n = strong_at h.areas r - 1 in
      let pos : 0 < strong_at h.areas r = omega arith in
      record {
        areas_owned = λ q. ground (arith, v.areas_owned q, strong-set_strong h.areas r n q pos);
        umems_owned = λ q. omega (arith, v.umems_owned q);
        sockets_owned = λ q. omega (arith, v.sockets_owned q);
        areas_once = λ q. ground (
          arith,
          v.areas_once q,
          strong-set_strong h.areas r n q pos,
          made-set_strong h.areas r n q,
        );
        umems_once = λ q. omega (arith, v.umems_once q);
        sockets_once = λ q. omega (arith, v.sockets_once q);
      }

  pub less_umem :
      (u : ℕ)
      → IsCounted (umem u ∷ rest) h
      → strong_at h.umems u ≢ 1
      → IsCounted rest (record h { umems = set_strong h.umems u (strong_at h.umems u - 1) })
  less_umem u v more =
      let n = strong_at h.umems u - 1 in
      let pos : 0 < strong_at h.umems u = ground (arith, v.umems_owned u) in
      record {
        areas_owned = λ q. omega (
          arith,
          v.areas_owned q,
          owners-set_some (λ (o : OwnedUmem). o.area) h.umems u n q pos (omega arith),
        );
        umems_owned = λ q. ground (arith, v.umems_owned q, strong-set_strong h.umems u n q pos);
        sockets_owned = λ q. omega (arith, v.sockets_owned q);
        areas_once = v.areas_once;
        umems_once = λ q. ground (
          arith,
          v.umems_once q,
          strong-set_strong h.umems u n q pos,
          made-set_strong h.umems u n q,
        );
        sockets_once = v.sockets_once;
      }

  -- The last owner of a umem goes: the umem is dropped, and the area is left to be given up.
  pub last_umem :
      (u : ℕ) (o : OwnedUmem) (world : sys.World)
      → IsCounted (umem u ∷ rest) h
      → strong_at h.umems u ≡ 1
      → get_item h.umems u ≡ some o
      → IsCounted (area o.area ∷ rest) (record h {
        umems = set_strong h.umems u (strong_at h.umems u - 1);
        log = umem u ∷ h.log;
        world = world;
      })
  last_umem u o world v last e =
      let n = strong_at h.umems u - 1 in
      let pos : 0 < strong_at h.umems u = omega arith in
      let zeroed : n ≡ 0 = omega arith in
      record {
        areas_owned = λ q. rw zeroed (
            omega (
              arith,
              v.areas_owned q,
              owners-set_none (λ (o : OwnedUmem). o.area) h.umems u q pos e,
            ));
        umems_owned = λ q. ground (arith, v.umems_owned q, strong-set_strong h.umems u n q pos);
        sockets_owned = λ q. omega (arith, v.sockets_owned q);
        areas_once = λ q. omega (arith, v.areas_once q);
        umems_once = λ q. ground (
          arith,
          v.umems_once q,
          strong-set_strong h.umems u n q pos,
          made-set_strong h.umems u n q,
        );
        sockets_once = λ q. omega (arith, v.sockets_once q);
      }

  pub less_socket :
      (s : ℕ)
      → IsCounted (socket s ∷ rest) h
      → strong_at h.sockets s ≢ 1
      → IsCounted rest (record h { sockets = set_strong h.sockets s (strong_at h.sockets s - 1) })
  less_socket s v more =
      let n = strong_at h.sockets s - 1 in
      let pos : 0 < strong_at h.sockets s = ground (arith, v.sockets_owned s) in
      record {
        areas_owned = λ q. omega (arith, v.areas_owned q);
        umems_owned = λ q. omega (
          arith,
          v.umems_owned q,
          owners-set_some (λ (o : OwnedSocket). o.umem) h.sockets s n q pos (omega arith),
        );
        sockets_owned =
            λ q. ground (arith, v.sockets_owned q, strong-set_strong h.sockets s n q pos);
        areas_once = v.areas_once;
        umems_once = v.umems_once;
        sockets_once = λ q. ground (
          arith,
          v.sockets_once q,
          strong-set_strong h.sockets s n q pos,
          made-set_strong h.sockets s n q,
        );
      }

  pub last_socket :
      (s : ℕ) (o : OwnedSocket) (world : sys.World)
      → IsCounted (socket s ∷ rest) h
      → strong_at h.sockets s ≡ 1
      → get_item h.sockets s ≡ some o
      → IsCounted (umem o.umem ∷ rest) (record h {
        sockets = set_strong h.sockets s (strong_at h.sockets s - 1);
        log = socket s ∷ h.log;
        world = world;
      })
  last_socket s o world v last e =
      let n = strong_at h.sockets s - 1 in
      let pos : 0 < strong_at h.sockets s = omega arith in
      let zeroed : n ≡ 0 = omega arith in
      record {
        areas_owned = λ q. omega (arith, v.areas_owned q);
        umems_owned = λ q. rw zeroed (
            omega (
              arith,
              v.umems_owned q,
              owners-set_none (λ (o : OwnedSocket). o.umem) h.sockets s q pos e,
            ));
        sockets_owned =
            λ q. ground (arith, v.sockets_owned q, strong-set_strong h.sockets s n q pos);
        areas_once = λ q. omega (arith, v.areas_once q);
        umems_once = λ q. omega (arith, v.umems_once q);
        sockets_once = λ q. ground (
          arith,
          v.sockets_once q,
          strong-set_strong h.sockets s n q pos,
          made-set_strong h.sockets s n q,
        );
      }
