-- ===== src/Tests/Owners.antt =====
-- The theorems on the owners of areas, umems and sockets at concrete inputs: one area, a umem on it and a socket on that.
use afxdp_rs.Prelude.{ℕ, ◌≡◌, refl, true, [], ◌∷◌, arith}
use afxdp_rs.Rust.{value, ok}
use afxdp_rs.Rust.Vec.{Vec}
use afxdp_rs.Buf.Mmap.{BufMmap}
use afxdp_rs.Area.New.{Frames}
use afxdp_rs.Util.{is_pow_of_two}
use afxdp_rs.Area.{get_buf_num, get_buf_len}
use afxdp_rs.Area
use afxdp_rs.Umem
use afxdp_rs.Socket
use afxdp_rs.Ownership.{Ref, area, cq, fq, socket, rx, tx, Heap, target, drop_handle}
use afxdp_rs.Ownership.Counts.{made, strong_at, get_item, set_strong}
use afxdp_rs.Ownership.Make.{map_area, make_umem, make_socket}
use afxdp_rs.Ownership.Reach.{
  Program, empty, Reach, here, next, map_new, register, open_both, discard,
}
use afxdp_rs.Ownership.Safe.{held_safe, IsIntact, dropped_once}
use afxdp_rs.Ownership.Invariant.{tally, to_area, to_umem, to_socket, InOrder}
use afxdp_rs.Ownership.Unmapped.{bufs_unmapped}
use afxdp_rs.Tests.Sample as Sample
use afxdp_rs.Tests.Sample.{sys, small_pages, copying}

abbrev pub running : Program sys
running = record {
  held = socket 0 ∷ rx 0 ∷ tx 0 ∷ cq 0 ∷ fq 0 ∷ [];
  heap = record {
    areas = record { strong = 1; item = Sample.area } ∷ [];
    umems = record { strong = 3; item = record { area = 0; umem = Sample.umem } } ∷ [];
    sockets = record { strong = 3; item = record { umem = 0; socket = Sample.socket } } ∷ [];
    log = [];
    world = 0;
  };
}

abbrev mapped : Program sys
mapped = record {
  held = area 0 ∷ [];
  heap = record {
    areas = record { strong = 1; item = Sample.area } ∷ [];
    umems = [];
    sockets = [];
    log = [];
    world = 0;
  };
}

mapped-Reach : Reach sys true {T = ℕ} 0 0 mapped
mapped-Reach =
    let (bufs, made, frames, called, dropped) =
      bufs_unmapped {T = ℕ} 0 true sys 0 small_pages Sample.area
        (record { room = omega arith; top = omega arith }) refl (omega arith) in
    next here (map_new 4 2048 small_pages called)

running-Reach : Reach sys true {T = ℕ} 0 0 running
unfolding make_umem make_socket get_item Umem.new Socket.new is_pow_of_two get_buf_num get_buf_len
running-Reach =
    next (next mapped-Reach (register [] [] 0 64 32 refl refl))
      (open_both [] (cq 0 ∷ fq 0 ∷ []) 0 (108 ∷ 111 ∷ []) 0 64 32 copying refl refl)

held_safe_example :
    IsIntact running.heap (target (tx 0))
    × ((h : Heap sys) × (drop_handle sys true (tx 0) running.heap ≡ value h)
        × Reach sys true {T = ℕ} 0 0
            (record { held = socket 0 ∷ rx 0 ∷ cq 0 ∷ fq 0 ∷ []; heap = h }))
held_safe_example = held_safe (socket 0 ∷ rx 0 ∷ []) (cq 0 ∷ fq 0 ∷ []) (tx 0) running-Reach refl

-- The queues go first, and a half of the socket last.
abbrev over : Program sys
over = record {
  held = [];
  heap = record {
    areas = record { strong = 0; item = Sample.area } ∷ [];
    umems = record { strong = 0; item = record { area = 0; umem = Sample.umem } } ∷ [];
    sockets = record { strong = 0; item = record { umem = 0; socket = Sample.socket } } ∷ [];
    log = Ref.area 0 ∷ Ref.umem 0 ∷ Ref.socket 0 ∷ [];
    world = 0;
  };
}

over-Reach : Reach sys true {T = ℕ} 0 0 over
unfolding drop_handle strong_at get_item set_strong Area.drop Umem.drop Socket.drop
over-Reach =
    next
      (next
        (next
          (next
            (next running-Reach
              (discard (socket 0 ∷ rx 0 ∷ tx 0 ∷ []) (fq 0 ∷ []) (cq 0) refl refl))
            (discard (socket 0 ∷ rx 0 ∷ tx 0 ∷ []) [] (fq 0) refl refl))
          (discard [] (rx 0 ∷ tx 0 ∷ []) (socket 0) refl refl))
        (discard [] (tx 0 ∷ []) (rx 0) refl refl))
      (discard [] [] (tx 0) refl refl)

dropped_once_example :
    ((r : ℕ)
      → tally to_area (Ref.area 0 ∷ Ref.umem 0 ∷ Ref.socket 0 ∷ []) r ≡ made over.heap.areas r)
    × ((u : ℕ) → tally to_umem over.heap.log u ≡ made over.heap.umems u)
    × ((s : ℕ) → tally to_socket over.heap.log s ≡ made over.heap.sockets s)
    × InOrder (get_item over.heap.umems) (get_item over.heap.sockets) over.heap.log
dropped_once_example = dropped_once over-Reach refl

bufs_unmapped_example :
    (bufs : Vec (BufMmap ℕ)) × (Area.new true 0 sys 0 4 2048 small_pages
      ≡ value (ok (Sample.area, bufs), 0))
    × Frames 0 Sample.area 0 bufs.items
    × (map_area sys true {T = ℕ} 0 (empty 0).heap 4 2048 small_pages
        ≡ value (area 0 ∷ [], mapped.heap))
    × ((h' : Heap sys) × (drop_handle sys true (area 0) mapped.heap ≡ value h')
        × (h'.log ≡ Ref.area 0 ∷ [])
        × (h'.world ≡ 0))
bufs_unmapped_example =
    bufs_unmapped 0 true sys 0 small_pages Sample.area
      (record { room = omega arith; top = omega arith }) refl (omega arith)
