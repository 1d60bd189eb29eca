-- ===== src/Umem/Service.antt =====
-- src/umem.rs: what `UmemCompletionQueue::service` does, over a ring that keeps its laws.
use afxdp_rs.Prelude.{
  ℕ, zero, suc, ◌+◌, ◌-◌, ◌^◌, ◌≤◌, ◌<◌, min, ◌≡◌, refl, sym, ◌∙◌, Bool, List, [], ◌∷◌, ◌++◌, map,
  append-nil, append_assoc, length, take, drop, length-append, arith, ℕ_discrete, ==_of_eq,
  ==_of_ne,
}
use afxdp_rs.Rust.{value, ok}
use afxdp_rs.Rust.Vec.{Vec, IsVec, push_room}
use afxdp_rs.Rust.Vec
use afxdp_rs.Rust.Fits.{sub_fits}
use afxdp_rs.Buf.Mmap.{BufMmap}
use afxdp_rs.Area.{get_ptr, get_buf_len, af_xdp_reserved, buf_at}
use afxdp_rs.Extern.Cons.{ConsRing, ConsLaws}
use afxdp_rs.Ring.{IndexSafe, next, add-next, IndexSafe-next}
use afxdp_rs.Ring.Reads.{Reads, peek-Reads, peek-length, peek-release, peek-nothing}
use afxdp_rs.Umem.{UmemCompletionQueue, service_loop, service}

-- The most entries that a call asks the ring for.
abbrev pub wanted : {T : Type 0} → Vec (BufMmap T) → ℕ → ℕ
wanted bufs batch_size = min (bufs.capacity - Vec.len bufs) batch_size

module _ (c : ConsRing ℕ) {T : Type 0} (default : T) where
  -- The buffer made for an address of the completion ring: empty, over the rest of its frame.
  abbrev pub completed : UmemCompletionQueue c → ℕ → BufMmap T
  completed q addr =
      buf_at (get_ptr q.umem.area) addr (get_buf_len q.umem.area - af_xdp_reserved) 0 default

  -- What a call does that returns `n`.
  pub record Serviced (l : ConsLaws c) (q q' : UmemCompletionQueue c) (bufs bufs' : Vec (BufMmap T))
      (n : ℕ) : Type 0 where
    pub items : bufs'.items ≡ bufs.items ++ map (completed q) (take n (l.ready q.cq))
    pub capacity : bufs'.capacity ≡ bufs.capacity
    pub ready : l.ready q'.cq ≡ drop n (l.ready q.cq)
    pub released : l.held q'.cq ≡ []
    pub umem : q'.umem ≡ q.umem

  module _ (checks : Bool) where
    service_loop_lem :
        (q : UmemCompletionQueue c) (available : ℕ) (addrs : List ℕ) (n idx : ℕ)
        (bufs : Vec (BufMmap T))
        → length addrs ≡ n
        → idx < 2 ^ 32
        → IndexSafe checks idx n
        → Reads c q.cq idx addrs
        → Vec.len bufs + n ≤ bufs.capacity
        → service_loop c checks default q available n idx bufs
          ≡ value (record {
            items =
                bufs.items
                ++ map (λ addr. buf_at (get_ptr q.umem.area) addr available 0 default) addrs;
            capacity = bufs.capacity;
          })
    unfolding service_loop
    service_loop_lem q available [] zero idx bufs e lt safe reads room =
        ground (arith, append-nil bufs.items)
    service_loop_lem q available [] (suc n) idx bufs e lt safe reads room = absurd (omega arith)
    service_loop_lem q available (addr ∷ addrs) zero idx bufs e lt safe reads room =
        absurd (omega arith)
    service_loop_lem q available (addr ∷ addrs) (suc n) idx bufs e lt safe reads room =
        let f = λ (a : ℕ). buf_at (get_ptr q.umem.area) a available 0 default in
        rw (add-next checks idx n lt safe, reads.0, push_room bufs (f addr) (omega arith))
          (service_loop_lem q available addrs n (next idx)
              (record { items = bufs.items ++ f addr ∷ []; capacity = bufs.capacity }) (omega arith)
              (omega arith) (IndexSafe-next checks idx n safe) reads.1
              (omega (arith, length-append bufs.items (f addr ∷ [])))
            ∙ rw (append_assoc bufs.items (f addr ∷ []) (map f addrs)))

    -- `service` asks for no more than the vector has room for. With nothing held from an earlier call, room
    -- for the reserved bytes in a frame, and indices that do not overflow, it returns the number of entries
    -- it was handed without a panic: it appends one empty buffer for each address, in ring order, never
    -- allocates, and releases exactly what it peeked.
    pub service-Serviced :
        (l : ConsLaws c) (q : UmemCompletionQueue c) (bufs : Vec (BufMmap T)) (batch_size : ℕ)
        → IsVec bufs
        → af_xdp_reserved ≤ get_buf_len q.umem.area
        → l.held q.cq ≡ []
        → let (n, idx, cq) = c.peek q.cq (wanted bufs batch_size) 0 in
          IndexSafe checks idx n
          → (q' : UmemCompletionQueue c) × (bufs' : Vec (BufMmap T)) × (service c checks default q
                bufs batch_size
              ≡ value (ok n, q', bufs'))
            × Serviced l q q' bufs bufs' n
            × (n ≤ wanted bufs batch_size)
    unfolding service
    service-Serviced l q bufs batch_size vec room fresh safe =
        let (n, idx, cq) = c.peek q.cq (wanted bufs batch_size) 0 in
        elim (ℕ_discrete n 0) [
          | yes zero_ready ↦
              let (held, ready) =
                peek-nothing c l q.cq (wanted bufs batch_size) 0 fresh zero_ready in
              (
                record q { cq = cq },
                bufs,
                rw
                    (
                      sub_fits checks 64 bufs.capacity (Vec.len bufs) vec,
                      ==_of_eq _ _ zero_ready,
                      zero_ready,
                    )
                    refl,
                record {
                  items = rw zero_ready (sym (append-nil bufs.items));
                  capacity = refl;
                  ready = rw zero_ready ready;
                  released = held;
                  umem = refl;
                },
                l.peek_le q.cq (wanted bufs batch_size) 0,
              )
          | no some_ready ↦
              let (held, ready) = peek-release c l q.cq (wanted bufs batch_size) 0 fresh in
              let addrs = take n (l.ready q.cq) in
              (
                record q { cq = c.release cq n },
                record { items = bufs.items ++ map (completed q) addrs; capacity = bufs.capacity },
                rw
                    (
                      sub_fits checks 64 bufs.capacity (Vec.len bufs) vec,
                      ==_of_ne _ _ some_ready,
                      sub_fits checks 64 (get_buf_len q.umem.area) af_xdp_reserved room,
                      service_loop_lem (record q { cq = cq })
                          (get_buf_len q.umem.area - af_xdp_reserved) addrs n idx bufs
                          (peek-length c l q.cq (wanted bufs batch_size) 0)
                          (l.peek_idx q.cq (wanted bufs batch_size) 0 (omega arith)) safe
                          (peek-Reads c l q.cq (wanted bufs batch_size) 0 (omega arith))
                          (omega (arith, l.peek_le q.cq (wanted bufs batch_size) 0)),
                    )
                    refl,
                record {
                  items = refl;
                  capacity = refl;
                  ready = ready;
                  released = held;
                  umem = refl;
                },
                l.peek_le q.cq (wanted bufs batch_size) 0,
              )
        ]
