-- ===== src/Socket/Rx/Recv.antt =====
-- src/socket.rs: what `SocketRx::try_recv` does, over a ring and a deque that keep their laws.
use afxdp_rs.Prelude.{
  ℕ, zero, suc, ◌+◌, ◌-◌, ◌^◌, ◌≤◌, ◌<◌, min, ◌≡◌, refl, ap, sym, ◌∙◌, Bool, List, [], ◌∷◌, ◌++◌,
  map, append-nil, append_assoc, length, take, drop, length-append, arith, ℕ_discrete, ==_of_eq,
  ==_of_ne, All, All-take,
}
use afxdp_rs.Rust.{value, ok}
use afxdp_rs.Rust.Fits.{sub_fits, try_into_fits}
use afxdp_rs.Buf.Mmap.{BufMmap}
use afxdp_rs.Area.{get_ptr, get_buf_len, af_xdp_reserved, buf_at}
use afxdp_rs.Extern.Cons.{ConsRing, ConsLaws, XdpDesc}
use afxdp_rs.Extern.Deque.{ArrayDeque, DequeLaws, pending_len}
use afxdp_rs.Ring.{IndexSafe, next, add-next, IndexSafe-next}
use afxdp_rs.Ring.Reads.{Reads, peek-Reads, peek-length, peek-release, peek-nothing}
use afxdp_rs.Socket.{SocketRx}
use afxdp_rs.Socket.Rx.{recv_loop, try_recv}

-- The length of a received packet fits `BufMmap`'s 16-bit length.
abbrev pub IsShort : XdpDesc → Type 0
IsShort desc = desc.len < 2 ^ 16

module _ (c : ConsRing XdpDesc) {T : Type 0} (d : ArrayDeque (BufMmap T)) where
  -- The buffer made for a descriptor of the receive ring.
  abbrev pub received : SocketRx c → T → XdpDesc → BufMmap T
  received s user desc =
      buf_at (get_ptr s.socket.umem.area) desc.addr
        (get_buf_len s.socket.umem.area - af_xdp_reserved) desc.len user

  -- The most entries that a call asks the ring for.
  abbrev pub wanted : DequeLaws d → d.Deque → ℕ → ℕ
  wanted dl bufs batch_size = min (pending_len - length (dl.items bufs)) batch_size

  -- What a call does that returns `n`.
  pub record Received (l : ConsLaws c) (dl : DequeLaws d) (s s' : SocketRx c) (user : T)
      (bufs bufs' : d.Deque) (n : ℕ) : Type 0 where
    pub items : dl.items bufs' ≡ dl.items bufs ++ map (received s user) (take n (l.ready s.rx))
    pub ready : l.ready s'.rx ≡ drop n (l.ready s.rx)
    pub released : l.held s'.rx ≡ []
    pub socket : s'.socket ≡ s.socket
    pub fd : s'.fd ≡ s.fd

  module _ (checks : Bool) (dl : DequeLaws d) where
    recv_loop_lem :
        (s : SocketRx c) (available : ℕ) (user : T) (descs : List XdpDesc) (n idx : ℕ)
        (bufs : d.Deque)
        → length descs ≡ n
        → All IsShort descs
        → idx < 2 ^ 32
        → IndexSafe checks idx n
        → Reads c s.rx idx descs
        → length (dl.items bufs) + n ≤ pending_len
        → (bufs' : d.Deque) × (recv_loop c checks d s available user n idx bufs ≡ value bufs')
          × (dl.items bufs'
              ≡ dl.items bufs
                ++ map (λ e. buf_at (get_ptr s.socket.umem.area) e.addr available e.len user) descs)
    unfolding recv_loop
    recv_loop_lem s available user [] zero idx bufs e short lt safe reads room =
        (bufs, refl, sym (append-nil (dl.items bufs)))
    recv_loop_lem s available user [] (suc n) idx bufs e short lt safe reads room =
        absurd (omega arith)
    recv_loop_lem s available user (desc ∷ descs) zero idx bufs e short lt safe reads room =
        absurd (omega arith)
    recv_loop_lem s available user (desc ∷ descs) (suc n) idx bufs e short lt safe reads room =
        let b = buf_at (get_ptr s.socket.umem.area) desc.addr available desc.len user in
        let bufs₁ = (d.push_back bufs b).1 in
        let pushed = dl.push_back_items bufs b (omega arith) in
        let (bufs', r, items) =
          recv_loop_lem s available user descs n (next idx) bufs₁ (omega arith) short.1
            (omega arith) (IndexSafe-next checks idx n safe) reads.1
            (omega (arith, ap length pushed, length-append (dl.items bufs) (b ∷ []))) in
        (
          bufs',
          rw
              (
                reads.0,
                try_into_fits 16 desc.len short.0,
                dl.push_back_none bufs b (omega arith),
                add-next checks idx n lt safe,
              )
              r,
          items ∙ rw pushed (append_assoc (dl.items bufs) (b ∷ []) _),
        )

    -- `try_recv` asks for no more than the deque has room for. With nothing held from an earlier call, room
    -- for the reserved bytes in a frame, packets of 16-bit length and indices that do not overflow, it
    -- returns the number of packets that it was handed without a panic (so "there should be space" is never
    -- reached): it appends one buffer for each descriptor, in ring order, drops none that was there, and
    -- releases exactly what it peeked.
    pub try_recv-Received :
        (l : ConsLaws c) (s : SocketRx c) (bufs : d.Deque) (batch_size : ℕ) (user : T)
        → af_xdp_reserved ≤ get_buf_len s.socket.umem.area
        → l.held s.rx ≡ []
        → All IsShort (l.ready s.rx)
        → let (n, idx, rx) = c.peek s.rx (wanted dl bufs batch_size) 0 in
          IndexSafe checks idx n
          → (s' : SocketRx c) × (bufs' : d.Deque) × (try_recv c checks d s bufs batch_size user
              ≡ value (ok n, s', bufs'))
            × Received l dl s s' user bufs bufs' n
            × (n ≤ wanted dl bufs batch_size)
    unfolding try_recv
    try_recv-Received l s bufs batch_size user room fresh short safe =
        let most = wanted dl bufs batch_size in
        let (n, idx, rx) = c.peek s.rx most 0 in
        let le = l.peek_le s.rx most 0 in
        let space = sub_fits checks 64 pending_len (length (dl.items bufs)) (dl.fits bufs) in
        elim (ℕ_discrete n 0) [
          | yes none_ready ↦
              let (held, ready) = peek-nothing c l s.rx most 0 fresh none_ready in
              (
                record s { rx = rx },
                bufs,
                rw (dl.capacity_lem, dl.len_lem, space, ==_of_eq _ _ none_ready, none_ready),
                record {
                  items = rw none_ready (sym (append-nil (dl.items bufs)));
                  ready = rw none_ready ready;
                  released = held;
                  socket = refl;
                  fd = refl;
                },
                le,
              )
          | no some_ready ↦
              let (held, ready) = peek-release c l s.rx most 0 fresh in
              let (bufs', r, items) =
                recv_loop_lem (record s { rx = rx })
                  (get_buf_len s.socket.umem.area - af_xdp_reserved) user (take n (l.ready s.rx)) n
                  idx bufs (peek-length c l s.rx most 0) (All-take IsShort n (l.ready s.rx) short)
                  (l.peek_idx s.rx most 0 (omega arith)) safe
                  (peek-Reads c l s.rx most 0 (omega arith)) (omega (arith, le, dl.fits bufs)) in
              (
                record s { rx = c.release rx n },
                bufs',
                rw (
                  dl.capacity_lem,
                  dl.len_lem,
                  space,
                  ==_of_ne _ _ some_ready,
                  sub_fits checks 64 (get_buf_len s.socket.umem.area) af_xdp_reserved room,
                  r,
                ),
                record { items = items; ready = ready; released = held; socket = refl; fd = refl },
                le,
              )
        ]
