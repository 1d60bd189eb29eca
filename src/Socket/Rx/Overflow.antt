-- ===== src/Socket/Rx/Overflow.antt =====
-- src/socket.rs: when `SocketRx::try_recv` overflows its ring index, in a build with overflow checks.
use afxdp_rs.Prelude.{
  ℕ, zero, suc, ◌+◌, ◌-◌, ◌^◌, ◌≤◌, ◌<◌, ◌≡◌, ◌↔◌, ◌≢◌, ap, true, List, [], ◌∷◌, inr, length, take,
  length-append, arith, dec_lt, ==_of_ne, All, All-take,
}
use afxdp_rs.Rust.{panic, overflow, add}
use afxdp_rs.Rust.Fits.{sub_fits, try_into_fits}
use afxdp_rs.Buf.Mmap.{BufMmap}
use afxdp_rs.Area.{get_ptr, get_buf_len, af_xdp_reserved, buf_at}
use afxdp_rs.Extern.Cons.{ConsRing, ConsLaws, XdpDesc}
use afxdp_rs.Extern.Deque.{ArrayDeque, DequeLaws, pending_len}
use afxdp_rs.Ring.{next, add-next}
use afxdp_rs.Ring.Reads.{Reads, peek-Reads, peek-length}
use afxdp_rs.Socket.{SocketRx}
use afxdp_rs.Socket.Rx.{recv_loop, try_recv}
use afxdp_rs.Socket.Rx.Recv.{IsShort, wanted, try_recv-Received}

add-overflow : (idx : ℕ) → 2 ^ 32 ≤ idx + 1 → add true 32 idx 1 ≡ panic overflow
add-overflow idx h = ground arith

module _ (c : ConsRing XdpDesc) {T : Type 0} (d : ArrayDeque (BufMmap T)) (dl : DequeLaws d) where
  recv_loop-overflow :
      (s : SocketRx c) (available : ℕ) (user : T) (descs : List XdpDesc) (n idx : ℕ)
      (bufs : d.Deque)
      → length descs ≡ n
      → All IsShort descs
      → idx < 2 ^ 32
      → 2 ^ 32 ≤ idx + n
      → Reads c s.rx idx descs
      → length (dl.items bufs) + n ≤ pending_len
      → recv_loop c true d s available user n idx bufs ≡ panic overflow
  unfolding recv_loop
  recv_loop-overflow s available user descs zero idx bufs e short lt over reads room =
      absurd (omega arith)
  recv_loop-overflow s available user [] (suc n) idx bufs e short lt over reads room =
      absurd (omega arith)
  recv_loop-overflow s available user (desc ∷ descs) (suc n) idx bufs e short lt over reads room =
      let b = buf_at (get_ptr s.socket.umem.area) desc.addr available desc.len user in
      let bufs₁ = (d.push_back bufs b).1 in
      let pushed = dl.push_back_items bufs b (omega arith) in
      elim (dec_lt (idx + 1) (2 ^ 32)) [
        | yes fits ↦
            let deeper =
              recv_loop-overflow s available user descs n (next idx) bufs₁ (omega arith) short.1
                (omega arith) (omega arith) reads.1
                (omega (arith, ap length pushed, length-append (dl.items bufs) (b ∷ []))) in
            rw
              (
                reads.0,
                try_into_fits 16 desc.len short.0,
                dl.push_back_none bufs b (omega arith),
                add-next true idx 0 lt (inr fits),
              )
              deeper
        | no over_now ↦ rw (
          reads.0,
          try_into_fits 16 desc.len short.0,
          dl.push_back_none bufs b (omega arith),
          add-overflow idx (omega arith),
        )
      ]

  -- In a build with overflow checks, with nothing held from an earlier call, room for the reserved bytes in a
  -- frame and packets of 16-bit length, `try_recv` panics exactly if the indices of the packets that it is
  -- handed come to 2^32 or past it.
  pub try_recv-overflow_iff :
      (l : ConsLaws c) (s : SocketRx c) (bufs : d.Deque) (batch_size : ℕ) (user : T)
      → af_xdp_reserved ≤ get_buf_len s.socket.umem.area
      → l.held s.rx ≡ []
      → All IsShort (l.ready s.rx)
      → let (n, idx, rx) = c.peek s.rx (wanted c d dl bufs batch_size) 0 in
        (try_recv c true d s bufs batch_size user ≡ panic overflow) ↔ (2 ^ 32 ≤ idx + n)
  unfolding try_recv
  try_recv-overflow_iff l s bufs batch_size user room fresh short =
      let most = wanted c d dl bufs batch_size in
      let (n, idx, rx) = c.peek s.rx most 0 in
      let le = l.peek_le s.rx most 0 in
      let lt = l.peek_idx s.rx most 0 (omega arith) in
      let space = sub_fits true 64 pending_len (length (dl.items bufs)) (dl.fits bufs) in
      (
        λ e. elim (dec_lt (idx + n) (2 ^ 32)) [
          | yes fits ↦
              let (s', bufs', r, done, few) =
                try_recv-Received c d true dl l s bufs batch_size user room fresh short
                  (inr fits) in
              absurd (cc (e, r))
          | no over ↦ omega arith
        ],
        λ over.
            let some_ready : n ≢ 0 = λ e. absurd (omega (arith, e, over, lt)) in
            rw (
              dl.capacity_lem,
              dl.len_lem,
              space,
              ==_of_ne _ _ some_ready,
              sub_fits true 64 (get_buf_len s.socket.umem.area) af_xdp_reserved room,
              recv_loop-overflow (record s { rx = rx })
                  (get_buf_len s.socket.umem.area - af_xdp_reserved) user (take n (l.ready s.rx)) n
                  idx bufs (peek-length c l s.rx most 0) (All-take IsShort n (l.ready s.rx) short)
                  lt over (peek-Reads c l s.rx most 0 (omega arith))
                  (omega (arith, le, dl.fits bufs)),
            ),
      )
