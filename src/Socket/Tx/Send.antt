-- ===== src/Socket/Tx/Send.antt =====
-- src/socket.rs: what `SocketTx::try_send` does, over a ring and a deque that keep their laws.
use afxdp_rs.Prelude.{
  ℕ, zero, suc, ◌^◌, ◌≤◌, ◌<◌, min, ◌≡◌, refl, ap, sym, ◌∙◌, ◌⊎◌, Bool, false, List, [], ◌∷◌, ◌++◌,
  map, append-nil, append_assoc, map-append, length, take, drop, length-map, length-take, arith,
  ℕ_discrete, ==_of_eq, ==_of_ne, nil_of_length, take-append-drop,
}
use afxdp_rs.Prelude.Int.{is_neg}
use afxdp_rs.Rust.{value, ok}
use afxdp_rs.Buf.Mmap.{BufMmap}
use afxdp_rs.Extern.Cons.{XdpDesc}
use afxdp_rs.Extern.Prod.{ProdRing, ProdLaws}
use afxdp_rs.Extern.Deque.{ArrayDeque, DequeLaws}
use afxdp_rs.Extern.Sys.{Sys}
use afxdp_rs.Ring.{IndexSafe, next, add-next, IndexSafe-next}
use afxdp_rs.Ring.Stores.{Storing, store-Storing, reserve-Storing, submit-Storing}
use afxdp_rs.Socket.{SocketTx}
use afxdp_rs.Socket.Tx.{send_loop, try_send}
use afxdp_rs.Socket.Tx.Wakeup.{Tolerated, wakeup_returns}

-- What a descriptor tells the kernel of a packet, and what a buffer says of it.
abbrev pub wire : XdpDesc → ℕ × ℕ
wire e = (e.addr, e.len)

abbrev pub packet : {T : Type 0} → BufMmap T → ℕ × ℕ
packet b = (b.addr, b.len)

module _ (p : ProdRing XdpDesc) (checks : Bool) {T : Type 0} (d : ArrayDeque (BufMmap T))
    (l : ProdLaws p) (dl : DequeLaws d) where
  send_loop_lem :
      (outs rest : List (BufMmap T)) (n idx : ℕ) (tx : p.Ring) (bufs : d.Deque)
      (stored free sent : List XdpDesc)
      → length outs ≡ n
      → length free ≡ n
      → dl.items bufs ≡ outs ++ rest
      → idx < 2 ^ 32
      → IndexSafe checks idx n
      → Storing p l tx idx stored free sent
      → (tx' : p.Ring) × (bufs' : d.Deque) × (idx' : ℕ) × (descs : List XdpDesc) × (send_loop p
            checks d tx n idx bufs
          ≡ value (tx', bufs'))
        × (dl.items bufs' ≡ rest)
        × (map wire descs ≡ map packet outs)
        × Storing p l tx' idx' (stored ++ descs) [] sent
  unfolding send_loop
  send_loop_lem [] rest zero idx tx bufs stored [] sent e f q lt safe st =
      (tx, bufs, idx, [], refl, q, refl, rw (append-nil stored) st)
  send_loop_lem [] rest zero idx tx bufs stored (s ∷ free) sent e f q lt safe st =
      absurd (omega arith)
  send_loop_lem [] rest (suc n) idx tx bufs stored free sent e f q lt safe st = absurd (omega arith)
  send_loop_lem (b ∷ outs) rest zero idx tx bufs stored free sent e f q lt safe st =
      absurd (omega arith)
  send_loop_lem (b ∷ outs) rest (suc n) idx tx bufs stored [] sent e f q lt safe st =
      absurd (omega arith)
  send_loop_lem (b ∷ outs) rest (suc n) idx tx bufs stored (s ∷ free) sent e f q lt safe st =
      let desc : XdpDesc = record (p.slot tx idx) { addr = b.addr; len = b.len } in
      let (tx', bufs', idx', descs, r, items, wires, st') =
        send_loop_lem outs rest n (next idx) (p.store tx idx desc) (d.pop_front bufs).1
          (stored ++ desc ∷ []) free sent (omega arith) (omega arith)
          (dl.pop_front_items bufs b (outs ++ rest) q) (omega arith)
          (IndexSafe-next checks idx n safe)
          (store-Storing p l tx idx stored free sent s desc st) in
      (
        tx',
        bufs',
        idx',
        desc ∷ descs,
        rw (dl.pop_front_some bufs b (outs ++ rest) q, add-next checks idx n lt safe) r,
        items,
        ap (◌∷◌ (b.addr, b.len)) wires,
        rw (append_assoc stored (desc ∷ []) descs) at st',
      )

module _ (sys : Sys) {T : Type 0} (d : ArrayDeque (BufMmap T)) (l : ProdLaws (sys.tx))
    (dl : DequeLaws d) where
  -- What a call does that returns `n`: the first `n` buffers leave the deque, and their addresses and
  -- lengths are queued for the kernel in the same order.
  pub record Sent (s s' : SocketTx sys.tx) (bufs bufs' : d.Deque) (n : ℕ) : Type 0 where
    pub outs : List (BufMmap T)
    pub count : length outs ≡ n
    pub items : dl.items bufs ≡ outs ++ dl.items bufs'
    pub queued : map wire (l.sent s'.tx) ≡ map wire (l.sent s.tx) ++ map packet outs
    pub submitted : l.slots s'.tx ≡ []
    pub socket : s'.socket ≡ s.socket
    pub fd : s'.fd ≡ s.fd

  module _ (checks : Bool) (s : SocketTx sys.tx) (bufs : d.Deque) where
    -- A call that is given no slot changes nothing that the kernel or the caller sees.
    idle-Sent :
        (tx : sys.tx.Ring)
        → l.sent tx ≡ l.sent s.tx
        → l.slots tx ≡ []
        → Sent s (record s { tx = tx }) bufs bufs 0
    idle-Sent tx same none_left = record {
      outs = [];
      count = refl;
      items = refl;
      queued = ap (map wire) same ∙ sym (append-nil (map wire (l.sent s.tx)));
      submitted = none_left;
      socket = refl;
      fd = refl;
    }

    -- The loop over `n` slots, and the submission of what it stored.
    loop-Sent :
        (n idx : ℕ) (tx : sys.tx.Ring)
        → n ≤ length (dl.items bufs)
        → length (l.slots tx) ≡ n
        → idx < 2 ^ 32
        → IndexSafe checks idx n
        → Storing sys.tx l tx idx [] (l.slots tx) (l.sent s.tx)
        → (tx' : sys.tx.Ring) × (bufs' : d.Deque) × (send_loop sys.tx checks d tx n idx bufs
            ≡ value (tx', bufs'))
          × Sent s (record s { tx = sys.tx.submit tx' n }) bufs bufs' n
    loop-Sent n idx tx le left lt safe st =
        let all = dl.items bufs in
        let count : length (take n all) ≡ n = omega (arith, length-take n all) in
        let split : all ≡ take n all ++ drop n all = sym (take-append-drop n all) in
        let (tx', bufs', idx', descs, r, items, wires, st') =
          send_loop_lem sys.tx checks d l dl (take n all) (drop n all) n idx tx bufs [] (l.slots tx)
            (l.sent s.tx) count left split lt safe st in
        let made : length descs ≡ n =
          sym (length-map descs wire) ∙ ap length wires ∙ length-map (take n all) packet ∙ count in
        let (sent, submitted) = submit-Storing sys.tx l tx' idx' n descs (l.sent s.tx) st' made in
        (
          tx',
          bufs',
          r,
          record {
            outs = take n all;
            count = count;
            items = split ∙ ap (λ (xs : List (BufMmap T)). take n all ++ xs) (sym items);
            queued =
                ap (map wire) sent
                ∙ map-append wire (l.sent s.tx) descs
                ∙ ap (λ (ws : List (ℕ × ℕ)). map wire (l.sent s.tx) ++ ws) wires;
            submitted = submitted;
            socket = refl;
            fd = refl;
          },
        )

    -- With nothing reserved from an earlier call, indices that do not overflow, and a `sendto` that works
    -- or fails with an `errno` that is passed over, `try_send` returns the number of slots it was given,
    -- which is at most the number of buffers and at most `batch_size`, without a panic: that many buffers
    -- leave the front of the deque, their addresses and lengths are submitted in deque order, and nothing
    -- stays reserved.
    pub try_send-Sent :
        (world : sys.World) (batch_size : ℕ)
        → l.slots s.tx ≡ []
        → let (world', ret) = sys.sendto world s.fd sys.msg_dontwait in
          let (n, idx, tx) = sys.tx.reserve s.tx (min (length (dl.items bufs)) batch_size) 0 in
          (is_neg ret ≡ false) ⊎ Tolerated sys (sys.errno world')
          → IndexSafe checks idx n
          → (s' : SocketTx sys.tx) × (bufs' : d.Deque) × (world'' : sys.World) × (try_send sys
                checks d world s bufs batch_size
              ≡ value (ok n, s', bufs', world''))
            × Sent s s' bufs bufs' n
            × (n ≤ min (length (dl.items bufs)) batch_size)
    unfolding try_send
    try_send-Sent world batch_size fresh works safe =
        let batch = min (length (dl.items bufs)) batch_size in
        let (n, idx, tx) = sys.tx.reserve s.tx batch 0 in
        let le = l.reserve_le s.tx batch 0 in
        let left = l.reserve_slots s.tx batch 0 fresh in
        elim (ℕ_discrete batch 0) [
          | yes empty ↦
              let none_given : n ≡ 0 = omega (arith, le) in
              (
                s,
                bufs,
                world,
                rw (dl.len_lem, ==_of_eq _ _ empty, none_given),
                rw none_given (idle-Sent s.tx refl fresh),
                le,
              )
          | no some_wanted ↦ elim (ℕ_discrete n 0) [
            | yes none_given ↦
                let s' : SocketTx sys.tx = record s { tx = tx } in
                let (woken, world'', w) = wakeup_returns sys world s' works in
                (
                  s',
                  bufs,
                  world'',
                  rw (dl.len_lem, ==_of_ne _ _ some_wanted, none_given) (unfold send_loop in rw w),
                  rw none_given (
                      idle-Sent tx (l.reserve_sent s.tx batch 0)
                        (nil_of_length (l.slots tx) (left ∙ none_given))),
                  le,
                )
            | no some_given ↦
                let (tx', bufs', r, sent) =
                  loop-Sent n idx tx (omega (arith, le)) left
                    (l.reserve_idx s.tx batch 0 (omega arith)) safe
                    (reserve-Storing sys.tx l s.tx batch fresh (omega arith)) in
                let s' : SocketTx sys.tx = record s { tx = sys.tx.submit tx' n } in
                let (woken, world'', w) = wakeup_returns sys world s' works in
                (
                  s',
                  bufs',
                  world'',
                  rw (dl.len_lem, ==_of_ne _ _ some_wanted, r, ==_of_ne _ _ some_given, w),
                  sent,
                  le,
                )
          ]
        ]
