-- ===== src/Umem/Fill.antt =====
-- src/umem.rs: what `UmemFillQueue::fill` does, over a ring that keeps its laws.
use mathlib.Core.List.{reverse, reverse-cons}
use afxdp_rs.Prelude.{
  ℕ, zero, suc, ◌^◌, ◌≤◌, ◌<◌, min, ◌≡◌, refl, ap, sym, ◌∙◌, Bool, List, [], ◌∷◌, ◌++◌, map,
  append-nil, append_assoc, length, length-map, arith, ℕ_discrete, ==_of_eq, ==_of_ne,
  nil_of_length, split_end,
}
use afxdp_rs.Rust.{value, ok, add, ◌>>=◌}
use afxdp_rs.Rust.Vec.{Vec, pop-append}
use afxdp_rs.Rust.Vec
use afxdp_rs.Buf.Mmap.{BufMmap}
use afxdp_rs.Extern.Prod.{ProdRing, ProdLaws}
use afxdp_rs.Ring.{IndexSafe, next, add-next, IndexSafe-next}
use afxdp_rs.Ring.Stores.{Storing, store-Storing, reserve-Storing, submit-Storing}
use afxdp_rs.Umem.{UmemFillQueue, fill_loop, fill}

module _ {T : Type 0} where
  abbrev addrs : List (BufMmap T) → List ℕ
  addrs = map (λ b. b.addr)

-- What a call does that returns `n`: the buffers `outs` leave the end of the vector, the last one first,
-- and their addresses are queued for the kernel in that order.
pub record Filled {T : Type 0} {p : ProdRing ℕ} (l : ProdLaws p) (q q' : UmemFillQueue p)
    (bufs bufs' : Vec (BufMmap T)) (n : ℕ) : Type 0 where
  pub outs : List (BufMmap T)
  pub count : length outs ≡ n
  pub items : bufs.items ≡ bufs'.items ++ reverse outs
  pub capacity : bufs'.capacity ≡ bufs.capacity
  pub sent : l.sent q'.fq ≡ l.sent q.fq ++ addrs outs
  pub submitted : l.slots q'.fq ≡ []
  pub umem : q'.umem ≡ q.umem

module _ (p : ProdRing ℕ) (checks : Bool) {T : Type 0} where
  -- The last buffer, and those before it, where the last `outs` are to go.
  reverse-last :
      (keep outs : List (BufMmap T)) (b : BufMmap T)
      → keep ++ reverse (b ∷ outs) ≡ (keep ++ reverse outs) ++ b ∷ []
  reverse-last keep outs b =
      ap (λ (xs : List (BufMmap T)). keep ++ xs) (reverse-cons b outs)
      ∙ sym (append_assoc keep (reverse outs) (b ∷ []))

  fill_step :
      (n idx : ℕ) (fq : p.Ring) (keep : List (BufMmap T)) (b : BufMmap T) (size : ℕ)
      → fill_loop p checks fq (suc n) idx (record { items = keep ++ b ∷ []; capacity = size }) ≡ (
          add checks 32 idx 1 >>= λ idx'.
          fill_loop p checks
            (p.store fq idx b.addr)
            n
            idx'
            (record { items = keep; capacity = size }))
  unfolding fill_loop
  fill_step n idx fq keep b size = rw (pop-append keep b size)

  fill_loop_lem :
      (l : ProdLaws p) (outs : List (BufMmap T)) (n idx : ℕ) (fq : p.Ring)
      (stored free sent : List ℕ) (keep : List (BufMmap T)) (size : ℕ)
      → length outs ≡ n
      → length free ≡ n
      → idx < 2 ^ 32
      → IndexSafe checks idx n
      → Storing p l fq idx stored free sent
      → (fq' : p.Ring) × (idx' : ℕ) × (fill_loop p checks fq n idx
            (record { items = keep ++ reverse outs; capacity = size })
          ≡ value (fq', record { items = keep; capacity = size }))
        × Storing p l fq' idx' (stored ++ addrs outs) [] sent
  unfolding fill_loop
  fill_loop_lem l [] zero idx fq stored [] sent keep size e f lt safe st =
      (fq, idx, rw (append-nil keep), rw (append-nil stored) st)
  fill_loop_lem l [] zero idx fq stored (s ∷ free) sent keep size e f lt safe st =
      absurd (omega arith)
  fill_loop_lem l [] (suc n) idx fq stored free sent keep size e f lt safe st = absurd (omega arith)
  fill_loop_lem l (b ∷ outs) zero idx fq stored free sent keep size e f lt safe st =
      absurd (omega arith)
  fill_loop_lem l (b ∷ outs) (suc n) idx fq stored [] sent keep size e f lt safe st =
      absurd (omega arith)
  fill_loop_lem l (b ∷ outs) (suc n) idx fq stored (s ∷ free) sent keep size e f lt safe st =
      let (fq', idx', r, st') =
        fill_loop_lem l outs n (next idx) (p.store fq idx b.addr) (stored ++ b.addr ∷ []) free sent
          keep size (omega arith) (omega arith) (omega arith) (IndexSafe-next checks idx n safe)
          (store-Storing p l fq idx stored free sent s b.addr st) in
      (
        fq',
        idx',
        rw
            (
              reverse-last keep outs b,
              fill_step n idx fq (keep ++ reverse outs) b size,
              add-next checks idx n lt safe,
            )
            r,
        rw (append_assoc stored (b.addr ∷ []) (addrs outs)) at st',
      )

  module _ (l : ProdLaws p) (q : UmemFillQueue p) (bufs : Vec (BufMmap T)) where
    -- A call that is given no slot changes nothing that the kernel or the caller sees.
    idle-Filled :
        (fq : p.Ring)
        → l.sent fq ≡ l.sent q.fq
        → l.slots fq ≡ []
        → Filled l q (record q { fq = fq }) bufs bufs 0
    idle-Filled fq same none_left = record {
      outs = [];
      count = refl;
      items = sym (append-nil bufs.items);
      capacity = refl;
      sent = same ∙ sym (append-nil (l.sent q.fq));
      submitted = none_left;
      umem = refl;
    }

    -- The loop over `n` slots, and the submission of what it stored.
    loop-Filled :
        (n idx : ℕ) (fq : p.Ring)
        → n ≤ Vec.len bufs
        → length (l.slots fq) ≡ n
        → idx < 2 ^ 32
        → IndexSafe checks idx n
        → Storing p l fq idx [] (l.slots fq) (l.sent q.fq)
        → (fq' : p.Ring) × (bufs' : Vec (BufMmap T)) × (fill_loop p checks fq n idx bufs
            ≡ value (fq', bufs'))
          × Filled l q (record q { fq = p.submit fq' n }) bufs bufs' n
    loop-Filled n idx fq le left lt safe st =
        let (keep, outs, split, count) = split_end bufs.items n le in
        let (fq', idx', r, st') =
          fill_loop_lem l outs n idx fq [] (l.slots fq) (l.sent q.fq) keep bufs.capacity count left
            lt safe st in
        let (sent, submitted) =
          submit-Storing p l fq' idx' n (addrs outs) (l.sent q.fq) st'
            (length-map outs _ ∙ count) in
        let from = λ (xs : List (BufMmap T)).
          fill_loop p checks fq n idx (record { items = xs; capacity = bufs.capacity }) in
        (
          fq',
          record { items = keep; capacity = bufs.capacity },
          ap from split ∙ r,
          record {
            outs = outs;
            count = count;
            items = split;
            capacity = refl;
            sent = sent;
            submitted = submitted;
            umem = refl;
          },
        )

    -- With nothing reserved from an earlier call and indices that do not overflow, `fill` returns the
    -- number of slots it was given, which is at most the number of buffers and at most `batch_size`,
    -- without a panic: that many buffers leave the end of the vector, their addresses are submitted in
    -- the order in which they left, and nothing stays reserved.
    pub fill-Filled :
        (batch_size : ℕ)
        → l.slots q.fq ≡ []
        → let (n, idx, fq) = p.reserve q.fq (min (Vec.len bufs) batch_size) 0 in
          IndexSafe checks idx n
          → (q' : UmemFillQueue p) × (bufs' : Vec (BufMmap T)) × (fill p checks q bufs batch_size
              ≡ value (ok n, q', bufs'))
            × Filled l q q' bufs bufs' n
            × (n ≤ min (Vec.len bufs) batch_size)
    unfolding fill
    fill-Filled batch_size fresh safe =
        let batch = min (Vec.len bufs) batch_size in
        let (n, idx, fq) = p.reserve q.fq batch 0 in
        let le = l.reserve_le q.fq batch 0 in
        let left = l.reserve_slots q.fq batch 0 fresh in
        elim (ℕ_discrete batch 0) [
          | yes empty ↦
              let none_given : n ≡ 0 = omega (arith, le) in
              (
                q,
                bufs,
                rw (==_of_eq _ _ empty, none_given),
                rw none_given (idle-Filled q.fq refl fresh),
                le,
              )
          | no some_wanted ↦ elim (ℕ_discrete n 0) [
            | yes none_given ↦ (
              record q { fq = fq },
              bufs,
              rw (==_of_ne _ _ some_wanted, none_given) (unfold fill_loop in refl),
              rw none_given (
                  idle-Filled fq (l.reserve_sent q.fq batch 0)
                    (nil_of_length (l.slots fq) (left ∙ none_given))),
              le,
            )
            | no some_given ↦
                let (fq', bufs', r, filled) =
                  loop-Filled n idx fq (omega (arith, le)) left
                    (l.reserve_idx q.fq batch 0 (omega arith)) safe
                    (reserve-Storing p l q.fq batch fresh (omega arith)) in
                (
                  record q { fq = p.submit fq' n },
                  bufs',
                  rw (==_of_ne _ _ some_wanted, r, ==_of_ne _ _ some_given),
                  filled,
                  le,
                )
          ]
        ]
