-- ===== src/Tests/Prod.antt =====
-- A producer ring with at most 2048 slots reserved at a time.
use afxdp_rs.Prelude.{
  ℕ, ◌+◌, ◌-◌, ◌%◌, ◌^◌, ◌<◌, min, ◌≡◌, refl, ap, ◌∙◌, List, [], ◌++◌, length, take, drop, set,
  replicate, arith, length-take, length-drop, length-set, length-replicate, take_all,
}
use afxdp_rs.Prelude.Int.{pos}
use afxdp_rs.Extern.Prod.{ProdRing, ProdLaws}

pub record Slots (E : Type 0) : Type 0 where
  pub sent : List E
  pub reserved : List E
  pub start : ℕ
  pub wakeup : ℕ

module _ {E : Type 0} (filler : E) where
  abbrev pub slots_of : Slots E → List E
  slots_of r = take 2048 r.reserved

  abbrev pub slots : ProdRing E
  slots = record {
    Ring = Slots E;
    blank = record { sent = []; reserved = []; start = 0; wakeup = 0 };
    reserve = λ r nb idx.
        let n = min 2048 nb in
        (n, r.start % 2 ^ 32, record r { reserved = slots_of r ++ replicate n filler });
    slot = λ r idx. filler;
    store = λ r idx e. record r {
      reserved = set (slots_of r) ((idx + 2 ^ 32 - r.start % 2 ^ 32) % 2 ^ 32) e;
    };
    submit = λ r nb. record r {
      sent = r.sent ++ take nb (slots_of r);
      reserved = drop nb (slots_of r);
      start = r.start + nb;
    };
    needs_wakeup = λ r. pos r.wakeup;
  }

  abbrev pub slots_laws : ProdLaws slots
  slots_laws = record {
    sent = λ r. r.sent;
    slots = slots_of;
    first = λ r. r.start % 2 ^ 32;
    reserve_le = λ r nb idx. omega arith;
    reserve_idx = λ r nb idx h. omega arith;
    reserve_sent = λ r nb idx. refl;
    reserve_slots = λ r nb idx e.
        let all : slots_of r ++ replicate (min 2048 nb) filler ≡ replicate (min 2048 nb) filler =
          ap (λ (xs : List E). xs ++ replicate (min 2048 nb) filler) e in
        ap (λ (xs : List E). length (take 2048 xs)) all
        ∙ omega (
          arith,
          length-take 2048 (replicate (min 2048 nb) filler),
          length-replicate (min 2048 nb) filler,
        );
    reserve_first = λ r nb idx e h. refl;
    store_sent = λ r idx e. refl;
    store_first = λ r idx e. refl;
    store_slots = λ r i e h.
        let short : i < 2048 = omega (arith, length-take 2048 r.reserved) in
        let first = r.start % 2 ^ 32 in
        let back : ((first + i) % 2 ^ 32 + 2 ^ 32 - first) % 2 ^ 32 ≡ i = omega arith in
        take_all (set (slots_of r) (((first + i) % 2 ^ 32 + 2 ^ 32 - first) % 2 ^ 32) e) 2048 (
          omega (
            arith,
            length-set (slots_of r) (((first + i) % 2 ^ 32 + 2 ^ 32 - first) % 2 ^ 32) e,
            length-take 2048 r.reserved,
          ))
        ∙ ap (λ (k : ℕ). set (slots_of r) k e) back;
    submit_sent = λ r nb h. refl;
    submit_slots = λ r nb h.
        take_all (drop nb (slots_of r)) 2048
          (omega (arith, length-drop nb (slots_of r), length-take 2048 r.reserved));
  }
