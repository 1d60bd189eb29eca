-- ===== src/Pool/Contract.antt =====
-- src/buf_pool.rs: what a client may rely on, which does not include the order of the buffers, and
-- src/buf_pool_vec.rs and benches/buf_pool.rs against it.
use afxdp_rs.Prelude.{
  ℕ, ◌+◌, ◌≤◌, min, ◌≡◌, ◌↔◌, refl, ◌∙◌, true, List, [], ◌∷◌, length, arith, ==_iff, length-append,
}
use afxdp_rs.Rust.Vec.{Vec}
use afxdp_rs.Rust.Vec
use afxdp_rs.Bag.{Bag, bag, ◌⊕◌, bag-append, Moves, Moves-bag, bag_comm}
use afxdp_rs.Pool.{BufPool, BufPoolVec, getput}
use afxdp_rs.Pool
use afxdp_rs.Pool.Moves.{get-Moves, put-Moves}

-- One transfer: `n` buffers go from one side to the other and none is lost, doubled or made up. The
-- sides are given by their contents and their sizes.
pub record Transfer {B : Type 0} (from from' to to' : Bag B) (size size' room room' n : ℕ)
    : Type 0 where
  pub conserved : from' ⊕ to' ≡ from ⊕ to
  pub taken : size' + n ≡ size
  pub given : room' ≡ room + n

pub record BufPoolLaws {P B : Type 0} (o : BufPool P B) (contents : P → Bag B) : Type 0 where
  pub get_count : (p : P) (bufs : Vec B) (num : ℕ) → (o.get p bufs num).0 ≡ min num (o.len p)
  pub get_transfer :
      (p : P) (bufs : Vec B) (num : ℕ)
      → let (n, bufs', p') = o.get p bufs num in
        Transfer
          (contents p)
          (contents p')
          (bag bufs.items)
          (bag bufs'.items)
          (o.len p)
          (o.len p')
          (Vec.len bufs)
          (Vec.len bufs')
          n
  pub put_count : (p : P) (bufs : Vec B) (num : ℕ) → (o.put p bufs num).0 ≡ min num (Vec.len bufs)
  pub put_transfer :
      (p : P) (bufs : Vec B) (num : ℕ)
      → let (n, bufs', p') = o.put p bufs num in
        Transfer
          (bag bufs.items)
          (bag bufs'.items)
          (contents p)
          (contents p')
          (Vec.len bufs)
          (Vec.len bufs')
          (o.len p)
          (o.len p')
          n
  pub put_buf_count : (p : P) (b : B) → (o.put_buf p b).0 ≡ 1
  pub put_buf_contents : (p : P) (b : B) → contents (o.put_buf p b).1 ≡ contents p ⊕ bag (b ∷ [])
  pub put_buf_len : (p : P) (b : B) → o.len (o.put_buf p b).1 ≡ o.len p + 1
  pub is_empty_iff : (p : P) → (o.is_empty p ≡ true) ↔ (o.len p ≡ 0)

abbrev pub buf_pool_vec : (B : Type 0) → BufPool (BufPoolVec B) B
buf_pool_vec B = record {
  get = Pool.get;
  put = Pool.put;
  put_buf = Pool.put_buf;
  len = Pool.len;
  is_empty = Pool.is_empty;
}

module _ {B : Type 0} where
  Moves-Transfer :
      (from from' to to' : List B) (n : ℕ)
      → Moves from from' to to' n
      → Transfer
          (bag from)
          (bag from')
          (bag to)
          (bag to')
          (length from)
          (length from')
          (length to)
          (length to')
          n
  Moves-Transfer from from' to to' n m = record {
    conserved = Moves-bag from from' to to' n m;
    taken = rw (m.1, length-append from' m.0) (omega (arith, m.3));
    given = rw (m.2, length-append to m.0) (omega (arith, m.3));
  }

  get-Transfer :
      (p : BufPoolVec B) (bufs : Vec B) (num : ℕ)
      → let (n, bufs', p') = Pool.get p bufs num in
        Transfer
          (bag p.bufs.items)
          (bag p'.bufs.items)
          (bag bufs.items)
          (bag bufs'.items)
          (Pool.len p)
          (Pool.len p')
          (Vec.len bufs)
          (Vec.len bufs')
          n
  unfolding Pool.len Pool.get
  get-Transfer p bufs num = Moves-Transfer _ _ _ _ _ (get-Moves p bufs num).1

  put-Transfer :
      (p : BufPoolVec B) (bufs : Vec B) (num : ℕ)
      → let (n, bufs', p') = Pool.put p bufs num in
        Transfer
          (bag bufs.items)
          (bag bufs'.items)
          (bag p.bufs.items)
          (bag p'.bufs.items)
          (Vec.len bufs)
          (Vec.len bufs')
          (Pool.len p)
          (Pool.len p')
          n
  unfolding Pool.len Pool.put
  put-Transfer p bufs num = Moves-Transfer _ _ _ _ _ (put-Moves p bufs num).1

-- `BufPoolVec` keeps the contract of `BufPool`, whatever the buffers: `get` and `put` transfer the lesser
-- of the number asked for and the number there is, return that number, and lose, double or make up no
-- buffer; `put_buf` adds its one buffer; `is_empty` holds exactly at length 0.
pub buf_pool_vec-BufPoolLaws : (B : Type 0) → BufPoolLaws (buf_pool_vec B) (λ p. bag p.bufs.items)
unfolding Pool.get Pool.put Pool.put_buf Pool.len Pool.is_empty
buf_pool_vec-BufPoolLaws B = record {
  get_count = λ p bufs num. refl;
  get_transfer = get-Transfer;
  put_count = λ p bufs num. refl;
  put_transfer = put-Transfer;
  put_buf_count = λ p b. refl;
  put_buf_contents = λ p b. bag-append p.bufs.items (b ∷ []);
  put_buf_len = λ p b. omega (arith, length-append p.bufs.items (b ∷ []));
  is_empty_iff = λ p. ==_iff (Vec.len p.bufs) 0;
}

-- Over any pool that keeps the contract, `getput` loses, doubles or makes up no buffer, and leaves the
-- caller with none if it asks for at least all that the caller and the pool have.
pub getput-conserves :
    {P B : Type 0} (o : BufPool P B) (contents : P → Bag B) (l : BufPoolLaws o contents) (p : P)
    (bufs : Vec B) (num : ℕ)
    → let (bufs', p') = getput o p bufs num in
      (contents p' ⊕ bag bufs'.items ≡ contents p ⊕ bag bufs.items)
      × (o.len p' + Vec.len bufs' ≡ o.len p + Vec.len bufs)
      × (o.len p + Vec.len bufs ≤ num → Vec.len bufs' ≡ 0)
unfolding getput
getput-conserves o contents l p bufs num =
    let (n, bufs', p') = o.get p bufs num in
    let g = l.get_transfer p bufs num in
    let q = l.put_transfer p' bufs' num in
    (
      bag_comm _ _ ∙ q.conserved ∙ bag_comm _ _ ∙ g.conserved,
      omega (arith, g.taken, g.given, q.taken, q.given),
      λ h. omega (arith, g.taken, g.given, q.taken, q.given, l.put_count p' bufs' num),
    )
