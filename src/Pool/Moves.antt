-- ===== src/Pool/Moves.antt =====
-- src/buf_pool_vec.rs: exactly which buffers `get` and `put` move.
use afxdp_rs.Prelude.{
  ℕ, ◌-◌, min, ◌≡◌, refl, sym, ap, ◌∙◌, List, ◌++◌, length, take, drop, arith, length-append,
  take-append-drop, length-drop, take-append_length, drop-append_length,
}
use afxdp_rs.Rust.Vec.{Vec, extend, drain_from}
use afxdp_rs.Rust.Vec
use afxdp_rs.Bag.{Moves}
use afxdp_rs.Pool.{BufPoolVec, get, put}

module _ {B : Type 0} where
  drained-Moves :
      (from to : List B) (num : ℕ)
      → let start = length from - min num (length from) in
        Moves from (take start from) to (to ++ drop start from) (min num (length from))
  drained-Moves from to num =
      let start = length from - min num (length from) in
      (
        drop start from,
        sym (take-append-drop start from),
        refl,
        omega (arith, length-drop start from),
      )

  -- `get` moves the last `min num len` buffers of the pool, in their order, behind those that the caller
  -- has, and returns their number; the others stay.
  pub get-Moves :
      (p : BufPoolVec B) (bufs : Vec B) (num : ℕ)
      → let (n, bufs', p') = get p bufs num in
        (n ≡ min num (Vec.len p.bufs))
        × Moves p.bufs.items p'.bufs.items bufs.items bufs'.items (min num (Vec.len p.bufs))
  unfolding get
  get-Moves p bufs num = (refl, drained-Moves p.bufs.items bufs.items num)

  -- `put` moves the last `min num len` of the caller's buffers to the pool in the same way.
  pub put-Moves :
      (p : BufPoolVec B) (bufs : Vec B) (num : ℕ)
      → let (n, bufs', p') = put p bufs num in
        (n ≡ min num (Vec.len bufs))
        × Moves bufs.items bufs'.items p.bufs.items p'.bufs.items (min num (Vec.len bufs))
  unfolding put
  put-Moves p bufs num = (refl, drained-Moves bufs.items p.bufs.items num)

  -- `get` moves the last `min num len` buffers of the pool, in their order, behind those that the caller has;
  -- `put` moves the last `min num len` of the caller's in the same way to the pool. Each returns their
  -- number, and the others stay.
  pub get-put-Moves :
      (p : BufPoolVec B) (bufs : Vec B) (num : ℕ)
      → let (n, bufs', p') = get p bufs num in
        let (m, bufs'', p'') = put p bufs num in
        (n ≡ min num (Vec.len p.bufs))
        × Moves p.bufs.items p'.bufs.items bufs.items bufs'.items (min num (Vec.len p.bufs))
        × (m ≡ min num (Vec.len bufs))
        × Moves bufs.items bufs''.items p.bufs.items p''.bufs.items (min num (Vec.len bufs))
  get-put-Moves p bufs num =
      let (n, got) = get-Moves p bufs num in
      let (m, given) = put-Moves p bufs num in (n, got, m, given)

  -- What `extend` appended, a drain of as many elements takes out again.
  drain-extend :
      (xs moved : List B) (num : ℕ)
      → length moved ≡ num
      → let all = xs ++ moved in
        let start = length all - min num (length all) in
        (take start all ≡ xs) × (drop start all ≡ moved)
  drain-extend xs moved num e =
      let all = xs ++ moved in
      let start = length all - min num (length all) in
      let at : length xs ≡ start = omega (arith, length-append xs moved) in
      (take-append_length xs moved start at, drop-append_length xs moved start at)

  -- Getting back as many buffers as were put restores the pool and the caller's vector: `put` followed by
  -- `get` of what it returned leaves both with the same buffers in the same order.
  pub get-put :
      (p : BufPoolVec B) (bufs : Vec B) (num : ℕ)
      → let (n, bufs', p') = put p bufs num in
        let (m, bufs'', p'') = get p' bufs' n in
        (m ≡ n) × (bufs''.items ≡ bufs.items) × (p''.bufs.items ≡ p.bufs.items)
  unfolding get put
  get-put p bufs num =
      let n = min num (Vec.len bufs) in
      let start = Vec.len bufs - n in
      let moved = drop start bufs.items in
      let count : length moved ≡ n = omega (arith, length-drop start bufs.items) in
      let (back, again) = drain-extend p.bufs.items moved n count in
      (
        omega (arith, count, length-append p.bufs.items moved),
        ap (λ (l : List B). take start bufs.items ++ l) again ∙ take-append-drop start bufs.items,
        back,
      )
