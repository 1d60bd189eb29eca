-- ===== src/UnitTests/Areas/Loops.antt =====
-- src/mmap_area.rs, in its tests: none of their loops panics over the buffers of an area.
use afxdp_rs.Prelude.{
  ℕ, zero, suc, ◌+◌, ◌-◌, ◌^◌, ◌≤◌, ◌<◌, ◌≡◌, refl, ap, ◌∙◌, Bool, List, [], ◌∷◌, take, replicate,
  get_elem?, some, arith, length-replicate, ==_of_eq, leb, true,
}
use afxdp_rs.Rust.{value, cast}
use afxdp_rs.Rust.Fits.{add_fits}
use afxdp_rs.Memory.{Memory, load, length-load}
use afxdp_rs.Buf.Mmap.{BufMmap, get_data}
use afxdp_rs.Area.{MmapArea, af_xdp_reserved}
use afxdp_rs.Area.New.{Frames}
use afxdp_rs.UnitTests.Areas.{
  base, to_ne_bytes, check_lengths, write_values, read_values, read_same, write_numbers,
  read_numbers,
}
use afxdp_rs.UnitTests.Areas.Bytes.{length-to_ne_bytes, from_ne_bytes-to_ne_bytes}
use afxdp_rs.UnitTests.Areas.Written.{write_bytes_first, write_same_first, put_each, Holds}

-- the bytes that each test writes to buffer `i`
abbrev pub value_bytes : Bool → ℕ → List ℕ
value_bytes big i = to_ne_bytes big (i + base)

abbrev pub number_bytes : ℕ → ℕ → List ℕ
number_bytes n i = replicate n (cast 8 i)

le→leb : (a b : ℕ) → a ≤ b → leb a b ≡ true
le→leb a b h = ground arith

-- The first bytes of a longer range.
take-load : (m : Memory) (a n k : ℕ) → n ≤ k → take n (load m a k) ≡ load m a n
take-load m a zero k h = refl
take-load m a (suc n) zero h = absurd (omega arith)
take-load m a (suc n) (suc k) h = ap (◌∷◌ (m a)) (take-load m (a + 1) n k (omega arith))

-- One byte of a longer range all of whose first bytes are alike.
get_elem?-load_same :
    (m : Memory) (a n j k v : ℕ)
    → load m a n ≡ replicate n v
    → j < n
    → n ≤ k
    → get_elem? (load m a k) j ≡ some v
get_elem?-load_same m a zero j k v e h r = absurd (omega arith)
get_elem?-load_same m a (suc n) j zero v e h r = absurd (omega arith)
get_elem?-load_same m a (suc n) zero (suc k) v e h r = cc
get_elem?-load_same m a (suc n) (suc j) (suc k) v e h r =
    get_elem?-load_same m (a + 1) n j k v (cc) (omega arith) (omega arith)

module _ {T : Type 0} (default : T) (a : MmapArea) where
  pub check_lengths_lem :
      (i : ℕ) (bs : List (BufMmap T))
      → Frames default a i bs
      → check_lengths a.buf_len bs ≡ value tt
  unfolding check_lengths
  check_lengths_lem i [] fs = refl
  check_lengths_lem i (b ∷ bs) fs =
      rw (==_of_eq b.bytes.len (a.buf_len - af_xdp_reserved) (omega (arith, (fs.0).size)))
        (check_lengths_lem (i + 1) bs fs.3)

  module _ (checks big : Bool) (room : 8 + af_xdp_reserved ≤ a.buf_len)
      (small : a.buf_num + base < 2 ^ 64) where
    pub write_values_lem :
        (i : ℕ) (bs : List (BufMmap T)) (m : Memory)
        → Frames default a i bs
        → write_values checks big i bs m
          ≡ value (put_each 8 (value_bytes big) (λ i. length-to_ne_bytes big (i + base)) i bs m)
    unfolding write_values
    write_values_lem i [] m fs = refl
    write_values_lem i (b ∷ bs) m fs =
        rw
          (
            add_fits checks 64 i base (omega (arith, (fs.0).inside)),
            write_bytes_first m b (value_bytes big i)
                (omega (arith, (fs.0).size, length-to_ne_bytes big (i + base))),
          )
          (write_values_lem (i + 1) bs _ fs.3)

    pub read_values_lem :
        (i : ℕ) (bs : List (BufMmap T)) (m : Memory)
        → Frames default a i bs
        → Holds 8 (value_bytes big) (λ i. length-to_ne_bytes big (i + base)) m i bs
        → read_values checks big i bs m ≡ value tt
    unfolding read_values get_data
    read_values_lem i [] m fs h = refl
    read_values_lem i (b ∷ bs) m fs h =
        let fits : i + base < 2 ^ 64 = omega (arith, (fs.0).inside) in
        let long : 8 ≤ b.bytes.len = omega (arith, (fs.0).size) in
        let first = take-load m b.bytes.ptr 8 b.bytes.len long ∙ h.0 in
        rw
          (
            add_fits checks 64 i base fits,
            length-load m b.bytes.ptr b.bytes.len,
            le→leb 8 b.bytes.len long,
            first,
            from_ne_bytes-to_ne_bytes big (i + base) fits,
            ==_of_eq (i + base) (i + base) refl,
          )
          (read_values_lem (i + 1) bs m fs.3 h.1)

  module _ (n : ℕ) (room : n + af_xdp_reserved ≤ a.buf_len) where
    pub write_numbers_lem :
        (i : ℕ) (bs : List (BufMmap T)) (m : Memory)
        → Frames default a i bs
        → write_numbers n i bs m
          ≡ value (put_each n (number_bytes n) (λ i. length-replicate n (cast 8 i)) i bs m)
    unfolding write_numbers
    write_numbers_lem i [] m fs = refl
    write_numbers_lem i (b ∷ bs) m fs =
        rw (write_same_first m b n (cast 8 i) (omega (arith, (fs.0).size)))
          (write_numbers_lem (i + 1) bs _ fs.3)

    read_same_lem :
        (m : Memory) (b : BufMmap T) (rounds j v : ℕ)
        → load m b.bytes.ptr n ≡ replicate n v
        → n ≤ b.bytes.len
        → j + rounds ≤ n
        → read_same m b rounds j v ≡ value tt
    unfolding read_same get_data
    read_same_lem m b zero j v e r h = refl
    read_same_lem m b (suc rounds) j v e r h =
        rw
          (get_elem?-load_same m b.bytes.ptr n j b.bytes.len v e (omega arith) r, ==_of_eq v v refl)
          (read_same_lem m b rounds (j + 1) v e r (omega arith))

    pub read_numbers_lem :
        (i : ℕ) (bs : List (BufMmap T)) (m : Memory)
        → Frames default a i bs
        → Holds n (number_bytes n) (λ i. length-replicate n (cast 8 i)) m i bs
        → read_numbers n i bs m ≡ value tt
    unfolding read_numbers
    read_numbers_lem i [] m fs h = refl
    read_numbers_lem i (b ∷ bs) m fs h =
        rw (read_same_lem m b n 0 (cast 8 i) h.0 (omega (arith, (fs.0).size)) (omega arith))
          (read_numbers_lem (i + 1) bs m fs.3 h.1)
