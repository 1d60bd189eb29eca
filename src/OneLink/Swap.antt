-- ===== src/OneLink/Swap.antt =====
-- examples/l2fwd-1link.rs: what `swap_macs` does to the packets that it visits.
use afxdp_rs.Prelude.{
  ℕ, zero, suc, ◌+◌, ◌≤◌, ◌<◌, ◌≡◌, refl, ap, ap₂, ◌∙◌, ◌⊎◌, inl, inr, List, [], ◌∷◌, arith, take,
  drop,
}
use afxdp_rs.Prelude.{◌*◌, true, All, All-imp, leb}
use afxdp_rs.Area.{MmapArea, af_xdp_reserved}
use afxdp_rs.Area.Layout.{IsFrame-within}
use afxdp_rs.Frames.{IsBuf}
use afxdp_rs.Rust.{value}
use afxdp_rs.Memory.{
  Memory, load, store_all, store_all-other, load-store_all, load-store_all_outside,
}
use afxdp_rs.Buf.Mmap.{BufMmap}
use afxdp_rs.L2fwd.{BufCustom}
use afxdp_rs.OneLink.{swap_packet, swap_macs}

drop-load : (m : Memory) (n k a : ℕ) → drop n (load m a (n + k)) ≡ load m (a + n) k
drop-load m zero k a = ap₂ (λ (b i : ℕ). load m b i) (omega arith) (omega arith)
drop-load m (suc n) k a =
    let more : suc n + k ≡ suc (n + k) = omega arith in
    rw more (drop-load m n k (a + 1) ∙ ap (λ (b : ℕ). load m b k) (omega arith))

take-load : (m : Memory) (n k a : ℕ) → take n (load m a (n + k)) ≡ load m a n
take-load m zero k a = refl
take-load m (suc n) k a =
    let more : suc n + k ≡ suc (n + k) = omega arith in
    rw more (ap (λ (rest : List ℕ). m a ∷ rest) (take-load m n k (a + 1)))

-- One round of `swap_macs` exchanges the first six bytes of a packet and the next six, and changes no other
-- byte of the memory.
pub swap_packet_lem :
    (m : Memory) (p : ℕ)
    → (load (swap_packet m p) p 6 ≡ load m (p + 6) 6)
      × (load (swap_packet m p) (p + 6) 6 ≡ load m p 6)
      × ((x : ℕ) → (x < p) ⊎ (p + 12 ≤ x) → swap_packet m p x ≡ m x)
unfolding swap_packet
swap_packet_lem m p =
    let tmp = load m p 12 in
    let m' = store_all m p (drop 6 tmp) in
    (
      load-store_all_outside m' (p + 6) (take 6 tmp) p 6 (inl (omega arith))
          ∙ load-store_all m p (drop 6 tmp)
          ∙ drop-load m 6 6 p,
      load-store_all m' (p + 6) (take 6 tmp) ∙ take-load m 6 6 p,
      λ x h.
          store_all-other m' (p + 6) (take 6 tmp) x (second x h)
          ∙ store_all-other m p (drop 6 tmp) x (first x h),
    )
  where
    first : (x : ℕ) → (x < p) ⊎ (p + 12 ≤ x) → (x < p) ⊎ (p + 6 ≤ x)
    first x (inl h) = inl h
    first x (inr h) = inr (omega arith)

    second : (x : ℕ) → (x < p) ⊎ (p + 12 ≤ x) → (x < p + 6) ⊎ (p + 6 + 6 ≤ x)
    second x (inl h) = inl (omega arith)
    second x (inr h) = inr (omega arith)

-- The bytes of the two addresses of a packet, or none of them, are before `x` or after it.
abbrev pub Clear : ℕ → BufMmap BufCustom → Type 0
Clear x b = (x < b.bytes.ptr) ⊎ (b.bytes.ptr + 12 ≤ x)

abbrev pub IsApart : BufMmap BufCustom → BufMmap BufCustom → Type 0
IsApart b c = (c.bytes.ptr + 12 ≤ b.bytes.ptr) ⊎ (b.bytes.ptr + 12 ≤ c.bytes.ptr)

-- No two packets of a list share a byte of their addresses.
abbrev pub AreApart : List (BufMmap BufCustom) → Type 0
AreApart [] = Unit {0}
AreApart (b ∷ bs) = All (IsApart b) bs × AreApart bs

-- The first memory has the two addresses of a packet in the other order than the second.
abbrev pub Exchanged : Memory → Memory → BufMmap BufCustom → Type 0
Exchanged m m' b =
    (load m' b.bytes.ptr 6 ≡ load m (b.bytes.ptr + 6) 6)
    × (load m' (b.bytes.ptr + 6) 6 ≡ load m b.bytes.ptr 6)

load-same :
    (m m' : Memory) (a n : ℕ)
    → ((x : ℕ) → a ≤ x → x < a + n → m' x ≡ m x)
    → load m' a n ≡ load m a n
load-same m m' a zero h = refl
load-same m m' a (suc n) h =
    ap₂ ◌∷◌ (h a (omega arith) (omega arith))
      (load-same m m' (a + 1) n (λ x from below. h x (omega (arith, from)) (omega (arith, below))))

IsApart-Clear :
    (b c : BufMmap BufCustom) (x : ℕ)
    → IsApart b c
    → b.bytes.ptr ≤ x
    → x < b.bytes.ptr + 12
    → Clear x c
IsApart-Clear b c x (inl before) from below = inr (omega arith)
IsApart-Clear b c x (inr after) from below = inl (omega arith)

-- Packets apart from one that is visited first are exchanged by the later visits alone.
Exchanged-later :
    (m m' : Memory) (b : BufMmap BufCustom) (bs : List (BufMmap BufCustom))
    → All (IsApart b) bs
    → All (Exchanged (swap_packet m b.bytes.ptr) m') bs
    → All (Exchanged m m') bs
Exchanged-later m m' b [] apart h = tt
Exchanged-later m m' b (c ∷ bs) apart ((front, back), rest) =
    let m₁ = swap_packet m b.bytes.ptr in
    let same : (x : ℕ) → c.bytes.ptr ≤ x → x < c.bytes.ptr + 12 → m₁ x ≡ m x =
      λ x from below. (swap_packet_lem m b.bytes.ptr).2 x (ground (arith, apart.0, from, below)) in
    (
      (
        front
            ∙ load-same m m₁ (c.bytes.ptr + 6) 6
                (λ x from below. same x (omega (arith, from)) (omega (arith, below))),
        back
            ∙ load-same m m₁ c.bytes.ptr 6
                (λ x from below. same x (omega (arith, from)) (omega (arith, below))),
      ),
      Exchanged-later m m' b bs apart.1 rest,
    )

-- Over packets that are apart, with slices of at least 12 bytes, `swap_macs` exchanges the two addresses of
-- each, and changes no other byte.
pub swap_macs-Exchanged :
    (m : Memory) (bufs : List (BufMmap BufCustom))
    → All (λ b. 12 ≤ b.bytes.len) bufs
    → AreApart bufs
    → (m' : Memory) × (swap_macs m bufs ≡ value m')
      × All (Exchanged m m') bufs
      × ((x : ℕ) → All (Clear x) bufs → m' x ≡ m x)
unfolding swap_macs
swap_macs-Exchanged m [] long apart = (m, refl, tt, λ x clear. refl)
swap_macs-Exchanged m (b ∷ bs) long (first, apart) =
    let p = b.bytes.ptr in
    let (front, back, others) = swap_packet_lem m p in
    let (m', e, exchanged, same) = swap_macs-Exchanged (swap_packet m p) bs long.1 apart in
    let kept : (x : ℕ) → p ≤ x → x < p + 12 → m' x ≡ swap_packet m p x = λ x from below.
      same x (All-imp (IsApart b) (Clear x) (λ c q. IsApart-Clear b c x q from below) bs first) in
    let fits : leb 12 b.bytes.len ≡ true = ground (arith, long.0) in
    (
      m',
      rw fits e,
      (
        (
          load-same _ m' p 6 (λ x from below. kept x from (omega (arith, below))) ∙ front,
          load-same _ m' (p + 6) 6
                (λ x from below. kept x (omega (arith, from)) (omega (arith, below)))
              ∙ back,
        ),
        Exchanged-later m m' b bs first exchanged,
      ),
      λ x clear. same x clear.1 ∙ others x clear.0,
    )

-- An address outside the area.
abbrev pub Outside : MmapArea → ℕ → Type 0
Outside a x = (x < a.ptr) ⊎ (a.ptr + a.buf_num * a.buf_len ≤ x)

-- Over frames with room for the 12 bytes of the two addresses, `swap_macs` returns, and writes in the area only.
pub swap_macs-value :
    (a : MmapArea) (m : Memory) (bufs : List (BufMmap BufCustom))
    → af_xdp_reserved + 12 ≤ a.buf_len
    → All (IsBuf a) bufs
    → (m' : Memory) × (swap_macs m bufs ≡ value m') × ((x : ℕ) → Outside a x → m' x ≡ m x)
unfolding swap_macs
swap_macs-value a m [] room h = (m, refl, λ x out. refl)
swap_macs-value a m (b ∷ bs) room h =
    let ((k, f), short) = h.0 in
    let long : leb 12 b.bytes.len ≡ true = ground (arith, f.size, room) in
    let within = IsFrame-within k b f in
    let (m', e, same) = swap_macs-value a (swap_packet m b.bytes.ptr) bs room h.1 in
    let once = (swap_packet_lem m b.bytes.ptr).2 in
    (
      m',
      rw long e,
      λ x out. same x out ∙ once x (ground (arith, out, within.0, within.1, f.size, room)),
    )
