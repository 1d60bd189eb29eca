-- ===== src/Area/Unchecked.antt =====
-- src/mmap_area.rs: what `MmapArea::new` does with a `buf_len` below the reserved bytes.
use afxdp_rs.Prelude.{
  ℕ, zero, suc, ◌+◌, ◌-◌, ◌*◌, ◌%◌, ◌^◌, ◌<◌, ◌≡◌, ◌≢◌, refl, Bool, true, false, [], ◌∷◌, bit_or,
  arith, ltb, ==_of_ne, Bool-cases, inl, inr, if◌then◌else◌, All, All-append,
}
use afxdp_rs.Rust.{value, panic, overflow, ok, wrap, sub}
use afxdp_rs.Rust.Vec.{Vec, with_capacity, push}
use afxdp_rs.Rust.Fits.{mul_fits}
use afxdp_rs.Buf.Mmap.{BufMmap}
use afxdp_rs.Extern.Sys.{Sys}
use afxdp_rs.Area.{MmapAreaOptions, af_xdp_reserved, buf_at, make_bufs, map_flags, new}

wraps : (w x : ℕ) → (y : ℕ) × (wrap false w x ≡ value y)
wraps w x = elim (Bool-cases (ltb x (2 ^ w))) [
  | inl fits ↦ (x, rw fits)
  | inr over ↦ (x % 2 ^ w, rw over)
]

module _ {T : Type 0} (default : T) where
  abbrev pub Spans : ℕ → Vec (BufMmap T) → Type 0
  Spans n bufs = All (λ b. b.bytes.len ≡ n) bufs.items

  -- Without overflow checks the loop always ends, and each buffer spans the bytes that it is told.
  make_bufs-Spans :
      (ptr buf_len available rounds i : ℕ) (bufs : Vec (BufMmap T))
      → Spans available bufs
      → (bufs' : Vec (BufMmap T)) × (make_bufs false default ptr buf_len available rounds i bufs
          ≡ value bufs')
        × Spans available bufs'
  unfolding make_bufs
  make_bufs-Spans ptr buf_len available zero i bufs h = (bufs, refl, h)
  make_bufs-Spans ptr buf_len available (suc rounds) i bufs h =
      let (start, e) = wraps 64 (i * buf_len) in
      let (addr, e') = wraps 64 (start + af_xdp_reserved) in
      let b = buf_at ptr addr available 0 default in
      let (bufs', r, s) =
        make_bufs-Spans ptr buf_len available rounds (i + 1) (push bufs b)
          (All-append (λ c. c.bytes.len ≡ available) bufs.items (b ∷ []) h (refl, tt)) in
      (bufs', rw (e, e') r, s)

  -- `MmapArea::new` does not reject a `buf_len` below the 256 reserved bytes. Where the mapping succeeds
  -- it panics in a build with overflow checks; in a build without them it returns buffers that each claim
  -- `2 ^ 64 + buf_len - 256` bytes, far past the mapping.
  pub short_bufs :
      (sys : Sys) (world : sys.World) (buf_num buf_len : ℕ) (options : MmapAreaOptions)
      → buf_len < af_xdp_reserved
      → buf_num * buf_len < 2 ^ 64
      → let (world', ptr) =
          sys.mmap world
            (buf_num * buf_len)
            (bit_or sys.prot_read sys.prot_write)
            (map_flags sys options) in
        ptr ≢ sys.map_failed
        → (new true default sys world buf_num buf_len options ≡ panic overflow)
          × ((bufs : Vec (BufMmap T)) × (new false default sys world buf_num buf_len options
                ≡ value
                    (ok (record { buf_num = buf_num; buf_len = buf_len; ptr = ptr }, bufs), world'))
              × Spans (2 ^ 64 + buf_len - af_xdp_reserved) bufs)
  unfolding new
  short_bufs sys world buf_num buf_len options short small ne =
      let made =
        make_bufs-Spans
          (sys.mmap world (buf_num * buf_len) (bit_or sys.prot_read sys.prot_write)
            (map_flags sys options)).1
          buf_len (2 ^ 64 + buf_len - af_xdp_reserved) buf_num 0 (with_capacity buf_num) tt in
      (
        rw (mul_fits true 64 buf_num buf_len small, ==_of_ne _ _ ne, under true) refl,
        (
          made.0,
          rw (mul_fits false 64 buf_num buf_len small, ==_of_ne _ _ ne, under false, made.1) refl,
          made.2,
        ),
      )
    where
      under :
          (checks : Bool)
          → sub checks 64 buf_len af_xdp_reserved
            ≡ (if checks then panic overflow else value (2 ^ 64 + buf_len - af_xdp_reserved))
      under checks = ground arith
