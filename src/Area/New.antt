-- ===== src/Area/New.antt =====
-- src/mmap_area.rs: what `MmapArea::new` returns.
use afxdp_rs.Prelude.{
  ℕ, zero, suc, ◌+◌, ◌-◌, ◌*◌, ◌≤◌, ◌<◌, ◌≡◌, ◌≢◌, refl, ap, Bool, List, [], ◌∷◌, ◌++◌, append-nil,
  append_assoc, bit_or, arith, length, length-append, ==_of_ne,
}
use afxdp_rs.Rust.{value, ok, add, mul}
use afxdp_rs.Rust.Vec.{Vec, with_capacity, len, push_room}
use afxdp_rs.Rust.Fits.{mul_fits, add_fits, sub_fits}
use afxdp_rs.Buf.Mmap.{BufMmap}
use afxdp_rs.Extern.Sys.{Sys}
use afxdp_rs.Area.{MmapArea, MmapAreaOptions, af_xdp_reserved, buf_at, make_bufs, map_flags, new}
use afxdp_rs.Area.Layout.{IsArea, IsFrame, frame_addr, product_mono}

-- The buffers are the frames `i`, `i + 1`, … of the area, up to the last one; each is empty and has the
-- default user value.
abbrev pub Frames : {T : Type 0} → T → MmapArea → ℕ → List (BufMmap T) → Type 0
Frames default a i [] = i ≡ a.buf_num
Frames default a i (b ∷ bs) =
    IsFrame a i b × (b.len ≡ 0) × (b.user ≡ default) × Frames default a (i + 1) bs

module _ {T : Type 0} (default : T) (a : MmapArea) where
  -- The frame's buffer, as one round of the loop makes it.
  abbrev frame : ℕ → BufMmap T
  frame i = buf_at a.ptr (frame_addr a i) (a.buf_len - af_xdp_reserved) 0 default

  abbrev frames : ℕ → ℕ → List (BufMmap T)
  frames i zero = []
  frames i (suc rounds) = frame i ∷ frames (i + 1) rounds

  length-frames : (i rounds : ℕ) → length (frames i rounds) ≡ rounds
  length-frames i zero = refl
  length-frames i (suc rounds) = ap suc (length-frames (i + 1) rounds)

  frame-IsFrame : IsArea a → (i : ℕ) → i < a.buf_num → IsFrame a i (frame i)
  frame-IsFrame v i h = ground (arith, v.room, v.top, product_mono i a.buf_num a.buf_len h)

  Frames-frames :
      IsArea a → (rounds i : ℕ) → i + rounds ≡ a.buf_num → Frames default a i (frames i rounds)
  Frames-frames v zero i e = omega arith
  Frames-frames v (suc rounds) i e =
      (frame-IsFrame v i (omega arith), refl, refl, Frames-frames v rounds (i + 1) (omega arith))

  module _ (checks : Bool) where
    start_fits :
        IsArea a → (i : ℕ) → i < a.buf_num → mul checks 64 i a.buf_len ≡ value (i * a.buf_len)
    start_fits v i h =
        mul_fits checks 64 i a.buf_len
          (ground (arith, v.room, v.top, product_mono i a.buf_num a.buf_len h))

    addr_fits :
        IsArea a
        → (i : ℕ) → i < a.buf_num
        → add checks 64 (i * a.buf_len) af_xdp_reserved ≡ value (frame_addr a i)
    addr_fits v i h =
        add_fits checks 64 (i * a.buf_len) af_xdp_reserved
          (ground (arith, v.room, v.top, product_mono i a.buf_num a.buf_len h))

    make_bufs_lem :
        IsArea a
        → (rounds i : ℕ) (bufs : Vec (BufMmap T)) → i + rounds ≡ a.buf_num
        → len bufs + rounds ≤ bufs.capacity
        → make_bufs checks default a.ptr a.buf_len (a.buf_len - af_xdp_reserved) rounds i bufs
          ≡ value (record { items = bufs.items ++ frames i rounds; capacity = bufs.capacity })
    unfolding make_bufs
    make_bufs_lem v zero i bufs e h = ground (arith, append-nil bufs.items)
    make_bufs_lem v (suc rounds) i bufs e h =
        rw
          (
            start_fits v i (omega arith),
            addr_fits v i (omega arith),
            push_room bufs (frame i) (omega arith),
          )
          (rw
            (make_bufs_lem v rounds (i + 1)
              (record { items = bufs.items ++ frame i ∷ []; capacity = bufs.capacity })
              (omega arith) (omega (arith, length-append bufs.items (frame i ∷ []))))
            (rw (append_assoc bufs.items (frame i ∷ []) (frames (i + 1) rounds))))

-- Where the area fits the address space and a frame has room for the reserved bytes, and `mmap`
-- succeeds, `MmapArea::new` returns the area and its `buf_num` buffers without a panic, in every build:
-- the `i`-th buffer is frame `i`, empty and with the default user value, and the vector is exactly full.
pub area_mapped :
    {T : Type 0} (default : T) (checks : Bool) (sys : Sys) (world : sys.World)
    (options : MmapAreaOptions) (a : MmapArea)
    → IsArea a
    → let (world', ptr) =
        sys.mmap world
          (a.buf_num * a.buf_len)
          (bit_or sys.prot_read sys.prot_write)
          (map_flags sys options) in
      ptr ≡ a.ptr
      → ptr ≢ sys.map_failed
      → (bufs : Vec (BufMmap T)) × (new checks default sys world a.buf_num a.buf_len options
          ≡ value (ok (a, bufs), world'))
        × Frames default a 0 bufs.items
        × (len bufs ≡ a.buf_num)
        × (bufs.capacity ≡ a.buf_num)
unfolding new
area_mapped default checks sys world options a v e ne = (
  record { items = frames default a 0 a.buf_num; capacity = a.buf_num },
  rw (
    mul_fits checks 64 a.buf_num a.buf_len (omega arith),
    ==_of_ne _ _ ne,
    sub_fits checks 64 a.buf_len af_xdp_reserved v.room,
    e,
    make_bufs_lem default a checks v a.buf_num 0 (with_capacity a.buf_num) (omega arith)
        (omega arith),
  ),
  Frames-frames default a v a.buf_num 0 (omega arith),
  length-frames default a 0 a.buf_num,
  refl,
)
