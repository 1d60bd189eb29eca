-- ===== src/OneLink/Apart.antt =====
-- examples/l2fwd-1link.rs: the packets that `swap_macs` visits lie apart, where no frame is held twice.
use afxdp_rs.Prelude.{
  ℕ, ◌+◌, ◌≤◌, ◌≡◌, ◌≢◌, ap, sym, ◌∙◌, inl, inr, List, [], ◌∷◌, All, arith, dec_lt,
}
use afxdp_rs.Buf.Mmap.{BufMmap}
use afxdp_rs.Area.{MmapArea, af_xdp_reserved}
use afxdp_rs.Area.Layout.{frame_addr, IsFrame-apart}
use afxdp_rs.Frames.{IsBuf}
use afxdp_rs.L2fwd.{BufCustom}
use afxdp_rs.Queues.Count.{count, addr_of}
use afxdp_rs.OneLink.Swap.{IsApart, AreApart}

count-none :
    (x : ℕ) (bs : List (BufMmap BufCustom)) → count addr_of x bs ≡ 0 → All (λ b. x ≢ b.addr) bs
count-none x [] h = tt
count-none x (b ∷ bs) h = (ground arith, count-none x bs (ground arith))

module _ (a : MmapArea) (room : af_xdp_reserved + 12 ≤ a.buf_len) where
  IsBuf-IsApart : (b c : BufMmap BufCustom) → IsBuf a b → IsBuf a c → b.addr ≢ c.addr → IsApart b c
  IsBuf-IsApart b c ((j, f), _) ((k, g), _) ne = elim (dec_lt j k) [
    | yes lt ↦ inr (omega (arith, IsFrame-apart j k b c f g lt, f.size, room))
    | no ge ↦
        let other : j ≢ k = λ e. ne (f.addr ∙ ap (frame_addr a) e ∙ sym g.addr) in
        inl (omega (arith, IsFrame-apart k j c b g f (omega (arith, ge, other)), g.size, room))
  ]

  All-IsApart :
      (b : BufMmap BufCustom) (bs : List (BufMmap BufCustom))
      → IsBuf a b
      → All (IsBuf a) bs
      → All (λ c. b.addr ≢ c.addr) bs
      → All (IsApart b) bs
  All-IsApart b [] f h ne = tt
  All-IsApart b (c ∷ bs) f h ne = (IsBuf-IsApart b c f h.0 ne.0, All-IsApart b bs f h.1 ne.1)

  -- Buffers of frames, none of which is held twice, are apart.
  pub IsBuf-AreApart :
      (bs : List (BufMmap BufCustom))
      → All (IsBuf a) bs
      → ((x : ℕ) → count addr_of x bs ≤ 1)
      → AreApart bs
  IsBuf-AreApart [] h once = tt
  IsBuf-AreApart (b ∷ bs) h once = (
    All-IsApart b bs h.0 h.1 (count-none b.addr bs (ground (arith, once b.addr))),
    IsBuf-AreApart bs h.1 (λ x. ground (arith, once x)),
  )

  pub IsBuf-long : (b : BufMmap BufCustom) → IsBuf a b → 12 ≤ b.bytes.len
  IsBuf-long b ((k, f), _) = omega (arith, f.size, room)
