-- ===== src/Queues/Count.antt =====
-- src/umem.rs and src/socket.rs: how often the queues and their callers hold an address. A call moves
-- addresses and neither loses nor doubles one.
use mathlib.Core.List.{reverse, reverse-cons}
use afxdp_rs.Prelude.{
  ℕ, ◌+◌, ◌≡◌, refl, ap, ◌∙◌, if◌then◌else◌, ◌==◌, List, [], ◌∷◌, ◌++◌, map, take, drop,
  take-append-drop, arith,
}
use afxdp_rs.Rust.Vec.{Vec}
use afxdp_rs.Buf.Mmap.{BufMmap}
use afxdp_rs.Extern.Cons.{ConsRing, ConsLaws, XdpDesc}
use afxdp_rs.Extern.Prod.{ProdRing, ProdLaws}
use afxdp_rs.Extern.Deque.{ArrayDeque, DequeLaws}
use afxdp_rs.Extern.Sys.{Sys}
use afxdp_rs.Umem.{UmemCompletionQueue, UmemFillQueue}
use afxdp_rs.Umem.Service.{Serviced}
use afxdp_rs.Umem.Fill.{Filled}
use afxdp_rs.Socket.{SocketRx, SocketTx}
use afxdp_rs.Socket.Rx.Recv.{Received}
use afxdp_rs.Socket.Tx.Send.{Sent, wire, packet}

-- How many elements have the address `x`.
abbrev pub count {ℓ} : {A : Type ℓ} → (A → ℕ) → ℕ → List A → ℕ
count f x [] = 0
count f x (e ∷ es) = (if x == f e then 1 else 0) + count f x es

module _ {ℓ} {A : Type ℓ} (f : A → ℕ) (x : ℕ) where
  pub count-append : (es fs : List A) → count f x (es ++ fs) ≡ count f x es + count f x fs
  count-append [] fs = omega arith
  count-append (e ∷ es) fs = omega (arith, count-append es fs)

  count-reverse : (es : List A) → count f x (reverse es) ≡ count f x es
  count-reverse [] = refl
  count-reverse (e ∷ es) =
      ap (count f x) (reverse-cons e es)
      ∙ omega (arith, count-append (reverse es) (e ∷ []), count-reverse es)

  pub count-split :
      (n : ℕ) (es : List A) → count f x (take n es) + count f x (drop n es) ≡ count f x es
  count-split n es =
      omega (arith, ap (count f x) (take-append-drop n es), count-append (take n es) (drop n es))

  count-map {κ} :
      {B : Type κ} (g : B → A) (bs : List B) → count f x (map g bs) ≡ count (λ b. f (g b)) x bs
  count-map g [] = refl
  count-map g (b ∷ bs) = omega (arith, count-map g bs)

abbrev pub addr_of : {T : Type 0} → BufMmap T → ℕ
addr_of b = b.addr

abbrev pub desc_addr : XdpDesc → ℕ
desc_addr e = e.addr

abbrev pub wire_addr : ℕ × ℕ → ℕ
wire_addr w = w.0

abbrev pub itself : ℕ → ℕ
itself addr = addr

module _ (x : ℕ) {T : Type 0} where
  pub Received-count :
      (c : ConsRing XdpDesc) (d : ArrayDeque (BufMmap T)) (l : ConsLaws c) (dl : DequeLaws d)
      (s s' : SocketRx c) (user : T) (bufs bufs' : d.Deque) (n : ℕ)
      → Received c d l dl s s' user bufs bufs' n
      → count addr_of x (dl.items bufs') + count desc_addr x (l.ready s'.rx)
        ≡ count addr_of x (dl.items bufs) + count desc_addr x (l.ready s.rx)
  Received-count c d l dl s s' user bufs bufs' n r = omega (
    arith,
    ap (count addr_of x) r.items,
    ap (count desc_addr x) r.ready,
    count-append addr_of x (dl.items bufs) (map _ (take n (l.ready s.rx))),
    count-map addr_of x _ (take n (l.ready s.rx)),
    count-split desc_addr x n (l.ready s.rx),
  )

  pub Serviced-count :
      (c : ConsRing ℕ) (default : T) (l : ConsLaws c) (q q' : UmemCompletionQueue c)
      (bufs bufs' : Vec (BufMmap T)) (n : ℕ)
      → Serviced c default l q q' bufs bufs' n
      → count addr_of x bufs'.items + count itself x (l.ready q'.cq)
        ≡ count addr_of x bufs.items + count itself x (l.ready q.cq)
  Serviced-count c default l q q' bufs bufs' n r = omega (
    arith,
    ap (count addr_of x) r.items,
    ap (count itself x) r.ready,
    count-append addr_of x bufs.items (map _ (take n (l.ready q.cq))),
    count-map addr_of x _ (take n (l.ready q.cq)),
    count-split itself x n (l.ready q.cq),
  )

  pub Filled-count :
      {p : ProdRing ℕ} (l : ProdLaws p) (q q' : UmemFillQueue p) (bufs bufs' : Vec (BufMmap T))
      (n : ℕ)
      → Filled l q q' bufs bufs' n
      → count addr_of x bufs'.items + count itself x (l.sent q'.fq)
        ≡ count addr_of x bufs.items + count itself x (l.sent q.fq)
  Filled-count l q q' bufs bufs' n r = omega (
    arith,
    ap (count addr_of x) r.items,
    ap (count itself x) r.sent,
    count-append addr_of x bufs'.items (reverse r.outs),
    count-reverse addr_of x r.outs,
    count-append itself x (l.sent q.fq) (map addr_of r.outs),
    count-map itself x addr_of r.outs,
  )

  pub Sent-count :
      (sys : Sys) (d : ArrayDeque (BufMmap T)) (l : ProdLaws (sys.tx)) (dl : DequeLaws d)
      (s s' : SocketTx sys.tx) (bufs bufs' : d.Deque) (n : ℕ)
      → Sent sys d l dl s s' bufs bufs' n
      → count addr_of x (dl.items bufs') + count wire_addr x (map wire (l.sent s'.tx))
        ≡ count addr_of x (dl.items bufs) + count wire_addr x (map wire (l.sent s.tx))
  Sent-count sys d l dl s s' bufs bufs' n r = omega (
    arith,
    ap (count addr_of x) r.items,
    ap (count wire_addr x) r.queued,
    count-append addr_of x r.outs (dl.items bufs'),
    count-append wire_addr x (map wire (l.sent s.tx)) (map packet r.outs),
    count-map wire_addr x packet r.outs,
  )
