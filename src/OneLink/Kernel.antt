-- ===== src/OneLink/Kernel.antt =====
-- examples/l2fwd-1link.rs: what the kernel may do to the rings and the bytes of the area between two rounds.
use afxdp_rs.Prelude.{
  ℕ, ◌+◌, ◌≤◌, ◌≡◌, refl, ap, sym, ◌∙◌, subst, List, [], ◌∷◌, ◌++◌, map, All, All-append, arith,
}
use afxdp_rs.Memory.{Memory}
use afxdp_rs.Buf.Mmap.{BufMmap}
use afxdp_rs.Area.{MmapArea, af_xdp_reserved}
use afxdp_rs.Extern.Cons.{XdpDesc}
use afxdp_rs.Extern.Deque.{ArrayDeque}
use afxdp_rs.Extern.Sys.{Sys}
use afxdp_rs.Socket.Tx.Send.{wire}
use afxdp_rs.Frames.{IsFrameAddr, IsPacket, IsWire}
use afxdp_rs.L2fwd.{BufCustom}
use afxdp_rs.Queues.Count.{count, count-append, itself, desc_addr, wire_addr}
use afxdp_rs.Queues.Invariant.{Laws}
use afxdp_rs.OneLink.{Loop}
use afxdp_rs.OneLink.Swap.{Outside}
use afxdp_rs.OneLink.Kept.{IsLoop, Keeps}

module _ {sys : Sys} {d : ArrayDeque (BufMmap BufCustom)} (l : Laws sys d) (a : MmapArea) where
  -- Any number of moves: the kernel sends the oldest packet that was submitted and puts its address into the
  -- completion ring, or it takes the oldest frame of the fill ring, writes to the area, and puts a packet in
  -- that frame into the receive ring.
  pub data Moved (s : Loop sys d) : Loop sys d → Type 0 where
    still : Moved s s
    completes :
        (v : Loop sys d) (cq : sys.comp.Ring) (tx : sys.tx.Ring) (e : XdpDesc) (rest : List XdpDesc)
        → Moved s v
        → l.tx.sent v.state.tx.tx ≡ e ∷ rest
        → l.tx.sent tx ≡ rest
        → l.tx.slots tx ≡ l.tx.slots v.state.tx.tx
        → l.comp.ready cq ≡ l.comp.ready v.state.cq.cq ++ e.addr ∷ []
        → l.comp.held cq ≡ l.comp.held v.state.cq.cq
        → Moved s (record v {
          state = record (v.state) {
            cq = record (v.state.cq) { cq = cq };
            tx = record (v.state.tx) { tx = tx };
          };
        })
    receives :
        (v : Loop sys d) (fq : sys.fill.Ring) (rx : sys.rx.Ring) (e : XdpDesc) (rest : List ℕ)
        (memory : Memory)
        → Moved s v
        → e.len + af_xdp_reserved ≤ a.buf_len
        → l.fill.sent v.state.fq.fq ≡ e.addr ∷ rest
        → l.fill.sent fq ≡ rest
        → l.fill.slots fq ≡ l.fill.slots v.state.fq.fq
        → l.rx.ready rx ≡ l.rx.ready v.state.rx.rx ++ e ∷ []
        → l.rx.held rx ≡ l.rx.held v.state.rx.rx
        → ((x : ℕ) → Outside a x → memory x ≡ v.memory x)
        → Moved s (record v {
          state = record (v.state) {
            fq = record (v.state.fq) { fq = fq };
            rx = record (v.state.rx) { rx = rx };
          };
          memory = memory;
        })

  pub Moved-Keeps : (s s' : Loop sys d) → IsLoop l a s → Moved s s' → Keeps l a s s'
  Moved-Keeps s _ v still = record { loop = v; same = λ x. refl; outside = λ x out. refl }
  Moved-Keeps s _ v (completes u cq tx e rest moved first left slots ready held) =
      let kept = Moved-Keeps s u v moved in
      let k = kept.loop in
      let sent = subst (λ es. All (IsWire a) (map wire es)) first k.tx.sent in
      record {
        loop = record {
          cq = record {
            area = k.cq.area;
            released = held ∙ k.cq.released;
            ready =
                subst (All (IsFrameAddr a)) (sym ready)
                  (All-append (IsFrameAddr a) _ (e.addr ∷ []) k.cq.ready (sent.0.0, tt));
          };
          fq = k.fq;
          rx = k.rx;
          tx = record {
            area = k.tx.area;
            submitted = slots ∙ k.tx.submitted;
            sent = subst (λ es. All (IsWire a) (map wire es)) (sym left) sent.1;
          };
          pending = k.pending;
          spare = k.spare;
          deficit = k.deficit;
        };
        same = λ x. omega (
          arith,
          kept.same x,
          ap (λ es. count wire_addr x (map wire es)) first,
          ap (λ es. count wire_addr x (map wire es)) left,
          ap (count itself x) ready,
          count-append itself x (l.comp.ready u.state.cq.cq) (e.addr ∷ []),
        );
        outside = kept.outside;
      }
  Moved-Keeps s _ v (receives u fq rx e rest m moved short first left slots ready held apart) =
      let kept = Moved-Keeps s u v moved in
      let k = kept.loop in
      let sent = subst (All (IsFrameAddr a)) first k.fq.sent in
      record {
        loop = record {
          cq = k.cq;
          fq = record {
            area = k.fq.area;
            submitted = slots ∙ k.fq.submitted;
            sent = subst (All (IsFrameAddr a)) (sym left) sent.1;
          };
          rx = record {
            area = k.rx.area;
            released = held ∙ k.rx.released;
            ready =
                subst (All (IsPacket a)) (sym ready)
                  (All-append (IsPacket a) _ (e ∷ []) k.rx.ready ((sent.0, short), tt));
          };
          tx = k.tx;
          pending = k.pending;
          spare = k.spare;
          deficit = k.deficit;
        };
        same = λ x. omega (
          arith,
          kept.same x,
          ap (count itself x) first,
          ap (count itself x) left,
          ap (count desc_addr x) ready,
          count-append desc_addr x (l.rx.ready u.state.rx.rx) (e ∷ []),
        );
        outside = λ x out. apart x out ∙ kept.outside x out;
      }
