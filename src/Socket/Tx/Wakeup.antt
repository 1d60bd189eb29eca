-- ===== src/Socket/Tx/Wakeup.antt =====
-- src/socket.rs: when `wakeup_if_required` makes a system call, and when it panics.
use afxdp_rs.Prelude.{ℕ, ◌≡◌, ◌↔◌, ◌⊎◌, inl, inr, Bool, true, false, arith, Bool-cases}
use afxdp_rs.Prelude.Int.{is_neg}
use afxdp_rs.Rust.{value, panic, explicit}
use afxdp_rs.Extern.Sys.{Sys}
use afxdp_rs.Socket.{SocketTx}
use afxdp_rs.Socket.Tx.{is_tolerated, needs_wakeup, wakeup_if_required}

-- `e` is one of the four values of `errno` that are passed over.
abbrev pub Tolerated : Sys → ℕ → Type 0
Tolerated sys e = (e ≡ sys.enobufs) ⊎ ((e ≡ sys.eagain) ⊎ ((e ≡ sys.ebusy) ⊎ (e ≡ sys.enetdown)))

is_tolerated_iff : (sys : Sys) (e : ℕ) → (is_tolerated sys e ≡ true) ↔ Tolerated sys e
unfolding is_tolerated
is_tolerated_iff sys e = ground arith

module _ (sys : Sys) (world : sys.World) (s : SocketTx sys.tx) where
  -- A socket that needs no wakeup is left alone: no system call is made.
  pub wakeup_idle :
      needs_wakeup sys.tx s ≡ false → wakeup_if_required sys world s ≡ value (false, world)
  unfolding wakeup_if_required needs_wakeup
  wakeup_idle e = rw e

  -- A socket that needs a wakeup gets one `sendto`, and the call reports `true`, if that succeeded or
  -- failed with one of the four values of `errno` that are passed over.
  pub wakeup_sent :
      needs_wakeup sys.tx s ≡ true
      → let (world', ret) = sys.sendto world s.fd sys.msg_dontwait in
        (is_neg ret ≡ false) ⊎ Tolerated sys (sys.errno world')
        → wakeup_if_required sys world s ≡ value (true, world')
  unfolding wakeup_if_required needs_wakeup
  wakeup_sent e (inl done) = rw (e, done)
  wakeup_sent e (inr h) =
      ground
        (arith, (is_tolerated_iff sys (sys.errno (sys.sendto world s.fd sys.msg_dontwait).0)).1 h)

  -- It panics exactly if a wakeup is needed, `sendto` fails, and `errno` is none of the four.
  pub wakeup_panics_iff :
      let (world', ret) = sys.sendto world s.fd sys.msg_dontwait in
      (wakeup_if_required sys world s ≡ panic explicit) ↔ (
        (needs_wakeup sys.tx s ≡ true) × (is_neg ret ≡ true) × (¬ Tolerated sys (sys.errno world')))
  unfolding wakeup_if_required needs_wakeup
  wakeup_panics_iff =
      ground (arith, is_tolerated_iff sys (sys.errno (sys.sendto world s.fd sys.msg_dontwait).0))

  -- Where `sendto` works or fails as it may, the call returns.
  pub wakeup_returns :
      let (world', ret) = sys.sendto world s.fd sys.msg_dontwait in
      (is_neg ret ≡ false) ⊎ Tolerated sys (sys.errno world')
      → (woken : Bool) × (world'' : sys.World) × (wakeup_if_required sys world s
          ≡ value (woken, world''))
  wakeup_returns h = elim (Bool-cases (needs_wakeup sys.tx s)) [
    | inl e ↦ (true, _, wakeup_sent e h)
    | inr e ↦ (false, world, wakeup_idle e)
  ]

  -- It has three outcomes. A socket that needs no wakeup is left alone, without a system call; one that needs it
  -- gets one `sendto`, and the call reports `true`, exactly if that works or fails with one of the four
  -- values of `errno` that are passed over; the call panics exactly if it fails with another.
  pub wakeup_iff :
      let (world', ret) = sys.sendto world s.fd sys.msg_dontwait in
      ((wakeup_if_required sys world s ≡ value (false, world)) ↔ (needs_wakeup sys.tx s ≡ false))
      × ((wakeup_if_required sys world s ≡ value (true, world')) ↔ (
          (needs_wakeup sys.tx s ≡ true)
          × ((is_neg ret ≡ false) ⊎ Tolerated sys (sys.errno world'))))
      × ((wakeup_if_required sys world s ≡ panic explicit) ↔ (
          (needs_wakeup sys.tx s ≡ true)
          × (is_neg ret ≡ true)
          × (¬ Tolerated sys (sys.errno world'))))
  unfolding wakeup_if_required needs_wakeup
  wakeup_iff =
      ground (arith, is_tolerated_iff sys (sys.errno (sys.sendto world s.fd sys.msg_dontwait).0))
