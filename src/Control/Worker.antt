-- ===== src/Control/Worker.antt =====
-- examples/l2fwd-2link-multicore.rs and examples/rxdrop.rs: when a worker leaves its loop.
use afxdp_rs.Prelude.{
  ℕ, zero, suc, ◌+◌, ◌≡◌, refl, true, false, List, [], ◌∷◌, ◌++◌, replicate, arith,
}
use afxdp_rs.Rust.{Outcome, value, ◌>>=◌}
use afxdp_rs.Extern.Channel.{Channel, ChannelLaws}
use afxdp_rs.Control.{Command, exit, get_stats, Mailbox, poll_command, run_worker}

abbrev pub Serves {ℓ} : {W : Type 0} → (W → Type ℓ) → (W → Outcome W) → Type ℓ
Serves P serve = (w : _) → P w → (w' : _) × (serve w ≡ value w') × P w'

-- A round, and what the kernel does before the next.
pub served : {W : Type 0} → (W → Outcome W) → (W → W) → W → Outcome W
served serve kernel w = serve w >>= λ v. value (kernel v)

pub served-Serves :
    {W : Type 0} (P : W → Type 0) (serve : W → Outcome W) (kernel : W → W)
    → Serves P serve
    → ((w : W) → P w → P (kernel w))
    → Serves P (served serve kernel)
unfolding served
served-Serves P serve kernel serves moves w h =
    let (v, e, kept) = serves w h in (kernel v, rw e, moves v kept)

module _ {R : Type 0} (cmd : Channel Command) (resp : Channel R) (l : ChannelLaws cmd) where
  -- A round that finds no command, or is asked for its counters, goes on.
  poll_none :
      (report : R) (m : Mailbox cmd resp)
      → l.items m.commands ≡ []
      → (m' : Mailbox cmd resp) × (poll_command cmd resp report m ≡ (false, m'))
        × (l.items m'.commands ≡ [])
  unfolding poll_command
  poll_none report m e = (
    record m { commands = (cmd.pop m.commands).1 },
    rw (l.pop_none m.commands e),
    l.pop_none_items m.commands e,
  )

  poll_asked :
      (report : R) (m : Mailbox cmd resp) (rest : List Command)
      → l.items m.commands ≡ get_stats ∷ rest
      → (m' : Mailbox cmd resp) × (poll_command cmd resp report m ≡ (false, m'))
        × (l.items m'.commands ≡ rest)
  unfolding poll_command
  poll_asked report m rest e = (
    record { commands = (cmd.pop m.commands).1; responses = (resp.push m.responses report).1 },
    rw (l.pop_some m.commands get_stats rest e),
    l.pop_some_items m.commands get_stats rest e,
  )

  poll_exit :
      (report : R) (m : Mailbox cmd resp) (rest : List Command)
      → l.items m.commands ≡ exit ∷ rest
      → (m' : Mailbox cmd resp) × (poll_command cmd resp report m ≡ (true, m'))
        × (l.items m'.commands ≡ rest)
  unfolding poll_command
  poll_exit report m rest e = (
    record m { commands = (cmd.pop m.commands).1 },
    rw (l.pop_some m.commands exit rest e),
    l.pop_some_items m.commands exit rest e,
  )

  module _ {W : Type 0} (P : W → Type 0) (serve : W → Outcome W) (report : W → R)
      (serves : Serves P serve) where
    -- A worker whose rounds do not panic leaves its loop once it has come to `Exit`: after one round for each
    -- request of its counters that stands before it in the queue, whatever stands behind it. What its rounds
    -- keep then holds, and what stood behind `Exit` stays in the queue.
    pub worker_leaves :
        (asked fuel : ℕ) (m : Mailbox cmd resp) (w : W) (rest : List Command)
        → l.items m.commands ≡ replicate asked get_stats ++ exit ∷ rest
        → P w
        → (m' : Mailbox cmd resp) × (w' : W) × (run_worker cmd resp serve report
              (asked + suc fuel)
              m
              w
            ≡ value (true, m', w'))
          × P w'
          × (l.items m'.commands ≡ rest)
    unfolding run_worker
    worker_leaves zero fuel m w rest e h =
        let (m', p, left) = poll_exit (report w) m rest e in
        let one : 0 + suc fuel ≡ suc fuel = omega arith in (m', w, rw (one, p), h, left)
    worker_leaves (suc asked) fuel m w rest e h =
        let (m₁, p, left) = poll_asked (report w) m (replicate asked get_stats ++ exit ∷ rest) e in
        let (w₁, served, h₁) = serves w h in
        let (m', w', r, h', left') = worker_leaves asked fuel m₁ w₁ rest left h₁ in
        let more : suc asked + suc fuel ≡ suc (asked + suc fuel) = omega arith in
        (m', w', rw (more, p, served) r, h', left')

    -- A worker whose queue holds nothing but requests of its counters is still in its loop after any number
    -- of rounds.
    pub worker_stays :
        (asked fuel : ℕ) (m : Mailbox cmd resp) (w : W)
        → l.items m.commands ≡ replicate asked get_stats
        → P w
        → (m' : Mailbox cmd resp) × (w' : W) × (run_worker cmd resp serve report fuel m w
            ≡ value (false, m', w'))
          × P w'
    unfolding run_worker
    worker_stays asked zero m w e h = (m, w, refl, h)
    worker_stays zero (suc fuel) m w e h =
        let (m₁, p, left) = poll_none (report w) m e in
        let (w₁, served, h₁) = serves w h in
        let (m', w', r, h') = worker_stays zero fuel m₁ w₁ left h₁ in (m', w', rw (p, served) r, h')
    worker_stays (suc asked) (suc fuel) m w e h =
        let (m₁, p, left) = poll_asked (report w) m (replicate asked get_stats) e in
        let (w₁, served, h₁) = serves w h in
        let (m', w', r, h') = worker_stays asked fuel m₁ w₁ left h₁ in
        (m', w', rw (p, served) r, h')
