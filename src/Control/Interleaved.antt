-- ===== src/Control/Interleaved.antt =====
-- examples/l2fwd-2link-multicore.rs and examples/rxdrop.rs: the controller's rounds and the workers' answers, in any
-- order.
use afxdp_rs.Prelude.{
  ℕ, zero, suc, ◌≡◌, ap, sym, ◌∙◌, subst, Bool, some, List, [], ◌∷◌, All, All-append, arith,
  get_elem?, dec_lt, length, some_eq, Option-cases, inl, inr,
}
use afxdp_rs.Rust.{Outcome, value, panic}
use afxdp_rs.Extern.Channel.{Channel, ChannelLaws}
use afxdp_rs.Extern.Clock.{Clock, ClockLaws}
use afxdp_rs.Control.{Command, exit, get_stats, Mailbox, poll_command, Controller, control_round}
use afxdp_rs.Control.Report.{Distinct, Posted, Past, Returns, control_round-Past}

module _ {R : Type 0} (cmd : Channel Command) (resp : Channel R) where
  -- The worker of the mailbox at `i` looks for a command, with the report `r`.
  abbrev pub poll_at : ℕ → R → List (Mailbox cmd resp) → List (Mailbox cmd resp)
  poll_at i r [] = []
  poll_at zero r (m ∷ ms) = (poll_command cmd resp r m).1 ∷ ms
  poll_at (suc i) r (m ∷ ms) = m ∷ poll_at i r ms

module _ {R : Type 0} (cmd : Channel Command) (resp : Channel R) (core : R → ℕ)
    (l : ChannelLaws resp) where
  push-All :
      (P : R → Type 0) (q : resp.Queue) (r : R)
      → P r
      → All P (l.items q)
      → All P (l.items (resp.push q r).1)
  push-All P q r p h = elim (dec_lt (length (l.items q)) (l.capacity q)) [
    | yes room ↦
        subst (All P) (sym (l.push_items q r room)) (All-append P (l.items q) (r ∷ []) h (p, tt))
    | no full ↦
        let all : length (l.items q) ≡ l.capacity q = omega (arith, l.fits q) in
        subst (All P) (sym (l.push_full_items q r all)) h
  ]

  obeyed-All :
      (c : Command) (P : R → Type 0) (m : Mailbox cmd resp) (r : R)
      → (cmd.pop m.commands).0 ≡ some c
      → P r
      → All P (l.items m.responses)
      → All P (l.items (poll_command cmd resp r m).1.responses)
  unfolding poll_command
  obeyed-All exit P m r e p h = rw e h
  obeyed-All get_stats P m r e p h = rw e (push-All P m.responses r p h)

  poll_command-All :
      (P : R → Type 0) (m : Mailbox cmd resp) (r : R)
      → P r
      → All P (l.items m.responses)
      → All P (l.items (poll_command cmd resp r m).1.responses)
  poll_command-All P m r p h = elim (Option-cases (cmd.pop m.commands).0) [
    | inl nothing ↦ unfold poll_command in rw nothing h
    | inr (c, e) ↦ obeyed-All c P m r e p h
  ]

  poll_at-Posted :
      (cores : List ℕ) (ms : List (Mailbox cmd resp)) (i : ℕ) (r : R)
      → get_elem? cores i ≡ some (core r)
      → Posted cmd resp core l cores ms
      → Posted cmd resp core l cores (poll_at cmd resp i r ms)
  poll_at-Posted [] [] i r at h = tt
  poll_at-Posted [] (m ∷ ms) i r at h = absurd h
  poll_at-Posted (c ∷ cs) [] i r at h = h
  poll_at-Posted (c ∷ cs) (m ∷ ms) zero r at h =
      (poll_command-All (λ s. core s ≡ c) m r (sym (some_eq at)) h.0, h.1)
  poll_at-Posted (c ∷ cs) (m ∷ ms) (suc i) r at h = (h.0, poll_at-Posted cs ms i r at h.1)

module _ {R S Row : Type 0} (cmd : Channel Command) (resp : Channel R) (k : Clock) (core : R → ℕ)
    (state : ℕ → R → S) (diff : ℕ → S → S → Outcome Row) (kl : ClockLaws k) (time_of : S → ℕ)
    (l : ChannelLaws resp) (cores : List ℕ) where
  abbrev State : Type 0
  State = Controller cmd resp k core state diff

  abbrev state_or : State → Outcome (Bool × List Row × State) → State
  state_or s (value (left, rows, u)) = u
  state_or s (panic p) = s

  -- What rounds of the controller and answers of the workers, each with its own core, lead to, in any order.
  pub data Runs (s : State) : State → Type 0 where
    still : Runs s s
    controls :
        (u v : State) (leave left : Bool) (rows : List Row)
        → Runs s u
        → control_round cmd resp k core state diff leave u ≡ value (left, rows, v)
        → Runs s v
    answers :
        (u : State) (i : ℕ) (r : R)
        → Runs s u
        → get_elem? cores i ≡ some (core r)
        → Runs s (record u { queues = poll_at cmd resp i r u.queues })

  module _ (at : (time : ℕ) (r : R) → time_of (state time r) ≡ time)
      (returns : Returns cmd resp k core state diff kl time_of) where
    Runs-Past :
        (s u : State)
        → Distinct cores
        → Posted cmd resp core l cores s.queues
        → Past cmd resp k core state diff kl time_of s.map s.time
        → Runs s u
        → Posted cmd resp core l cores u.queues
          × Past cmd resp k core state diff kl time_of u.map u.time
    Runs-Past s _ apart posted past still = (posted, past)
    Runs-Past s _ apart posted past (controls u v leave left rows runs e) =
        let (posted', past') = Runs-Past s u apart posted past runs in
        let (rows', v', e', kept, kept') =
          control_round-Past cmd resp k core state diff kl time_of at returns l cores leave u apart
            posted' past' in
        let same : v' ≡ v = ap (state_or v) (sym e' ∙ e) in
        (
          subst (λ (w : State). Posted cmd resp core l cores w.queues) same kept,
          subst (λ (w : State). Past cmd resp k core state diff kl time_of w.map w.time) same kept',
        )
    Runs-Past s _ apart posted past (answers u i r runs here) =
        let (posted', past') = Runs-Past s u apart posted past runs in
        (poll_at-Posted cmd resp core l cores u.queues i r here posted', past')

    -- With a clock that is not set back, workers on cores that all differ, and a `diff` that returns where a second
    -- has passed since the older state: from a state with only the workers' own reports in their queues and no
    -- entry of the map younger than the clock, whatever rounds of the controller and answers of the workers lead
    -- to, in any order, the controller's next round returns; it leaves the loop exactly if it is to.
    pub controller_returns :
        (s u : State)
        → Distinct cores
        → Posted cmd resp core l cores s.queues
        → Past cmd resp k core state diff kl time_of s.map s.time
        → Runs s u
        → (leave : Bool)
        → (rows : List Row) × (v : State) × (control_round cmd resp k core state diff leave u
            ≡ value (leave, rows, v))
    controller_returns s u apart posted past runs leave =
        let (posted', past') = Runs-Past s u apart posted past runs in
        let (rows, v, e, kept, kept') =
          control_round-Past cmd resp k core state diff kl time_of at returns l cores leave u apart
            posted' past' in
        (rows, v, e)
