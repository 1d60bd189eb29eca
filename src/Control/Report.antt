-- ===== src/Control/Report.antt =====
-- examples/l2fwd-2link-multicore.rs and examples/rxdrop.rs: when the controller computes its rates.
use afxdp_rs.Prelude.{
  ℕ, ◌+◌, ◌≤◌, ◌≡◌, ◌≢◌, refl, sym, ◌∙◌, subst, Bool, Option, none, some, List, [], ◌∷◌, ◌++◌, All,
  All-imp, map, arith, ◌⊎◌, inl, inr, if◌then◌else◌,
}
use afxdp_rs.Rust.{Outcome, value}
use afxdp_rs.Extern.Channel.{Channel, ChannelLaws}
use afxdp_rs.Extern.Clock.{Clock, ClockLaws, second}
use afxdp_rs.Control.{
  Command, exit, get_stats, Mailbox, get, insert, tell, poll_responses, row_of, report_stats,
  Controller, control_round,
}
use afxdp_rs.Control.Table.{get-All, insert-All, get-insert_other}

-- No two of the numbers are equal.
abbrev pub Distinct : List ℕ → Type 0
Distinct [] = Unit {0}
Distinct (c ∷ cs) = All (λ b. b ≢ c) cs × Distinct cs

nil_or_cons :
    {A : Type 0} → (xs : List A) → (xs ≡ []) ⊎ ((x : A) × (rest : List A) × (xs ≡ x ∷ rest))
nil_or_cons [] = inl refl
nil_or_cons (x ∷ rest) = inr (x, rest, refl)

module _ {R : Type 0} (cmd : Channel Command) (resp : Channel R) (core : R → ℕ)
    (l : ChannelLaws resp) where
  -- The reports that wait in a worker's queue are of its core.
  abbrev pub Posted : List ℕ → List (Mailbox cmd resp) → Type 0
  Posted [] [] = Unit {0}
  Posted (c ∷ cs) (m ∷ ms) = All (λ r. core r ≡ c) (l.items m.responses) × Posted cs ms
  Posted [] (m ∷ ms) = ⊥
  Posted (c ∷ cs) [] = ⊥

  tell-Posted :
      (c : Command) (cores : List ℕ) (ms : List (Mailbox cmd resp))
      → Posted cores ms
      → Posted cores (tell cmd resp c ms)
  unfolding tell
  tell-Posted c [] [] h = tt
  tell-Posted c (k ∷ ks) (m ∷ ms) h = (h.0, tell-Posted c ks ms h.1)
  tell-Posted c [] (m ∷ ms) h = h
  tell-Posted c (k ∷ ks) [] h = h

  -- Of each core one report is taken at most.
  poll_responses-Distinct :
      (cores : List ℕ) (ms : List (Mailbox cmd resp))
      → Posted cores ms
      → Distinct cores
      → let (stats, ms') = poll_responses cmd resp ms in
        Distinct (map core stats)
        × Posted cores ms'
        × ((Q : ℕ → Type 0) → All Q cores → All Q (map core stats))
  unfolding poll_responses
  poll_responses-Distinct [] [] h apart = (tt, tt, λ Q q. tt)
  poll_responses-Distinct (c ∷ cs) (m ∷ ms) h apart =
      let (rest_apart, posted, holds) = poll_responses-Distinct cs ms h.1 apart.1 in
      elim (nil_or_cons (l.items m.responses)) [
        | inl empty ↦
            rw (l.pop_none m.responses empty, l.pop_none_items m.responses empty)
              (rest_apart, (tt, posted), λ Q q. holds Q q.1)
        | inr (r, rest, e) ↦
            let own = subst (All (λ s. core s ≡ c)) e h.0 in
            rw (l.pop_some m.responses r rest e, l.pop_some_items m.responses r rest e)
              (
                (rw (own.0) (holds (λ b. b ≢ c) apart.0), rest_apart),
                (own.1, posted),
                λ Q q. (subst Q (sym own.0) q.0, holds Q q.1),
              )
      ]
  poll_responses-Distinct [] (m ∷ ms) h apart = absurd h
  poll_responses-Distinct (c ∷ cs) [] h apart = absurd h

All-all : {A : Type 0} → (P : A → Type 0) → ((x : A) → P x) → (xs : List A) → All P xs
All-all P h [] = tt
All-all P h (x ∷ xs) = (h x, All-all P h xs)

-- `time_of`: when a state was made.
module _ {R S Row : Type 0} (cmd : Channel Command) (resp : Channel R) (k : Clock) (core : R → ℕ)
    (state : ℕ → R → S) (diff : ℕ → S → S → Outcome Row) (kl : ClockLaws k) (time_of : S → ℕ) where
  abbrev pub Past : List (ℕ × S) → k.Time → Type 0
  Past table t = All (λ e. time_of e.1 ≤ kl.latest t) table

  -- A state of the core, if there is one, is no younger than `since`.
  abbrev Old : ℕ → List (ℕ × S) → ℕ → Type 0
  Old since table c = (s : S) → get c table ≡ some s → time_of s ≤ since

  -- `diff` returns where a second has passed since the older state.
  abbrev pub Returns : Type 0
  Returns =
      (now : ℕ) (current old : S)
      → time_of old + second ≤ now
      → (row : Row) × (diff now current old ≡ value row)

  module _ (at : (time : ℕ) (r : R) → time_of (state time r) ≡ time) (returns : Returns) where
    row_of-value :
        (since : ℕ) (o : Option S) (current : S) (t : k.Time)
        → ((s : S) → o ≡ some s → time_of s ≤ since)
        → since + second ≤ kl.latest t
        → (new : List Row) × (t' : k.Time) × (row_of cmd resp k core state diff o current t
            ≡ value (new, t'))
          × (kl.latest t ≤ kl.latest t')
    row_of-value since none current t old late = ([], t, refl, omega arith)
    row_of-value since (some s) current t old late =
        let (row, r) =
          returns (k.now t).0 current s (omega (arith, old s refl, late, kl.now_later t)) in
        (row ∷ [], (k.now t).1, rw r, omega (arith, kl.now_later t, kl.now_latest t))

    Past-later :
        (table : List (ℕ × S)) (t t' : k.Time)
        → kl.latest t ≤ kl.latest t'
        → Past table t
        → Past table t'
    Past-later table t t' h = All-imp _ _ (λ e p. omega (arith, p, h)) table

    -- A new state of one core does not touch the others'.
    insert-Old :
        (since c : ℕ) (s : S) (table : List (ℕ × S)) (cs : List ℕ)
        → All (λ b. b ≢ c) cs
        → All (Old since table) cs
        → All (Old since (insert c s table)) cs
    insert-Old since c s table [] apart old = tt
    insert-Old since c s table (b ∷ bs) apart old = (
      λ found e. old.0 found (sym (get-insert_other c b s table apart.0) ∙ e),
      insert-Old since c s table bs apart.1 old.1,
    )

    report_stats-Past :
        (since : ℕ) (stats : List R) (table : List (ℕ × S)) (rows : List Row) (t : k.Time)
        → Distinct (map core stats)
        → All (Old since table) (map core stats)
        → Past table t
        → since + second ≤ kl.latest t
        → (rows' : List Row) × (table' : List (ℕ × S)) × (t' : k.Time) × (report_stats cmd resp k
              core state diff stats table rows t
            ≡ value (rows', table', t'))
          × Past table' t'
    unfolding report_stats
    report_stats-Past since [] table rows t apart old past late = (rows, table, t, refl, past)
    report_stats-Past since (stat ∷ stats) table rows t apart old past late =
        let (time, t') = k.now t in
        let current = state time stat in
        let c = core stat in
        let read : kl.latest t ≤ kl.latest t' = omega (arith, kl.now_later t, kl.now_latest t) in
        let (new, t'', r, later) =
          row_of-value since (get c table) current t' old.0 (omega (arith, late, read)) in
        let made : time_of current ≤ kl.latest t'' =
          omega (arith, at time stat, kl.now_latest t, later) in
        let (rows', table', t₁, r', past') =
          report_stats-Past since stats (insert c current table) (rows ++ new) t'' apart.1
            (insert-Old since c current table (map core stats) apart.0 old.1)
            (insert-All (λ s. time_of s ≤ kl.latest t'') c current table made
              (Past-later table t t'' (omega (arith, read, later)) past))
            (omega (arith, late, read, later)) in
        (rows', table', t₁, rw r r', past')

    module _ (l : ChannelLaws resp) where
      -- With a clock that is not set back, workers on cores that all differ, only their own reports in their
      -- queues, no entry of the map younger than the clock, and a `diff` that returns where a second has passed
      -- since the older state: the controller's round returns, whether it is to leave or not, and the same
      -- holds of the queues and the map afterwards.
      pub control_round-Past :
          (cores : List ℕ) (leave : Bool) (s : Controller cmd resp k core state diff)
          → Distinct cores
          → Posted cmd resp core l cores s.queues
          → Past s.map s.time
          → (rows : List Row) × (s' : Controller cmd resp k core state diff) × (control_round cmd
                resp k core state diff leave s
              ≡ value (leave, rows, s'))
            × Posted cmd resp core l cores s'.queues
            × Past s'.map s'.time
      unfolding control_round
      control_round-Past cores leave s apart posted past =
          let (stats, queues) = poll_responses cmd resp s.queues in
          let t = k.sleep 1 s.time in
          let slept : kl.latest s.time + second ≤ kl.latest t =
            omega (arith, kl.sleep_later 1 s.time) in
          let (each, posted', holds) =
            poll_responses-Distinct cmd resp core l cores s.queues posted apart in
          let old : (c : ℕ) → Old (kl.latest s.time) s.map c =
            λ c found e. get-All (λ u. time_of u ≤ kl.latest s.time) c s.map found past e in
          let (rows, table, t', r, past') =
            report_stats-Past (kl.latest s.time) stats s.map [] t each
              (holds (Old (kl.latest s.time) s.map) (All-all _ old cores))
              (Past-later s.map s.time t (omega (arith, slept)) past) slept in
          (
            rows,
            record {
              queues = tell cmd resp (if leave then exit else get_stats) queues;
              map = table;
              time = t';
            },
            rw r,
            tell-Posted cmd resp core l _ cores queues posted',
            past',
          )
