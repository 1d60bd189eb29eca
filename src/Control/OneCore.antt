-- ===== src/Control/OneCore.antt =====
-- examples/l2fwd-2link-multicore.rs and examples/rxdrop.rs: two workers on one core.
use afxdp_rs.Prelude.{ℕ, ◌+◌, ◌≤◌, ◌<◌, ◌≡◌, ap, ◌∙◌, some, List, ◌∷◌, arith}
use afxdp_rs.Rust.{Outcome, value, panic, Panic}
use afxdp_rs.Extern.Channel.{Channel}
use afxdp_rs.Extern.Clock.{Clock, second}
use afxdp_rs.Control.{Command, get, insert, row_of, report_stats}
use afxdp_rs.Control.Table.{get-insert}

module _ {R S Row : Type 0} (cmd : Channel Command) (resp : Channel R) (k : Clock) (core : R → ℕ)
    (state : ℕ → R → S) (diff : ℕ → S → S → Outcome Row) (time_of : S → ℕ)
    (at : (time : ℕ) (r : R) → time_of (state time r) ≡ time) (p : Panic) where
  abbrev pub Panics : Type 0
  Panics =
      (now : ℕ) (current old : S)
      → time_of old ≤ now
      → now < time_of old + second
      → diff now current old ≡ panic p

  -- Where `diff` panics if less than a second has passed since the older state: of two reports in a row from one
  -- core, with the first of which the controller has no trouble, and with less than a second between the clock's
  -- readings for the first state and for the second rate, the second makes the controller panic.
  pub same_core-panic :
      Panics
      → (a b : R) (stats : List R) (table : List (ℕ × S)) (rows new : List Row) (t t' : k.Time)
      → core b ≡ core a
      → (let (time, t₁) = k.now t in
          row_of cmd resp k core state diff (get (core a) table) (state time a) t₁)
        ≡ value (new, t')
      → (let now = (k.now (k.now t').1).0 in ((k.now t).0 ≤ now) × (now < (k.now t).0 + second))
      → report_stats cmd resp k core state diff (a ∷ b ∷ stats) table rows t ≡ panic p
  unfolding report_stats
  same_core-panic panics a b stats table rows new t t' same first early =
      let current = state (k.now t).0 a in
      let found : get (core b) (insert (core a) current table) ≡ some current =
        ap (λ (c : ℕ). get c (insert (core a) current table)) same
        ∙ get-insert (core a) current table in
      let own = at (k.now t).0 a in
      let crash =
        panics (k.now (k.now t').1).0 (state (k.now t').0 b) current (omega (arith, own, early.0))
          (omega (arith, own, early.1)) in
      rw (first, found, crash)
