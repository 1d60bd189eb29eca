-- ===== src/Control/Table.antt =====
-- The maps of examples/l2fwd-2link-multicore.rs and examples/rxdrop.rs, as association lists.
use afxdp_rs.Prelude.{
  ℕ, ◌≡◌, ◌≢◌, refl, sym, ◌∙◌, subst, some, List, [], ◌∷◌, All, ==_of_eq, ==_of_ne, ℕ_discrete,
  some_eq,
}
use afxdp_rs.Control.{get, insert}

module _ {S : Type 0} where
  pub get-All :
      (P : S → Type 0) (key : ℕ) (entries : List (ℕ × S)) (s : S)
      → All (λ e. P e.1) entries
      → get key entries ≡ some s
      → P s
  get-All P key [] s h e = absurd (cc)
  get-All P key ((k, t) ∷ entries) s h e = elim (ℕ_discrete k key) [
    | yes same ↦ subst P (some_eq (rw (==_of_eq _ _ same) at e)) h.0
    | no other ↦ get-All P key entries s h.1 (rw (==_of_ne _ _ other) at e)
  ]

  pub insert-All :
      (P : S → Type 0) (key : ℕ) (s : S) (entries : List (ℕ × S))
      → P s
      → All (λ e. P e.1) entries
      → All (λ e. P e.1) (insert key s entries)
  insert-All P key s [] p h = (p, tt)
  insert-All P key s ((k, t) ∷ entries) p h = elim (ℕ_discrete k key) [
    | yes same ↦ rw (==_of_eq _ _ same) (p, h.1)
    | no other ↦ rw (==_of_ne _ _ other) (h.0, insert-All P key s entries p h.1)
  ]

  pub get-insert_other :
      (key other : ℕ) (s : S) (entries : List (ℕ × S))
      → other ≢ key
      → get other (insert key s entries) ≡ get other entries
  get-insert_other key other s [] ne = rw (==_of_ne key other (λ e. ne (sym e)))
  get-insert_other key other s ((k, t) ∷ entries) ne =
      let rest = get-insert_other key other s entries ne in
      elim (ℕ_discrete k key) [
        | yes same ↦
            let skips : k ≢ other = λ e. ne (sym e ∙ same) in
            rw (==_of_eq _ _ same, ==_of_ne _ _ skips)
        | no differs ↦ elim (ℕ_discrete k other) [
          | yes at ↦ rw (==_of_ne _ _ differs, ==_of_eq _ _ at)
          | no elsewhere ↦ rw (==_of_ne _ _ differs, ==_of_ne _ _ elsewhere) rest
        ]
      ]

  pub get-insert :
      (key : ℕ) (s : S) (entries : List (ℕ × S)) → get key (insert key s entries) ≡ some s
  get-insert key s [] = rw (==_of_eq key key refl)
  get-insert key s ((k, t) ∷ entries) =
      let rest = get-insert key s entries in
      elim (ℕ_discrete k key) [
        | yes same ↦ rw (==_of_eq _ _ same, ==_of_eq _ _ same)
        | no other ↦ rw (==_of_ne _ _ other, ==_of_ne _ _ other) rest
      ]
