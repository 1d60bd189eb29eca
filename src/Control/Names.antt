-- ===== src/Control/Names.antt =====
-- examples/l2fwd-2link-multicore.rs and examples/rxdrop.rs: `link_names.sort()` and `link_names.dedup()`, on names
-- as their bytes.
use afxdp_rs.Prelude.{
  ℕ, ◌≡◌, ◌≢◌, ◌↔◌, inl, inr, refl, sym, subst, Bool, true, false, List, [], ◌∷◌, All, All-imp,
  arith, if◌then◌else◌, ltb, ◌==◌, Bool-cases,
}

abbrev pub Name : Type 0
Name = List ℕ

-- Whether the first name comes before the second, or is the same.
before : Name → Name → Bool
before [] b = true
before (x ∷ xs) [] = false
before (x ∷ xs) (y ∷ ys) =
    let rest = before xs ys in if ltb x y then true else if x == y then rest else false

same : Name → Name → Bool
same [] [] = true
same [] (y ∷ ys) = false
same (x ∷ xs) [] = false
same (x ∷ xs) (y ∷ ys) = let rest = same xs ys in if x == y then rest else false

insert_name : Name → List Name → List Name
insert_name n [] = n ∷ []
insert_name n (m ∷ ms) = let rest = insert_name n ms in if before n m then n ∷ m ∷ ms else m ∷ rest

pub sort : List Name → List Name
sort [] = []
sort (n ∷ ns) = insert_name n (sort ns)

-- What `dedup` keeps behind a name that it has kept.
dedup_after : Name → List Name → List Name
dedup_after n [] = []
dedup_after n (m ∷ ms) =
    let skip = dedup_after n ms in
    let keep = dedup_after m ms in if same n m then skip else m ∷ keep

pub dedup : List Name → List Name
dedup [] = []
dedup (n ∷ ns) = n ∷ dedup_after n ns

same_eq : (a b : Name) → same a b ≡ true → a ≡ b
unfolding same
same_eq [] [] h = refl
same_eq [] (y ∷ ys) h = absurd (cc)
same_eq (x ∷ xs) [] h = absurd (cc)
same_eq (x ∷ xs) (y ∷ ys) h = grind (arith, same_eq xs ys)

same_refl : (a : Name) → same a a ≡ true
unfolding same
same_refl [] = refl
same_refl (x ∷ xs) = ground (arith, same_refl xs)

before_antisym : (a b : Name) → before a b ≡ true → before b a ≡ true → a ≡ b
unfolding before
before_antisym [] [] h g = refl
before_antisym [] (y ∷ ys) h g = absurd (cc)
before_antisym (x ∷ xs) [] h g = absurd (cc)
before_antisym (x ∷ xs) (y ∷ ys) h g = grind (arith, before_antisym xs ys)

before_total : (a b : Name) → before a b ≡ false → before b a ≡ true
unfolding before
before_total [] b h = absurd (cc)
before_total (x ∷ xs) [] h = refl
before_total (x ∷ xs) (y ∷ ys) h = ground (arith, before_total xs ys)

before_trans : (a b c : Name) → before a b ≡ true → before b c ≡ true → before a c ≡ true
unfolding before
before_trans [] b c h g = refl
before_trans (x ∷ xs) [] c h g = absurd (cc)
before_trans (x ∷ xs) (y ∷ ys) [] h g = absurd (cc)
before_trans (x ∷ xs) (y ∷ ys) (z ∷ zs) h g = ground (arith, before_trans xs ys zs)

-- Each name comes before all that follow it.
abbrev Sorted : List Name → Type 0
Sorted [] = Unit {0}
Sorted (n ∷ ns) = All (λ m. before n m ≡ true) ns × Sorted ns

-- No name stands twice.
abbrev pub Once : List Name → Type 0
Once [] = Unit {0}
Once (n ∷ ns) = All (λ m. m ≢ n) ns × Once ns

module _ (Q : Name → Type 0) where
  insert_name-All : (n : Name) (ms : List Name) → Q n → All Q ms → All Q (insert_name n ms)
  unfolding insert_name
  insert_name-All n [] q h = (q, tt)
  insert_name-All n (m ∷ ms) q h = elim (Bool-cases (before n m)) [
    | inl first ↦ rw first (q, h)
    | inr later ↦ rw later (h.0, insert_name-All n ms q h.1)
  ]

  All-insert_name : (n : Name) (ms : List Name) → All Q (insert_name n ms) → Q n × All Q ms
  unfolding insert_name
  All-insert_name n [] h = h
  All-insert_name n (m ∷ ms) h = elim (Bool-cases (before n m)) [
    | inl first ↦ rw first at h
    | inr later ↦
        let g : Q m × All Q (insert_name n ms) = rw later at h in
        let (q, rest) = All-insert_name n ms g.1 in (q, (g.0, rest))
  ]

  dedup_after-All : (n : Name) (ms : List Name) → All Q ms → All Q (dedup_after n ms)
  unfolding dedup_after
  dedup_after-All n [] h = tt
  dedup_after-All n (m ∷ ms) h = elim (Bool-cases (same n m)) [
    | inl again ↦ rw again (dedup_after-All n ms h.1)
    | inr new ↦ rw new (h.0, dedup_after-All m ms h.1)
  ]

  All-dedup_after : (n : Name) (ms : List Name) → Q n → All Q (dedup_after n ms) → All Q ms
  unfolding dedup_after
  All-dedup_after n [] q h = tt
  All-dedup_after n (m ∷ ms) q h = elim (Bool-cases (same n m)) [
    | inl again ↦ (subst Q (same_eq n m again) q, All-dedup_after n ms q (rw again at h))
    | inr new ↦
        let g : Q m × All Q (dedup_after m ms) = rw new at h in (g.0, All-dedup_after m ms g.0 g.1)
  ]

  sort-All : (ns : List Name) → All Q ns → All Q (sort ns)
  unfolding sort
  sort-All [] h = tt
  sort-All (n ∷ ns) h = insert_name-All n (sort ns) h.0 (sort-All ns h.1)

  All-sort : (ns : List Name) → All Q (sort ns) → All Q ns
  unfolding sort
  All-sort [] h = tt
  All-sort (n ∷ ns) h = let (q, rest) = All-insert_name n (sort ns) h in (q, All-sort ns rest)

insert_name-Sorted : (n : Name) (ms : List Name) → Sorted ms → Sorted (insert_name n ms)
unfolding insert_name
insert_name-Sorted n [] h = (tt, tt)
insert_name-Sorted n (m ∷ ms) h = elim (Bool-cases (before n m)) [
  | inl first ↦ rw first ((first, All-imp _ _ (λ e le. before_trans n m e first le) ms h.0), h)
  | inr later ↦ rw later (
    insert_name-All (λ e. before m e ≡ true) n ms (before_total n m later) h.0,
    insert_name-Sorted n ms h.1,
  )
]

sort-Sorted : (ns : List Name) → Sorted (sort ns)
unfolding sort
sort-Sorted [] = tt
sort-Sorted (n ∷ ns) = insert_name-Sorted n (sort ns) (sort-Sorted ns)

dedup_after-Once :
    (n : Name) (ms : List Name)
    → All (λ m. before n m ≡ true) ms
    → Sorted ms
    → All (λ m. m ≢ n) (dedup_after n ms) × Once (dedup_after n ms)
unfolding dedup_after
dedup_after-Once n [] h sorted = (tt, tt)
dedup_after-Once n (m ∷ ms) h sorted = elim (Bool-cases (same n m)) [
  | inl again ↦ rw again (dedup_after-Once n ms h.1 sorted.1)
  | inr new ↦
      let differ : n ≢ m = λ e.
        let own = subst (λ k. same n k ≡ false) (sym e) new in absurd (cc (own, same_refl n)) in
      let (others, once) = dedup_after-Once m ms sorted.0 sorted.1 in
      let behind : All (λ e. e ≢ n) ms =
        All-imp _ _
          (λ e le eq. differ (before_antisym n m h.0 (subst (λ k. before m k ≡ true) eq le))) ms
          sorted.0 in
      rw new ((λ e. differ (sym e), dedup_after-All (λ e. e ≢ n) m ms behind), (others, once))
]

dedup-Once : (ms : List Name) → Sorted ms → Once (dedup ms)
unfolding dedup
dedup-Once [] sorted = tt
dedup-Once (n ∷ ns) sorted = dedup_after-Once n ns sorted.0 sorted.1

dedup-All : (Q : Name → Type 0) (ms : List Name) → All Q (dedup ms) ↔ All Q ms
unfolding dedup
dedup-All Q [] = (λ h. h, λ h. h)
dedup-All Q (n ∷ ns) =
    (λ h. (h.0, All-dedup_after Q n ns h.0 h.1), λ h. (h.0, dedup_after-All Q n ns h.1))

-- What is left has the same names, each once.
pub dedup-sort :
    (ns : List Name)
    → Once (dedup (sort ns)) × ((Q : Name → Type 0) → (All Q (dedup (sort ns)) ↔ All Q ns))
dedup-sort ns = (
  dedup-Once (sort ns) (sort-Sorted ns),
  λ Q.
      let (to, from) = dedup-All Q (sort ns) in
      (λ h. All-sort Q ns (to h), λ h. from (sort-All Q ns h)),
)
