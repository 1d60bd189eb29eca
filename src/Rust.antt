-- ===== src/Rust.antt =====
-- What the sources use of the language: panics as values, `Result`, machine integers (usize is
-- 64 bits wide), and slices of mapped memory.
pub mod Vec
pub mod Fits
use afxdp_rs.Prelude.{
  ◌⊎◌, inl, inr, ◌≡◌, refl, ℕ, ◌+◌, ◌-◌, ◌*◌, ◌%◌, ◌^◌, Bool, Option, none, some, if◌then◌else◌,
  ltb, leb,
}

-- Why a call panics: arithmetic overflow, an index out of bounds, an `unwrap` of `Err` or `None`,
-- `panic!`, `todo!`, and a division by zero.
pub data Panic : Type 0 where
  overflow bounds unwrap explicit todo division : Panic

pub data Outcome {ℓ} (A : Type ℓ) : Type ℓ where
  value : A → Outcome A
  panic : Panic → Outcome A

infixl 5 ◌>>=◌ ◌>>◌
abbrev pub ◌>>=◌ {ℓ κ} : {A : Type ℓ} {B : Type κ} → Outcome A → (A → Outcome B) → Outcome B
value a >>= f = f a
panic p >>= f = panic p

pub value_eq {ℓ} : {A : Type ℓ} {a b : A} → value a ≡ value b → a ≡ b
value_eq h = cc

pub Outcome-cases {ℓ} :
    {A : Type ℓ} (m : Outcome A) → ((a : A) × (m ≡ value a)) ⊎ ((p : Panic) × (m ≡ panic p))
Outcome-cases (value a) = inl (a, refl)
Outcome-cases (panic p) = inr (p, refl)

-- A chain of calls that returns has a first one that returned.
pub >>=-eq-value {ℓ κ} :
    {A : Type ℓ} {B : Type κ} (m : Outcome A) (f : A → Outcome B) {b : B}
    → (m >>= f) ≡ value b
    → (a : A) × (m ≡ value a) × (f a ≡ value b)
>>=-eq-value (value a) f h = (a, refl, h)
>>=-eq-value (panic p) f h = cc

abbrev pub ◌>>◌ {ℓ} : {B : Type ℓ} → Outcome (Unit {0}) → Outcome B → Outcome B
m >> k = m >>= λ _. k

-- `if test { panic!(..) }`
abbrev pub panic_if : Bool → Panic → Outcome (Unit {0})
panic_if b p = if b then panic p else value tt

abbrev pub unwrap_some {ℓ} : {A : Type ℓ} → Option A → Panic → Outcome A
unwrap_some none p = panic p
unwrap_some (some a) p = value a

pub data Result {ℓ κ} (A : Type ℓ) (E : Type κ) : Type (ℓ ⊔ κ) where
  ok : A → Result A E
  err : E → Result A E

-- A result of `w`-bit unsigned arithmetic. `checks` says whether the build has overflow checks (as
-- the dev and test profiles do): with them an overflow panics, without them it wraps.
abbrev pub wrap : Bool → ℕ → ℕ → Outcome ℕ
wrap checks w x =
    if ltb x (2 ^ w) then value x else if checks then panic overflow else value (x % 2 ^ w)

abbrev pub add : Bool → ℕ → ℕ → ℕ → Outcome ℕ
add checks w a b = wrap checks w (a + b)

abbrev pub mul : Bool → ℕ → ℕ → ℕ → Outcome ℕ
mul checks w a b = wrap checks w (a * b)

abbrev pub sub : Bool → ℕ → ℕ → ℕ → Outcome ℕ
sub checks w a b =
    if leb b a then value (a - b) else if checks then panic overflow else value (2 ^ w + a - b)

-- `uN::try_from(x).unwrap()`
abbrev pub try_into : ℕ → ℕ → Outcome ℕ
try_into w x = if ltb x (2 ^ w) then value x else panic unwrap

-- `x as uN`
abbrev pub cast : ℕ → ℕ → ℕ
cast w x = x % 2 ^ w

-- A `&mut [u8]` into mapped memory: the address of its first byte, and its length.
pub record Slice : Type 0 where
  pub ptr : ℕ
  pub len : ℕ

-- `ptr.offset(addr as isize)`
abbrev pub offset : ℕ → ℕ → ℕ
offset ptr addr = (ptr + addr) % 2 ^ 64
