-- ===== src/Prelude/Results.antt =====
-- The ways in which a call can fail, as values.
use mathlib.Core.Path.{◌≡◌, refl, subst}
use mathlib.Core.Logic.{◌⊎◌, inl, inr}
use mathlib.Core.Bool.{Bool, true, false}

-- A failed `assert`; the exceptions std::invalid_argument, std::out_of_range,
-- std::length_error, and std::runtime_error; and a read behind the last byte of a buffer.
pub data Fault : Type 0 where
  assert_failed invalid_argument out_of_range length_error runtime_error overrun : Fault

pub data Result {ℓ} (A : Type ℓ) : Type ℓ where
  err : (fault : Fault) → Result A
  ok : (value : A) → Result A

pub Result-cases {ℓ} :
    {A : Type ℓ} (r : Result A) → ((a : A) × (r ≡ ok a)) ⊎ ((e : Fault) × (r ≡ err e))
Result-cases (err e) = inr (e, refl)
Result-cases (ok a) = inl (a, refl)

-- What follows a call runs if the call returns.
infixl 5 ◌>>=◌
abbrev pub ◌>>=◌ {ℓ κ} : {A : Type ℓ} {B : Type κ} → Result A → (A → Result B) → Result B
err fault >>= next = err fault
ok value >>= next = next value

-- Where the whole returns, the first call did.
module _ {ℓ κ} {A : Type ℓ} {B : Type κ} (next : A → Result B) (b : B) where
  pub >>=-eq-ok :
      (first : Result A) → first >>= next ≡ ok b → (a : A) × (first ≡ ok a) × (next a ≡ ok b)
  >>=-eq-ok first whole = elim (Result-cases first) [
    | inl (a, returned) ↦ (a, returned, cc)
    | inr (fault, failed) ↦ cc
  ]

infixl 5 ◌>>◌
abbrev pub ◌>>◌ {ℓ} : {B : Type ℓ} → Result (Unit {0}) → Result B → Result B
first >> rest = first >>= λ _. rest

-- `assert`, or a test whose failure throws
abbrev pub require : Bool → Fault → Result (Unit {0})
require false fault = err fault
require true fault = ok tt

-- What is returned has the property, if anything is.
abbrev pub Ensures {ℓ κ} : {A : Type ℓ} → (A → Type κ) → Result A → Type κ
Ensures P (err fault) = Unit
Ensures P (ok value) = P value

pub Ensures-bind {ℓ κ μ} :
    {A : Type ℓ} {B : Type κ} (P : B → Type μ) (first : Result A) (next : A → Result B)
    → ((a : A) → first ≡ ok a → Ensures P (next a))
    → Ensures P (first >>= next)
Ensures-bind P (err fault) next h = tt
Ensures-bind P (ok value) next h = h value refl

pub Ensures-ok {ℓ κ} :
    {A : Type ℓ} (P : A → Type κ) {r : Result A} (a : A) → Ensures P r → r ≡ ok a → P a
Ensures-ok P a h e = subst (Ensures P) e h
