-- ===== src/Prelude/Families.antt =====
-- Families over the natural numbers, one member for each process.
use Prim.Native.Nat.{ℕ}
use mathlib.Core.Path.{◌≡◌, subst}
use mathlib.Core.Logic.{inl, inr}
use native.Mathlib.Omega.{arith}
use localized_causal_broadca.Prelude.Tests.{◌==◌, ==_refl, if◌then◌else◌, Bool-cases}

-- a family with one member changed
module _ {ℓ} {A : Type ℓ} where
  unfoldable pub update : ℕ → A → (ℕ → A) → ℕ → A
  update i a f j = if j == i then a else f j

  pub update_self : (i : ℕ) (a : A) (f : ℕ → A) → update i a f i ≡ a
  unfolding update
  update_self i a f = rw (==_refl i)

  pub update_all {κ} :
      (P : ℕ → A → Type κ) (i : ℕ) (a : A) (f : ℕ → A) (j : ℕ)
      → P i a
      → P j (f j)
      → P j (update i a f j)
  unfolding update
  update_all P i a f j p q = elim (Bool-cases (j == i)) [
    | inl same ↦ rw same (subst (λ k. P k a) (ground arith) p)
    | inr other ↦ rw other q
  ]
