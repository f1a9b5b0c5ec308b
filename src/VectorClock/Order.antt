-- ===== src/VectorClock/Order.antt =====
-- The comparisons of vector clocks are the pointwise orders.
use localized_causal_broadca.Prelude.{
  ℕ, zero, suc, ◌≤◌, ◌≡◌, ◌≢◌, ◌↔◌, refl, ap, Bool, true, false, List, [], ◌∷◌, arith, inl, inr,
  length, get_or, ok, Bool-cases, if◌then◌else◌,
}
use localized_causal_broadca.VectorClock.{VectorClock, IsValid, less_values, leq_values, less, leq}

-- No entry of `v` lies above that of `w`.
abbrev pub Below : VectorClock → VectorClock → Type 0
Below v w = (i : ℕ) → get_or v.values i 0 ≤ get_or w.values i 0

leq_values_sound :
    (xs ys : List ℕ)
    → leq_values xs ys ≡ true
    → length xs ≡ length ys
    → (i : ℕ) → get_or xs i 0 ≤ get_or ys i 0
unfolding leq_values
leq_values_sound [] ys h l i = omega arith
leq_values_sound (x ∷ xs) [] h l i = absurd (omega arith)
leq_values_sound (x ∷ xs) (y ∷ ys) h l zero = ground arith
leq_values_sound (x ∷ xs) (y ∷ ys) h l (suc i) =
    ground (arith, leq_values_sound xs ys (ground arith) (omega arith) i)

leq_values_complete :
    (xs ys : List ℕ) → ((i : ℕ) → get_or xs i 0 ≤ get_or ys i 0) → leq_values xs ys ≡ true
unfolding leq_values
leq_values_complete [] ys h = refl
leq_values_complete (x ∷ xs) [] h = refl
leq_values_complete (x ∷ xs) (y ∷ ys) h =
    ground (arith, h 0, leq_values_complete xs ys (λ i. h (suc i)))

module _ (v w : VectorClock) (hv : IsValid v) (hw : IsValid w)
    (same : v.num_processes ≡ w.num_processes) where
  leq-values : leq v w ≡ ok (leq_values v.values w.values)
  unfolding leq
  leq-values = ground arith

  -- On two clocks of one system, `<=` answers, and says yes exactly when no entry of the first lies
  -- above the same entry of the second.
  pub leq-iff-Below : (b : Bool) × (leq v w ≡ ok b) × ((b ≡ true) ↔ Below v w)
  leq-iff-Below = (
    leq_values v.values w.values,
    leq-values,
    (
      λ e. leq_values_sound v.values w.values e (omega (arith, hv.sized, hw.sized)),
      λ h. leq_values_complete v.values w.values h,
    ),
  )

-- The flag collects whether some entry is strictly lower.
less_values_lem :
    (b : Bool) (xs ys : List ℕ)
    → length xs ≡ length ys
    → less_values b xs ys
      ≡ (if leq_values xs ys then (if leq_values ys xs then b else true) else false)
unfolding less_values leq_values
less_values_lem b [] [] l = refl
less_values_lem b [] (y ∷ ys) l = absurd (omega arith)
less_values_lem b (x ∷ xs) [] l = absurd (omega arith)
less_values_lem b (x ∷ xs) (y ∷ ys) l =
    ground (arith, less_values_lem true xs ys (omega arith), less_values_lem b xs ys (omega arith))

leq_values_antisymm :
    (xs ys : List ℕ)
    → length xs ≡ length ys
    → leq_values xs ys ≡ true
    → leq_values ys xs ≡ true
    → xs ≡ ys
unfolding leq_values
leq_values_antisymm [] [] l h k = refl
leq_values_antisymm [] (y ∷ ys) l h k = absurd (omega arith)
leq_values_antisymm (x ∷ xs) [] l h k = absurd (omega arith)
leq_values_antisymm (x ∷ xs) (y ∷ ys) l h k =
    ground (arith, leq_values_antisymm xs ys (omega arith))

clocks_equal : (v w : VectorClock) → v.num_processes ≡ w.num_processes → v.values ≡ w.values → v ≡ w
clocks_equal v w e f = λ i. record { num_processes = e i; values = f i }

leq_values_refl : (xs : List ℕ) → leq_values xs xs ≡ true
unfolding leq_values
leq_values_refl [] = refl
leq_values_refl (x ∷ xs) = ground (arith, leq_values_refl xs)

module _ (v w : VectorClock) (hv : IsValid v) (hw : IsValid w)
    (same : v.num_processes ≡ w.num_processes) where
  less-values :
      less v w
      ≡ ok (
          if leq_values v.values w.values
          then (if leq_values w.values v.values then false else true)
          else false)
  unfolding less
  less-values =
      ground (arith, less_values_lem false v.values w.values (omega (arith, hv.sized, hw.sized)))

  -- `<` on two clocks of one system says yes exactly when `<=` does and the clocks differ.
  pub less-iff-leq : (less v w ≡ ok true) ↔ ((leq v w ≡ ok true) × (v ≢ w))
  less-iff-leq = (
    λ h. (
      ground (arith, less-values, leq-values v w hv hw same),
      λ e. ground (arith, less-values, ap {B = List ℕ} (λ u. u.values) e, leq_values_refl w.values),
    ),
    λ h. elim (Bool-cases (leq_values w.values v.values)) [
      | inl both ↦ absurd (
          h.1 (
            clocks_equal v w same (
              leq_values_antisymm v.values w.values (omega (arith, hv.sized, hw.sized))
                (ground (arith, leq-values v w hv hw same, h.0)) both)))
      | inr strict ↦ ground (arith, less-values, leq-values v w hv hw same, h.0)
    ],
  )
