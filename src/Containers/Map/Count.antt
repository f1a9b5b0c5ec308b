-- ===== src/Containers/Map/Count.antt =====
-- How many entries a map has, and a sum over the entries, under insertion and removal.
use localized_causal_broadca.Prelude.{
  ℕ, ◌+◌, ◌<◌, ◌≡◌, refl, false, [], ◌∷◌, arith, ◌==◌, if◌then◌else◌, All, length, subst,
  Bool-cases, inl, inr,
}
use localized_causal_broadca.Containers.Map.{NumMap, at, put, has, remove}

module _ {ℓ} {V : Type ℓ} where
  -- every key lies above `k`
  abbrev pub Above : ℕ → NumMap V → Type 0
  Above k = All (λ e. k < e.0)

  -- The keys rise, so each stands there once.
  abbrev pub IsOrdered : NumMap V → Type 0
  IsOrdered [] = Unit {0}
  IsOrdered (e ∷ m) = Above e.0 m × IsOrdered m

  abbrev pub sum_by : (V → ℕ) → NumMap V → ℕ
  sum_by weight [] = 0
  sum_by weight (e ∷ m) = weight e.1 + sum_by weight m

  Above-trans : (i j : ℕ) (m : NumMap V) → i < j → Above j m → Above i m
  Above-trans i j [] h a = tt
  Above-trans i j ((k, v) ∷ m) h a = (omega arith, Above-trans i j m h a.1)

  put-Above : (i k : ℕ) (v : V) (m : NumMap V) → i < k → Above i m → Above i (put k v m)
  unfolding put
  put-Above i k v [] h a = (h, tt)
  put-Above i k v ((j, w) ∷ m) h a = ground (arith, put-Above i k v m h a.1)

  pub put-IsOrdered : (k : ℕ) (v : V) (m : NumMap V) → IsOrdered m → IsOrdered (put k v m)
  unfolding put
  put-IsOrdered k v [] o = (tt, tt)
  put-IsOrdered k v ((j, w) ∷ m) (a, o) = ground (
    arith,
    put-IsOrdered k v m o,
    λ (h : j < k). put-Above j k v m h a,
    λ (h : k < j). Above-trans k j m h a,
  )

  remove-Above : (i k : ℕ) (m : NumMap V) → Above i m → Above i (remove k m)
  unfolding remove
  remove-Above i k [] a = tt
  remove-Above i k ((j, w) ∷ m) a = ground (arith, remove-Above i k m a.1)

  pub remove-IsOrdered : (k : ℕ) (m : NumMap V) → IsOrdered m → IsOrdered (remove k m)
  unfolding remove
  remove-IsOrdered k [] o = tt
  remove-IsOrdered k ((j, w) ∷ m) (a, o) =
      ground (arith, remove-IsOrdered k m o, remove-Above j k m a)

  pub has-Above : (k : ℕ) (m : NumMap V) → Above k m → has k m ≡ false
  unfolding has
  has-Above k [] a = refl
  has-Above k ((j, w) ∷ m) a = ground (arith, has-Above k m a.1)

  pub at-Above : (d : V) (k : ℕ) (m : NumMap V) → Above k m → at d k m ≡ d
  unfolding at
  at-Above d k [] a = refl
  at-Above d k ((j, w) ∷ m) a = ground (arith, at-Above d k m a.1)

  -- A write makes the map larger by one, unless it overwrites.
  pub length-put :
      (k : ℕ) (v : V) (m : NumMap V)
      → IsOrdered m
      → length (put k v m) ≡ (if has k m then length m else length m + 1)
  unfolding put has
  length-put k v [] o = refl
  length-put k v ((j, w) ∷ m) (a, o) =
      ground (arith, length-put k v m o, λ (h : k < j). has-Above k m (Above-trans k j m h a))

  remove_missing : (k : ℕ) (m : NumMap V) → Above k m → remove k m ≡ m
  unfolding remove
  remove_missing k [] a = refl
  remove_missing k ((j, w) ∷ m) a = ground (arith, remove_missing k m a.1)

  pub length-remove :
      (k : ℕ) (m : NumMap V)
      → IsOrdered m
      → length m ≡ (if has k m then length (remove k m) + 1 else length (remove k m))
  unfolding remove has
  length-remove k [] o = refl
  length-remove k ((j, w) ∷ m) (a, o) =
      ground
        (arith, length-remove k m o, λ (e : j ≡ k). remove_missing k m (subst (λ i. Above i m) e a))

  -- Writing one entry changes the sum by that entry.
  pub sum_by-put :
      (weight : V → ℕ) (d : V) (k : ℕ) (v : V) (m : NumMap V)
      → weight d ≡ 0
      → IsOrdered m
      → sum_by weight (put k v m) + weight (at d k m) ≡ sum_by weight m + weight v
  unfolding put at
  sum_by-put weight d k v [] z o = omega arith
  sum_by-put weight d k v ((j, w) ∷ m) z (a, o) =
      ground (
        arith,
        sum_by-put weight d k v m z o,
        λ (h : k < j). at-Above d k m (Above-trans k j m h a),
      )

  -- What all entries have, and the default has, an access has.
  pub at-All :
      (P : V → Type 0) (d : V) (k : ℕ) (m : NumMap V) → P d → All (λ e. P e.1) m → P (at d k m)
  unfolding at
  at-All P d k [] p h = p
  at-All P d k ((j, w) ∷ m) p (q, h) = elim (Bool-cases (j == k)) [
    | inl e ↦ rw e q
    | inr e ↦ rw e (at-All P d k m p h)
  ]

  pub put-All :
      (P : V → Type 0) (k : ℕ) (v : V) (m : NumMap V)
      → P v
      → All (λ e. P e.1) m
      → All (λ e. P e.1) (put k v m)
  unfolding put
  put-All P k v [] p h = (p, tt)
  put-All P k v ((j, w) ∷ m) p h = ground (arith, put-All P k v m p h.1)
