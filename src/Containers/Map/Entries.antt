-- ===== src/Containers/Map/Entries.antt =====
-- What all entries of a map have.
use localized_causal_broadca.Prelude.{
  ℕ, [], ◌∷◌, arith, ltb, ◌==◌, All, Bool-cases, inl, inr, subst,
}
use localized_causal_broadca.Containers.Map.{NumMap, at, put, remove}

module _ {ℓ κ} {V : Type ℓ} (P : ℕ → V → Type κ) where
  abbrev pub Entries : NumMap V → Type κ
  Entries m = All (λ e. P e.0 e.1) m

  pub Entries-put : (k : ℕ) (v : V) (m : NumMap V) → P k v → Entries m → Entries (put k v m)
  unfolding put
  Entries-put k v [] p h = (p, tt)
  Entries-put k v ((j, w) ∷ m) p (q, h) = elim (Bool-cases (ltb j k)) [
    | inl before ↦ rw before (q, Entries-put k v m p h)
    | inr later ↦ rw later (elim (Bool-cases (j == k)) [
      | inl same ↦ rw same (p, h)
      | inr other ↦ rw other (p, (q, h))
    ])
  ]

  pub Entries-at : (d : V) (k : ℕ) (m : NumMap V) → P k d → Entries m → P k (at d k m)
  unfolding at
  Entries-at d k [] p h = p
  Entries-at d k ((j, w) ∷ m) p (q, h) = elim (Bool-cases (j == k)) [
    | inl same ↦ rw same (subst (λ i. P i w) (ground arith) q)
    | inr other ↦ rw other (Entries-at d k m p h)
  ]

  pub Entries-remove : (k : ℕ) (m : NumMap V) → Entries m → Entries (remove k m)
  unfolding remove
  Entries-remove k [] h = tt
  Entries-remove k ((j, w) ∷ m) (q, h) = elim (Bool-cases (j == k)) [
    | inl same ↦ rw same (Entries-remove k m h)
    | inr other ↦ rw other (q, Entries-remove k m h)
  ]
