-- ===== src/Containers/Map.antt =====
-- std::map<size_t, V> as an association list in ascending order of the keys, which is the order of
-- iteration. `at d` is the access by `[ ]`, which makes an entry `d` where there is none; an entry
-- `d` that nothing was written to cannot be told from a missing one.
pub mod Count
pub mod Entries
use localized_causal_broadca.Prelude.{
  ℕ, ◌≡◌, refl, Bool, true, false, List, [], ◌∷◌, arith, ltb, ◌==◌, if◌then◌else◌, Option, none,
  some, length, ◌≤◌, ◌<◌,
}

abbrev pub NumMap {ℓ} : Type ℓ → Type ℓ
NumMap V = List (ℕ × V)

module _ {ℓ} {V : Type ℓ} where
  unfoldable pub at : V → ℕ → NumMap V → V
  at d k [] = d
  at d k ((j, v) ∷ m) = if j == k then v else at d k m

  unfoldable pub put : ℕ → V → NumMap V → NumMap V
  put k v [] = (k, v) ∷ []
  put k v ((j, w) ∷ m) =
      let rest = (j, w) ∷ put k v m in
      if ltb j k then rest else if j == k then (k, v) ∷ m else (k, v) ∷ (j, w) ∷ m

  -- count(k) == 1
  unfoldable pub has : ℕ → NumMap V → Bool
  has k [] = false
  has k ((j, v) ∷ m) = if j == k then true else has k m

  unfoldable pub remove : ℕ → NumMap V → NumMap V
  remove k [] = []
  remove k ((j, v) ∷ m) = let rest = remove k m in if j == k then rest else (j, v) ∷ rest

  pub at-put :
      (d : V) (j k : ℕ) (v : V) (m : NumMap V)
      → at d j (put k v m) ≡ (if k == j then v else at d j m)
  unfolding at put
  at-put d j k v [] = refl
  at-put d j k v ((i, w) ∷ m) = ground (arith, at-put d j k v m)

  pub at-nil : (d : V) (j : ℕ) → at d j [] ≡ d
  unfolding at
  at-nil d j = refl

  pub has-put :
      (j k : ℕ) (v : V) (m : NumMap V) → has j (put k v m) ≡ (if k == j then true else has j m)
  unfolding has put
  has-put j k v [] = refl
  has-put j k v ((i, w) ∷ m) = ground (arith, has-put j k v m)

  pub has-remove :
      (j k : ℕ) (m : NumMap V) → has j (remove k m) ≡ (if k == j then false else has j m)
  unfolding has remove
  has-remove j k [] = ground arith
  has-remove j k ((i, w) ∷ m) = ground (arith, has-remove j k m)

  pub at-remove :
      (d : V) (j k : ℕ) (m : NumMap V) → at d j (remove k m) ≡ (if k == j then d else at d j m)
  unfolding at remove
  at-remove d j k [] = ground arith
  at-remove d j k ((i, w) ∷ m) = ground (arith, at-remove d j k m)

  -- A map lacks a key exactly where its access makes a new entry.
  pub at_absent : (d : V) (k : ℕ) (m : NumMap V) → has k m ≡ false → at d k m ≡ d
  unfolding at has
  at_absent d k [] h = refl
  at_absent d k ((i, w) ∷ m) h = ground (arith, at_absent d k m)

  -- the entry of a key
  unfoldable pub find : ℕ → NumMap V → Option V
  find k [] = none
  find k ((j, v) ∷ m) = if j == k then some v else find k m

  pub find-put :
      (j k : ℕ) (v : V) (m : NumMap V) → find j (put k v m) ≡ (if k == j then some v else find j m)
  unfolding find put
  find-put j k v [] = refl
  find-put j k v ((i, w) ∷ m) = ground (arith, find-put j k v m)

  pub find-remove :
      (j k : ℕ) (m : NumMap V) → find j (remove k m) ≡ (if k == j then none else find j m)
  unfolding find remove
  find-remove j k [] = ground arith
  find-remove j k ((i, w) ∷ m) = ground (arith, find-remove j k m)

  pub find-nil : (j : ℕ) → find j [] ≡ none
  unfolding find
  find-nil j = refl

  -- A removal makes the map no larger, and smaller where there is an entry.
  pub length-remove_le : (k : ℕ) (m : NumMap V) → length (remove k m) ≤ length m
  unfolding remove
  length-remove_le k [] = omega arith
  length-remove_le k ((j, w) ∷ m) = ground (arith, length-remove_le k m)

  pub length-remove_lt :
      (k : ℕ) (v : V) (m : NumMap V) → find k m ≡ some v → length (remove k m) < length m
  unfolding find remove
  length-remove_lt k v [] h = cc
  length-remove_lt k v ((j, w) ∷ m) h = ground (arith, length-remove_lt k v m, length-remove_le k m)
