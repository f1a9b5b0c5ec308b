-- ===== src/Containers/Set.antt =====
-- std::set<size_t> in ascending order. Clients use the laws of the tests below.
pub mod Quorum
use localized_causal_broadca.Prelude.{
  ℕ, suc, ◌+◌, ◌≤◌, ◌<◌, ◌≡◌, refl, Bool, true, false, not, ◌&&◌, List, [], ◌∷◌, arith, ltb, ◌==◌,
  if◌then◌else◌, length, All,
}

abbrev pub NumSet : Type 0
NumSet = List ℕ

-- count(k) == 1
unfoldable pub member : ℕ → NumSet → Bool
member k [] = false
member k (x ∷ s) = if x == k then true else member k s

unfoldable pub insert : ℕ → NumSet → NumSet
insert k [] = k ∷ []
insert k (x ∷ s) =
    let rest = x ∷ insert k s in if ltb x k then rest else if x == k then x ∷ s else k ∷ x ∷ s

unfoldable pub erase : ℕ → NumSet → NumSet
erase k [] = []
erase k (x ∷ s) = let rest = erase k s in if x == k then rest else x ∷ rest

unfoldable pub size : NumSet → ℕ
size s = length s

pub member-insert :
    (j k : ℕ) (s : NumSet) → member j (insert k s) ≡ (if k == j then true else member j s)
unfolding member insert
member-insert j k [] = refl
member-insert j k (x ∷ s) = ground (arith, member-insert j k s)

pub member-erase :
    (j k : ℕ) (s : NumSet) → member j (erase k s) ≡ (if k == j then false else member j s)
unfolding member erase
member-erase j k [] = ground arith
member-erase j k (x ∷ s) = ground (arith, member-erase j k s)

pub member-nil : (j : ℕ) → member j [] ≡ false
unfolding member
member-nil j = refl

-- The numbers stand in ascending order, so each stands there once.
abbrev pub IsSorted : NumSet → Type 0
IsSorted [] = Unit {0}
IsSorted (x ∷ s) = All (λ y. x < y) s × IsSorted s

All-insert : (P : ℕ → Type 0) (k : ℕ) (s : NumSet) → P k → All P s → All P (insert k s)
unfolding insert
All-insert P k [] p h = (p, tt)
All-insert P k (x ∷ s) p h = ground (arith, All-insert P k s p h.1)

All-lt_trans : (k x : ℕ) (s : NumSet) → k < x → All (λ y. x < y) s → All (λ y. k < y) s
All-lt_trans k x [] h a = tt
All-lt_trans k x (y ∷ s) h (b, a) = (omega arith, All-lt_trans k x s h a)

pub insert-IsSorted : (k : ℕ) (s : NumSet) → IsSorted s → IsSorted (insert k s)
unfolding insert
insert-IsSorted k [] h = (tt, tt)
insert-IsSorted k (x ∷ s) (a, h) = ground (
  arith,
  insert-IsSorted k s h,
  λ (p : x < k). All-insert (λ y. x < y) k s p a,
  λ (p : k < x). All-lt_trans k x s p a,
)

pub size-insert_le : (k : ℕ) (s : NumSet) → size s ≤ size (insert k s)
unfolding size insert
size-insert_le k [] = omega arith
size-insert_le k (x ∷ s) = ground (arith, size-insert_le k s)

-- What every member has, all elements have.
pub member-All : (P : ℕ → Type 0) (s : NumSet) → ((x : ℕ) → member x s ≡ true → P x) → All P s
unfolding member
member-All P [] h = tt
member-All P (x ∷ s) h = (h x (ground arith), member-All P s (λ y m. h y (ground arith)))
