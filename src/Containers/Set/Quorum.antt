-- ===== src/Containers/Set/Quorum.antt =====
-- Two majorities of one system have a member in common.
use localized_causal_broadca.Prelude.{
  ℕ, ◌+◌, ◌/◌, ◌≤◌, ◌<◌, ◌≡◌, ◌⊎◌, inl, inr, true, [], ◌∷◌, arith, length, All,
}
use native.Mathlib.Decide.{dec_lt}
use localized_causal_broadca.Containers.Set.{NumSet, member, size, IsSorted}

-- the numbers of a set lie in lo+1 .. hi
abbrev pub Within : ℕ → ℕ → NumSet → Type 0
Within lo hi = All (λ x. (lo < x) × (x ≤ hi))

abbrev pub Common : NumSet → NumSet → Type 0
Common a b = (x : ℕ) × (member x a ≡ true) × (member x b ≡ true)

raise : (x lo hi : ℕ) (s : NumSet) → All (λ y. x < y) s → Within lo hi s → Within x hi s
raise x lo hi [] a w = tt
raise x lo hi (y ∷ s) (h, a) (v, w) = ((h, v.1), raise x lo hi s a w)

widen : (x : ℕ) (a b : NumSet) → Common a b → Common (x ∷ a) b
unfolding member
widen x a b (y, p, q) = (y, ground arith, q)

widen_right : (x : ℕ) (a b : NumSet) → Common a b → Common a (x ∷ b)
unfolding member
widen_right x a b (y, p, q) = (y, p, ground arith)

length_le : (lo hi : ℕ) (s : NumSet) → lo ≤ hi → IsSorted s → Within lo hi s → length s + lo ≤ hi
length_le lo hi [] h o w = omega arith
length_le lo hi (x ∷ s) h (a, o) (v, w) =
    omega (arith, length_le x hi s v.1 o (raise x lo hi s a w))

All-above : (x y : ℕ) (s : NumSet) → x < y → All (λ z. y < z) s → All (λ z. x < z) s
All-above x y [] h a = tt
All-above x y (z ∷ s) h (p, a) = (omega arith, All-above x y s h a)

meet_or_fit :
    (lo hi : ℕ) (a b : NumSet)
    → lo ≤ hi
    → IsSorted a
    → IsSorted b
    → Within lo hi a
    → Within lo hi b
    → Common a b ⊎ (length a + length b + lo ≤ hi)
unfolding member
meet_or_fit lo hi [] b h sa sb wa wb = inr (omega (arith, length_le lo hi b h sb wb))
meet_or_fit lo hi (x ∷ a) [] h sa sb wa wb = inr (omega (arith, length_le lo hi (x ∷ a) h sa wa))
meet_or_fit lo hi (x ∷ a) (y ∷ b) h (xa, sa) (yb, sb) (wx, wa) (wy, wb) = elim (dec_lt x y) [
  | yes less ↦
      let above : All (λ z. x < z) b = All-above x y b less yb in
      elim (meet_or_fit x hi a (y ∷ b) wx.1 sa (yb, sb) (raise x lo hi a xa wa)
        ((less, wy.1), raise x lo hi b above wb)) [
          | inl c ↦ inl (widen x a (y ∷ b) c)
          | inr fit ↦ inr (omega arith)
        ]
  | no not_less ↦ elim (dec_lt y x) [
    | yes more ↦
        let above : All (λ z. y < z) a = All-above y x a more xa in
        elim (meet_or_fit y hi (x ∷ a) b wy.1 (xa, sa) sb ((more, wx.1), raise y lo hi a above wa)
          (raise y lo hi b yb wb)) [
            | inl c ↦ inl (widen_right y (x ∷ a) b c)
            | inr fit ↦ inr (omega arith)
          ]
    | no not_more ↦ inl (x, ground arith, ground arith)
  ]
]

-- Two sets of process ids that each hold more than half of 1 .. n share one.
pub majorities_meet :
    (n : ℕ) (a b : NumSet)
    → IsSorted a
    → IsSorted b
    → Within 0 n a
    → Within 0 n b
    → n / 2 < size a
    → n / 2 < size b
    → Common a b
unfolding size
majorities_meet n a b sa sb wa wb ma mb = elim (meet_or_fit 0 n a b (omega arith) sa sb wa wb) [
  | inl c ↦ c
  | inr fit ↦ absurd (omega arith)
]
