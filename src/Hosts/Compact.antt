-- ===== src/Hosts/Compact.antt =====
-- What the tests of the ids accept, and the order of the hosts.
use localized_causal_broadca.Prelude.{
  suc, refl, ℕ, ◌≤◌, ◌≡◌, sym, ap, ◌∙◌, ◌↔◌, Bool, true, false, ◌||◌, List, [], ◌∷◌, arith, ◌==◌,
  ltb, leb, if◌then◌else◌, length, All, ==_refl, ok, Bool-cases, inl, inr,
}
use mathlib.Core.List.{Perm}
use mathlib.Core.List.Perm
use localized_causal_broadca.Hosts.{Host, min_id, max_id, insert_host, sort_hosts, check_hosts}

abbrev pub IsSorted : List Host → Type 0
IsSorted [] = Unit {0}
IsSorted (h ∷ hs) = All (λ g. h.id ≤ g.id) hs × IsSorted hs

-- some host has the id
abbrev pub has_id : ℕ → List Host → Bool
has_id i [] = false
has_id i (h ∷ hs) = h.id == i || has_id i hs

insert_host-Perm : (h : Host) (hs : List Host) → Perm (insert_host h hs) (h ∷ hs)
unfolding insert_host
insert_host-Perm h [] = Perm.refl (h ∷ [])
insert_host-Perm h (g ∷ hs) = elim (Bool-cases (leb h.id g.id)) [
  | inl first ↦ rw first (Perm.refl (h ∷ g ∷ hs))
  | inr later ↦ rw later (Perm.trans (Perm.cons g (insert_host-Perm h hs)) (Perm.swap h g hs))
]

length-insert_host : (h : Host) (hs : List Host) → length (insert_host h hs) ≡ suc (length hs)
unfolding insert_host
length-insert_host h [] = refl
length-insert_host h (g ∷ hs) = ground (arith, length-insert_host h hs)

pub length-sort_hosts : (hs : List Host) → length (sort_hosts hs) ≡ length hs
unfolding sort_hosts
length-sort_hosts [] = refl
length-sort_hosts (h ∷ hs) = length-insert_host h (sort_hosts hs) ∙ ap suc (length-sort_hosts hs)

sort_hosts-Perm : (hs : List Host) → Perm (sort_hosts hs) hs
unfolding sort_hosts
sort_hosts-Perm [] = Perm.refl []
sort_hosts-Perm (h ∷ hs) =
    Perm.trans (insert_host-Perm h (sort_hosts hs)) (Perm.cons h (sort_hosts-Perm hs))

insert_host-All :
    (P : Host → Type 0) (h : Host) (hs : List Host) → P h → All P hs → All P (insert_host h hs)
unfolding insert_host
insert_host-All P h [] p a = (p, tt)
insert_host-All P h (g ∷ hs) p (q, a) = elim (Bool-cases (leb h.id g.id)) [
  | inl first ↦ rw first (p, (q, a))
  | inr later ↦ rw later (q, insert_host-All P h hs p a)
]

All-le_trans : (i j : ℕ) (hs : List Host) → i ≤ j → All (λ g. j ≤ g.id) hs → All (λ g. i ≤ g.id) hs
All-le_trans i j [] h a = tt
All-le_trans i j (g ∷ hs) h (b, a) = (omega arith, All-le_trans i j hs h a)

insert_host-IsSorted : (h : Host) (hs : List Host) → IsSorted hs → IsSorted (insert_host h hs)
unfolding insert_host
insert_host-IsSorted h [] s = (tt, tt)
insert_host-IsSorted h (g ∷ hs) (a, s) = elim (Bool-cases (leb h.id g.id)) [
  | inl first ↦ rw first ((ground arith, All-le_trans h.id g.id hs (ground arith) a), (a, s))
  | inr later ↦
      rw later
        (insert_host-All (λ f. g.id ≤ f.id) h hs (ground arith) a, insert_host-IsSorted h hs s)
]

sort_hosts-IsSorted : (hs : List Host) → IsSorted (sort_hosts hs)
unfolding sort_hosts
sort_hosts-IsSorted [] = tt
sort_hosts-IsSorted (h ∷ hs) = insert_host-IsSorted h (sort_hosts hs) (sort_hosts-IsSorted hs)

-- The least id is `i` if no id is smaller and one of them is `i`.
min_id_iff :
    (i least : ℕ) (hs : List Host)
    → (min_id least hs ≡ i)
      ↔ (All (λ g. i ≤ g.id) hs × (i ≤ least) × ((least == i || has_id i hs) ≡ true))
unfolding min_id
min_id_iff i least [] = (λ e. ground arith, λ h. ground arith)
min_id_iff i least (h ∷ hs) =
    let rest = min_id_iff i (if ltb h.id least then h.id else least) hs in
    (λ e. ground (arith, rest.0), λ k. ground (arith, rest.1, k.0, k.1, k.2))

max_id_iff :
    (i most : ℕ) (hs : List Host)
    → (max_id most hs ≡ i)
      ↔ (All (λ g. g.id ≤ i) hs × (most ≤ i) × ((most == i || has_id i hs) ≡ true))
unfolding max_id
max_id_iff i most [] = (λ e. ground arith, λ h. ground arith)
max_id_iff i most (h ∷ hs) =
    let rest = max_id_iff i (if ltb h.id most then most else h.id) hs in
    (λ e. ground (arith, rest.0), λ k. ground (arith, rest.1, k.0, k.1, k.2))

-- what the tests of the ids ask for
abbrev pub InRange : List Host → Type 0
InRange hs =
    (2 ≤ length hs)
    × All (λ g. 1 ≤ g.id) hs
    × All (λ g. g.id ≤ length hs) hs
    × (has_id 1 hs ≡ true)
    × (has_id (length hs) hs ≡ true)

check_hosts-all : (hs : List Host) → InRange hs → check_hosts hs ≡ ok (sort_hosts hs)
unfolding check_hosts
check_hosts-all [] h = absurd (omega arith)
check_hosts-all (h ∷ hs) (many, (low, lows), (high, highs), first, last) =
    let least : min_id h.id hs ≡ 1 = (min_id_iff 1 h.id hs).1 (lows, low, first) in
    let most : max_id h.id hs ≡ length (h ∷ hs) =
      (max_id_iff (length (h ∷ hs)) h.id hs).1 (highs, high, last) in
    rw (least, most, ==_refl (length (h ∷ hs))) (ground arith)

check_hosts-only : (hs gs : List Host) → check_hosts hs ≡ ok gs → InRange hs × (gs ≡ sort_hosts hs)
unfolding check_hosts
check_hosts-only [] gs e = cc
check_hosts-only (h ∷ hs) gs e =
    let (lows, low, first) = (min_id_iff 1 h.id hs).0 (ground arith) in
    let (highs, high, last) = (max_id_iff (length (h ∷ hs)) h.id hs).0 (ground arith) in
    ((ground arith, (low, lows), (high, highs), first, last), ground arith)

-- The tests pass exactly where there are at least two hosts, every id lies between 1 and their
-- number, one host has the id 1 and one the largest: whether two hosts share an id, and another id
-- has none, is not tested. What is returned then are the same hosts, in ascending order of the ids.
pub check_hosts-iff-InRange :
    (hs gs : List Host)
    → ((check_hosts hs ≡ ok gs) ↔ (InRange hs × (gs ≡ sort_hosts hs)))
      × Perm (sort_hosts hs) hs
      × IsSorted (sort_hosts hs)
check_hosts-iff-InRange hs gs = (
  (check_hosts-only hs gs, λ h. check_hosts-all hs h.0 ∙ ap ok (sym h.1)),
  sort_hosts-Perm hs,
  sort_hosts-IsSorted hs,
)
