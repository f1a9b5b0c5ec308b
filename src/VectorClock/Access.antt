-- ===== src/VectorClock/Access.antt =====
-- Reading and writing one entry.
use localized_causal_broadca.Prelude.{
  ℕ, zero, suc, ◌+◌, ◌-◌, ◌%◌, ◌≤◌, ◌<◌, ◌≡◌, ◌≢◌, refl, List, [], ◌∷◌, arith, word_size, length,
  set, get_or, get_elem?, none, some, ok, err, overrun, ltb, lt→ltb, Bool-cases, inl, inr,
  length-set, get_or-set_self, get_or-set_ne, ◌==◌, if◌then◌else◌,
}
use localized_causal_broadca.VectorClock.{VectorClock, IsValid, index, assign, increase, get_value}

-- the entry of a process, by its id
abbrev pub entry : VectorClock → ℕ → ℕ
entry v id_process = get_or v.values (id_process - 1) 0

-- 1 .. num_processes
abbrev pub IsProcess : ℕ → ℕ → Type 0
IsProcess n id_process = (1 ≤ id_process) × (id_process ≤ n)

index_lem : (n id : ℕ) → n < word_size → IsProcess n id → index id ≡ id - 1
index_lem n id h p = omega arith

module _ (v : VectorClock) (valid : IsValid v) (small : v.num_processes < word_size) (id : ℕ)
    (known : IsProcess v.num_processes id) where
  entry-set :
      (val j : ℕ)
      → 1 ≤ j
      → get_or (set v.values (id - 1) val) (j - 1) 0 ≡ (if id == j then val else entry v j)
  entry-set val j h = ground (
    arith,
    get_or-set_self v.values (id - 1) val 0 (omega (arith, valid.sized)),
    λ (ne : id - 1 ≢ j - 1). get_or-set_ne v.values {i = id - 1} {j = j - 1} val 0 ne,
  )

  -- For a process of the system `assign` writes its entry and leaves the others.
  pub assign-entry :
      (val : ℕ)
      → (w : VectorClock) × (assign v id val ≡ ok w)
        × (w.num_processes ≡ v.num_processes)
        × IsValid w
        × ((j : ℕ) → 1 ≤ j → entry w j ≡ (if id == j then val else entry v j))
  unfolding assign
  assign-entry val = (
    record v { values = set v.values (id - 1) val },
    rw (index_lem v.num_processes id small known)
        (rw (lt→ltb (id - 1) v.num_processes (omega arith))),
    refl,
    record { sized = omega (arith, length-set v.values (id - 1) val, valid.sized) },
    entry-set val,
  )

  -- For a process of the system `increase` adds one to its entry, as a size_t.
  pub increase-entry :
      (w : VectorClock) × (increase v id ≡ ok w)
      × (w.num_processes ≡ v.num_processes)
      × IsValid w
      × ((j : ℕ)
          → 1 ≤ j
          → entry w j ≡ (if id == j then (entry v id + 1) % word_size else entry v j))
  unfolding increase
  increase-entry = (
    record v { values = set v.values (id - 1) ((entry v id + 1) % word_size) },
    rw (index_lem v.num_processes id small known)
        (rw (lt→ltb (id - 1) v.num_processes (omega arith))),
    refl,
    record {
      sized =
          omega (arith, length-set v.values (id - 1) ((entry v id + 1) % word_size), valid.sized);
    },
    entry-set ((entry v id + 1) % word_size),
  )

get_elem?_shift : (xs : List ℕ) (i : ℕ) → i < length xs → get_elem? xs i ≡ some (get_or xs i 0)
get_elem?_shift [] i h = elim h [ ]
get_elem?_shift (x ∷ xs) zero h = refl
get_elem?_shift (x ∷ xs) (suc i) h = get_elem?_shift xs i (omega arith)

get_elem?_end : (xs : List ℕ) (i : ℕ) → length xs ≤ i → get_elem? xs i ≡ none
get_elem?_end [] i h = refl
get_elem?_end (x ∷ xs) zero h = elim h [ ]
get_elem?_end (x ∷ xs) (suc i) h = get_elem?_end xs i (omega arith)

-- `getValue` of a clock with one entry for each process reads one place too far: for every process
-- of the system but the last it returns the entry of the
-- next process, and for the last it reads behind the vector.
pub get_value-off_by_one :
    (v : VectorClock) (id : ℕ)
    → IsValid v
    → IsProcess v.num_processes id
    → get_value v id ≡ (if ltb id v.num_processes then ok (entry v (id + 1)) else err overrun)
unfolding get_value
get_value-off_by_one v id valid known = elim (Bool-cases (ltb id v.num_processes)) [
  | inl inner ↦ ground (arith, get_elem?_shift v.values id (ground (arith, valid.sized)))
  | inr last ↦ ground (arith, get_elem?_end v.values id (ground (arith, valid.sized)))
]
