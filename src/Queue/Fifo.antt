-- ===== src/Queue/Fifo.antt =====
-- The queue refines a bounded first-in-first-out list, under any interleaving of its users.
use localized_causal_broadca.Prelude.{
  ℕ, ◌+◌, ◌-◌, ◌%◌, Bool-cases, ◌≤◌, ◌<◌, ◌≡◌, refl, ap, ap₂, subst, sym, ◌∙◌, ◌⊎◌, inl, inr, List,
  [], ◌∷◌, ◌++◌, arith, ◌==◌, word_size, length, length-append, append-nil, append_assoc, none,
  some,
}
use localized_causal_broadca.Queue.{Queue, empty, push, pop, take_front}

module _ {ℓ} {A : Type ℓ} where
  -- The counter is the number of elements, and the bound is kept.
  pub record IsValid (q : Queue A) : Type ℓ where
    pub counted : q.curr_size ≡ length q.items
    pub bounded : q.curr_size ≤ q.max_size
    pub word : q.max_size < word_size

  pub empty-IsValid : (n : ℕ) → n < word_size → IsValid (empty n)
  unfolding empty
  empty-IsValid n h = record { counted = refl; bounded = omega arith; word = h }

  pub push-IsValid : (q r : Queue A) (a : A) → IsValid q → push q a ≡ some r → IsValid r
  unfolding push
  push-IsValid q r a v h = ground (arith, length-append q.items (a ∷ []))

  pub push-items : (q r : Queue A) (a : A) → push q a ≡ some r → r.items ≡ q.items ++ a ∷ []
  unfolding push
  push-items q r a h = ground arith

  take_front-items :
      (q r : Queue A) (xs : List A) (a : A) → take_front q xs ≡ some (a, r) → xs ≡ a ∷ r.items
  unfolding take_front
  take_front-items q r [] a h = cc
  take_front-items q r (x ∷ xs) a h = cc

  pub pop-items : (q r : Queue A) (a : A) → pop q ≡ some (a, r) → q.items ≡ a ∷ r.items
  unfolding pop
  pop-items q r a h = ground (arith, take_front-items q r q.items a)

  no_items : (xs : List A) → length xs ≡ 0 → xs ≡ []
  no_items [] h = refl
  no_items (x ∷ xs) h = absurd (omega arith)

  take_front-Pops :
      (q : Queue A) (xs : List A)
      → IsValid q
      → q.items ≡ xs
      → 0 < length xs
      → (a : A) × (r : Queue A) × (take_front q xs ≡ some (a, r))
        × (xs ≡ a ∷ r.items)
        × IsValid r
        × (r.max_size ≡ q.max_size)
  unfolding take_front
  take_front-Pops q [] v e h = elim h [ ]
  take_front-Pops q (a ∷ xs) v e h = (
    a,
    record q { curr_size = (q.curr_size + (word_size - 1)) % word_size; items = xs },
    refl,
    refl,
    record {
      counted = omega (arith, v.counted, v.bounded, v.word, ap length e);
      bounded = omega (arith, v.counted, v.bounded, v.word, ap length e);
      word = v.word;
    },
    refl,
  )

  -- A valid queue with an element gives its oldest one, and the rest is valid; `pop` waits exactly
  -- if there is none.
  pub pop-cases :
      (q : Queue A)
      → IsValid q
      → ((q.items ≡ []) × (pop q ≡ none))
        ⊎ ((a : A) × (r : Queue A) × (pop q ≡ some (a, r))
            × (q.items ≡ a ∷ r.items)
            × IsValid r
            × (r.max_size ≡ q.max_size))
  unfolding pop
  pop-cases q v = elim (Bool-cases (q.curr_size == 0)) [
    | inl e ↦ inl (no_items q.items (ground (arith, v.counted)), rw e)
    | inr e ↦
        let (a, r, taken, items, valid, same) =
          take_front-Pops q q.items v refl (ground (arith, v.counted)) in
        inr (a, r, rw e taken, items, valid, same)
  ]

  -- A producer waits only where the queue is full.
  pub push-cases :
      (q : Queue A) (a : A)
      → IsValid q
      → ((length q.items ≡ q.max_size) × (push q a ≡ none))
        ⊎ ((r : Queue A) × (push q a ≡ some r)
            × (r.items ≡ q.items ++ a ∷ [])
            × IsValid r
            × (r.max_size ≡ q.max_size))
  unfolding push
  push-cases q a v = elim (Bool-cases (q.curr_size == q.max_size)) [
    | inl e ↦ inl (ground (arith, v.counted), rw e)
    | inr e ↦ inr (
      record q { curr_size = (q.curr_size + 1) % word_size; items = q.items ++ a ∷ [] },
      rw e,
      refl,
      push-IsValid q _ a v (unfold push in rw e),
      refl,
    )
  ]

  -- Calls of producers and consumers in any order, with what went in and what came out. A call
  -- that waits is not part of it until it gets through.
  pub data Run (q : Queue A) : Queue A → List A → List A → Type ℓ where
    start : Run q q [] []
    pushed :
        {r t : Queue A} {ins outs : List A} (a : A)
        → Run q r ins outs
        → push r a ≡ some t
        → Run q t (ins ++ a ∷ []) outs
    popped :
        {r t : Queue A} {ins outs : List A} (a : A)
        → Run q r ins outs
        → pop r ≡ some (a, t)
        → Run q t ins (outs ++ a ∷ [])

  popped-items :
      (q r : Queue A) (a : A)
      → IsValid q
      → pop q ≡ some (a, r)
      → (q.items ≡ a ∷ r.items) × IsValid r × (r.max_size ≡ q.max_size)
  popped-items q r a v h = elim (pop-cases q v) [
    | inl (_, none_left) ↦ cc
    | inr (b, t, taken, items, valid, same) ↦
        let same_a : b ≡ a = cc in
        let same_r : t ≡ r = cc in
        (
          items ∙ ap₂ (λ c u. c ∷ u.items) same_a same_r,
          subst IsValid same_r valid,
          ap (λ u. u.max_size) (sym same_r) ∙ same,
        )
  ]

  -- From a queue whose counter and bound are right, and whatever the producers and consumers do,
  -- the elements come out in the order in which they went in, none is lost and none is made up; the
  -- counter and the bound stay right.
  pub Run-fifo :
      {q r : Queue A} {ins outs : List A}
      → IsValid q
      → Run q r ins outs
      → IsValid r × (q.items ++ ins ≡ outs ++ r.items)
  Run-fifo v start = (v, append-nil _)
  Run-fifo {q} v (pushed {r = r} {t = t} {ins = ins} {outs = outs} a run h) =
      let (valid, order) = Run-fifo v run in
      (
        push-IsValid r t a valid h,
        sym (append_assoc q.items ins (a ∷ []))
            ∙ ap (λ xs. xs ++ a ∷ []) order
            ∙ rw (push-items r t a h) (append_assoc outs r.items (a ∷ [])),
      )
  Run-fifo {q} v (popped {r = r} {t = t} {ins = ins} {outs = outs} a run h) =
      let (valid, order) = Run-fifo v run in
      let (front, valid', _) = popped-items r t a valid h in
      (valid', order ∙ rw front (sym (append_assoc outs (a ∷ []) t.items)))
