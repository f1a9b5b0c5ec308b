-- ===== src/UniformReliableBroadcast/Prompt.antt =====
-- No delivery is put off: what may be delivered is delivered before the next packet is taken.
use localized_causal_broadca.Prelude.{
  ℕ, ◌≡◌, refl, ◌⊎◌, inl, inr, true, false, List, arith, Option, none, some, Bool-cases, ok,
}
use localized_causal_broadca.Containers.Set.{size}
use localized_causal_broadca.Packet.{Packet}
use localized_causal_broadca.UniformReliableBroadcast
use localized_causal_broadca.UniformReliableBroadcast.{
  Urb, Action, is_pending, is_delivered, acks_of, add_ack, add_pending, is_new, move_to_delivered,
  can_deliver, first_section, second_section, broadcast,
}
use localized_causal_broadca.UniformReliableBroadcast.Sections.{
  Run, start, arrive, settle, own, has_id, is_delivered-add_ack, is_delivered-move,
  is_delivered-add_pending, is_pending-add_pending, acks_of-add_ack, first_section_cases,
  start-unknown, change_sender_id-same,
}
use localized_causal_broadca.UniformReliableBroadcast.Majority.{Run-Backed}

module _ (s n : ℕ) where
  can_deliver-add_pending :
      (u : Urb) (p : Packet) → can_deliver (add_pending u p) s n ≡ can_deliver u s n
  unfolding can_deliver add_pending
  can_deliver-add_pending u p = refl

  can_deliver-move :
      (u : Urb) (p : Packet) → can_deliver (move_to_delivered u p) s n ≡ can_deliver u s n
  unfolding can_deliver move_to_delivered
  can_deliver-move u p = refl

  can_deliver-add_ack :
      (u : Urb) (p : Packet)
      → has_id s n p ≡ false
      → can_deliver (add_ack u p) s n ≡ can_deliver u s n
  unfolding can_deliver
  can_deliver-add_ack u p other =
      let same : (add_ack u p).num_processes ≡ u.num_processes = unfold add_ack in refl in
      ground (arith, same, acks_of-add_ack s n u p)

  -- Between packets, what has the acknowledgements is delivered; while one is held, it is delivered
  -- or it is the pending packet that is held.
  abbrev Prompt : Urb → Option Packet → Type 0
  Prompt v none = can_deliver v s n ≡ true → is_delivered v s n ≡ true
  Prompt v (some q) =
      can_deliver v s n ≡ true
      → (is_delivered v s n ≡ true) ⊎ ((has_id s n q ≡ true) × (is_pending v s n ≡ true))

  first_section-Prompt :
      (v w : Urb) (p q : Packet) (ys : List Action)
      → first_section v p ≡ ok (w, q, ys)
      → Prompt v none
      → Prompt w (some q)
  first_section-Prompt v w p q ys h prompt c = elim (Bool-cases (has_id s n p)) [
    | inl this ↦ elim (first_section_cases v w p q ys h) [
      | inl (e, f, _, old) ↦ elim (Bool-cases (is_delivered w s n)) [
        | inl d ↦ inl d
        | inr pending ↦ inr (ground (arith, f), ground (arith, e, old))
      ]
      | inr (_, changed, e, _) ↦ inr (
        ground (arith, change_sender_id-same p q v.process_id changed),
        ground (arith, e, is_pending-add_pending s n (add_ack v p) p),
      )
    ]
    | inr other ↦ elim (first_section_cases v w p q ys h) [
      | inl (e, _, _, _) ↦
          inl
            (ground (arith, e, prompt, can_deliver-add_ack v p other, is_delivered-add_ack s n v p))
      | inr (_, _, e, _) ↦ inl (
          ground (
            arith,
            e,
            prompt,
            can_deliver-add_pending (add_ack v p) p,
            is_delivered-add_pending s n (add_ack v p) p,
            can_deliver-add_ack v p other,
            is_delivered-add_ack s n v p,
          ))
    ]
  ]

  second_section-Prompt :
      (v : Urb) (q : Packet) → Prompt v (some q) → Prompt (second_section v q).0 none
  unfolding second_section
  second_section-Prompt v q prompt c =
      ground (arith, prompt, can_deliver-move v q, is_delivered-move s n v q)

  broadcast-Prompt :
      (v : Urb) (p : Packet) (held : Option Packet) → Prompt v held → Prompt (broadcast v p).0 held
  unfolding broadcast
  broadcast-Prompt v p none prompt =
      λ c. ground (arith, prompt, can_deliver-add_pending v p, is_delivered-add_pending s n v p)
  broadcast-Prompt v p (some q) prompt = λ c. ground (
    arith,
    prompt,
    can_deliver-add_pending v p,
    is_delivered-add_pending s n v p,
    is_pending-add_pending s n v p,
  )

  Run-Prompt :
      (id k : ℕ) {v : Urb} {held : Option Packet} {ps : List Packet} {trace : List Action}
      → Run (UniformReliableBroadcast.start id k) v held ps trace
      → Prompt v held
  unfolding can_deliver UniformReliableBroadcast.start size
  Run-Prompt id k start = λ c.
      let none_yet : size (acks_of (UniformReliableBroadcast.start id k) s n) ≡ 0 =
        rw (start-unknown id k s n).2 refl in
      ground arith
  Run-Prompt id k (arrive {v = v} {w = w} {more = more} {q = q} p r h) =
      first_section-Prompt v w p q more h (Run-Prompt id k r)
  Run-Prompt id k (settle {v = v} {q = q} r) = second_section-Prompt v q (Run-Prompt id k r)
  Run-Prompt id k (own {v = v} {held = held} p r) = broadcast-Prompt v p held (Run-Prompt id k r)

  -- In any run from the start, between the handling of two packets, with any broadcasts of the
  -- higher layer: the process has delivered exactly the packets that it holds acknowledgements from
  -- more than half of the processes for.
  pub Run-prompt :
      (id k : ℕ) {v : Urb} {ps : List Packet} {trace : List Action}
      → Run (UniformReliableBroadcast.start id k) v none ps trace
      → is_delivered v s n ≡ can_deliver v s n
  unfolding can_deliver
  Run-prompt id k {v = v} r =
      let backed = Run-Backed s n id k r in
      ground (arith, Run-Prompt id k r, backed.majority, backed.known)
