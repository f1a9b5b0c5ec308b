-- ===== src/UniformReliableBroadcast/Uniform.antt =====
-- How often a process delivers and passes on a packet.
use localized_causal_broadca.Prelude.{
  ℕ, ◌+◌, ◌≤◌, ◌≡◌, Bool, true, false, ◌||◌, List, [], ◌∷◌, ◌++◌, arith, if◌then◌else◌, Option, ok,
  inl, inr,
}
use localized_causal_broadca.Packet.{Packet}
use localized_causal_broadca.UniformReliableBroadcast.{
  Urb, Action, re_broadcasts, broadcasts, delivers, is_pending, is_delivered, add_ack, add_pending,
  is_new, move_to_delivered, can_deliver, first_section, second_section, broadcast,
}
use localized_causal_broadca.UniformReliableBroadcast
use localized_causal_broadca.UniformReliableBroadcast.Sections.{
  Run, start, arrive, settle, own, has_id, is_pending-add_ack, is_delivered-add_ack,
  is_pending-add_pending, is_delivered-add_pending, is_pending-move, is_delivered-move,
  change_sender_id-same, first_section_cases, second_section_cases, start-unknown,
}

module _ (s n : ℕ) where
  abbrev one_if : Bool → ℕ
  one_if b = if b then 1 else 0

  -- how many actions deliver, re-broadcast or broadcast a packet of source `s` and number `n`
  abbrev pub deliveries : List Action → ℕ
  deliveries [] = 0
  deliveries (delivers p ∷ rest) = one_if (has_id s n p) + deliveries rest
  deliveries (re_broadcasts p ∷ rest) = deliveries rest
  deliveries (broadcasts p ∷ rest) = deliveries rest

  abbrev pub relays : List Action → ℕ
  relays [] = 0
  relays (delivers p ∷ rest) = relays rest
  relays (re_broadcasts p ∷ rest) = one_if (has_id s n p) + relays rest
  relays (broadcasts p ∷ rest) = relays rest

  abbrev pub broadcasts_of : List Action → ℕ
  broadcasts_of [] = 0
  broadcasts_of (delivers p ∷ rest) = broadcasts_of rest
  broadcasts_of (re_broadcasts p ∷ rest) = broadcasts_of rest
  broadcasts_of (broadcasts p ∷ rest) = one_if (has_id s n p) + broadcasts_of rest

  counts-append :
      (xs ys : List Action)
      → (deliveries (xs ++ ys) ≡ deliveries xs + deliveries ys)
        × (relays (xs ++ ys) ≡ relays xs + relays ys)
        × (broadcasts_of (xs ++ ys) ≡ broadcasts_of xs + broadcasts_of ys)
  counts-append [] ys = omega arith
  counts-append (delivers p ∷ xs) ys = omega (arith, counts-append xs ys)
  counts-append (re_broadcasts p ∷ xs) ys = omega (arith, counts-append xs ys)
  counts-append (broadcasts p ∷ xs) ys = omega (arith, counts-append xs ys)

  -- the packet is known here: pending or delivered
  abbrev pub is_known : Urb → Bool
  is_known u = is_pending u s n || is_delivered u s n

  -- What one piece of the run does: `ys` are its actions, from `u` to `w`.
  pub record Counted (u w : Urb) (ys : List Action) : Type 0 where
    pub delivery : deliveries ys + one_if (is_delivered u s n) ≡ one_if (is_delivered w s n)
    pub relay : relays ys + one_if (is_known u) ≤ one_if (is_known w)
    pub passed : one_if (is_known w) ≤ one_if (is_known u) + relays ys + broadcasts_of ys

  Counted-trans :
      (u v w : Urb) (xs ys : List Action) → Counted u v xs → Counted v w ys → Counted u w (xs ++ ys)
  Counted-trans u v w xs ys a b =
      let c = counts-append xs ys in
      record { delivery = omega arith; relay = omega arith; passed = omega arith }

  relay-Counted :
      (u : Urb) (p q : Packet)
      → is_new u p ≡ true
      → (q.source_id ≡ p.source_id) × (q.packet_seq_num ≡ p.packet_seq_num)
      → Counted u (add_pending u p) (re_broadcasts q ∷ [])
  relay-Counted u p q new same =
      let pending = is_pending-add_pending s n u p in
      let delivered = is_delivered-add_pending s n u p in
      record {
        delivery = ground (arith, delivered);
        relay = ground (arith, pending, delivered);
        passed = ground (arith, pending, delivered);
      }

  add_ack-Counted : (u : Urb) (p : Packet) → Counted u (add_ack u p) []
  add_ack-Counted u p =
      let pending = is_pending-add_ack s n u p in
      let delivered = is_delivered-add_ack s n u p in
      record {
        delivery = ground (arith, delivered);
        relay = ground (arith, pending, delivered);
        passed = ground (arith, pending, delivered);
      }

  pub first_section-Counted :
      (u w : Urb) (p q : Packet) (ys : List Action)
      → first_section u p ≡ ok (w, q, ys)
      → Counted u w ys
  first_section-Counted u w p q ys h = elim (first_section_cases u w p q ys h) [
    | inl (e, _, f, _) ↦ rw (e, f) (add_ack-Counted u p)
    | inr (new, changed, e, f) ↦
        rw (e, f)
          (Counted-trans u (add_ack u p) _ [] _ (add_ack-Counted u p)
            (relay-Counted (add_ack u p) p q new (change_sender_id-same p q u.process_id changed)))
  ]

  delivery-Counted :
      (u : Urb) (q : Packet)
      → is_pending u q.source_id q.packet_seq_num ≡ true
      → is_delivered u q.source_id q.packet_seq_num ≡ false
      → Counted u (move_to_delivered u q) (delivers q ∷ [])
  delivery-Counted u q p d =
      let pending = is_pending-move s n u q in
      let delivered = is_delivered-move s n u q in
      record {
        delivery = ground (arith, delivered);
        relay = ground (arith, pending, delivered);
        passed = ground (arith, pending, delivered);
      }

  pub second_section-Counted :
      (u : Urb) (q : Packet) → Counted u (second_section u q).0 (second_section u q).1
  second_section-Counted u q = elim (second_section_cases u q) [
    | inl e ↦ rw e (record { delivery = omega arith; relay = omega arith; passed = omega arith })
    | inr (_, p, d, e) ↦ rw e (delivery-Counted u q p d)
  ]

  pub broadcast-Counted : (u : Urb) (p : Packet) → Counted u (broadcast u p).0 (broadcast u p).1
  unfolding broadcast
  broadcast-Counted u p =
      let pending = is_pending-add_pending s n u p in
      let delivered = is_delivered-add_pending s n u p in
      record {
        delivery = ground (arith, delivered);
        relay = ground (arith, pending, delivered);
        passed = ground (arith, pending, delivered);
      }

  Run-Counted :
      {u v : Urb} {held : Option Packet} {ps : List Packet} {trace : List Action}
      → Run u v held ps trace
      → Counted u v trace
  Run-Counted start = record { delivery = omega arith; relay = omega arith; passed = omega arith }
  Run-Counted {u} (arrive {v = v} {w = w} {trace = trace} {more = more} {q = q} p r h) =
      Counted-trans u v w trace more (Run-Counted r) (first_section-Counted v w p q more h)
  Run-Counted {u} (settle {v = v} {trace = trace} {q = q} r) =
      Counted-trans u v _ trace _ (Run-Counted r) (second_section-Counted v q)
  Run-Counted {u} (own {v = v} {trace = trace} p r) =
      Counted-trans u v _ trace _ (Run-Counted r) (broadcast-Counted v p)

  -- In any run from the start, with any arrivals and any broadcasts of the higher layer between the
  -- sections: the process delivers each packet at most once, and has delivered it exactly if it
  -- holds it for delivered; it re-broadcasts each packet at most once; and what it delivers it has
  -- re-broadcast, or broadcast itself.
  pub Run-uniform :
      (process_id num_processes : ℕ) {v : Urb} {held : Option Packet} {ps : List Packet}
      {trace : List Action}
      → Run (UniformReliableBroadcast.start process_id num_processes) v held ps trace
      → (deliveries trace ≡ (if is_delivered v s n then 1 else 0))
        × (relays trace ≤ 1)
        × (deliveries trace ≤ relays trace + broadcasts_of trace)
  Run-uniform process_id num_processes {v = v} r =
      let counted = Run-Counted r in
      let begin = start-unknown process_id num_processes s n in
      (
        ground (arith, counted.delivery, begin.1),
        ground (arith, counted.relay, begin.0, begin.1),
        ground (arith, counted.delivery, counted.passed, begin.0, begin.1),
      )
