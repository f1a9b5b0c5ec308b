-- ===== src/UniformReliableBroadcast/Known.antt =====
-- The packets that a process knows, pending or delivered, and those that it passes on.
use localized_causal_broadca.Prelude.{
  ℕ, ◌≡◌, refl, true, ◌&&◌, List, [], ◌∷◌, arith, ◌==◌, ok, Bool-cases, inl, inr, All, subst,
}
use localized_causal_broadca.Packet.{Packet, change_sender_id}
use localized_causal_broadca.UniformReliableBroadcast.{
  Urb, Action, re_broadcasts, broadcasts, delivers, add_ack, add_pending, is_delivered,
  move_to_delivered, first_section, second_section, broadcast,
}
use localized_causal_broadca.UniformReliableBroadcast.Packets.{OfAction}
use localized_causal_broadca.UniformReliableBroadcast.Sections.{
  has_id, is_pending-add_pending, is_delivered-move, first_section_cases, second_section_cases,
  change_sender_id-same,
}
use localized_causal_broadca.UniformReliableBroadcast.Uniform.{
  is_known, Counted, first_section-Counted, second_section-Counted, broadcast-Counted,
}
use localized_causal_broadca.UniformReliableBroadcast.Majority.{heard_from}

-- a packet that the process knows
abbrev pub Knows : Urb → Packet → Type 0
Knows u q = is_known q.source_id q.packet_seq_num u ≡ true

-- What holds of a state and stays so, whatever uniform reliable broadcast does.
pub record Stable (K : Urb → Type 0) : Type 0 where
  pub first :
      (u w : Urb) (p q : Packet) (ys : List Action) → first_section u p ≡ ok (w, q, ys) → K u → K w
  pub second : (u : Urb) (q : Packet) → K u → K (second_section u q).0
  pub own : (u : Urb) (q : Packet) → K u → K (broadcast u q).0

-- What all counted pieces of a run keep is stable.
Counted-Stable :
    (s n : ℕ) (K : Urb → Type 0)
    → ((u w : Urb) (ys : List Action) → Counted s n u w ys → K u → K w)
    → Stable K
Counted-Stable s n K keeps = record {
  first = λ u w p q ys e. keeps u w ys (first_section-Counted s n u w p q ys e);
  second =
      λ u q. keeps u (second_section u q).0 (second_section u q).1 (second_section-Counted s n u q);
  own = λ u q. keeps u (broadcast u q).0 (broadcast u q).1 (broadcast-Counted s n u q);
}

-- What is known stays so, and what is delivered.
pub is_known-Stable : (s n : ℕ) → Stable (λ u. is_known s n u ≡ true)
is_known-Stable s n =
    Counted-Stable s n (λ u. is_known s n u ≡ true) (λ u w ys c h. ground (arith, c.relay, h))

pub is_delivered-Stable : (s n : ℕ) → Stable (λ u. is_delivered u s n ≡ true)
is_delivered-Stable s n =
    Counted-Stable s n (λ u. is_delivered u s n ≡ true)
      (λ u w ys c h. ground (arith, c.delivery, h))

-- a packet that the process has delivered
abbrev pub HasDelivered : Urb → Packet → Type 0
HasDelivered u q = is_delivered u q.source_id q.packet_seq_num ≡ true

abbrev pub OfDelivery : (Packet → Type 0) → Action → Type 0
OfDelivery D (delivers q) = D q
OfDelivery D (re_broadcasts q) = Unit {0}
OfDelivery D (broadcasts q) = Unit {0}

-- The first section hands nothing over for delivery, the second what it has delivered.
pub first_section-OfDelivery :
    (D : Packet → Type 0) (u w : Urb) (p q : Packet) (ys : List Action)
    → first_section u p ≡ ok (w, q, ys)
    → All (OfDelivery D) ys
first_section-OfDelivery D u w p q ys e = elim (first_section_cases u w p q ys e) [
  | inl (_, _, nothing, _) ↦ rw nothing tt
  | inr (_, _, _, passed) ↦ rw passed (tt, tt)
]

pub second_section-OfDelivery :
    (u : Urb) (q : Packet)
    → All (OfDelivery (HasDelivered (second_section u q).0)) (second_section u q).1
second_section-OfDelivery u q = elim (second_section_cases u q) [
  | inl same ↦ rw same tt
  | inr (_, _, _, same) ↦
      rw same (ground (arith, is_delivered-move q.source_id q.packet_seq_num u q), tt)
]

add_pending-Knows : (u : Urb) (q : Packet) → Knows (add_pending u q) q
add_pending-Knows u q = ground (arith, is_pending-add_pending q.source_id q.packet_seq_num u q)

-- An own packet is known from its broadcast on.
pub broadcast-Knows : (u : Urb) (q : Packet) → Knows (broadcast u q).0 q
unfolding broadcast
broadcast-Knows u q = add_pending-Knows u q

-- a packet of this process, which it knows
abbrev pub Relayed : ℕ → Urb → Packet → Type 0
Relayed id u q = (q.process_id ≡ id) × Knows u q

-- The packet that leaves the first section is the one that entered, with nothing passed on; or it
-- is in the name of the process, which knows it, and is passed on.
pub first_section-Relayed :
    (P : Packet → Type 0) (id : ℕ) (u w : Urb) (p q : Packet) (ys : List Action)
    → u.process_id ≡ id
    → first_section u p ≡ ok (w, q, ys)
    → P p
    → (Relayed id w q → P q)
    → P q × All (OfAction P) ys
unfolding change_sender_id
first_section-Relayed P id u w p q ys self e h relayed = elim (first_section_cases u w p q ys e) [
  | inl (_, same, nothing, _) ↦ rw (same, nothing) (h, tt)
  | inr (new, changed, pending, passed) ↦
      let (source, number) = change_sender_id-same p q u.process_id changed in
      let sender : q.process_id ≡ id = ground (arith, changed, self) in
      let knows : Knows w q = rw (source, number, pending) (add_pending-Knows (add_ack u p) p) in
      let good = relayed (sender, knows) in rw passed (good, (good, tt))
]

-- The sections keep the id of the process.
pub first_section-id :
    (u w : Urb) (p q : Packet) (ys : List Action)
    → first_section u p ≡ ok (w, q, ys)
    → w.process_id ≡ u.process_id
unfolding add_ack add_pending
first_section-id u w p q ys e = elim (first_section_cases u w p q ys e) [
  | inl (same, _, _, _) ↦ rw same refl
  | inr (_, _, same, _) ↦ rw same refl
]

pub second_section-id : (u : Urb) (q : Packet) → (second_section u q).0.process_id ≡ u.process_id
unfolding move_to_delivered
second_section-id u q = elim (second_section_cases u q) [
  | inl same ↦ rw same refl
  | inr (_, _, _, same) ↦ rw same refl
]

-- What all packets have that came from one process, it has.
pub heard_from-All :
    (P : ℕ → ℕ → ℕ → Type 0) (s n x : ℕ) (ps : List Packet)
    → All (λ q. P q.process_id q.source_id q.packet_seq_num) ps
    → heard_from s n x ps ≡ true
    → P x s n
heard_from-All P s n x [] h e = absurd (ground (arith, e))
heard_from-All P s n x (p ∷ ps) (h, hs) e = elim (Bool-cases (has_id s n p && p.process_id == x)) [
  | inl this ↦
      let at_x : p.process_id ≡ x = ground (arith, this) in
      let at_s : p.source_id ≡ s = ground (arith, this) in
      let at_n : p.packet_seq_num ≡ n = ground (arith, this) in
      subst (λ i. P i s n) at_x
        (subst (λ i. P p.process_id i n) at_s (subst (P p.process_id p.source_id) at_n h))
  | inr other ↦ heard_from-All P s n x ps hs (ground (arith, other, e))
]
