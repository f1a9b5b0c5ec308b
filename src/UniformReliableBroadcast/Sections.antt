-- ===== src/UniformReliableBroadcast/Sections.antt =====
-- The sections of `BEBDeliver` and the broadcasts of the higher layer, interleaved, and what each
-- does to the tests.
use localized_causal_broadca.Prelude.{
  ℕ, ◌≡◌, refl, Bool, true, false, ◌&&◌, List, [], ◌∷◌, ◌++◌, arith, ◌==◌, if◌then◌else◌, Option,
  none, some, ok, Bool-cases, ◌⊎◌, inl, inr,
}
use localized_causal_broadca.Containers.Set.{
  insert, erase, member-insert, member-erase, member-nil, NumSet,
}
use localized_causal_broadca.Containers.Map.{at, put, at-put, at-nil, NumMap}
use localized_causal_broadca.Packet.{Packet, change_sender_id}
use localized_causal_broadca.UniformReliableBroadcast
use localized_causal_broadca.UniformReliableBroadcast.{
  Urb, Action, re_broadcasts, broadcasts, delivers, is_pending, is_delivered, acks_of, add_ack,
  add_pending, move_to_delivered, can_deliver, first_section, second_section, broadcast, is_new,
}

-- A process from a state on: the state, the packet that `BEBDeliver` holds between its sections,
-- the packets that arrived, and the actions so far.
pub data Run (u : Urb) : Urb → Option Packet → List Packet → List Action → Type 0 where
  start : Run u u none [] []
  arrive :
      {v w : Urb} {ps : List Packet} {trace more : List Action} {q : Packet} (p : Packet)
      → Run u v none ps trace
      → first_section v p ≡ ok (w, q, more)
      → Run u w (some q) (ps ++ p ∷ []) (trace ++ more)
  settle :
      {v : Urb} {ps : List Packet} {trace : List Action} {q : Packet}
      → Run u v (some q) ps trace
      → Run u (second_section v q).0 none ps (trace ++ (second_section v q).1)
  own :
      {v : Urb} {held : Option Packet} {ps : List Packet} {trace : List Action} (p : Packet)
      → Run u v held ps trace
      → Run u (broadcast v p).0 held ps (trace ++ (broadcast v p).1)

module _ (s n : ℕ) where
  -- the packet has the source `s` and the number `n`
  abbrev pub has_id : Packet → Bool
  has_id p = p.source_id == s && p.packet_seq_num == n

  pub is_pending-add_ack : (u : Urb) (p : Packet) → is_pending (add_ack u p) s n ≡ is_pending u s n
  unfolding is_pending add_ack
  is_pending-add_ack u p = refl

  pub is_delivered-add_ack :
      (u : Urb) (p : Packet) → is_delivered (add_ack u p) s n ≡ is_delivered u s n
  unfolding is_delivered add_ack
  is_delivered-add_ack u p = refl

  pub is_pending-add_pending :
      (u : Urb) (p : Packet)
      → is_pending (add_pending u p) s n ≡ (if has_id p then true else is_pending u s n)
  unfolding is_pending add_pending
  is_pending-add_pending u p = ground (
    arith,
    at-put [] s p.source_id (insert p.packet_seq_num (at [] p.source_id u.pending)) u.pending,
    member-insert n p.packet_seq_num (at [] p.source_id u.pending),
  )

  pub is_delivered-add_pending :
      (u : Urb) (p : Packet) → is_delivered (add_pending u p) s n ≡ is_delivered u s n
  unfolding is_delivered add_pending
  is_delivered-add_pending u p = refl

  pub is_pending-move :
      (u : Urb) (p : Packet)
      → is_pending (move_to_delivered u p) s n ≡ (if has_id p then false else is_pending u s n)
  unfolding is_pending move_to_delivered
  is_pending-move u p = ground (
    arith,
    at-put [] s p.source_id (erase p.packet_seq_num (at [] p.source_id u.pending)) u.pending,
    member-erase n p.packet_seq_num (at [] p.source_id u.pending),
  )

  pub is_delivered-move :
      (u : Urb) (p : Packet)
      → is_delivered (move_to_delivered u p) s n ≡ (if has_id p then true else is_delivered u s n)
  unfolding is_delivered move_to_delivered
  is_delivered-move u p = ground (
    arith,
    at-put [] s p.source_id (insert p.packet_seq_num (at [] p.source_id u.delivered)) u.delivered,
    member-insert n p.packet_seq_num (at [] p.source_id u.delivered),
  )

  pub acks_of-add_ack :
      (u : Urb) (p : Packet)
      → acks_of (add_ack u p) s n
        ≡ (if has_id p then insert p.process_id (acks_of u s n) else acks_of u s n)
  unfolding add_ack
  acks_of-add_ack u p =
      let acks = acks_of u p.source_id p.packet_seq_num in
      let numbers = at [] p.source_id u.acks in
      ground (
        arith,
        at-put [] s p.source_id (put p.packet_seq_num (insert p.process_id acks) numbers) u.acks,
        at-put [] n p.packet_seq_num (insert p.process_id acks) numbers,
      )

-- `changeSenderId` changes the sender alone.
pub change_sender_id-same :
    (p q : Packet) (id : ℕ)
    → change_sender_id p id ≡ ok q
    → (q.source_id ≡ p.source_id) × (q.packet_seq_num ≡ p.packet_seq_num)
unfolding change_sender_id
change_sender_id-same p q id h = ground arith

add_ack-process_id : (u : Urb) (p : Packet) → (add_ack u p).process_id ≡ u.process_id
unfolding add_ack
add_ack-process_id u p = refl

-- A process starts with nothing pending or delivered, and no acknowledgement.
pub start-unknown :
    (id k s n : ℕ)
    → (is_pending (UniformReliableBroadcast.start id k) s n ≡ false)
      × (is_delivered (UniformReliableBroadcast.start id k) s n ≡ false)
      × (acks_of (UniformReliableBroadcast.start id k) s n ≡ [])
unfolding is_pending is_delivered UniformReliableBroadcast.start
start-unknown id k s n = (
  rw at-nil (member-nil n),
  rw at-nil (member-nil n),
  rw (at-nil {V = NumMap NumSet} [] s) (at-nil {V = NumSet} [] n),
)

-- The section, where it throws nothing, adds the acknowledgement, and passes a new packet on.
pub first_section_cases :
    (u w : Urb) (p q : Packet) (ys : List Action)
    → first_section u p ≡ ok (w, q, ys)
    → ((w ≡ add_ack u p) × (q ≡ p) × (ys ≡ []) × (is_new (add_ack u p) p ≡ false))
      ⊎ ((is_new (add_ack u p) p ≡ true)
          × (change_sender_id p u.process_id ≡ ok q)
          × (w ≡ add_pending (add_ack u p) p)
          × (ys ≡ re_broadcasts q ∷ []))
unfolding first_section
first_section_cases u w p q ys h = elim (Bool-cases (is_new (add_ack u p) p)) [
  | inl new ↦
      let same = add_ack-process_id u p in
      inr (new, ground (arith, same), ground (arith, same), ground (arith, same))
  | inr old ↦ inl (ground arith, ground arith, ground arith, old)
]

-- The section delivers, or does nothing.
pub second_section_cases :
    (u : Urb) (q : Packet)
    → (second_section u q ≡ (u, []))
      ⊎ ((can_deliver u q.source_id q.packet_seq_num ≡ true)
          × (is_pending u q.source_id q.packet_seq_num ≡ true)
          × (is_delivered u q.source_id q.packet_seq_num ≡ false)
          × (second_section u q ≡ (move_to_delivered u q, delivers q ∷ [])))
unfolding second_section
second_section_cases u q = ground arith
