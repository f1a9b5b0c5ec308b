-- ===== src/UniformReliableBroadcast/Packets.antt =====
-- What an arrived packet has, what is made of it has, where the id of the last sender does not
-- matter to it.
use localized_causal_broadca.Prelude.{
  ℕ, ◌≡◌, not, ◌&&◌, List, leb, ok, All, Bool-cases, inl, inr, Ensures, Ensures-bind, Ensures-ok,
}
use localized_causal_broadca.Packet.{Packet, change_sender_id, get_length, max_length}
use localized_causal_broadca.UniformReliableBroadcast.{
  Urb, Action, re_broadcasts, broadcasts, delivers, add_ack, is_new, is_pending, is_delivered,
  can_deliver, first_section, second_section,
}

module _ (P : Packet → Type 0) where
  -- Only the packet under another sender's id has to have it too.
  abbrev pub KeptByRename : Type 0
  KeptByRename = (q : Packet) (id : ℕ) → P q → P (record q { process_id = id })

  abbrev pub OfAction : Action → Type 0
  OfAction (re_broadcasts q) = P q
  OfAction (broadcasts q) = P q
  OfAction (delivers q) = P q

  change_sender_id-kept :
      KeptByRename → (q : Packet) (id : ℕ) → P q → Ensures P (change_sender_id q id)
  unfolding change_sender_id
  change_sender_id-kept kept q id h =
      elim (Bool-cases (leb (get_length (record q { process_id = id })) max_length)) [
        | inl room ↦ rw room (kept q id h)
        | inr long ↦ rw long tt
      ]

  -- the packet that goes on, and the actions
  abbrev Sectioned : Urb × Packet × List Action → Type 0
  Sectioned (v, r, actions) = P r × All OfAction actions

  first_section-Sectioned :
      KeptByRename → (u : Urb) (q : Packet) → P q → Ensures Sectioned (first_section u q)
  unfolding first_section
  first_section-Sectioned kept u q h = elim (Bool-cases (is_new (add_ack u q) q)) [
    | inl new ↦ rw new (
        Ensures-bind Sectioned (change_sender_id q (add_ack u q).process_id) _ (λ r changed.
          let good =
            Ensures-ok P r (change_sender_id-kept kept q (add_ack u q).process_id h) changed in
          (good, (good, tt))))
    | inr known ↦ rw known (h, tt)
  ]

  pub first_section-kept :
      KeptByRename
      → (u v : Urb) (q r : Packet) (actions : List Action) → P q
      → first_section u q ≡ ok (v, r, actions)
      → P r × All OfAction actions
  first_section-kept kept u v q r actions h e =
      Ensures-ok Sectioned (v, r, actions) (first_section-Sectioned kept u q h) e

  pub second_section-kept : (u : Urb) (q : Packet) → P q → All OfAction (second_section u q).1
  unfolding second_section
  second_section-kept u q h =
      elim (Bool-cases (
        can_deliver u q.source_id q.packet_seq_num
        && is_pending u q.source_id q.packet_seq_num
        && not (is_delivered u q.source_id q.packet_seq_num))) [
          | inl delivered ↦ rw delivered (h, tt)
          | inr waiting ↦ rw waiting tt
        ]
