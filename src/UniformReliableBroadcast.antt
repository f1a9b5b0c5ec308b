-- ===== src/UniformReliableBroadcast.antt =====
-- template_cpp/src/include/uniform_reliable_broadcast.hpp and
-- template_cpp/src/src/uniform_reliable_broadcast.cpp. `BEBDeliver` holds the mutex in two
-- sections, between which the thread of the higher layer may broadcast; it alone touches `acks`. A
-- push to another layer's queue is an action.
pub mod Sections
pub mod Packets
pub mod Known
pub mod Uniform
pub mod Majority
pub mod Prompt
use localized_causal_broadca.Prelude.{
  ℕ, ◌/◌, Bool, true, false, not, ◌&&◌, List, [], ◌∷◌, ◌++◌, ltb, if◌then◌else◌, Result, ok, err,
  ◌>>=◌,
}
use localized_causal_broadca.Containers.Set.{NumSet, member, insert, erase, size}
use localized_causal_broadca.Containers.Map.{NumMap, at, put}
use localized_causal_broadca.Packet.{Packet, change_sender_id}

pub record Urb : Type 0 where
  pub process_id : ℕ
  pub delivered : NumMap NumSet
  pub pending : NumMap NumSet
  pub acks : NumMap (NumMap NumSet)
  pub num_processes : ℕ

unfoldable pub start : ℕ → ℕ → Urb
start process_id num_processes = record {
  process_id = process_id;
  delivered = [];
  pending = [];
  acks = [];
  num_processes = num_processes;
}

pub data Action : Type 0 where
  -- beb -> re_broadcast and beb -> broadcast
  re_broadcasts broadcasts : Packet → Action
  -- packets_to_deliver.push, for the causal broadcast
  delivers : Packet → Action

unfoldable pub is_pending : Urb → ℕ → ℕ → Bool
is_pending u source_id seq_num = member seq_num (at [] source_id u.pending)

unfoldable pub is_delivered : Urb → ℕ → ℕ → Bool
is_delivered u source_id seq_num = member seq_num (at [] source_id u.delivered)

-- acks[source_id][seq_num]
abbrev pub acks_of : Urb → ℕ → ℕ → NumSet
acks_of u source_id seq_num = at [] seq_num (at [] source_id u.acks)

unfoldable pub can_deliver : Urb → ℕ → ℕ → Bool
can_deliver u source_id seq_num = ltb (u.num_processes / 2) (size (acks_of u source_id seq_num))

unfoldable pub add_ack : Urb → Packet → Urb
add_ack u p = record u {
  acks =
      put p.source_id
        (put p.packet_seq_num (insert p.process_id (acks_of u p.source_id p.packet_seq_num))
          (at [] p.source_id u.acks))
        u.acks;
}

unfoldable pub add_pending : Urb → Packet → Urb
add_pending u p = record u {
  pending = put p.source_id (insert p.packet_seq_num (at [] p.source_id u.pending)) u.pending;
}

unfoldable pub move_to_delivered : Urb → Packet → Urb
move_to_delivered u p = record u {
  delivered = put p.source_id (insert p.packet_seq_num (at [] p.source_id u.delivered)) u.delivered;
  pending = put p.source_id (erase p.packet_seq_num (at [] p.source_id u.pending)) u.pending;
}

-- a packet that this process neither holds nor delivered
abbrev pub is_new : Urb → Packet → Bool
is_new u p =
    not (is_pending u p.source_id p.packet_seq_num)
    && not (is_delivered u p.source_id p.packet_seq_num)

-- The first section: the acknowledgement, and the re-broadcast of a new packet in this process's
-- name. The packet goes on with the changed sender.
unfoldable pub first_section : Urb → Packet → Result (Urb × Packet × List Action)
first_section u p =
    let v = add_ack u p in
    if is_new v p
    then (change_sender_id p v.process_id >>= λ q. ok (add_pending v p, q, re_broadcasts q ∷ []))
    else ok (v, p, [])

-- The second section: the delivery.
unfoldable pub second_section : Urb → Packet → Urb × List Action
second_section u p =
    if can_deliver u p.source_id p.packet_seq_num
      && is_pending u p.source_id p.packet_seq_num
      && not (is_delivered u p.source_id p.packet_seq_num)
    then (move_to_delivered u p, delivers p ∷ [])
    else (u, [])

-- `BEBDeliver` where nobody broadcasts between its sections
unfoldable pub beb_deliver : Urb → Packet → Result (Urb × List Action)
unfolding first_section second_section
beb_deliver u p = do r ← first_section u p; let s = second_section r.0 r.1; ok (s.0, r.2 ++ s.1)

unfoldable pub broadcast : Urb → Packet → Urb × List Action
broadcast u p = (add_pending u p, broadcasts p ∷ [])
