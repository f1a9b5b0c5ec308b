-- ===== src/Tests/Urb.antt =====
-- A system of three processes, seen by processes 1 and 2, where process 3 broadcasts.
use localized_causal_broadca.Prelude.{
  ℕ, ◌+◌, ◌/◌, ◌≤◌, ◌<◌, ◌≡◌, refl, true, List, [], ◌∷◌, arith, none, if◌then◌else◌,
}
use localized_causal_broadca.Containers.Set.{NumSet, member, insert, erase, size, IsSorted}
use localized_causal_broadca.Containers.Map.{at, put}
use localized_causal_broadca.Decimal.{to_string}
use localized_causal_broadca.VectorClock.{get_bytes_length}
use localized_causal_broadca.Packet.{Packet, make, change_sender_id, get_length, get_header_length}
use localized_causal_broadca.UniformReliableBroadcast.{
  Urb, Action, re_broadcasts, delivers, is_pending, is_delivered, acks_of, add_ack, add_pending,
  move_to_delivered, can_deliver, first_section, second_section,
}
use localized_causal_broadca.UniformReliableBroadcast
use localized_causal_broadca.UniformReliableBroadcast.Sections.{Run, start, arrive, settle}
use localized_causal_broadca.UniformReliableBroadcast.Uniform.{
  deliveries, relays, broadcasts_of, Run-uniform,
}
use localized_causal_broadca.UniformReliableBroadcast.Prompt.{Run-prompt}
use localized_causal_broadca.UniformReliableBroadcast.Majority.{
  heard_from, Run-majority, deliveries_share_sender,
}

-- packet 0 of process 3, as process `id` sends it
abbrev copy : ℕ → Packet
copy id = make id 3 0 3 (record { num_processes = 3; values = 0 ∷ 0 ∷ 0 ∷ [] })

-- process `id` behind its copy from process 3, and behind one more from process 1
abbrev one_copy : ℕ → Urb
one_copy id = record {
  process_id = id;
  delivered = [];
  pending = (3, 0 ∷ []) ∷ [];
  acks = (3, (0, 3 ∷ []) ∷ []) ∷ [];
  num_processes = 3;
}

abbrev heard_twice : ℕ → Urb
heard_twice id = record (one_copy id) { acks = (3, (0, 1 ∷ 3 ∷ []) ∷ []) ∷ [] }

abbrev two_copies : ℕ → Urb
two_copies id = record (heard_twice id) { delivered = (3, 0 ∷ []) ∷ []; pending = (3, []) ∷ [] }

abbrev trace : ℕ → List Action
trace id = re_broadcasts (copy id) ∷ delivers (copy 1) ∷ []

run_of_1 :
    Run (UniformReliableBroadcast.start 1 3) (two_copies 1) none (copy 3 ∷ copy 1 ∷ []) (trace 1)
unfolding UniformReliableBroadcast.start first_section second_section is_pending is_delivered
    add_ack add_pending move_to_delivered can_deliver change_sender_id get_length get_header_length
    to_string get_bytes_length at put member insert erase size
run_of_1 = settle {v = heard_twice 1} {q = copy 1} (
    arrive {v = one_copy 1} {w = heard_twice 1} {more = []} (copy 1)
      (settle {v = one_copy 1} {q = copy 1} (
        arrive {v = UniformReliableBroadcast.start 1 3} {w = one_copy 1}
          {more = re_broadcasts (copy 1) ∷ []} (copy 3) start refl))
      refl)

run_of_2 :
    Run (UniformReliableBroadcast.start 2 3) (two_copies 2) none (copy 3 ∷ copy 1 ∷ []) (trace 2)
unfolding UniformReliableBroadcast.start first_section second_section is_pending is_delivered
    add_ack add_pending move_to_delivered can_deliver change_sender_id get_length get_header_length
    to_string get_bytes_length at put member insert erase size
run_of_2 = settle {v = heard_twice 2} {q = copy 1} (
    arrive {v = one_copy 2} {w = heard_twice 2} {more = []} (copy 1)
      (settle {v = one_copy 2} {q = copy 2} (
        arrive {v = UniformReliableBroadcast.start 2 3} {w = one_copy 2}
          {more = re_broadcasts (copy 2) ∷ []} (copy 3) start refl))
      refl)

delivered_by_1 : is_delivered (two_copies 1) 3 0 ≡ true
unfolding is_delivered at member
delivered_by_1 = refl

delivered_by_2 : is_delivered (two_copies 2) 3 0 ≡ true
unfolding is_delivered at member
delivered_by_2 = refl

Run-uniform_example :
    (deliveries 3 0 (trace 1) ≡ (if is_delivered (two_copies 1) 3 0 then 1 else 0))
    × (relays 3 0 (trace 1) ≤ 1)
    × (deliveries 3 0 (trace 1) ≤ relays 3 0 (trace 1) + broadcasts_of 3 0 (trace 1))
Run-uniform_example = Run-uniform 3 0 1 3 run_of_1

Run-majority_example :
    (senders : NumSet) × IsSorted senders
    × (3 / 2 < size senders)
    × ((x : ℕ) → member x senders ≡ true → heard_from 3 0 x (copy 3 ∷ copy 1 ∷ []) ≡ true)
Run-majority_example = Run-majority 3 0 1 3 run_of_1 delivered_by_1

deliveries_share_sender_example :
    (x : ℕ) × (heard_from 3 0 x (copy 3 ∷ copy 1 ∷ []) ≡ true)
    × (heard_from 3 0 x (copy 3 ∷ copy 1 ∷ []) ≡ true)
deliveries_share_sender_example =
    deliveries_share_sender 3 0 1 2 3 run_of_1 run_of_2 (omega arith) (omega arith) delivered_by_1
      delivered_by_2

Run-prompt_example : is_delivered (two_copies 1) 3 0 ≡ can_deliver (two_copies 1) 3 0
Run-prompt_example = Run-prompt 3 0 1 3 run_of_1
