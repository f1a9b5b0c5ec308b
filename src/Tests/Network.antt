-- ===== src/Tests/Network.antt =====
-- Two links: process 1 sends a packet to process 2, which acknowledges and delivers it.
use mathlib.Core.List.{Memᴰ}
use localized_causal_broadca.Prelude.{ℕ, ◌≡◌, refl, true, [], ◌∷◌, All}
use localized_causal_broadca.Containers.Set.{member, insert}
use localized_causal_broadca.Containers.Map.{at, put, has}
use localized_causal_broadca.Packet.{Packet, make, create_ack}
use localized_causal_broadca.Queue.{empty, push, pop}
use localized_causal_broadca.OutBox
use localized_causal_broadca.OutBox.{Addressed, add_packet, send_packets}
use localized_causal_broadca.PerfectLink
use localized_causal_broadca.PerfectLink.{was_delivered, mark_delivered, add_packets_to_outbox}
use localized_causal_broadca.PerfectLink.Threads.{
  Node, node, at_node, send, listen, send_acks, fill_outbox, take_received, pop_received,
  push_ack_of, deliver_new, to_process, Run, begin, sends, fills, transmits, transmits_ack, arrives,
  pops, acknowledges, delivers,
}
use localized_causal_broadca.PerfectLink.Threads.Rounds.{handled}
use localized_causal_broadca.PerfectLink.Threads.Network.{
  Run-delivers_sent, Run-acknowledges_handled,
}

abbrev message : Packet
message = make 1 1 0 2 (record { num_processes = 2; values = 0 ∷ 0 ∷ [] })

abbrev to_2 : Addressed
to_2 = record { packet = message; dest_proc_id = 2 }

abbrev ack_to_1 : Addressed
ack_to_1 = record {
  packet = create_ack 2 1 0 2 (record { num_processes = 2; values = 0 ∷ 0 ∷ [] });
  dest_proc_id = 1;
}

abbrev start_of : ℕ → Node
start_of i = node i 0

run : (nodes : ℕ → Node) × Run start_of nodes (to_2 ∷ []) (ack_to_1 ∷ to_2 ∷ []) (to_2 ∷ [])
unfolding node at_node send listen send_acks fill_outbox take_received pop_received push_ack_of
    deliver_new to_process empty push pop OutBox.create add_packet send_packets PerfectLink.start
    add_packets_to_outbox was_delivered mark_delivered member insert at put has
run = (
  _,
  transmits_ack 2
      (delivers 2
        (acknowledges 2
          (pops 2
            (arrives to_2 (transmits 1 (fills 1 (sends 1 to_2 begin refl refl) refl))
              (Memᴰ.head refl) refl)
            refl refl)
          refl refl)
        refl)
      refl,
)

Run-delivers_sent_example : All (λ a. Memᴰ a (to_2 ∷ [])) (to_2 ∷ [])
Run-delivers_sent_example = Run-delivers_sent (λ i. 0) run.1

Run-acknowledges_handled_example : handled 1 1 0 (run.0 2) ≡ true
Run-acknowledges_handled_example =
    Run-acknowledges_handled (λ i. 0) run.1 ack_to_1 (Memᴰ.head refl) refl
