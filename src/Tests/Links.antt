-- ===== src/Tests/Links.antt =====
-- The queue, the outbox, the link and the best effort broadcast on small inputs.
use localized_causal_broadca.Prelude.{
  ℕ, ◌+◌, ◌≤◌, ◌≡◌, refl, false, List, [], ◌∷◌, ◌++◌, arith, none, some, if◌then◌else◌,
}
use localized_causal_broadca.Packet.{Packet, make, create_ack}
use localized_causal_broadca.Queue.{Queue, empty, push, pop}
use localized_causal_broadca.Queue.Fifo.{
  Run, start, pushed, popped, IsValid, empty-IsValid, Run-fifo,
}
use localized_causal_broadca.Containers.Map.{at, has}
use localized_causal_broadca.OutBox.{
  OutBox, Addressed, add_packet, remove_packet, holds, send_packets,
}
use localized_causal_broadca.OutBox.Sends.{times_sent, send_packets-holds}
use localized_causal_broadca.OutBox.Size.{
  IsTidy, total, one_if, holds_key, add_packet-counts, remove_packet-counts,
}
use localized_causal_broadca.PerfectLink.{PerfectLink, was_delivered, process_all}
use localized_causal_broadca.PerfectLink.Once.{deliveries, arrives, deliveries-process_all}
use localized_causal_broadca.PerfectLink.Acks.{
  acks, Answers, acked, acks-process_all, holds-process_all,
}
use localized_causal_broadca.BestEffortBroadcast.{
  BestEffortBroadcast, others_next, own_next, broadcast_half,
}
use localized_causal_broadca.BestEffortBroadcast.Rounds.{broadcast_half-sends, OldestToAll}

abbrev queue_of : List ℕ → ℕ → Queue ℕ
queue_of xs k = record { curr_size = k; max_size = 2; items = xs }

-- 7 and 8 go in, 7 comes out
queue_run : Run (empty 2) (queue_of (8 ∷ []) 1) (7 ∷ 8 ∷ []) (7 ∷ [])
unfolding empty push pop
queue_run =
    popped {r = queue_of (7 ∷ 8 ∷ []) 2} 7
      (pushed {r = queue_of (7 ∷ []) 1} {t = queue_of (7 ∷ 8 ∷ []) 2} 8
        (pushed {r = empty 2} {t = queue_of (7 ∷ []) 1} 7 start refl) refl)
      refl

queue_full : push (queue_of (7 ∷ 8 ∷ []) 2) 9 ≡ none
unfolding push
queue_full = refl

Run-fifo_example :
    IsValid (queue_of (8 ∷ []) 1) × (◌++◌ {A = ℕ} (empty {A = ℕ} 2).items (7 ∷ 8 ∷ []) ≡ 7 ∷ 8 ∷ [])
Run-fifo_example = Run-fifo (empty-IsValid 2 (omega arith)) queue_run

abbrev packet_of : ℕ → ℕ → Packet
packet_of id n = make id 3 n 3 (record { num_processes = 3; values = 0 ∷ 0 ∷ 0 ∷ [] })

-- one packet of source 3, on its way to process 2
abbrev one_packet : OutBox
one_packet = record {
  curr_size = 1;
  max_size = 1000;
  packets = (2, (3, (0, packet_of 1 0) ∷ []) ∷ []) ∷ [];
}

abbrev next_packet : Addressed
next_packet = record { packet = packet_of 1 1; dest_proc_id = 2 }

add_packet-counts_example :
    (r : OutBox) × (add_packet one_packet next_packet ≡ some r)
    × IsTidy r.packets
    × (r.max_size ≡ 1000)
    × (r.curr_size ≤ r.max_size)
    × (r.curr_size ≡ total r + one_if (holds_key one_packet next_packet))
add_packet-counts_example =
    add_packet-counts one_packet next_packet (omega arith) refl (omega arith) (omega arith)

remove_packet-counts_example :
    let r = (remove_packet one_packet 2 3 0).0 in
    ((remove_packet one_packet 2 3 0).1 ≡ holds one_packet 2 3 0)
    × IsTidy r.packets
    × (r.max_size ≡ 1000)
    × (r.curr_size ≡ total r)
    × (r.curr_size ≤ r.max_size)
remove_packet-counts_example =
    remove_packet-counts one_packet 2 3 0 (omega arith) refl (omega arith) (omega arith)

abbrev link : PerfectLink
link = record { process_id = 1; delivered = []; outbox = one_packet }

-- packet 5 twice, and the acknowledgement of the packet in the outbox
abbrev arrivals : List Packet
arrivals =
    packet_of 2 5
    ∷ create_ack 2 3 0 3 (record { num_processes = 3; values = 0 ∷ 0 ∷ 0 ∷ [] })
    ∷ packet_of 2 5
    ∷ []

deliveries-process_all_example :
    deliveries 2 3 5 (process_all link arrivals).1
    ≡ (if was_delivered link 2 3 5 then 0 else if arrives 2 3 5 arrivals then 1 else 0)
deliveries-process_all_example = deliveries-process_all 2 3 5 link arrivals

acks-process_all_example : Answers 1 arrivals (acks (process_all link arrivals).1)
acks-process_all_example = acks-process_all link arrivals

holds-process_all_example :
    holds (process_all link arrivals).0.outbox 2 3 0
    ≡ (if acked 2 3 0 arrivals then false else holds link.outbox 2 3 0)
holds-process_all_example = holds-process_all link arrivals 2 3 0

abbrev packets : List Packet → ℕ → Queue Packet
packets ps k = record { curr_size = k; max_size = 512; items = ps }

abbrev broadcaster : BestEffortBroadcast
broadcaster = record {
  packets_to_broadcast = packets [] 0;
  packets_to_re_broadcast = packets (packet_of 1 0 ∷ packet_of 1 1 ∷ []) 2;
  hosts = 1 ∷ 2 ∷ 3 ∷ [];
}

broadcast_half-sends_example :
    (c : BestEffortBroadcast) × (sent : List Addressed) × (broadcast_half broadcaster others_next
      ≡ some (c, own_next, sent))
    × OldestToAll (1 ∷ 2 ∷ 3 ∷ []) (packet_of 1 0 ∷ packet_of 1 1 ∷ []) sent
    × (c.packets_to_re_broadcast.items ≡ packet_of 1 1 ∷ [])
    × IsValid c.packets_to_re_broadcast
    × (c.packets_to_broadcast ≡ packets [] 0)
    × (c.hosts ≡ 1 ∷ 2 ∷ 3 ∷ [])
broadcast_half-sends_example =
    broadcast_half-sends broadcaster others_next
      (record { counted = refl; bounded = omega arith; word = omega arith })

send_packets-holds_example : times_sent 2 3 0 (send_packets one_packet) ≡ 1
unfolding holds at has
send_packets-holds_example =
    send_packets-holds 2 3 0 one_packet (omega arith) ((((refl, refl), tt), tt), tt)
