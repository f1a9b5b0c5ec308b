-- ===== src/PerfectLink.antt =====
-- template_cpp/src/include/perfect_link.hpp and template_cpp/src/src/perfect_link.cpp: the thread
-- that handles arrived packets, and what it shares with the threads that fill and send the outbox.
-- A push to another thread's queue is an action; the queue (Queue.antt) keeps their order.
pub mod Once
pub mod Acks
pub mod Threads
use localized_causal_broadca.Prelude.{
  ℕ, Bool, true, false, List, [], ◌∷◌, ◌++◌, if◌then◌else◌, Option, none, some,
}
use mathlib.Core.Option
use localized_causal_broadca.Containers.Set.{NumSet, member, insert}
use localized_causal_broadca.Containers.Map.{NumMap, at, put}
use localized_causal_broadca.Packet.{Packet, create_ack}
use localized_causal_broadca.OutBox.{OutBox, Addressed, add_packet, remove_packet, create}
use localized_causal_broadca.Queue.{Queue, pop}

-- The fields that the handler of arrived packets reads and writes.
pub record PerfectLink : Type 0 where
  pub process_id : ℕ
  pub delivered : NumMap (NumMap NumSet)
  pub outbox : OutBox

-- The constructor. The outbox's counter starts with what its memory held.
unfoldable pub start : ℕ → ℕ → PerfectLink
start process_id indeterminate = record {
  process_id = process_id;
  delivered = [];
  outbox = create indeterminate;
}

pub data Action : Type 0 where
  -- acks_to_send.push
  push_ack : Addressed → Action
  -- deliver, which pushes to the best effort broadcast's packets_to_deliver
  deliver : Packet → Action

-- delivered[process_id][source_id]
abbrev pub delivered_from : PerfectLink → ℕ → ℕ → NumSet
delivered_from l process_id source_id = at [] source_id (at [] process_id l.delivered)

unfoldable pub was_delivered : PerfectLink → ℕ → ℕ → ℕ → Bool
was_delivered l process_id source_id seq_num =
    member seq_num (delivered_from l process_id source_id)

unfoldable pub mark_delivered : PerfectLink → Packet → PerfectLink
mark_delivered l p = record l {
  delivered =
      put p.process_id
        (put p.source_id (insert p.packet_seq_num (delivered_from l p.process_id p.source_id))
          (at [] p.process_id l.delivered))
        l.delivered;
}

-- the acknowledgement of a packet, for the process that it came from
abbrev pub ack_of : PerfectLink → Packet → Addressed
ack_of l received = record {
  packet =
      create_ack l.process_id received.source_id received.packet_seq_num received.num_processes
        received.vector_clock;
  dest_proc_id = received.process_id;
}

unfoldable pub remove_acked : PerfectLink → Packet → PerfectLink
remove_acked l ack =
    let (o, found) = remove_packet l.outbox ack.process_id ack.source_id ack.packet_seq_num in
    record l { outbox = o }

-- one round of `processArrivedMessages`, behind its pop
unfoldable pub process_arrived : PerfectLink → Packet → PerfectLink × List Action
process_arrived l received =
    if received.is_ack
    then (remove_acked l received, [])
    else if was_delivered l received.process_id received.source_id received.packet_seq_num
    then (l, push_ack (ack_of l received) ∷ [])
    else (mark_delivered l received, push_ack (ack_of l received) ∷ deliver received ∷ [])

-- the rounds for the packets that arrive, in their order
unfoldable pub process_all : PerfectLink → List Packet → PerfectLink × List Action
process_all l [] = (l, [])
process_all l (p ∷ ps) =
    let (l', actions) = process_arrived l p in
    let (l'', more) = process_all l' ps in (l'', actions ++ more)

-- one round of `addPacketsToOutBox`; `none` waits for a packet, or for room in the box
insert_popped :
    PerfectLink → Option (Addressed × Queue Addressed) → Option (PerfectLink × Queue Addressed)
insert_popped l none = none
insert_popped l (some (a, rest)) =
    Option.map (λ o. (record l { outbox = o }, rest)) (add_packet l.outbox a)

unfoldable pub add_packets_to_outbox :
    PerfectLink → Queue Addressed → Option (PerfectLink × Queue Addressed)
unfolding insert_popped
add_packets_to_outbox l packets_to_send = insert_popped l (pop packets_to_send)
