-- ===== src/PerfectLink/Threads.antt =====
-- template_cpp/src/src/perfect_link.cpp: the five threads of a link, the queues between them, and
-- the links of a system on a network.
pub mod Rounds
pub mod Network
pub mod Crash
use mathlib.Core.Option
use mathlib.Core.List.{Memᴰ}
use localized_causal_broadca.Prelude.{
  ℕ, ◌≡◌, Bool, true, false, List, [], ◌∷◌, ◌++◌, ◌==◌, if◌then◌else◌, Option, none, some,
}
use localized_causal_broadca.Packet.{Packet}
use localized_causal_broadca.Queue.{Queue, push, pop, empty, default_max_size}
use localized_causal_broadca.OutBox.{Addressed, send_packets}
use localized_causal_broadca.PerfectLink
use localized_causal_broadca.PerfectLink.{
  PerfectLink, ack_of, was_delivered, mark_delivered, remove_acked, add_packets_to_outbox,
}

-- Where `processArrivedMessages` is: at its pop, or with a packet in hand at the push of the
-- acknowledgement, or behind it.
pub data Processor : Type 0 where
  idle : Processor
  acking delivering : (received : Packet) → Processor

pub record Node : Type 0 where
  pub link : PerfectLink
  pub received_packets : Queue Packet
  pub packets_to_send : Queue Addressed
  pub acks_to_send : Queue Addressed
  pub processor : Processor

unfoldable pub node : ℕ → ℕ → Node
node process_id indeterminate = record {
  link = PerfectLink.start process_id indeterminate;
  received_packets = empty default_max_size;
  packets_to_send = empty default_max_size;
  acks_to_send = empty default_max_size;
  processor = idle;
}

-- `send`, which the layer above calls
unfoldable pub send : Node → Addressed → Option Node
send n packet_dest =
    Option.map (λ q. record n { packets_to_send = q }) (push n.packets_to_send packet_dest)

-- a round of `listen`, for the packet that arrives
unfoldable pub listen : Node → Packet → Option Node
listen n received =
    Option.map (λ q. record n { received_packets = q }) (push n.received_packets received)

-- a round of `sendAcks`: what is sent
unfoldable pub send_acks : Node → Option (Addressed × Node)
send_acks n =
    Option.map (λ (ack_dest, q). (ack_dest, record n { acks_to_send = q })) (pop n.acks_to_send)

-- a round of `addPacketsToOutBox`
unfoldable pub fill_outbox : Node → Option Node
fill_outbox n =
    Option.map (λ (l, q). record n { link = l; packets_to_send = q })
      (add_packets_to_outbox n.link n.packets_to_send)

-- A round of `processArrivedMessages`, in its calls: the pop, with what is done of an
-- acknowledgement; the push of the acknowledgement; and the delivery.
unfoldable pub take_received : Node → Packet → Queue Packet → Node
take_received n received q =
    if received.is_ack
    then record n { received_packets = q; link = remove_acked n.link received }
    else record n { received_packets = q; processor = acking received }

unfoldable pub pop_received : Node → Option Node
pop_received n = Option.map (λ (received, q). take_received n received q) (pop n.received_packets)

unfoldable pub push_ack_of : Node → Packet → Option Node
push_ack_of n received =
    Option.map (λ q. record n { acks_to_send = q; processor = delivering received })
      (push n.acks_to_send (ack_of n.link received))

unfoldable pub deliver_new : Node → Packet → Node × List Packet
deliver_new n received =
    if was_delivered n.link received.process_id received.source_id received.packet_seq_num
    then (record n { processor = idle }, [])
    else (record n { processor = idle; link = mark_delivered n.link received }, received ∷ [])

-- one of the nodes changed
unfoldable pub at_node : ℕ → Node → (ℕ → Node) → ℕ → Node
at_node i n nodes j = if j == i then n else nodes j

-- the packets of a process, with its id
unfoldable pub to_process : ℕ → List Packet → List Addressed
to_process i [] = []
to_process i (p ∷ ps) = record { packet = p; dest_proc_id = i } ∷ to_process i ps

-- A run of a system of links: the nodes by their ids; what was handed to `send`; the datagrams; and
-- what was delivered, with the id of the process. A datagram can get lost, arrive late, and arrive
-- more than once: any that was ever sent to a process may arrive there. The layer above sends no
-- acknowledgements.
pub data Run (start : ℕ → Node)
    : (ℕ → Node) → List Addressed → List Addressed → List Addressed → Type 0 where
  begin : Run start start [] [] []
  sends :
      {nodes : ℕ → Node} {sent wire delivered : List Addressed} {n : Node} (i : ℕ) (a : Addressed)
      → Run start nodes sent wire delivered
      → a.packet.is_ack ≡ false
      → send (nodes i) a ≡ some n
      → Run start (at_node i n nodes) (a ∷ sent) wire delivered
  fills :
      {nodes : ℕ → Node} {sent wire delivered : List Addressed} {n : Node} (i : ℕ)
      → Run start nodes sent wire delivered
      → fill_outbox (nodes i) ≡ some n
      → Run start (at_node i n nodes) sent wire delivered
  transmits :
      {nodes : ℕ → Node} {sent wire delivered : List Addressed} (i : ℕ)
      → Run start nodes sent wire delivered
      → Run start nodes sent (send_packets (nodes i).link.outbox ++ wire) delivered
  transmits_ack :
      {nodes : ℕ → Node} {sent wire delivered : List Addressed} {n : Node} {a : Addressed} (i : ℕ)
      → Run start nodes sent wire delivered
      → send_acks (nodes i) ≡ some (a, n)
      → Run start (at_node i n nodes) sent (a ∷ wire) delivered
  arrives :
      {nodes : ℕ → Node} {sent wire delivered : List Addressed} {n : Node} (a : Addressed)
      → Run start nodes sent wire delivered
      → Memᴰ a wire
      → listen (nodes a.dest_proc_id) a.packet ≡ some n
      → Run start (at_node a.dest_proc_id n nodes) sent wire delivered
  pops :
      {nodes : ℕ → Node} {sent wire delivered : List Addressed} {n : Node} (i : ℕ)
      → Run start nodes sent wire delivered
      → (nodes i).processor ≡ idle
      → pop_received (nodes i) ≡ some n
      → Run start (at_node i n nodes) sent wire delivered
  acknowledges :
      {nodes : ℕ → Node} {sent wire delivered : List Addressed} {n : Node} {p : Packet} (i : ℕ)
      → Run start nodes sent wire delivered
      → (nodes i).processor ≡ acking p
      → push_ack_of (nodes i) p ≡ some n
      → Run start (at_node i n nodes) sent wire delivered
  delivers :
      {nodes : ℕ → Node} {sent wire delivered : List Addressed} {p : Packet} (i : ℕ)
      → Run start nodes sent wire delivered
      → (nodes i).processor ≡ delivering p
      → Run start
          (at_node i (deliver_new (nodes i) p).0 nodes)
          sent
          wire
          (to_process i (deliver_new (nodes i) p).1 ++ delivered)
