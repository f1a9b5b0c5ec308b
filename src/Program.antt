-- ===== src/Program.antt =====
-- A process with all of its layers, and a system of processes on a network. A step is what one
-- thread does between two accesses to what it shares with others:
-- CausalBroadcast::broadcast and URBDeliver (template_cpp/src/src/causal_broadcast.cpp),
-- UniformReliableBroadcast::URBDeliver and BEBDeliver
-- (template_cpp/src/src/uniform_reliable_broadcast.cpp), BestEffortBroadcast::deliver and broadcast
-- (template_cpp/src/src/best_effort_broadcast.cpp), and the threads of the link
-- (template_cpp/src/src/perfect_link.cpp).
pub mod Carried
pub mod Projection
pub mod Genuine
pub mod System
pub mod Delivery
pub mod Agreement
use mathlib.Core.Option
use mathlib.Core.List.{Memᴰ}
use localized_causal_broadca.Prelude.{
  ℕ, ◌≡◌, Bool, true, false, List, [], ◌∷◌, ◌++◌, length, Option, none, some, Result, ok, err,
  update,
}
use localized_causal_broadca.Containers.Set.{NumSet}
use localized_causal_broadca.VectorClock.Access.{IsProcess}
use localized_causal_broadca.Packet.{Packet}
use localized_causal_broadca.Queue.{Queue, push, pop, empty, default_max_size}
use localized_causal_broadca.OutBox.{Addressed, send_packets}
use localized_causal_broadca.PerfectLink.Threads
use localized_causal_broadca.PerfectLink.Threads.{
  Node, node, idle, acking, delivering, listen, send_acks, fill_outbox, pop_received, push_ack_of,
  deliver_new,
}
use localized_causal_broadca.BestEffortBroadcast
use localized_causal_broadca.BestEffortBroadcast.{
  BestEffortBroadcast, re_broadcast, Turn, others_next, broadcast_half,
}
use localized_causal_broadca.UniformReliableBroadcast
use localized_causal_broadca.UniformReliableBroadcast.{
  Urb, Action, re_broadcasts, delivers, first_section, second_section,
}
use localized_causal_broadca.CausalBroadcast
use localized_causal_broadca.CausalBroadcast.{
  CausalBroadcast, Event, logs_broadcast, broadcasts, logs_delivered, urb_deliver,
}
use localized_causal_broadca.CausalBroadcast.Steps.{Thread, finished, start_thread, thread_step}

-- The objects of a process, and where its threads are: the thread of the causal broadcast; the
-- packets that the threads URBDeliver and BestEffortBroadcast::deliver have popped, and the one
-- that BEBDeliver has between its sections; and what the thread of the best effort broadcast still
-- has to send, and the queue that it tests then.
pub record Process : Type 0 where
  pub causal_broadcast : CausalBroadcast
  pub thread : Thread
  pub urb : Urb
  pub urb_packets_to_deliver : Queue Packet
  pub urb_popped : Option Packet
  pub held : Option Packet
  pub beb : BestEffortBroadcast
  pub beb_packets_to_deliver : Queue Packet
  pub beb_popped : Option Packet
  pub sending : List Addressed
  pub turn : Turn
  pub link : Node

-- The place of a thread that has started. An error is a failed assert, where the process is none of
-- the hosts.
unfoldable pub thread_of : Result Thread → Thread
thread_of (ok t) = t
thread_of (err fault) = finished

-- A process behind the start of its threads: its id, the number of its messages, the ids of the
-- hosts, the processes that affect it, and what is left in the outbox's counter.
unfoldable pub process : ℕ → ℕ → List ℕ → NumSet → ℕ → Process
unfolding thread_of
process id num_messages hosts locality indeterminate = record {
  causal_broadcast = CausalBroadcast.create id num_messages hosts locality;
  thread = thread_of (start_thread (CausalBroadcast.create id num_messages hosts locality));
  urb = UniformReliableBroadcast.start id (length hosts);
  urb_packets_to_deliver = empty default_max_size;
  urb_popped = none;
  held = none;
  beb = record {
    packets_to_broadcast = empty default_max_size;
    packets_to_re_broadcast = empty default_max_size;
    hosts = hosts;
  };
  beb_packets_to_deliver = empty default_max_size;
  beb_popped = none;
  sending = [];
  turn = others_next;
  link = node id indeterminate;
}

-- The calls that uniform reliable broadcast makes of the queues; `none` waits for room.
unfoldable pub hand_over : List Action → Process → Option Process
hand_over [] p = some p
hand_over (re_broadcasts q ∷ more) p =
    Option.bind (re_broadcast p.beb q) (λ b. hand_over more (record p { beb = b }))
hand_over (Action.broadcasts q ∷ more) p =
    Option.bind (BestEffortBroadcast.broadcast p.beb q) (λ b. hand_over more (record p { beb = b }))
hand_over (delivers q ∷ more) p =
    Option.bind (push p.urb_packets_to_deliver q)
      (λ waiting. hand_over more (record p { urb_packets_to_deliver = waiting }))

-- The calls that causal broadcast makes of uniform reliable broadcast.
unfoldable pub broadcast_all : List Event → Process → Option Process
broadcast_all [] p = some p
broadcast_all (logs_broadcast q ∷ more) p = broadcast_all more p
broadcast_all (logs_delivered q ∷ more) p = broadcast_all more p
broadcast_all (broadcasts q ∷ more) p =
    let (u, actions) = UniformReliableBroadcast.broadcast p.urb q in
    Option.bind (hand_over actions (record p { urb = u })) (broadcast_all more)

-- the deliveries of the link, which the best effort broadcast puts in its queue
unfoldable pub push_all : Queue Packet → List Packet → Option (Queue Packet)
push_all waiting [] = some waiting
push_all waiting (q ∷ more) = Option.bind (push waiting q) (λ rest. push_all rest more)

-- A step of a process: the process before and after, the events of its causal broadcast, the
-- packets that reach it, and the datagrams that are sent.
pub data Step : Process → Process → List Event → List Packet → List Addressed → Type 0 where
  -- CausalBroadcast::broadcast, from one wait to the next
  runs_thread :
      {p v : Process} {c : CausalBroadcast} {t : Thread} {events : List Event}
      → p.causal_broadcast.can_broadcast ≡ true
      → thread_step p.causal_broadcast p.thread ≡ ok (c, t, events)
      → broadcast_all events (record p { causal_broadcast = c; thread = t }) ≡ some v
      → Step p v events [] []
  -- UniformReliableBroadcast::URBDeliver: the pop, and the call, which waits
  urb_pops :
      {p : Process} {q : Packet} {rest : Queue Packet}
      → p.urb_popped ≡ none
      → pop p.urb_packets_to_deliver ≡ some (q, rest)
      → Step p (record p { urb_packets_to_deliver = rest; urb_popped = some q }) [] [] []
  urb_delivers :
      {p : Process} {c : CausalBroadcast} {events : List Event} {q : Packet}
      → p.causal_broadcast.can_broadcast ≡ false
      → p.urb_popped ≡ some q
      → urb_deliver p.causal_broadcast q ≡ ok (c, events)
      → Step p (record p { causal_broadcast = c; urb_popped = none }) events (q ∷ []) []
  -- BestEffortBroadcast::deliver: the pop, and the first section of BEBDeliver
  beb_pops :
      {p : Process} {q : Packet} {rest : Queue Packet}
      → p.beb_popped ≡ none
      → p.held ≡ none
      → pop p.beb_packets_to_deliver ≡ some (q, rest)
      → Step p (record p { beb_packets_to_deliver = rest; beb_popped = some q }) [] [] []
  beb_delivers :
      {p v : Process} {u : Urb} {q r : Packet} {actions : List Action}
      → p.beb_popped ≡ some q
      → p.held ≡ none
      → first_section p.urb q ≡ ok (u, r, actions)
      → hand_over actions (record p { urb = u; beb_popped = none; held = some r }) ≡ some v
      → Step p v [] [] []
  -- the second section of BEBDeliver
  settles :
      {p v : Process} {q : Packet}
      → p.held ≡ some q
      → hand_over
          (second_section p.urb q).1
          (record p { urb = (second_section p.urb q).0; held = none })
        ≡ some v
      → Step p v [] [] []
  -- BestEffortBroadcast::broadcast: a half of its loop, and each of its calls of PerfectLink::send
  begins_half :
      {p : Process} {b : BestEffortBroadcast} {next : Turn} {sends : List Addressed}
      → p.sending ≡ []
      → broadcast_half p.beb p.turn ≡ some (b, next, sends)
      → Step p (record p { beb = b; turn = next; sending = sends }) [] [] []
  sends :
      {p : Process} {l : Node} {a : Addressed} {rest : List Addressed}
      → p.sending ≡ a ∷ rest
      → Threads.send p.link a ≡ some l
      → Step p (record p { link = l; sending = rest }) [] [] []
  -- PerfectLink::addPacketsToOutBox
  fills :
      {p : Process} {l : Node}
      → fill_outbox p.link ≡ some l
      → Step p (record p { link = l }) [] [] []
  -- PerfectLink::sendPackets
  transmits : {p : Process} → Step p p [] [] (send_packets p.link.link.outbox)
  -- PerfectLink::sendAcks
  transmits_ack :
      {p : Process} {l : Node} {a : Addressed}
      → send_acks p.link ≡ some (a, l)
      → Step p (record p { link = l }) [] [] (a ∷ [])
  -- PerfectLink::processArrivedMessages
  pops :
      {p : Process} {l : Node}
      → p.link.processor ≡ idle
      → pop_received p.link ≡ some l
      → Step p (record p { link = l }) [] [] []
  acknowledges :
      {p : Process} {l : Node} {q : Packet}
      → p.link.processor ≡ acking q
      → push_ack_of p.link q ≡ some l
      → Step p (record p { link = l }) [] [] []
  link_delivers :
      {p : Process} {q : Packet} {waiting : Queue Packet}
      → p.link.processor ≡ delivering q
      → push_all p.beb_packets_to_deliver (deliver_new p.link q).1 ≡ some waiting
      → Step p
          (record p { link = (deliver_new p.link q).0; beb_packets_to_deliver = waiting })
          []
          []
          []

-- A run of a system of `n` processes: the processes by their ids; the events of each; the packets
-- that reached the causal broadcast of each; and the datagrams. A datagram can get lost, arrive
-- late, and arrive more than once.
pub data Run (n : ℕ) (start : ℕ → Process)
    : (ℕ → Process) → (ℕ → List Event) → (ℕ → List Packet) → List Addressed → Type 0 where
  begin : Run n start start (λ i. []) (λ i. []) []
  steps :
      {all : ℕ → Process} {history : ℕ → List Event} {arrived : ℕ → List Packet}
      {wire more : List Addressed} {v : Process} {events : List Event} {ps : List Packet} (i : ℕ)
      → Run n start all history arrived wire
      → IsProcess n i
      → Step (all i) v events ps more
      → Run n start
          (update i v all)
          (update i (history i ++ events) history)
          (update i (arrived i ++ ps) arrived)
          (more ++ wire)
  arrives :
      {all : ℕ → Process} {history : ℕ → List Event} {arrived : ℕ → List Packet}
      {wire : List Addressed} {l : Node} (a : Addressed)
      → Run n start all history arrived wire
      → IsProcess n a.dest_proc_id
      → Memᴰ a wire
      → listen (all a.dest_proc_id).link a.packet ≡ some l
      → Run n start
          (update a.dest_proc_id (record (all a.dest_proc_id) { link = l }) all)
          history
          arrived
          wire
