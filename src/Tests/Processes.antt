-- ===== src/Tests/Processes.antt =====
-- Two processes with all of their layers: both broadcast a message, process 2 hears that of process
-- 1 from process 1 and from itself, process 1 from itself and from process 2, and both deliver it.
use mathlib.Core.List.{Memᴰ}
use mathlib.Core.Option
use localized_causal_broadca.Prelude.{
  true, ℕ, ◌≡◌, ◌<◌, ◌==◌, ◌++◌, refl, List, [], ◌∷◌, arith, length, word_size, update, subst,
  Bool-cases, inl, inr, ◌/◌,
}
use localized_causal_broadca.Containers.Set.{member, insert, size, NumSet, IsSorted}
use localized_causal_broadca.Containers.Map.{at, put, find, remove}
use localized_causal_broadca.VectorClock.{zeros, assign, increase, leq, get_bytes_length}
use localized_causal_broadca.VectorClock.Access.{IsProcess}
use localized_causal_broadca.Packet.{
  Packet, make, change_sender_id, get_length, get_header_length, can_add_message, add_message,
}
use localized_causal_broadca.Decimal.{to_string, stoul}
use localized_causal_broadca.Queue.{empty, push, pop, get_size}
use localized_causal_broadca.OutBox
use localized_causal_broadca.OutBox.{Addressed, add_packet, send_packets}
use localized_causal_broadca.PerfectLink
use localized_causal_broadca.PerfectLink.{was_delivered, mark_delivered, add_packets_to_outbox}
use localized_causal_broadca.PerfectLink.Threads
use localized_causal_broadca.PerfectLink.Threads.{
  node, listen, send_acks, fill_outbox, take_received, pop_received, push_ack_of, deliver_new,
}
use localized_causal_broadca.BestEffortBroadcast
use localized_causal_broadca.BestEffortBroadcast.{re_broadcast, send_to_all, drain, broadcast_half}
use localized_causal_broadca.UniformReliableBroadcast
use localized_causal_broadca.UniformReliableBroadcast.{
  is_pending, is_delivered, add_ack, move_to_delivered, can_deliver, first_section, second_section,
}
use localized_causal_broadca.CausalBroadcast
use localized_causal_broadca.CausalBroadcast.{
  Event, logs_broadcast, broadcasts, logs_delivered, create, urb_deliver, get_send_vector_clock,
}
use localized_causal_broadca.CausalBroadcast.Steps.{
  start_thread, new_packet, thread_step, end_round, flush, message_of,
}
use localized_causal_broadca.CausalBroadcast.Order.{delivered_from}
use localized_causal_broadca.CausalBroadcast.Dependencies.{times_delivered}
use localized_causal_broadca.CausalBroadcast.Histories.{Genuine, System}
use localized_causal_broadca.Program.{
  Process, process, hand_over, broadcast_all, push_all, Run, begin, steps, arrives, runs_thread,
  urb_pops, urb_delivers, beb_pops, beb_delivers, settles, begins_half, sends, fills, transmits,
  pops, acknowledges, link_delivers,
}
use localized_causal_broadca.Program.System.{start, Run-System}
use localized_causal_broadca.UniformReliableBroadcast.Uniform.{is_known}
use localized_causal_broadca.Program.Agreement.Logged.{Run-uniform_delivery}
use localized_causal_broadca.Program.Delivery.{Run-delivers, Run-delivers_same}

abbrev hosts : List ℕ
hosts = 1 ∷ 2 ∷ []

abbrev start_of_all : ℕ → Process
start_of_all = start hosts (λ i. 1) (λ i. []) (λ i. 0)

abbrev message : ℕ → Packet
message i = record (make i i 0 2 (record { num_processes = 2; values = 0 ∷ 0 ∷ [] })) {
  messages = message_of 1 ∷ [];
  first_msg_seq_num = 1;
  payload_length = 2;
}

known_1 : IsProcess 2 1
known_1 = (omega arith, omega arith)

known_2 : IsProcess 2 2
known_2 = (omega arith, omega arith)

abbrev Runs : Type 0
Runs =
    (all : ℕ → Process) × (history : ℕ → List Event) × (arrived : ℕ → List Packet) × (wire : List
      Addressed)
    × Run 2 start_of_all all history arrived wire

abbrev to : ℕ → Packet → Addressed
to i p = record { packet = p; dest_proc_id = i }

abbrev relay : Packet
relay = record (message 1) { process_id = 2 }

-- both have broadcast
unfoldable broadcast : Runs
unfolding process start_thread new_packet create zeros get_send_vector_clock assign update
    thread_step can_add_message get_length get_header_length get_bytes_length to_string end_round
    add_message stoul flush message_of broadcast_all hand_over push empty
    BestEffortBroadcast.broadcast UniformReliableBroadcast.broadcast Option.bind
broadcast = (
  _,
  _,
  _,
  _,
  steps 2 (steps 1 begin known_1 (runs_thread refl refl refl)) known_2 (runs_thread refl refl refl),
)

-- process 1 has sent its packet to both
unfoldable sent : Runs
unfolding broadcast broadcast_half drain get_size pop send_to_all Threads.send fill_outbox
    add_packets_to_outbox add_packet OutBox.create node PerfectLink.start
sent = (
  _,
  _,
  _,
  _,
  steps 1
      (steps 1
        (steps 1
          (steps 1
            (steps 1
              (steps 1 (steps 1 broadcast.4 known_1 (begins_half refl refl)) known_1
                (begins_half refl refl))
              known_1 (sends refl refl))
            known_1 (sends refl refl))
          known_1 (fills refl))
        known_1 (fills refl))
      known_1 transmits,
)

-- it has come to the best effort broadcast of process 2
unfoldable received : Runs
unfolding sent at put send_packets listen pop_received take_received push_ack_of deliver_new
    was_delivered push_all member
received = (
  _,
  _,
  _,
  _,
  steps 2
      (steps 2
        (steps 2 (arrives (to 2 (message 1)) sent.4 known_2 (Memᴰ.tail (Memᴰ.head refl)) refl)
          known_2 (pops refl refl))
        known_2 (acknowledges refl refl))
      known_2 (link_delivers refl refl),
)

-- which has sent it on to both
unfoldable relayed : Runs
unfolding received insert mark_delivered UniformReliableBroadcast.start
    UniformReliableBroadcast.add_pending first_section second_section add_ack is_pending
    is_delivered can_deliver size re_broadcast change_sender_id
relayed = (
  _,
  _,
  _,
  _,
  steps 2
      (steps 2
        (steps 2
          (steps 2
            (steps 2
              (steps 2
                (steps 2
                  (steps 2 (steps 2 received.4 known_2 (beb_pops refl refl refl)) known_2
                    (beb_delivers refl refl refl refl))
                  known_2 (settles refl refl))
                known_2 (begins_half refl refl))
              known_2 (sends refl refl))
            known_2 (sends refl refl))
          known_2 (fills refl))
        known_2 (fills refl))
      known_2 transmits,
)

-- and has it back from itself
unfoldable returned : Runs
unfolding relayed
returned = (
  _,
  _,
  _,
  _,
  steps 2
      (steps 2
        (steps 2 (arrives (to 2 relay) relayed.4 known_2 (Memᴰ.tail (Memᴰ.head refl)) refl) known_2
          (pops refl refl))
        known_2 (acknowledges refl refl))
      known_2 (link_delivers refl refl),
)

-- process 2 delivers it
unfoldable first_delivered : Runs
unfolding returned urb_deliver CausalBroadcast.add_pending CausalBroadcast.ready
    CausalBroadcast.deliver_ready CausalBroadcast.deliver_one CausalBroadcast.take_pending
    CausalBroadcast.causal_deliver CausalBroadcast.count_sent increase leq find remove
first_delivered = (
  _,
  _,
  _,
  _,
  steps 2
      (steps 2
        (steps 2
          (steps 2 (steps 2 returned.4 known_2 (beb_pops refl refl refl)) known_2
            (beb_delivers refl refl refl refl))
          known_2 (settles refl refl))
        known_2 (urb_pops refl refl))
      known_2 (urb_delivers refl refl refl),
)

-- process 1 has heard it from itself
unfoldable heard : Runs
unfolding first_delivered
heard = (
  _,
  _,
  _,
  _,
  steps 1
      (steps 1
        (steps 1
          (steps 1
            (steps 1
              (steps 1
                (arrives (to 1 (message 1)) first_delivered.4 known_1
                  (Memᴰ.tail (Memᴰ.tail (Memᴰ.head refl))) refl)
                known_1 (pops refl refl))
              known_1 (acknowledges refl refl))
            known_1 (link_delivers refl refl))
          known_1 (beb_pops refl refl refl))
        known_1 (beb_delivers refl refl refl refl))
      known_1 (settles refl refl),
)

-- and from process 2, and delivers it
unfoldable run : Runs
unfolding heard
run = (
  _,
  _,
  _,
  _,
  steps 1
      (steps 1
        (steps 1
          (steps 1
            (steps 1
              (steps 1
                (steps 1
                  (steps 1 (arrives (to 1 relay) heard.4 known_1 (Memᴰ.head refl) refl) known_1
                    (pops refl refl))
                  known_1 (acknowledges refl refl))
                known_1 (link_delivers refl refl))
              known_1 (beb_pops refl refl refl))
            known_1 (beb_delivers refl refl refl refl))
          known_1 (settles refl refl))
        known_1 (urb_pops refl refl))
      known_1 (urb_delivers refl refl refl),
)

by_process {ℓ} : (P : ℕ → Type ℓ) → P 1 → P 2 → (i : ℕ) → IsProcess 2 i → P i
by_process P p q i (low, high) = elim (Bool-cases (i == 1)) [
  | inl e ↦ subst P (let same : 1 ≡ i = ground arith in same) p
  | inr e ↦ subst P (let same : 2 ≡ i = ground (arith, low, high) in same) q
]

short : (i : ℕ) → IsProcess 2 i → length (run.1 i) < word_size
unfolding run
short = by_process (λ i. length (run.1 i) < word_size) (omega arith) (omega arith)

-- the events of a process before its delivery
abbrev events_before : ℕ → List Event
events_before i = logs_broadcast (message i) ∷ broadcasts (message i) ∷ []

place_1 : run.1 1 ≡ events_before 1 ++ logs_delivered relay ∷ []
unfolding run
place_1 = refl

place_2 : run.1 2 ≡ events_before 2 ++ logs_delivered relay ∷ []
unfolding run
place_2 = refl

Run-System_example : System hosts (λ i. 1) (λ i. []) run.1
Run-System_example = Run-System hosts (λ i. 1) (λ i. []) (λ i. 0) (omega arith) run.4 short

Run-delivers_example :
    Genuine run.1 relay
    × (0 ≡ delivered_from 1 (events_before 2))
    × (times_delivered 1 0 (events_before 2) ≡ 0)
Run-delivers_example =
    Run-delivers hosts (λ i. 1) (λ i. []) (λ i. 0) (omega arith) run.4 short 2 (events_before 2)
      relay known_2 ([], place_2)

Run-delivers_same_example : relay ≡ record relay { process_id = 2 }
Run-delivers_same_example =
    Run-delivers_same hosts (λ i. 1) (λ i. []) (λ i. 0) (omega arith) run.4 short 1 2
      (events_before 1) (events_before 2) relay relay known_1 known_2 ([], place_1) ([], place_2)
      refl refl

Run-uniform_delivery_example :
    (senders : NumSet) × IsSorted senders
    × (2 / 2 < size senders)
    × ((x : ℕ) → member x senders ≡ true → IsProcess 2 x × (is_known 1 0 (run.0 x).urb ≡ true))
Run-uniform_delivery_example =
    Run-uniform_delivery hosts (λ i. 1) (λ i. []) (λ i. 0) 2 (events_before 2) relay (omega arith)
      run.4 known_2 ([], place_2)
