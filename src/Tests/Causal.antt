-- ===== src/Tests/Causal.antt =====
-- A system of three hosts, seen by process 1, which is affected by process 2 and broadcasts one
-- message; and a process with nothing to broadcast.
use localized_causal_broadca.Prelude.{
  ℕ, ◌%◌, ◌≤◌, ◌≡◌, refl, true, false, List, [], ◌∷◌, ◌++◌, arith, word_size, none, some, ok, ◌==◌,
  if◌then◌else◌, ltb, ◌<◌,
}
use localized_causal_broadca.Containers.Set.{member}
use localized_causal_broadca.Containers.Map.{at, put, find, remove}
use localized_causal_broadca.Decimal.{to_string, stoul}
use localized_causal_broadca.VectorClock.{
  VectorClock, zeros, assign, increase, leq, get_bytes_length,
}
use localized_causal_broadca.VectorClock.Access.{entry, IsProcess}
use localized_causal_broadca.Packet.{
  Packet, make, can_add_message, add_message, get_length, get_header_length, first_seq_num,
}
use localized_causal_broadca.CausalBroadcast.{
  CausalBroadcast, Event, logs_broadcast, broadcasts, logs_delivered, create, pending_of, next_of,
  get_send_vector_clock, causal_deliver, add_pending, take_pending, count_sent, deliver_one, ready,
  deliver_ready, urb_deliver,
}
use localized_causal_broadca.CausalBroadcast.Steps.{
  top, finished, message_of, new_packet, start_thread, flush, end_round, thread_step, Run, begin,
  send, receive,
}
use localized_causal_broadca.CausalBroadcast.Order.{delivered_from, broadcast_count}
use localized_causal_broadca.CausalBroadcast.Invariant.{IsOfSystem}
use localized_causal_broadca.CausalBroadcast.Invariant.Broadcasts.{
  Run-delivers_in_order, Run-broadcast_clock,
}
use localized_causal_broadca.CausalBroadcast.Dependencies.{
  times_delivered, Run-delivers_once, Run-delivers_dependencies,
}
use localized_causal_broadca.CausalBroadcast.Liveness.{
  urb_deliver-ends, urb_deliver-leaves_others, silent_without_messages,
}

abbrev clock_of : ℕ → ℕ → ℕ → VectorClock
clock_of a b c = record { num_processes = 3; values = a ∷ b ∷ c ∷ [] }

abbrev hosts : List ℕ
hosts = 1 ∷ 2 ∷ 3 ∷ []

abbrev at_start : CausalBroadcast
at_start = create 1 1 hosts (2 ∷ [])

abbrev empty_packet : Packet
empty_packet = make 1 1 0 3 (clock_of 0 0 0)

abbrev own_packet : Packet
own_packet = record empty_packet {
  messages = record { payload = b'1' ∷ [] } ∷ [];
  first_msg_seq_num = 1;
  payload_length = 2;
}

-- from process 2; it asks for nothing
abbrev second_packet : Packet
second_packet = make 2 2 0 3 (clock_of 0 0 0)

-- from process 3; it asks for the packet of process 2
abbrev third_packet : Packet
third_packet = make 3 3 0 3 (clock_of 0 1 0)

abbrev sent_state : CausalBroadcast
sent_state = record {
  process_id = 1;
  end_broadcast = true;
  can_broadcast = false;
  cur_seq_num = 1;
  pending = [];
  next = (1, 0) ∷ (2, 0) ∷ (3, 0) ∷ [];
  num_processes = 3;
  locality = 2 ∷ [];
  vc_send = clock_of 0 0 0;
  vc_recv = clock_of 0 0 0;
  num_messages = 1;
}

abbrev waiting_state : CausalBroadcast
waiting_state = record sent_state { pending = (3, (0, third_packet) ∷ []) ∷ [] }

-- The packet of process 2 is delivered, and that of process 3 waits on.
abbrev stuck_state : CausalBroadcast
stuck_state = record sent_state {
  pending = (2, []) ∷ (3, (0, third_packet) ∷ []) ∷ [];
  next = (1, 0) ∷ (2, 1) ∷ (3, 0) ∷ [];
  vc_send = clock_of 0 1 0;
  vc_recv = clock_of 0 1 0;
}

abbrev sent_events : List Event
sent_events = logs_broadcast own_packet ∷ broadcasts own_packet ∷ []

run_begin : Run at_start at_start (top 1 empty_packet) [] []
unfolding create zeros start_thread new_packet get_send_vector_clock assign
run_begin = begin refl

run_sent : Run at_start sent_state finished [] sent_events
unfolding create zeros thread_step end_round can_add_message get_length get_header_length to_string
    get_bytes_length add_message first_seq_num stoul flush message_of put
run_sent = send run_begin refl refl

run_waiting : Run at_start waiting_state finished (third_packet ∷ []) sent_events
unfolding urb_deliver add_pending deliver_ready ready at put find leq
run_waiting = receive third_packet run_sent refl refl

second_delivered :
    urb_deliver waiting_state second_packet ≡ ok (stuck_state, logs_delivered second_packet ∷ [])
unfolding urb_deliver add_pending deliver_ready ready deliver_one take_pending count_sent member
    causal_deliver at put find remove leq increase
second_delivered = refl

run_stuck :
    Run at_start stuck_state finished
      (third_packet ∷ second_packet ∷ [])
      (sent_events ++ logs_delivered second_packet ∷ [])
run_stuck = receive second_packet run_waiting refl second_delivered

third-IsOfSystem : IsOfSystem 3 third_packet
third-IsOfSystem = record { source = omega arith; clock = record { sized = refl }; size = refl }

second-IsOfSystem : IsOfSystem 3 second_packet
second-IsOfSystem = record { source = omega arith; clock = record { sized = refl }; size = refl }

Run-delivers_in_order_example :
    (0 ≡ delivered_from 2 sent_events % word_size)
    × ((j : ℕ)
        → IsProcess 3 j
        → entry second_packet.vector_clock j ≤ delivered_from j sent_events % word_size)
Run-delivers_in_order_example =
    Run-delivers_in_order 1 1 hosts (2 ∷ []) sent_events second_packet [] (omega arith)
      (omega arith) run_stuck (third-IsOfSystem, (second-IsOfSystem, tt))

Run-broadcast_clock_example :
    (own_packet.source_id ≡ 1)
    × (own_packet.packet_seq_num ≡ broadcast_count (logs_broadcast own_packet ∷ []) % word_size)
    × ((j : ℕ)
        → IsProcess 3 j
        → entry own_packet.vector_clock j ≡ (
            if j == 1
            then broadcast_count (logs_broadcast own_packet ∷ []) % word_size
            else if member j (2 ∷ [])
            then delivered_from j (logs_broadcast own_packet ∷ []) % word_size
            else 0))
Run-broadcast_clock_example =
    Run-broadcast_clock 1 1 hosts (2 ∷ []) (logs_broadcast own_packet ∷ []) own_packet
      (logs_delivered second_packet ∷ []) (omega arith) (omega arith) run_stuck
      (third-IsOfSystem, (second-IsOfSystem, tt))

urb_deliver-ends_example :
    (d : CausalBroadcast) × (more : List Event) × (urb_deliver waiting_state second_packet
      ≡ ok (d, more))
    × (ready d 2 ≡ ok none)
urb_deliver-ends_example =
    urb_deliver-ends 1 1 hosts (2 ∷ []) second_packet (omega arith) (omega arith) run_waiting
      (third-IsOfSystem, tt) second-IsOfSystem

-- The packet of process 3 still waits, although its clock asks for nothing more.
urb_deliver-leaves_others_example :
    (pending_of stuck_state 3 ≡ pending_of waiting_state 3)
    × (next_of stuck_state 3 ≡ next_of waiting_state 3)
urb_deliver-leaves_others_example =
    urb_deliver-leaves_others 1 1 hosts (2 ∷ []) second_packet 3 (omega arith) (omega arith)
      run_waiting (third-IsOfSystem, tt) second-IsOfSystem (omega arith) second_delivered

third_is_ready : ready stuck_state 3 ≡ ok (some third_packet)
unfolding ready at find leq
third_is_ready = refl

run_silent : Run (create 1 0 hosts []) (create 1 0 hosts []) finished [] []
unfolding create zeros start_thread new_packet get_send_vector_clock assign
run_silent = begin refl

silent_without_messages_example :
    (create 1 0 hosts [] ≡ create 1 0 hosts [])
    × (finished ≡ finished)
    × (◌≡◌ {A = List Packet} [] [])
    × (◌≡◌ {A = List Event} [] [])
silent_without_messages_example = silent_without_messages 1 hosts [] run_silent

abbrev second_state : CausalBroadcast
second_state = record stuck_state { pending = (2, []) ∷ [] }

abbrev third_state : CausalBroadcast
third_state = record second_state {
  pending = (2, []) ∷ (3, []) ∷ [];
  next = (1, 0) ∷ (2, 1) ∷ (3, 1) ∷ [];
  vc_recv = clock_of 0 1 1;
}

abbrev second_events : List Event
second_events = sent_events ++ logs_delivered second_packet ∷ []

run_second : Run at_start second_state finished (second_packet ∷ []) second_events
unfolding urb_deliver add_pending deliver_ready ready deliver_one take_pending count_sent member
    causal_deliver at put find remove leq increase
run_second = receive second_packet run_sent refl refl

run_third :
    Run at_start third_state finished
      (second_packet ∷ third_packet ∷ [])
      (second_events ++ logs_delivered third_packet ∷ [])
unfolding urb_deliver add_pending deliver_ready ready deliver_one take_pending count_sent member
    causal_deliver at put find remove leq increase
run_third = receive third_packet run_second refl refl

Run-delivers_once_example :
    times_delivered 2 0 (second_events ++ logs_delivered third_packet ∷ []) ≡ 1
Run-delivers_once_example =
    Run-delivers_once 1 1 hosts (2 ∷ []) (second_events ++ logs_delivered third_packet ∷ []) 2 0
      (omega arith) (omega arith) run_third (second-IsOfSystem, (third-IsOfSystem, tt))
      (omega arith)

Run-delivers_dependencies_example :
    ((s k : ℕ)
      → IsProcess 3 s
      → k < entry third_packet.vector_clock s
      → times_delivered s k second_events ≡ 1)
    × ((k : ℕ) → times_delivered 3 k second_events ≡ (if ltb k 0 then 1 else 0))
Run-delivers_dependencies_example =
    Run-delivers_dependencies 1 1 hosts (2 ∷ []) second_events third_packet [] (omega arith)
      (omega arith) run_third (second-IsOfSystem, (third-IsOfSystem, tt)) (omega arith)
