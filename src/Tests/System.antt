-- ===== src/Tests/System.antt =====
-- Three processes of a system so large that a packet has room for one message: the clock takes the
-- rest of it. Process 1 broadcasts two packets, the second after the packet of process 2, which
-- affects it; process 3 delivers all three.
mod Causality
use localized_causal_broadca.Prelude.{
  ℕ, zero, suc, ◌+◌, ◌≡◌, refl, true, false, List, [], ◌∷◌, ◌++◌, arith, ◌==◌, if◌then◌else◌,
  length, set, replicate, ok, Bool-cases, inl, inr, subst, All, word_size, ◌<◌,
}
use localized_causal_broadca.Containers.Set.{NumSet, member}
use localized_causal_broadca.Containers.Map.{at, put, find, remove}
use localized_causal_broadca.Decimal.{to_string, stoul}
use localized_causal_broadca.VectorClock.{
  VectorClock, zeros, assign, increase, leq, get_bytes_length,
}
use localized_causal_broadca.Packet.{
  Packet, make, can_add_message, add_message, get_length, get_header_length, first_seq_num,
}
use localized_causal_broadca.CausalBroadcast.{
  CausalBroadcast, Event, logs_broadcast, broadcasts, logs_delivered, create, get_send_vector_clock,
  causal_deliver, add_pending, take_pending, count_sent, deliver_one, ready, deliver_ready,
  urb_deliver,
}
use localized_causal_broadca.VectorClock.Access.{IsProcess}
use localized_causal_broadca.CausalBroadcast.Invariant.Broadcasts.{Run-silent}
use localized_causal_broadca.CausalBroadcast.Invariant.{IsOfSystem}
use localized_causal_broadca.CausalBroadcast.Dependencies.{times_delivered}
use localized_causal_broadca.CausalBroadcast.Histories.{System, Genuine, Precedes, affects}
use localized_causal_broadca.CausalBroadcast.Causality.{delivers_causally}
use localized_causal_broadca.CausalBroadcast.Steps.{
  Thread, top, refill, finished, message_of, new_packet, start_thread, flush, end_round,
  thread_step, Run, begin, send, receive,
}
use localized_causal_broadca.Prelude.{◌≤◌, ◌<◌}
use localized_causal_broadca.ProcessController.{broadcast_lines}
use localized_causal_broadca.ProcessController.Log.Broadcasts.{Run-broadcasts_all}
use localized_causal_broadca.ProcessController.Log.{messages_sent, messages_from, broadcast_output}

abbrev from : ℕ → ℕ → List ℕ
from i zero = []
from i (suc n) = i ∷ from (i + 1) n

-- as many hosts as a packet with one message has room for
abbrev pub hosts : List ℕ
hosts = from 1 2036

-- the clock that counts `a` packets of process 1 and `b` of process 2
abbrev pub clock : ℕ → ℕ → VectorClock
clock a b = record { num_processes = 2036; values = a ∷ b ∷ replicate 2034 0 }

-- packet `seq_num` of process `id`, with one message
abbrev pub packet : ℕ → ℕ → VectorClock → ℕ → Packet
packet id seq_num vc i = record (make id id seq_num 2036 vc) {
  messages = message_of i ∷ [];
  first_msg_seq_num = i;
  payload_length = 2;
}

abbrev pub start_of_2 : CausalBroadcast
start_of_2 = create 2 1 hosts []

run_begin : Run start_of_2 start_of_2 (top 1 (make 2 2 0 2036 (clock 0 0))) [] []
unfolding create zeros start_thread new_packet get_send_vector_clock assign
run_begin = begin refl

abbrev pub sent : CausalBroadcast → CausalBroadcast
sent c = record c { end_broadcast = true; can_broadcast = false; cur_seq_num = c.cur_seq_num + 1 }

abbrev pub from_2 : Packet
from_2 = packet 2 0 (clock 0 0) 1

pub run_of_2 :
    Run start_of_2 (sent start_of_2) finished [] (logs_broadcast from_2 ∷ broadcasts from_2 ∷ [])
unfolding create zeros thread_step end_round can_add_message get_length get_header_length to_string
    get_bytes_length add_message first_seq_num stoul flush message_of
run_of_2 = send run_begin refl refl

abbrev start_of_1 : CausalBroadcast
start_of_1 = create 1 2 hosts (2 ∷ [])

abbrev pub first_of_1 : Packet
first_of_1 = packet 1 0 (clock 0 0) 1

abbrev pub second_of_1 : Packet
second_of_1 = packet 1 1 (clock 1 1) 2

-- process 1 behind its first packet, the delivery of the packet of process 2, that of its own, and
-- its second packet
abbrev waiting_1 : CausalBroadcast
waiting_1 = record start_of_1 { can_broadcast = false; cur_seq_num = 1 }

abbrev affected_1 : CausalBroadcast
affected_1 = record waiting_1 {
  pending = (2, []) ∷ [];
  next = put 2 1 start_of_1.next;
  vc_send = clock 0 1;
  vc_recv = clock 0 1;
}

abbrev free_1 : CausalBroadcast
free_1 = record affected_1 {
  can_broadcast = true;
  pending = (1, []) ∷ (2, []) ∷ [];
  next = put 1 1 (put 2 1 start_of_1.next);
  vc_recv = clock 1 1;
}

abbrev pub done_1 : CausalBroadcast
done_1 = sent free_1

abbrev pub history_1 : List Event
history_1 =
    logs_broadcast first_of_1
    ∷ broadcasts first_of_1
    ∷ logs_delivered from_2
    ∷ logs_delivered first_of_1
    ∷ logs_broadcast second_of_1
    ∷ broadcasts second_of_1
    ∷ []

run_begin_1 : Run start_of_1 start_of_1 (top 1 (make 1 1 0 2036 (clock 0 0))) [] []
unfolding create zeros start_thread new_packet get_send_vector_clock assign
run_begin_1 = begin refl

run_filled_1 : Run start_of_1 start_of_1 (top 2 first_of_1) [] []
unfolding create zeros thread_step end_round can_add_message get_length get_header_length to_string
    get_bytes_length add_message first_seq_num stoul flush message_of
run_filled_1 = send run_begin_1 refl refl

run_sent_1 :
    Run start_of_1 waiting_1 (refill 2) [] (logs_broadcast first_of_1 ∷ broadcasts first_of_1 ∷ [])
unfolding create zeros thread_step end_round can_add_message get_length get_header_length to_string
    get_bytes_length add_message first_seq_num stoul flush message_of
run_sent_1 = send run_filled_1 refl refl

run_free_1 : Run start_of_1 free_1 (refill 2) (from_2 ∷ first_of_1 ∷ []) (
    logs_broadcast first_of_1
    ∷ broadcasts first_of_1
    ∷ logs_delivered from_2
    ∷ logs_delivered first_of_1
    ∷ [])
unfolding create zeros urb_deliver add_pending deliver_ready ready deliver_one take_pending
    count_sent member causal_deliver at put find remove leq increase
run_free_1 =
    receive {d = affected_1} {e = free_1} {more = logs_delivered first_of_1 ∷ []} first_of_1
      (receive {d = waiting_1} {e = affected_1} {more = logs_delivered from_2 ∷ []} from_2
        run_sent_1 refl refl)
      refl refl

pub run_of_1 : Run start_of_1 done_1 finished (from_2 ∷ first_of_1 ∷ []) history_1
unfolding create zeros thread_step end_round can_add_message get_length get_header_length to_string
    get_bytes_length add_message first_seq_num stoul flush message_of new_packet
    get_send_vector_clock assign
run_of_1 =
    send {e = done_1} {u = finished}
      {more = logs_broadcast second_of_1 ∷ broadcasts second_of_1 ∷ []} run_free_1 refl refl

abbrev pub history_2 : List Event
history_2 = logs_broadcast from_2 ∷ broadcasts from_2 ∷ []

abbrev start_of_3 : CausalBroadcast
start_of_3 = create 3 1 hosts []

abbrev from_3 : Packet
from_3 = packet 3 0 (clock 0 0) 1

-- process 3 behind the delivery of one, two and three packets
abbrev one_3 : CausalBroadcast
one_3 = record (sent start_of_3) {
  pending = (2, []) ∷ [];
  next = put 2 1 start_of_3.next;
  vc_recv = clock 0 1;
}

abbrev two_3 : CausalBroadcast
two_3 = record one_3 {
  pending = (1, []) ∷ (2, []) ∷ [];
  next = put 1 1 one_3.next;
  vc_recv = clock 1 1;
}

abbrev pub three_3 : CausalBroadcast
three_3 = record two_3 { next = put 1 2 two_3.next; vc_recv = clock 2 1 }

abbrev pub before_3 : List Event
before_3 =
    logs_broadcast from_3
    ∷ broadcasts from_3
    ∷ logs_delivered from_2
    ∷ logs_delivered first_of_1
    ∷ []

abbrev pub history_3 : List Event
history_3 = before_3 ++ logs_delivered second_of_1 ∷ []

run_begin_3 : Run start_of_3 start_of_3 (top 1 (make 3 3 0 2036 (clock 0 0))) [] []
unfolding create zeros start_thread new_packet get_send_vector_clock assign
run_begin_3 = begin refl

run_sent_3 :
    Run start_of_3 (sent start_of_3) finished [] (logs_broadcast from_3 ∷ broadcasts from_3 ∷ [])
unfolding create zeros thread_step end_round can_add_message get_length get_header_length to_string
    get_bytes_length add_message first_seq_num stoul flush message_of
run_sent_3 = send run_begin_3 refl refl

pub run_of_3 : Run start_of_3 three_3 finished (from_2 ∷ first_of_1 ∷ second_of_1 ∷ []) history_3
unfolding create zeros urb_deliver add_pending deliver_ready ready deliver_one take_pending
    count_sent member causal_deliver at put find remove leq increase
run_of_3 =
    receive {d = two_3} {e = three_3} {more = logs_delivered second_of_1 ∷ []} second_of_1
      (receive {d = one_3} {e = two_3} {more = logs_delivered first_of_1 ∷ []} first_of_1
        (receive {d = sent start_of_3} {e = one_3} {more = logs_delivered from_2 ∷ []} from_2
          run_sent_3 refl refl)
        refl refl)
      refl refl

Run-broadcasts_all_example :
    (j : ℕ) × (j ≤ 2)
    × (finished ≡ finished → j ≡ 2)
    × (messages_sent history_1 ≡ messages_from 1 j)
    × (broadcast_output history_1 ≡ broadcast_lines 1 j)
Run-broadcasts_all_example = Run-broadcasts_all 2 (omega arith) 1 hosts (2 ∷ []) run_of_1
