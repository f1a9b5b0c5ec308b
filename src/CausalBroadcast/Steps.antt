-- ===== src/CausalBroadcast/Steps.antt =====
-- The thread that broadcasts (CausalBroadcast::broadcast), and a process as its steps interleaved
-- with the deliveries of the layer below.
use localized_causal_broadca.Prelude.{
  ℕ, ◌+◌, ◌%◌, ◌≡◌, Bool, true, false, List, [], ◌∷◌, ◌++◌, ◌==◌, leb, if◌then◌else◌, word_size,
  Result, ok, ◌>>=◌,
}
use localized_causal_broadca.Decimal.{to_string}
use localized_causal_broadca.Packet.{Message, Packet, make, can_add_message, add_message}
use localized_causal_broadca.CausalBroadcast.{
  CausalBroadcast, Event, logs_broadcast, broadcasts, get_send_vector_clock, urb_deliver,
}

-- Where the thread waits for `can_broadcast`, with its variables `i` and `curr_packet`: at the top
-- of the loop, or behind the broadcast of a full packet, where `curr_packet` is made anew.
pub data Thread : Type 0 where
  top : ℕ → Packet → Thread
  refill : ℕ → Thread
  finished : Thread

-- Message(std::to_string(i))
unfoldable pub message_of : ℕ → Message
message_of i = record { payload = to_string i }

-- a packet of this process, with the clock of now
unfoldable pub new_packet : CausalBroadcast → Result Packet
new_packet c = do
  clock ← get_send_vector_clock c
  ok (make c.process_id c.process_id c.cur_seq_num c.num_processes clock)

-- The thread up to its first wait. With no message the loop is not entered.
unfoldable pub start_thread : CausalBroadcast → Result Thread
start_thread c = do p ← new_packet c; ok (if leb 1 c.num_messages then top 1 p else finished)

-- The packet goes to the log and to the layer below; `last` is set with the last message.
unfoldable pub flush : CausalBroadcast → Bool → Packet → CausalBroadcast × List Event
flush c last p = (
  record c {
    can_broadcast = false;
    end_broadcast = if last then true else c.end_broadcast;
    cur_seq_num = (c.cur_seq_num + 1) % word_size;
  },
  logs_broadcast p ∷ broadcasts p ∷ [],
)

-- the end of a round, from `addMessage` on
unfoldable pub end_round :
    CausalBroadcast → ℕ → Packet → Result (CausalBroadcast × Thread × List Event)
end_round c i curr = do
  p ← add_message curr (message_of i)
  let (d, events) = flush c true p
  ok (if i == c.num_messages then (d, finished, events) else (c, top (i + 1) p, []))

-- from one wait to the next
unfoldable pub thread_step :
    CausalBroadcast → Thread → Result (CausalBroadcast × Thread × List Event)
thread_step c finished = ok (c, finished, [])
thread_step c (refill i) = new_packet c >>= end_round c i
thread_step c (top i curr) =
    let (d, events) = flush c false curr in
    if can_add_message curr (message_of i) 5 then end_round c i curr else ok (d, refill i, events)

-- A process from a state on: its state, the place of its thread, the packets that the layer below
-- delivered, and the events so far. `URBDeliver` runs where `can_broadcast` is false, the thread
-- where it is true.
pub data Run (c : CausalBroadcast)
    : CausalBroadcast → Thread → List Packet → List Event → Type 0 where
  begin : {t : Thread} → start_thread c ≡ ok t → Run c c t [] []
  send :
      {d e : CausalBroadcast} {t u : Thread} {ps : List Packet} {events more : List Event}
      → Run c d t ps events
      → d.can_broadcast ≡ true
      → thread_step d t ≡ ok (e, u, more)
      → Run c e u ps (events ++ more)
  receive :
      {d e : CausalBroadcast} {t : Thread} {ps : List Packet} {events more : List Event}
      (p : Packet)
      → Run c d t ps events
      → d.can_broadcast ≡ false
      → urb_deliver d p ≡ ok (e, more)
      → Run c e t (ps ++ p ∷ []) (events ++ more)
