-- ===== src/Packet/Length.antt =====
-- The length that `getLength` computes is the number of bytes that `toBytes` writes.
use localized_causal_broadca.Prelude.{
  ℕ, ◌+◌, ◌%◌, ◌^◌, ◌≤◌, ◌<◌, ◌≡◌, refl, true, false, List, [], ◌∷◌, ◌++◌, arith, length,
  length-append, word_size, ok,
}
use localized_causal_broadca.Decimal.RoundTrip.{length-to_string, length-to_string_le}
use localized_causal_broadca.CString.{c_string}
use localized_causal_broadca.VectorClock.{get_bytes_length}
use localized_causal_broadca.VectorClock
use localized_causal_broadca.VectorClock.Codec.{length-to_bytes}
use localized_causal_broadca.Packet.{
  Message, message_length, message_bytes, Packet, get_header_length, get_length, max_length,
  add_message, can_add_message, change_sender_id, first_seq_num,
}
use localized_causal_broadca.Packet.Codec.{messages_bytes, to_bytes}

-- the payload bytes of some messages, with their NULLs
abbrev pub total : List Message → ℕ
total [] = 0
total (m ∷ ms) = message_length m + total ms

pub total-append : (ms ns : List Message) → total (ms ++ ns) ≡ total ms + total ns
total-append [] ns = omega arith
total-append (m ∷ ms) ns = omega (arith, total-append ms ns)

length-messages_bytes : (ms : List Message) → length (messages_bytes ms) ≡ total ms
unfolding messages_bytes
length-messages_bytes [] = refl
length-messages_bytes (m ∷ ms) = omega (
  arith,
  length-append (message_bytes m) (messages_bytes ms),
  length-append m.payload (0 ∷ []),
  length-messages_bytes ms,
)

length-field : (s rest : List ℕ) → length (c_string s ++ rest) ≡ length s + 1 + length rest
length-field s rest = omega (arith, length-append (c_string s) rest, length-append s (0 ∷ []))

-- What the packet counts is what its messages take.
pub record IsCounted (p : Packet) : Type 0 where
  pub counted : p.payload_length ≡ total p.messages

-- the bytes of a packet, as the sum that `getLength` makes in a size_t
abbrev whole : Packet → ℕ
whole p = get_header_length p + get_bytes_length p.vector_clock + p.payload_length

length-whole : (p : Packet) → IsCounted p → length (to_bytes p) ≡ whole p
unfolding to_bytes get_header_length
length-whole p c = simp length-field (
    omega (
      arith,
      c.counted,
      length-append (VectorClock.to_bytes p.vector_clock) (messages_bytes p.messages),
      length-to_bytes p.vector_clock,
      length-messages_bytes p.messages,
    ))

-- For a packet that counts its payload, `getLength` is the number of bytes that `toBytes` writes,
-- as a size_t.
pub get_length-to_bytes :
    (p : Packet) → IsCounted p → get_length p ≡ length (to_bytes p) % word_size
unfolding get_length
get_length-to_bytes p c = rw (length-whole p c)

-- the packet with one message more, in the name of a process
abbrev grown : Packet → Message → ℕ → Packet
grown p m id = record p {
  messages = p.messages ++ m ∷ [];
  process_id = id;
  payload_length = (p.payload_length + message_length m) % word_size;
}

module _ (p : Packet) (m : Message) (c : IsCounted p)
    (small : length (to_bytes p) + 5 + message_length m < word_size)
    (room : can_add_message p m 5 ≡ true) where
  room_left : (whole p + 5 + message_length m ≤ max_length) × (p.is_ack ≡ false)
  unfolding can_add_message get_length
  room_left = ground (arith, length-whole p c)

  payload_le : p.payload_length + message_length m < 10 ^ 4
  payload_le = omega (arith, room_left.0)

  grown-IsCounted : (id : ℕ) → IsCounted (grown p m id)
  grown-IsCounted id = record {
    counted = omega (arith, payload_le, c.counted, total-append p.messages (m ∷ []));
  }

  -- The count of the payload grows by three digits at most, and the sender's id by two.
  header_growth : (id : ℕ) → id < 1000 → get_header_length (grown p m id) ≤ get_header_length p + 5
  unfolding get_header_length
  header_growth id h = omega (
    arith,
    length-to_string p.payload_length,
    length-to_string p.process_id,
    length-to_string_le 2 id h,
    length-to_string_le 3 ((p.payload_length + message_length m) % word_size)
        (omega (arith, payload_le)),
  )

  grown_le : (id : ℕ) → id < 1000 → whole (grown p m id) ≤ max_length
  grown_le id h = omega (arith, room_left.0, payload_le, header_growth id h)

  accepted : can_add_message p m 0 ≡ true
  unfolding can_add_message get_length
  accepted = ground (arith, room_left)

  kept_first :
      (ms : List Message) (n : Message) (ns : List Message)
      → ms ≡ n ∷ ns
      → first_seq_num p ms m ≡ ok p.first_msg_seq_num
  unfolding first_seq_num
  kept_first ms n ns e = rw (e, first_seq_num)

  added :
      (n : Message) (ns : List Message)
      → p.messages ≡ n ∷ ns
      → add_message p m ≡ ok (grown p m p.process_id)
  unfolding add_message
  added n ns e = rw (kept_first p.messages n ns e) (rw accepted)

  changed : (id : ℕ) → id < 1000 → change_sender_id (grown p m p.process_id) id ≡ ok (grown p m id)
  unfolding change_sender_id get_length
  changed id h = ground (arith, grown_le id h)

-- A packet that takes a message with 5 bytes to spare, as `broadcast` does, can be re-broadcast by
-- any process whose id has at most three digits: `addMessage` accepts the message,
-- `changeSenderId` throws nothing and changes the id alone, and the bytes of the outcome fit in the
-- send buffer. The packet counts its payload and has a message already, and the sizes involved do
-- not wrap around.
pub margin_suffices :
    (p : Packet) (m n : Message) (ns : List Message) (new_id : ℕ)
    → IsCounted p
    → p.messages ≡ n ∷ ns
    → length (to_bytes p) + 5 + message_length m < word_size
    → can_add_message p m 5 ≡ true
    → new_id < 1000
    → (q : Packet) × (add_message p m ≡ ok q)
      × (change_sender_id q new_id ≡ ok (record q { process_id = new_id }))
      × (length (to_bytes (record q { process_id = new_id })) ≤ max_length)
margin_suffices p m n ns new_id c e small room short = (
  grown p m p.process_id,
  added p m c small room n ns e,
  changed p m c small room new_id short,
  rw (length-whole (grown p m new_id) (grown-IsCounted p m c small room new_id))
      (grown_le p m c small room new_id short),
)
