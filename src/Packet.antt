-- ===== src/Packet.antt =====
-- template_cpp/src/include/packet.hpp: messages and packets. Packet/Codec.antt has
-- template_cpp/src/src/packet.cpp.
pub mod Codec
pub mod Length
use localized_causal_broadca.Prelude.{
  ℕ, suc, ◌+◌, ◌%◌, ◌≤◌, ◌<◌, Bool, true, false, List, [], ◌∷◌, ◌++◌, leb, if◌then◌else◌, word_size,
  length, Result, ok, err, length_error, ◌>>=◌, ◌≡◌, refl, Option, none, some, get_elem?,
}
use localized_causal_broadca.Decimal.{Bytes, to_string, stoul}
use localized_causal_broadca.CString.{c_string}
use localized_causal_broadca.VectorClock.{VectorClock, get_bytes_length}

abbrev pub max_length : ℕ
max_length = 4096

-- A payload holds no NULL byte: those that `broadcast` makes are printed numbers.
pub record Message : Type 0 where
  pub payload : Bytes

-- the length of the payload with its NULL
abbrev pub message_length : Message → ℕ
message_length m = length m.payload + 1

abbrev pub message_bytes : Message → Bytes
message_bytes m = c_string m.payload

pub record Packet : Type 0 where
  pub messages : List Message
  pub process_id : ℕ
  pub source_id : ℕ
  pub packet_seq_num : ℕ
  pub first_msg_seq_num : ℕ
  pub payload_length : ℕ
  pub num_processes : ℕ
  pub vector_clock : VectorClock
  pub is_ack : Bool

-- the constructor with arguments
abbrev pub make : ℕ → ℕ → ℕ → ℕ → VectorClock → Packet
make process_id source_id packet_seq_num num_processes vector_clock = record {
  messages = [];
  process_id = process_id;
  source_id = source_id;
  packet_seq_num = packet_seq_num;
  first_msg_seq_num = 0;
  payload_length = 0;
  num_processes = num_processes;
  vector_clock = vector_clock;
  is_ack = false;
}

-- static_cast<unsigned int>(is_ack)
abbrev pub ack_flag : Bool → ℕ
ack_flag true = 1
ack_flag false = 0

unfoldable pub get_header_length : Packet → ℕ
get_header_length p =
    length (to_string p.process_id)
    + length (to_string p.packet_seq_num)
    + length (to_string p.source_id)
    + length (to_string p.first_msg_seq_num)
    + length (to_string (ack_flag p.is_ack))
    + length (to_string p.payload_length)
    + length (to_string p.num_processes)
    + 7

unfoldable pub get_length : Packet → ℕ
get_length p =
    (get_header_length p + get_bytes_length p.vector_clock + p.payload_length) % word_size

unfoldable pub change_sender_id : Packet → ℕ → Result Packet
change_sender_id p new_id =
    let q = record p { process_id = new_id } in
    if leb (get_length q) max_length then ok q else err length_error

-- The overload with a margin; the one without is its case of no margin.
unfoldable pub can_add_message : Packet → Message → ℕ → Bool
can_add_message p m margin_bytes =
    if p.is_ack
    then false
    else leb ((get_length p + margin_bytes + message_length m) % word_size) max_length

-- std::stoul of the first message's payload; the packet keeps its number where it has messages.
unfoldable pub first_seq_num : Packet → List Message → Message → Result ℕ
first_seq_num p [] m = stoul m.payload
first_seq_num p (n ∷ ns) m = ok p.first_msg_seq_num

unfoldable pub add_message : Packet → Message → Result Packet
unfolding first_seq_num
add_message p m = do
  n ← first_seq_num p p.messages m
  if can_add_message (record p { first_msg_seq_num = n }) m 0
      then ok (record p {
        messages = p.messages ++ m ∷ [];
        first_msg_seq_num = n;
        payload_length = (p.payload_length + message_length m) % word_size;
      })
      else err length_error

abbrev pub get_num_messages : Packet → ℕ
get_num_messages p = length p.messages

-- `none` is an access behind the vector.
abbrev pub get_message : Packet → ℕ → Option Message
get_message p i = get_elem? p.messages i

abbrev pub create_ack : ℕ → ℕ → ℕ → ℕ → VectorClock → Packet
create_ack process_id source_id packet_seq_num num_processes vector_clock =
    record (make process_id source_id packet_seq_num num_processes vector_clock) {
      is_ack = true;
      payload_length = 0;
    }
