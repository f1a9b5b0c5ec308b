-- ===== src/Packet/Codec.antt =====
-- template_cpp/src/src/packet.cpp: a packet as bytes, and back.
pub mod RoundTrip
use localized_causal_broadca.Prelude.{
  ℕ, zero, suc, ◌+◌, ◌<◌, Bool, true, false, List, [], ◌∷◌, ◌++◌, ltb, leb, ◌==◌, if◌then◌else◌,
  length, Result, ok, err, assert_failed, overrun, require, ◌>>=◌, ◌>>◌, ◌≡◌, refl,
}
use localized_causal_broadca.Decimal.{Bytes, to_string, stoul, stoi_bool}
use localized_causal_broadca.CString.{c_string, copy_string}
use localized_causal_broadca.VectorClock
use localized_causal_broadca.VectorClock.{get_bytes_length}
use localized_causal_broadca.Packet.{
  Message, message_bytes, message_length, Packet, make, ack_flag, add_message, create_ack,
}

unfoldable pub messages_bytes : List Message → Bytes
messages_bytes [] = []
messages_bytes (m ∷ ms) = message_bytes m ++ messages_bytes ms

-- what follows the header
abbrev pub body : Packet → Bytes
body p = VectorClock.to_bytes p.vector_clock ++ messages_bytes p.messages

-- The assertion that the flag is one byte long is true of "0" and "1".
unfoldable pub to_bytes : Packet → Bytes
unfolding messages_bytes
to_bytes p =
    c_string (to_string p.source_id)
    ++ (c_string (to_string p.process_id)
        ++ (c_string (to_string p.packet_seq_num)
            ++ (c_string (to_string p.first_msg_seq_num)
                ++ (c_string (to_string (ack_flag p.is_ack))
                    ++ (c_string (to_string p.payload_length)
                        ++ (c_string (to_string p.num_processes) ++ body p))))))

-- One field of the header, held to its assertion: `i > 1` characters with the NULL.
field_string : Bytes → Result (Bytes × Bytes)
field_string data' = do r ← copy_string data'; require (ltb 1 (length r.0 + 1)) assert_failed; ok r

-- `i == 2`
flag_string : Bytes → Result (Bytes × Bytes)
flag_string data' = do r ← copy_string data'; require (length r.0 + 1 == 2) assert_failed; ok r

-- pointer arithmetic; a cursor behind the buffer is left there, and faults when it is read
skip : ℕ → Bytes → Bytes
skip zero data' = data'
skip (suc n) [] = []
skip (suc n) (c ∷ data') = skip n data'

-- `while (p.payload_length < payload_length)`. A round adds a byte at least, so `payload_length`
-- rounds are enough. A message that does not fit is reported, and then `add_message` throws.
read_messages : ℕ → ℕ → Packet → Bytes → Result Packet
read_messages zero target p data' = if ltb p.payload_length target then err overrun else ok p
read_messages (suc fuel) target p data' =
    let round =
      (copy_string data' >>= λ r.
      add_message p (record { payload = r.0 }) >>= λ q. read_messages fuel target q r.1) in
    if ltb p.payload_length target then round else ok p

-- a packet with its messages, or an acknowledgement, which has none
finish : Bool → Bytes → ℕ → ℕ → ℕ → ℕ → VectorClock.VectorClock → Bytes → Result Packet
unfolding read_messages
finish true _ process_id source_id packet_seq_num num_processes clock data' =
    ok (create_ack process_id source_id packet_seq_num num_processes clock)
finish false payload_length_str process_id source_id packet_seq_num num_processes clock data' = do
  payload_length ← stoul payload_length_str
  read_messages payload_length payload_length
      (make process_id source_id packet_seq_num num_processes clock) data'

unfoldable pub decode_data : Bytes → Result Packet
unfolding field_string flag_string skip finish
decode_data data' = do
  source_id_str ← field_string data'
  process_id_str ← field_string source_id_str.1
  packet_seq_num_str ← field_string process_id_str.1
  first_msg_seq_num_str ← field_string packet_seq_num_str.1
  is_ack_str ← flag_string first_msg_seq_num_str.1
  payload_length_str ← field_string is_ack_str.1
  num_processes_str ← field_string payload_length_str.1
  source_id ← stoul source_id_str.0
  process_id ← stoul process_id_str.0
  packet_seq_num ← stoul packet_seq_num_str.0
  first_msg_seq_num ← stoul first_msg_seq_num_str.0
  is_ack ← stoi_bool is_ack_str.0
  num_processes ← stoul num_processes_str.0
  clock ← VectorClock.decode_data num_processes_str.1 num_processes
  finish is_ack payload_length_str.0 process_id source_id packet_seq_num num_processes clock
      (skip (get_bytes_length clock) num_processes_str.1)
