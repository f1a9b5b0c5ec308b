-- ===== src/Tests/Codecs.antt =====
-- Vector clocks and packets, and their bytes, on small inputs.
use localized_causal_broadca.Prelude.{
  ◌≤◌, ◌≡◌, ◌↔◌, refl, Bool, true, [], ◌∷◌, arith, ok, err, overrun, ltb, if◌then◌else◌, length,
}
use localized_causal_broadca.Decimal.{to_string, stoul}
use localized_causal_broadca.Decimal.RoundTrip.{stoul-to_string}
use localized_causal_broadca.VectorClock.{
  VectorClock, IsValid, assign, increase, get_value, leq, less, get_bytes_length,
}
use localized_causal_broadca.VectorClock
use localized_causal_broadca.VectorClock.Access.{entry, get_value-off_by_one}
use localized_causal_broadca.VectorClock.Order.{Below, leq-iff-Below}
use localized_causal_broadca.Packet.{
  Message, Packet, make, create_ack, add_message, can_add_message, change_sender_id, get_length,
  get_header_length, max_length,
}
use localized_causal_broadca.Packet.Codec.{to_bytes}
use localized_causal_broadca.Packet.Length.{IsCounted, margin_suffices}
use localized_causal_broadca.Prelude.{replicate}
use localized_causal_broadca.UdpSocket.{UdpSocket}

abbrev clock : VectorClock
clock = record { num_processes = 2; values = 3 ∷ 10 ∷ [] }

abbrev later : VectorClock
later = record { num_processes = 2; values = 4 ∷ 10 ∷ [] }

clock-IsValid : IsValid clock
clock-IsValid = record { sized = refl }

later-IsValid : IsValid later
later-IsValid = record { sized = refl }

leq-iff-Below_example : (b : Bool) × (leq clock later ≡ ok b) × ((b ≡ true) ↔ Below clock later)
leq-iff-Below_example = leq-iff-Below clock later clock-IsValid later-IsValid refl

get_value-off_by_one_example :
    get_value clock 2 ≡ (if ltb 2 2 then ok (entry clock 3) else err overrun)
get_value-off_by_one_example = get_value-off_by_one clock 2 clock-IsValid (omega arith)

stoul-to_string_example : stoul (to_string 4096) ≡ ok 4096
stoul-to_string_example = stoul-to_string 4096 (omega arith)

printed : to_string 1024 ≡ b'1' ∷ b'0' ∷ b'2' ∷ b'4' ∷ []
unfolding to_string
printed = refl

abbrev first_message : Message
first_message = record { payload = b'1' ∷ [] }

abbrev second_message : Message
second_message = record { payload = b'2' ∷ [] }

abbrev packet : Packet
packet = record (make 1 1 0 2 clock) {
  messages = first_message ∷ second_message ∷ [];
  first_msg_seq_num = 1;
  payload_length = 4;
}

-- a socket that has sent and received before
abbrev socket : UdpSocket
socket = record { buffer_received = replicate 4096 b'?'; buffer_send = replicate 4096 b'?' }

abbrev ack : Packet
ack = create_ack 2 1 0 2 clock

packet-IsCounted : IsCounted packet
packet-IsCounted = record { counted = refl }

packet_size : length (to_bytes packet) ≡ 23
unfolding to_bytes to_string VectorClock.to_bytes
packet_size = refl

packet_has_room : can_add_message packet second_message 5 ≡ true
unfolding can_add_message get_length get_header_length to_string get_bytes_length
packet_has_room = refl

margin_suffices_example :
    (q : Packet) × (add_message packet second_message ≡ ok q)
    × (change_sender_id q 128 ≡ ok (record q { process_id = 128 }))
    × (length (to_bytes (record q { process_id = 128 })) ≤ max_length)
margin_suffices_example =
    margin_suffices packet second_message first_message (second_message ∷ []) 128 packet-IsCounted
      refl (omega (arith, packet_size)) packet_has_room (omega arith)
