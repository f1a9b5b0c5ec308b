-- ===== src/ProcessController.antt =====
-- template_cpp/src/include/process_controller.hpp and template_cpp/src/src/process_controller.cpp:
-- what the layers write to the output file. A call is the bytes that it appends.
pub mod Log
pub mod Config
pub mod Startup
use localized_causal_broadca.Prelude.{ℕ, zero, suc, ◌+◌, ◌-◌, ◌%◌, List, [], ◌∷◌, ◌++◌, word_size}
use localized_causal_broadca.Decimal.{Bytes, to_string}
use localized_causal_broadca.Packet.{Packet, get_num_messages}

-- The rounds that `for (i = first; i < first + n; i++)` makes: none where `first + n` wraps around.
abbrev pub rounds : ℕ → ℕ → ℕ
rounds first n = (first + n) % word_size - first

-- "d " + std::to_string(source_id) + " " + std::to_string(i) + "\n"
abbrev pub delivered_line : ℕ → ℕ → Bytes
delivered_line source_id i =
    (b'd' ∷ b' ' ∷ []) ++ (to_string source_id ++ (b' ' ∷ [] ++ (to_string i ++ b'\n' ∷ [])))

unfoldable pub delivered_lines : ℕ → ℕ → ℕ → Bytes
delivered_lines source_id i zero = []
delivered_lines source_id i (suc n) =
    delivered_line source_id i ++ delivered_lines source_id (i + 1) n

-- "b " + std::to_string(i) + "\n"
abbrev pub broadcast_line : ℕ → Bytes
broadcast_line i = (b'b' ∷ b' ' ∷ []) ++ (to_string i ++ b'\n' ∷ [])

unfoldable pub broadcast_lines : ℕ → ℕ → Bytes
broadcast_lines i zero = []
broadcast_lines i (suc n) = broadcast_line i ++ broadcast_lines (i + 1) n

unfoldable pub on_packet_delivered : Packet → Bytes
on_packet_delivered p =
    delivered_lines p.source_id p.first_msg_seq_num
      (rounds p.first_msg_seq_num (get_num_messages p))

unfoldable pub on_packet_broadcast : Packet → Bytes
on_packet_broadcast p =
    broadcast_lines p.first_msg_seq_num (rounds p.first_msg_seq_num (get_num_messages p))
