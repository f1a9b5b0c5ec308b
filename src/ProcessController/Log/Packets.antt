-- ===== src/ProcessController/Log/Packets.antt =====
-- Which messages a packet holds while the thread that broadcasts fills it, and its log.
use localized_causal_broadca.Prelude.{
  ℕ, zero, suc, ◌+◌, ◌<◌, ◌≡◌, ◌∙◌, ap, sym, [], ◌∷◌, ◌++◌, arith, word_size, length, inl, inr, ok,
  Result-cases, ap₂,
}
use localized_causal_broadca.Decimal.RoundTrip.{stoul-to_string}
use localized_causal_broadca.Packet.{Packet, Message, add_message, first_seq_num}
use localized_causal_broadca.Packet.Codec.RoundTrip.{add_message-facts}
use localized_causal_broadca.CausalBroadcast.Steps.{message_of}
use localized_causal_broadca.ProcessController.{broadcast_lines, on_packet_broadcast}
use localized_causal_broadca.ProcessController.Log.{
  messages_from, messages_from-append, length-messages_from,
}

-- A packet that holds `k` messages, the first of them number `j + 1`.
pub record Holds (j k : ℕ) (p : Packet) : Type 0 where
  pub held : p.messages ≡ messages_from (j + 1) k
  pub first : 0 < k → p.first_msg_seq_num ≡ j + 1

pub Holds-output :
    (j k : ℕ) (p : Packet)
    → Holds j k p
    → j + k + 1 < word_size
    → on_packet_broadcast p ≡ broadcast_lines (j + 1) k
unfolding on_packet_broadcast broadcast_lines
Holds-output j zero p h small =
    let count = ap length h.held in
    ap (broadcast_lines p.first_msg_seq_num) {y = 0} (omega (arith, count))
Holds-output j (suc k) p h small =
    let count = ap length h.held ∙ length-messages_from (j + 1) (suc k) in
    let numbered = h.first (omega arith) in
    ap₂ broadcast_lines {v = suc k} numbered (omega (arith, count, numbered))

add_message-first :
    (p q : Packet) (m : Message)
    → add_message p m ≡ ok q
    → first_seq_num p p.messages m ≡ ok q.first_msg_seq_num
unfolding add_message
add_message-first p q m h = elim (Result-cases (first_seq_num p p.messages m)) [
  | inl (n, read) ↦ ground arith
  | inr (e, thrown) ↦ ground arith
]

-- The first message gives the packet its number.
first_seq_num-messages :
    (j k : ℕ) (p : Packet)
    → (0 < k → p.first_msg_seq_num ≡ j + 1)
    → j + k + 1 < word_size
    → first_seq_num p (messages_from (j + 1) k) (message_of (j + k + 1)) ≡ ok (j + 1)
unfolding first_seq_num message_of
first_seq_num-messages j zero p h small = stoul-to_string (j + 0 + 1) small ∙ ap ok (omega arith)
first_seq_num-messages j (suc k) p h small = ap ok (h (omega arith))

-- The next message is number `j + k + 1`.
pub add_message-Holds :
    (j k : ℕ) (p q : Packet)
    → Holds j k p
    → j + k + 1 < word_size
    → add_message p (message_of (j + k + 1)) ≡ ok q
    → Holds j (k + 1) q
add_message-Holds j k p q h small added = record {
  held =
      (add_message-facts p q (message_of (j + k + 1)) added).1
      ∙ ap (λ ms. ms ++ message_of (j + k + 1) ∷ []) h.held
      ∙ ap (λ i. messages_from (j + 1) k ++ message_of i ∷ []) (omega arith)
      ∙ sym (messages_from-append (j + 1) k 1);
  first = λ _. cc (
    add_message-first p q (message_of (j + k + 1)) added,
    first_seq_num-messages j k p h.first small,
    h.held,
  );
}
