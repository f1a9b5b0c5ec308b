-- ===== src/ProcessController/Log.antt =====
-- What the history of a process writes to its output file, and the messages that it hands on.
pub mod Packets
pub mod Broadcasts
use localized_causal_broadca.Prelude.{
  ℕ, zero, suc, ◌+◌, ◌-◌, ◌%◌, ◌≤◌, ◌<◌, ◌≡◌, refl, ◌∙◌, ap, sym, subst, Bool, true, false, List,
  [], ◌∷◌, ◌++◌, arith, ◌==◌, if◌then◌else◌, word_size, length, length-append, append-nil,
  append_assoc, Bool-cases, inl, inr, Result, ok, err, ◌>>=◌, Option, none, some, >>=-eq-ok,
  Result-cases, leb, ap₂, Ensures, Ensures-bind, Ensures-ok,
}
use localized_causal_broadca.Decimal.{Bytes, to_string, stoul}
use localized_causal_broadca.Decimal.RoundTrip.{stoul-to_string}
use localized_causal_broadca.Containers.Set.{NumSet}
use localized_causal_broadca.VectorClock.{increase}
use localized_causal_broadca.Packet.{
  Packet, Message, make, add_message, can_add_message, first_seq_num,
}
use localized_causal_broadca.Packet.Codec.RoundTrip.{add_message-facts}
use localized_causal_broadca.CausalBroadcast.{
  CausalBroadcast, Event, logs_broadcast, broadcasts, logs_delivered, create, urb_deliver, ready,
  pending_of, get_send_vector_clock, deliver_one, deliver_ready, take_pending, causal_deliver,
  count_sent, add_pending,
}
use localized_causal_broadca.CausalBroadcast.Steps.{
  Thread, top, refill, finished, message_of, new_packet, start_thread, flush, end_round,
  thread_step, Run, begin, send, receive,
}
use localized_causal_broadca.ProcessController.{
  rounds, broadcast_line, broadcast_lines, delivered_lines, on_packet_delivered,
  on_packet_broadcast,
}

-- what a history writes to the output file of its broadcasts
abbrev pub broadcast_output : List Event → Bytes
broadcast_output [] = []
broadcast_output (logs_delivered p ∷ es) = broadcast_output es
broadcast_output (logs_broadcast p ∷ es) = on_packet_broadcast p ++ broadcast_output es
broadcast_output (broadcasts p ∷ es) = broadcast_output es

-- the messages that were handed to the layer below
abbrev pub messages_sent : List Event → List Message
messages_sent [] = []
messages_sent (logs_delivered p ∷ es) = messages_sent es
messages_sent (logs_broadcast p ∷ es) = messages_sent es
messages_sent (broadcasts p ∷ es) = p.messages ++ messages_sent es

-- the messages numbered from `i`, `n` of them
abbrev pub messages_from : ℕ → ℕ → List Message
messages_from i zero = []
messages_from i (suc n) = message_of i ∷ messages_from (i + 1) n

pub messages_from-append :
    (i a b : ℕ) → messages_from i (a + b) ≡ messages_from i a ++ messages_from (i + a) b
messages_from-append i zero b = ap₂ messages_from (omega arith) (omega arith)
messages_from-append i (suc a) b =
    ap (messages_from i) {y = suc (a + b)} (omega arith)
    ∙ ap (λ ms. message_of i ∷ ms)
        (messages_from-append (i + 1) a b
          ∙ ap (λ k. messages_from (i + 1) a ++ messages_from k b) (omega arith))

pub broadcast_lines-append :
    (i a b : ℕ) → broadcast_lines i (a + b) ≡ broadcast_lines i a ++ broadcast_lines (i + a) b
unfolding broadcast_lines
broadcast_lines-append i zero b = ap₂ broadcast_lines (omega arith) (omega arith)
broadcast_lines-append i (suc a) b =
    ap (broadcast_lines i) {y = suc (a + b)} (omega arith)
    ∙ ap (λ out. broadcast_line i ++ out)
        (broadcast_lines-append (i + 1) a b
          ∙ ap (λ k. broadcast_lines (i + 1) a ++ broadcast_lines k b) (omega arith))
    ∙ sym (append_assoc (broadcast_line i) _ _)

pub length-messages_from : (i n : ℕ) → length (messages_from i n) ≡ n
length-messages_from i zero = refl
length-messages_from i (suc n) = ap suc (length-messages_from (i + 1) n)

pub messages_sent-append :
    (xs ys : List Event) → messages_sent (xs ++ ys) ≡ messages_sent xs ++ messages_sent ys
messages_sent-append [] ys = refl
messages_sent-append (logs_delivered p ∷ xs) ys = messages_sent-append xs ys
messages_sent-append (logs_broadcast p ∷ xs) ys = messages_sent-append xs ys
messages_sent-append (broadcasts p ∷ xs) ys =
    rw (messages_sent-append xs ys) (sym (append_assoc p.messages _ _))

pub broadcast_output-append :
    (xs ys : List Event) → broadcast_output (xs ++ ys) ≡ broadcast_output xs ++ broadcast_output ys
broadcast_output-append [] ys = refl
broadcast_output-append (logs_delivered p ∷ xs) ys = broadcast_output-append xs ys
broadcast_output-append (logs_broadcast p ∷ xs) ys =
    rw (broadcast_output-append xs ys) (sym (append_assoc (on_packet_broadcast p) _ _))
broadcast_output-append (broadcasts p ∷ xs) ys = broadcast_output-append xs ys
