-- ===== src/Packet/Codec/RoundTrip.antt =====
-- What `decodeData` reads of the bytes that `toBytes` writes.
use localized_causal_broadca.Prelude.{
  ℕ, ◌+◌, ◌%◌, ◌<◌, ◌≡◌, refl, Bool, true, false, List, [], ◌∷◌, ◌++◌, arith, length, append_assoc,
  append-nil, word_size, lt→ltb, Result, ok, ◌∙◌, >>=-eq-ok, ◌>>=◌, All,
}
use localized_causal_broadca.Decimal.{Bytes, to_string, stoi_bool}
use localized_causal_broadca.Decimal.RoundTrip.{stoul-to_string, length-to_string}
use localized_causal_broadca.CString.{c_string, copy_string, NoNull}
use localized_causal_broadca.VectorClock.{VectorClock, IsValid, get_bytes_length}
use localized_causal_broadca.VectorClock
use localized_causal_broadca.VectorClock.Codec.{
  Fits, decode_data-to_bytes, length-to_bytes, copy_string-to_string,
}
use localized_causal_broadca.Packet.{
  Message, message_length, Packet, ack_flag, add_message, create_ack,
}
use localized_causal_broadca.Packet.Codec.{
  messages_bytes, to_bytes, field_string, flag_string, skip, finish, decode_data,
}
use localized_causal_broadca.Packet.Length.{total}

next-field :
    (n : ℕ) (xs rest : Bytes)
    → field_string ((c_string (to_string n) ++ xs) ++ rest) ≡ ok (to_string n, xs ++ rest)
unfolding field_string
next-field n xs rest =
    rw (append_assoc (c_string (to_string n)) xs rest, copy_string-to_string)
      (rw (lt→ltb 1 (length (to_string n) + 1) (omega (arith, length-to_string n))))

next-flag :
    (b : Bool) (xs rest : Bytes)
    → flag_string ((c_string (to_string (ack_flag b)) ++ xs) ++ rest)
      ≡ ok (to_string (ack_flag b), xs ++ rest)
unfolding flag_string to_string copy_string
next-flag true xs rest = refl
next-flag false xs rest = refl

stoi_bool-to_string : (b : Bool) → stoi_bool (to_string (ack_flag b)) ≡ ok b
unfolding stoi_bool to_string
stoi_bool-to_string true = refl
stoi_bool-to_string false = refl

skip-append : (xs ys : Bytes) → skip (length xs) (xs ++ ys) ≡ ys
unfolding skip
skip-append [] ys = refl
skip-append (x ∷ xs) ys = skip-append xs ys

-- The numbers of the header fit in a size_t, and the clock is one of the packet's system.
pub record IsSendable (p : Packet) : Type 0 where
  pub process : p.process_id < word_size
  pub source : p.source_id < word_size
  pub seq_num : p.packet_seq_num < word_size
  pub first : p.first_msg_seq_num < word_size
  pub count : p.payload_length < word_size
  pub processes : p.num_processes < word_size
  pub clock : IsValid p.vector_clock
  pub entries : Fits p.vector_clock.values
  pub same : p.vector_clock.num_processes ≡ p.num_processes

skip-clock :
    (v : VectorClock) (rest : Bytes)
    → skip (get_bytes_length v) (VectorClock.to_bytes v ++ rest) ≡ rest
skip-clock v rest = rw (← length-to_bytes v) (skip-append (VectorClock.to_bytes v) rest)

decode-clock :
    (p : Packet) (rest : Bytes)
    → IsSendable p
    → VectorClock.decode_data (VectorClock.to_bytes p.vector_clock ++ rest) p.num_processes
      ≡ ok p.vector_clock
decode-clock p rest h = rw (← h.same) (decode_data-to_bytes p.vector_clock rest h.clock h.entries)

decode-header :
    (p : Packet) (rest : Bytes)
    → IsSendable p
    → decode_data (to_bytes p ++ rest)
      ≡ finish p.is_ack
          (to_string p.payload_length)
          p.process_id
          p.source_id
          p.packet_seq_num
          p.num_processes
          p.vector_clock
          (messages_bytes p.messages ++ rest)
unfolding decode_data to_bytes
decode-header p rest h =
    rw
      (
        next-field,
        next-field,
        next-field,
        next-field,
        next-flag,
        next-field,
        next-field,
        stoul-to_string p.source_id h.source,
        stoul-to_string p.process_id h.process,
        stoul-to_string p.packet_seq_num h.seq_num,
        stoul-to_string p.first_msg_seq_num h.first,
        stoi_bool-to_string,
        stoul-to_string p.num_processes h.processes,
        append_assoc (VectorClock.to_bytes p.vector_clock) (messages_bytes p.messages) rest,
        decode-clock p (messages_bytes p.messages ++ rest) h,
        skip-clock,
      )
      refl

-- An acknowledgement whose numbers fit in a size_t, with a clock of its system, is read back as it
-- was made, whatever bytes follow it in the buffer.
pub decode_data-create_ack :
    (process_id source_id seq_num n : ℕ) (v : VectorClock) (rest : Bytes)
    → let ack = create_ack process_id source_id seq_num n v in
      IsSendable ack → decode_data (to_bytes ack ++ rest) ≡ ok ack
unfolding finish
decode_data-create_ack process_id source_id seq_num n v rest h =
    decode-header (create_ack process_id source_id seq_num n v) rest h

-- `addMessage` for each message in turn
abbrev pub add_all : Packet → List Message → Result Packet
add_all p [] = ok p
add_all p (m ∷ ms) = add_message p m >>= λ q. add_all q ms

-- What `addMessage` leaves alone.
abbrev pub SameHeader : Packet → Packet → Type 0
SameHeader p q =
    (q.process_id ≡ p.process_id)
    × (q.source_id ≡ p.source_id)
    × (q.packet_seq_num ≡ p.packet_seq_num)
    × (q.num_processes ≡ p.num_processes)
    × (q.vector_clock ≡ p.vector_clock)
    × (q.is_ack ≡ p.is_ack)

pub add_message-facts :
    (p q : Packet) (m : Message)
    → add_message p m ≡ ok q
    → SameHeader p q
      × (q.messages ≡ p.messages ++ m ∷ [])
      × (q.payload_length ≡ (p.payload_length + message_length m) % word_size)
unfolding add_message
add_message-facts p q m h = ground arith

SameHeader-trans : (p q r : Packet) → SameHeader p q → SameHeader q r → SameHeader p r
SameHeader-trans p q r h k = ground arith

abbrev pub NoNulls : List Message → Type 0
NoNulls = All (λ m. NoNull m.payload)

-- Adding messages one by one keeps the header, appends them and counts them.
pub add_all-facts :
    (p q : Packet) (ms : List Message)
    → add_all p ms ≡ ok q
    → p.payload_length + total ms < word_size
    → SameHeader p q
      × (q.messages ≡ p.messages ++ ms)
      × (q.payload_length ≡ p.payload_length + total ms)
add_all-facts p q [] h fits = ground (arith, append-nil p.messages)
add_all-facts p q (m ∷ ms) h fits =
    let (r, added, others) = >>=-eq-ok (λ r. add_all r ms) _ (add_message p m) h in
    let (same, grown, counted) = add_message-facts p r m added in
    let (same', grown', counted') = add_all-facts r q ms others (omega arith) in
    (
      SameHeader-trans p r q same same',
      grown' ∙ rw grown (append_assoc p.messages (m ∷ []) ms),
      omega arith,
    )
