-- ===== src/PerfectLink/Acks.antt =====
-- Every packet is acknowledged as often as it arrives, and an acknowledgement ends the sending of
-- its packet.
use localized_causal_broadca.Prelude.{
  ℕ, ◌≡◌, refl, Bool, true, false, List, [], ◌∷◌, ◌++◌, arith, if◌then◌else◌, subst, sym, ap, ◌∙◌,
  Bool-cases, inl, inr,
}
use localized_causal_broadca.Packet.{Packet}
use localized_causal_broadca.OutBox.{Addressed, holds}
use localized_causal_broadca.OutBox.Size.{holds-remove_packet}
use localized_causal_broadca.PerfectLink.{
  PerfectLink, Action, push_ack, deliver, ack_of, mark_delivered, remove_acked, process_arrived,
  process_all,
}
use localized_causal_broadca.PerfectLink.Once.{has_key}

-- the acknowledgements that are pushed, in order
abbrev pub acks : List Action → List Addressed
acks [] = []
acks (push_ack a ∷ rest) = a ∷ acks rest
acks (deliver p ∷ rest) = acks rest

-- `a` acknowledges `q` in the name of process `id`: it goes to the process that `q` came from,
-- names the source, the number and the clock of `q`, and has no message.
pub record Acknowledges (id : ℕ) (q : Packet) (a : Addressed) : Type 0 where
  pub destination : a.dest_proc_id ≡ q.process_id
  pub sender : a.packet.process_id ≡ id
  pub source : a.packet.source_id ≡ q.source_id
  pub number : a.packet.packet_seq_num ≡ q.packet_seq_num
  pub clock : a.packet.vector_clock ≡ q.vector_clock
  pub is_one : a.packet.is_ack ≡ true
  pub no_message : a.packet.messages ≡ []

-- The packets that are no acknowledgements have one each, in their order, and nothing else has.
pub data Answers (id : ℕ) : List Packet → List Addressed → Type 0 where
  none_left : Answers id [] []
  passes :
      {q : Packet} {ps : List Packet} {answers : List Addressed}
      → q.is_ack ≡ true
      → Answers id ps answers
      → Answers id (q ∷ ps) answers
  acknowledges :
      {q : Packet} {a : Addressed} {ps : List Packet} {answers : List Addressed}
      → q.is_ack ≡ false
      → Acknowledges id q a
      → Answers id ps answers
      → Answers id (q ∷ ps) (a ∷ answers)

-- an acknowledgement by process `d` for the packet `n` of the source `s` is among those that arrive
abbrev pub acked : ℕ → ℕ → ℕ → List Packet → Bool
acked d s n [] = false
acked d s n (q ∷ ps) =
    if (if q.is_ack then has_key d s n q else false) then true else acked d s n ps

acks-append : (xs ys : List Action) → acks (xs ++ ys) ≡ acks xs ++ acks ys
acks-append [] ys = refl
acks-append (push_ack a ∷ xs) ys = ground (arith, acks-append xs ys)
acks-append (deliver p ∷ xs) ys = acks-append xs ys

process_arrived-id :
    (l : PerfectLink) (q : Packet) → (process_arrived l q).0.process_id ≡ l.process_id
unfolding process_arrived mark_delivered remove_acked
process_arrived-id l q = ground arith

acks-process_arrived :
    (l : PerfectLink) (q : Packet)
    → acks (process_arrived l q).1 ≡ (if q.is_ack then [] else ack_of l q ∷ [])
unfolding process_arrived
acks-process_arrived l q = ground arith

ack_of-Acknowledges : (l : PerfectLink) (q : Packet) → Acknowledges l.process_id q (ack_of l q)
ack_of-Acknowledges l q = record {
  destination = refl;
  sender = refl;
  source = refl;
  number = refl;
  clock = refl;
  is_one = refl;
  no_message = refl;
}

-- The link pushes one acknowledgement for each packet that arrives and is none itself, copies
-- included, in the order of their arrival, and no other: it is addressed to the process that the
-- packet came from, in the name of this process, with the source, the number and the clock of the
-- packet, and without messages.
pub acks-process_all :
    (l : PerfectLink) (ps : List Packet) → Answers l.process_id ps (acks (process_all l ps).1)
unfolding process_all
acks-process_all l [] = none_left
acks-process_all l (q ∷ ps) =
    let (l', actions) = process_arrived l q in
    let rest : Answers l.process_id ps (acks (process_all l' ps).1) =
      subst (λ id. Answers id ps (acks (process_all l' ps).1)) (process_arrived-id l q)
        (acks-process_all l' ps) in
    let pushed = acks-append actions (process_all l' ps).1 in
    let more = acks (process_all l' ps).1 in
    elim (Bool-cases q.is_ack) [
      | inl ack ↦
          let nothing : acks actions ≡ [] = ground (arith, acks-process_arrived l q, ack) in
          subst (Answers l.process_id (q ∷ ps)) (sym (pushed ∙ ap (λ xs. xs ++ more) nothing))
            (passes ack rest)
      | inr message ↦
          let one : acks actions ≡ ack_of l q ∷ [] =
            ground (arith, acks-process_arrived l q, message) in
          subst (Answers l.process_id (q ∷ ps)) (sym (pushed ∙ ap (λ xs. xs ++ more) one))
            (acknowledges message (ack_of-Acknowledges l q) rest)
    ]

holds-process_arrived :
    (l : PerfectLink) (q : Packet) (d s n : ℕ)
    → holds (process_arrived l q).0.outbox d s n
      ≡ (if (if q.is_ack then has_key d s n q else false) then false else holds l.outbox d s n)
unfolding process_arrived mark_delivered remove_acked
holds-process_arrived l q d s n =
    ground (arith, holds-remove_packet l.outbox q.process_id q.source_id q.packet_seq_num d s n)

-- After any arrivals the outbox holds exactly those of its packets that no arrived acknowledgement
-- names by sender, source and sequence number.
pub holds-process_all :
    (l : PerfectLink) (ps : List Packet) (d s n : ℕ)
    → holds (process_all l ps).0.outbox d s n
      ≡ (if acked d s n ps then false else holds l.outbox d s n)
unfolding process_all
holds-process_all l [] d s n = refl
holds-process_all l (q ∷ ps) d s n =
    ground
      (arith, holds-process_all (process_arrived l q).0 ps d s n, holds-process_arrived l q d s n)
