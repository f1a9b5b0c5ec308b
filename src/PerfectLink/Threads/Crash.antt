-- ===== src/PerfectLink/Threads/Crash.antt =====
-- A process that has crashed, as the threads of another's link see it: it acknowledges nothing
-- (template_cpp/src/src/perfect_link.cpp and outbox.cpp).
pub mod Share
pub mod Starvation
use mathlib.Core.Option
use localized_causal_broadca.Prelude.{
  ℕ, zero, suc, ◌+◌, ◌≤◌, ◌<◌, ◌≡◌, ◌≢◌, refl, sym, ap, ◌∙◌, subst, Bool, true, false, List, [],
  ◌∷◌, ◌++◌, arith, length, ◌==◌, Option, none, some, word_size, All, Bool-cases, inl, inr,
  map-some, Option-cases, append-nil, append_assoc, if◌then◌else◌,
}
use localized_causal_broadca.Containers.Map.{NumMap, at, put, has}
use localized_causal_broadca.Packet.{Packet}
use localized_causal_broadca.Queue.{Queue, push, pop}
use localized_causal_broadca.Queue.Contents.{push-All, pop-All}
use localized_causal_broadca.Queue.Fifo.{push-items}
use localized_causal_broadca.OutBox.{
  OutBox, Addressed, BySeq, slot, holds, add_packet, remove_packet, send_packets,
}
use localized_causal_broadca.OutBox.Contents.{Contents, InSlot, slot-InSlot}
use localized_causal_broadca.PerfectLink.{remove_acked, add_packets_to_outbox, mark_delivered}
use localized_causal_broadca.PerfectLink.Threads.{
  Node, Processor, idle, acking, delivering, send, listen, send_acks, fill_outbox, take_received,
  pop_received, push_ack_of, deliver_new,
}

-- The processes `d` from which no acknowledgement comes.
module _ (d : ℕ) where
  abbrev pub NoAck : Packet → Type 0
  NoAck p = p.is_ack ≡ true → p.process_id ≢ d

  abbrev pub IsFor : Addressed → Type 0
  IsFor a = a.dest_proc_id ≡ d

  -- The calls of the threads of the link, in any order, while no acknowledgement of `d` arrives,
  -- and what is handed to `send` in them, in its order.
  pub data Steps : Node → Node → List Addressed → Type 0 where
    begin : {n : Node} → Steps n n []
    sends :
        {n v w : Node} {sent : List Addressed} (a : Addressed)
        → Steps n v sent
        → send v a ≡ some w
        → Steps n w (sent ++ a ∷ [])
    hears :
        {n v w : Node} {sent : List Addressed} (p : Packet)
        → Steps n v sent
        → NoAck p
        → listen v p ≡ some w
        → Steps n w sent
    acks :
        {n v w : Node} {sent : List Addressed} (a : Addressed)
        → Steps n v sent
        → send_acks v ≡ some (a, w)
        → Steps n w sent
    fills :
        {n v w : Node} {sent : List Addressed}
        → Steps n v sent
        → fill_outbox v ≡ some w
        → Steps n w sent
    pops :
        {n v w : Node} {sent : List Addressed}
        → Steps n v sent
        → v.processor ≡ idle
        → pop_received v ≡ some w
        → Steps n w sent
    acknowledges :
        {n v w : Node} {p : Packet} {sent : List Addressed}
        → Steps n v sent
        → v.processor ≡ acking p
        → push_ack_of v p ≡ some w
        → Steps n w sent
    delivers :
        {n v : Node} {p : Packet} {sent : List Addressed}
        → Steps n v sent
        → v.processor ≡ delivering p
        → Steps n (deliver_new v p).0 sent

  -- a full box behaves as it did
  pub fill_outbox-full :
      (n : Node) → n.link.outbox.curr_size ≡ n.link.outbox.max_size → fill_outbox n ≡ none
  unfolding fill_outbox add_packets_to_outbox add_packet
  fill_outbox-full n full = elim (Option-cases (pop n.packets_to_send)) [
    | inl empty ↦ rw empty refl
    | inr ((a, rest), popped) ↦ rw popped (ground (arith, full))
  ]

  InSlot-IsFor : (j k : ℕ) (m : BySeq) → InSlot IsFor j m → has k m ≡ true → j ≡ d
  unfolding has
  InSlot-IsFor j k [] inside found = absurd (ground (arith, found))
  InSlot-IsFor j k (entry ∷ m) (for_d, inside) found = for_d

  remove_packet-other :
      (o : OutBox) (j s k : ℕ) → Contents IsFor o → j ≢ d → (remove_packet o j s k).0 ≡ o
  unfolding remove_packet holds
  remove_packet-other o j s k only other = elim (Bool-cases (holds o j s k)) [
    | inl found ↦
        absurd (other (InSlot-IsFor j k (slot o j s) (slot-InSlot IsFor o j s only) found))
    | inr missing ↦ rw missing refl
  ]

  -- what a full box keeps: the box itself, no acknowledgement that could empty it, and the
  -- packets that wait, in front of what is handed over since
  pub record Blocked (o : OutBox) (waiting : List Addressed) (n : Node) : Type 0 where
    pub boxed : n.link.outbox ≡ o
    pub silent : All NoAck n.received_packets.items
    pub queued : n.packets_to_send.items ≡ waiting

  unchanged :
      (o : OutBox) (waiting : List Addressed) (v w : Node)
      → Blocked o waiting v
      → w.link.outbox ≡ v.link.outbox
      → w.received_packets ≡ v.received_packets
      → w.packets_to_send ≡ v.packets_to_send
      → Blocked o waiting w
  unchanged o waiting v w h boxed received queued = record {
    boxed = boxed ∙ h.boxed;
    silent = subst (λ q. All NoAck q.items) (sym received) h.silent;
    queued = subst (λ q. q.items ≡ waiting) (sym queued) h.queued;
  }

  take_received-Blocked :
      (o : OutBox) (waiting : List Addressed) (v : Node) (p : Packet) (q : Queue Packet)
      → Contents IsFor o
      → Blocked o waiting v
      → NoAck p
      → All NoAck q.items
      → Blocked o waiting (take_received v p q)
  unfolding take_received remove_acked
  take_received-Blocked o waiting v p q only h silent others = elim (Bool-cases p.is_ack) [
    | inl ack ↦ rw ack (record {
      boxed =
          subst (λ b. (remove_packet b p.process_id p.source_id p.packet_seq_num).0 ≡ o)
            (sym h.boxed)
            (remove_packet-other o p.process_id p.source_id p.packet_seq_num only (silent ack));
      silent = others;
      queued = h.queued;
    })
    | inr message ↦ rw message (record { boxed = h.boxed; silent = others; queued = h.queued })
  ]

  pub Steps-Blocked :
      {n m : Node} {later : List Addressed} (o : OutBox) (waiting : List Addressed)
      → o.curr_size ≡ o.max_size
      → Contents IsFor o
      → Blocked o waiting n
      → Steps n m later
      → Blocked o (waiting ++ later) m
  unfolding send listen send_acks push_ack_of deliver_new mark_delivered pop_received
  Steps-Blocked o waiting full only h begin = rw (append-nil waiting) h
  Steps-Blocked o waiting full only h (sends {v = v} {w = w} {sent = sent} a r e) =
      let before = Steps-Blocked o waiting full only h r in
      let (q, pushed, same) = map-some _ (push v.packets_to_send a) w e in
      let after : Blocked o (waiting ++ (sent ++ a ∷ [])) (record v { packets_to_send = q }) =
        record {
          boxed = before.boxed;
          silent = before.silent;
          queued =
              push-items v.packets_to_send q a pushed
              ∙ ap (λ xs. xs ++ a ∷ []) before.queued
              ∙ append_assoc waiting sent (a ∷ []);
        } in
      subst (Blocked o (waiting ++ (sent ++ a ∷ []))) same after
  Steps-Blocked o waiting full only h (hears {v = v} {w = w} {sent = sent} p r silent e) =
      let before = Steps-Blocked o waiting full only h r in
      let (q, pushed, same) = map-some _ (push v.received_packets p) w e in
      let after : Blocked o (waiting ++ sent) (record v { received_packets = q }) = record {
        boxed = before.boxed;
        silent = push-All NoAck v.received_packets q p before.silent silent pushed;
        queued = before.queued;
      } in
      subst (Blocked o (waiting ++ sent)) same after
  Steps-Blocked o waiting full only h (acks {v = v} {w = w} {sent = sent} a r e) =
      let before = Steps-Blocked o waiting full only h r in
      let ((b, q), _, same) = map-some _ (pop v.acks_to_send) (a, w) e in
      subst (λ (x : Addressed × Node). Blocked o (waiting ++ sent) x.1) same
        (unchanged o (waiting ++ sent) v (record v { acks_to_send = q }) before refl refl refl)
  Steps-Blocked o waiting full only h (fills {v = v} {w = w} r e) =
      let before = Steps-Blocked o waiting full only h r in
      let stopped =
        fill_outbox-full v
          (ap (λ b. b.curr_size) before.boxed ∙ full ∙ sym (ap (λ b. b.max_size) before.boxed)) in
      absurd (let clash : none ≡ some w = sym stopped ∙ e in cc)
  Steps-Blocked o waiting full only h (pops {v = v} {w = w} {sent = sent} r at_pop e) =
      let before = Steps-Blocked o waiting full only h r in
      let ((p, q), popped, same) = map-some _ (pop v.received_packets) w e in
      let (first, others) = pop-All NoAck v.received_packets q p before.silent popped in
      subst (Blocked o (waiting ++ sent)) same
        (take_received-Blocked o (waiting ++ sent) v p q only before first others)
  Steps-Blocked o waiting full only h
        (acknowledges {v = v} {w = w} {p = p} {sent = sent} r at_ack e) =
      let before = Steps-Blocked o waiting full only h r in
      let (q, _, same) = map-some _ (push v.acks_to_send _) w e in
      subst (Blocked o (waiting ++ sent)) same (
        unchanged o (waiting ++ sent) v (record v { acks_to_send = q; processor = delivering p })
          before refl refl refl)
  Steps-Blocked o waiting full only h (delivers {v = v} {p = p} {sent = sent} r at_delivery) =
      unchanged o (waiting ++ sent) v (deliver_new v p).0 (Steps-Blocked o waiting full only h r)
        (ground arith) (ground arith) (ground arith)
