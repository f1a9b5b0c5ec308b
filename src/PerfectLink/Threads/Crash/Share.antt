-- ===== src/PerfectLink/Threads/Crash/Share.antt =====
-- How many packets for a process that has crashed come into the outbox (addPacketsToOutBox and
-- removePacket of template_cpp/src/src/perfect_link.cpp and outbox.cpp).
use localized_causal_broadca.Prelude.{
  ℕ, ◌+◌, ◌≤◌, ◌≡◌, ◌≢◌, refl, sym, ◌∙◌, subst, List, [], ◌∷◌, ◌++◌, arith, ◌==◌, if◌then◌else◌,
  some, All, Bool-cases, inl, inr, map-some,
}
use localized_causal_broadca.Packet.{Packet}
use localized_causal_broadca.Queue.{Queue, push, pop, empty}
use localized_causal_broadca.Queue.Contents.{push-All, pop-All}
use localized_causal_broadca.Queue.Fifo.{push-items, pop-items}
use localized_causal_broadca.OutBox
use localized_causal_broadca.OutBox.{OutBox, Addressed, add_packet, remove_packet}
use localized_causal_broadca.OutBox.Size.{IsTidy, total}
use localized_causal_broadca.OutBox.Share.{share, add_packet-Inserted, remove_packet-Removed}
use localized_causal_broadca.PerfectLink
use localized_causal_broadca.PerfectLink.{remove_acked, was_delivered, mark_delivered}
use localized_causal_broadca.PerfectLink.Threads.{
  Node, node, send, listen, send_acks, take_received, pop_received, push_ack_of, deliver_new,
}
use localized_causal_broadca.PerfectLink.Threads.Rounds.{fill_outbox-some}
use localized_causal_broadca.PerfectLink.Threads.Crash.{
  NoAck, Steps, begin, sends, hears, acks, fills, pops, acknowledges, delivers,
}

module _ (d : ℕ) where
  -- how many of the packets are for `d`
  abbrev pub count_for : List Addressed → ℕ
  count_for [] = 0
  count_for (a ∷ sent) = (if a.dest_proc_id == d then 1 else 0) + count_for sent

  count_for-append : (xs ys : List Addressed) → count_for (xs ++ ys) ≡ count_for xs + count_for ys
  count_for-append [] ys = omega arith
  count_for-append (a ∷ xs) ys = omega (arith, count_for-append xs ys)

  -- The packets for `d` that wait no longer and those that the box holds for the others are
  -- no more than the counter of the box and the packets that it holds for `d`, taken together.
  pub record Counted (sent : List Addressed) (o : OutBox) (received : List Packet)
      (waiting : List Addressed) : Type 0 where
    pub tidy : IsTidy o.packets
    pub sized : o.max_size ≡ 1000
    pub bound : o.curr_size ≤ 1000
    pub silent : All (NoAck d) received
    pub queued : count_for waiting ≤ count_for sent
    pub counted : count_for sent + total o ≤ o.curr_size + share d o + count_for waiting

  abbrev pub IsCounted : List Addressed → Node → Type 0
  IsCounted sent n = Counted sent n.link.outbox n.received_packets.items n.packets_to_send.items

  node-IsCounted : (id : ℕ) → IsCounted [] (node id 0)
  unfolding node PerfectLink.start OutBox.create empty
  node-IsCounted id = record {
    tidy = (tt, tt);
    sized = refl;
    bound = omega arith;
    silent = tt;
    queued = omega arith;
    counted = omega arith;
  }

  handed :
      {sent waiting : List Addressed} {o : OutBox} {received : List Packet} (a : Addressed)
      → Counted sent o received waiting
      → Counted (sent ++ a ∷ []) o received (waiting ++ a ∷ [])
  handed {sent} {waiting} a h =
      let before = count_for-append waiting (a ∷ []) in
      let all = count_for-append sent (a ∷ []) in
      record {
        tidy = h.tidy;
        sized = h.sized;
        bound = h.bound;
        silent = h.silent;
        queued = omega (arith, before, all, h.queued);
        counted = omega (arith, before, all, h.counted);
      }

  arrived :
      {sent waiting : List Addressed} {o : OutBox} {received others : List Packet}
      → Counted sent o received waiting
      → All (NoAck d) others
      → Counted sent o others waiting
  arrived h silent = record {
    tidy = h.tidy;
    sized = h.sized;
    bound = h.bound;
    silent = silent;
    queued = h.queued;
    counted = h.counted;
  }

  filled :
      {sent waiting : List Addressed} {o : OutBox} {received : List Packet} (a : Addressed)
      (r : OutBox)
      → Counted sent o received (a ∷ waiting)
      → add_packet o a ≡ some r
      → Counted sent r received waiting
  filled {o = o} a r h added =
      let i =
        add_packet-Inserted d o r a h.tidy (omega (arith, h.bound, h.sized))
          (omega (arith, h.sized)) added in
      record {
        tidy = i.tidy;
        sized = i.bound ∙ h.sized;
        bound = ground (arith, i.counted, i.room, h.bound, h.sized);
        silent = h.silent;
        queued = ground (arith, h.queued);
        counted = ground (arith, i.counted, i.others, h.counted);
      }

  removed :
      {sent waiting : List Addressed} {o : OutBox} {received : List Packet} (j s k : ℕ)
      → Counted sent o received waiting
      → j ≢ d
      → Counted sent (remove_packet o j s k).0 received waiting
  removed {o = o} j s k h other =
      let r =
        remove_packet-Removed d o j s k h.tidy other (omega (arith, h.counted, h.queued))
          (omega (arith, h.bound)) in
      record {
        tidy = r.tidy;
        sized = r.bound ∙ h.sized;
        bound = omega (arith, r.counted, h.bound);
        silent = h.silent;
        queued = h.queued;
        counted = omega (arith, r.kept, r.others, h.counted);
      }

  taken :
      {sent : List Addressed} (v : Node) (p : Packet) (q : Queue Packet)
      → IsCounted sent v
      → NoAck d p
      → All (NoAck d) q.items
      → IsCounted sent (take_received v p q)
  unfolding take_received remove_acked
  taken v p q h silent others = elim (Bool-cases p.is_ack) [
    | inl ack ↦
        rw ack (arrived (removed p.process_id p.source_id p.packet_seq_num h (silent ack)) others)
    | inr message ↦ rw message (arrived h others)
  ]

  delivered :
      {sent : List Addressed} (v : Node) (p : Packet)
      → IsCounted sent v
      → IsCounted sent (deliver_new v p).0
  unfolding deliver_new mark_delivered
  delivered v p h =
      elim (Bool-cases (was_delivered v.link p.process_id p.source_id p.packet_seq_num)) [
        | inl old ↦ rw old h
        | inr new ↦ rw new h
      ]

  pub Steps-IsCounted :
      {n m : Node} {sent : List Addressed} (id : ℕ)
      → n ≡ node id 0
      → Steps d n m sent
      → IsCounted sent m
  unfolding send listen send_acks push_ack_of pop_received
  Steps-IsCounted id same begin = subst (IsCounted []) (sym same) (node-IsCounted id)
  Steps-IsCounted id first (sends {v = v} {w = w} {sent = sent} a r e) =
      let before = Steps-IsCounted id first r in
      let (q, pushed, same) = map-some _ (push v.packets_to_send a) w e in
      subst (IsCounted (sent ++ a ∷ [])) same (
        subst (Counted (sent ++ a ∷ []) v.link.outbox v.received_packets.items)
          (sym (push-items v.packets_to_send q a pushed)) (handed a before))
  Steps-IsCounted id first (hears {v = v} {w = w} {sent = sent} p r silent e) =
      let before = Steps-IsCounted id first r in
      let (q, pushed, same) = map-some _ (push v.received_packets p) w e in
      subst (IsCounted sent) same
        (arrived before (push-All (NoAck d) v.received_packets q p before.silent silent pushed))
  Steps-IsCounted id first (acks {v = v} {w = w} {sent = sent} a r e) =
      let ((b, q), _, same) = map-some _ (pop v.acks_to_send) (a, w) e in
      subst (λ (x : Addressed × Node). IsCounted sent x.1) same (Steps-IsCounted id first r)
  Steps-IsCounted id first (fills {v = v} {w = w} {sent = sent} r e) =
      let before = Steps-IsCounted id first r in
      let (a, q, popped, o, added, same) = fill_outbox-some v w e in
      subst (IsCounted sent) same (
        filled a o
          (subst (Counted sent v.link.outbox v.received_packets.items)
            (pop-items v.packets_to_send q a popped) before)
          added)
  Steps-IsCounted id first (pops {v = v} {w = w} {sent = sent} r at_pop e) =
      let before = Steps-IsCounted id first r in
      let ((p, q), popped, same) = map-some _ (pop v.received_packets) w e in
      let (front, others) = pop-All (NoAck d) v.received_packets q p before.silent popped in
      subst (IsCounted sent) same (taken v p q before front others)
  Steps-IsCounted id first (acknowledges {v = v} {w = w} {p = p} {sent = sent} r at_ack e) =
      let (q, _, same) = map-some _ (push v.acks_to_send _) w e in
      subst (IsCounted sent) same (Steps-IsCounted id first r)
  Steps-IsCounted id first (delivers {v = v} {p = p} r at_delivery) =
      delivered v p (Steps-IsCounted id first r)
