-- ===== src/PerfectLink/Threads/Rounds.antt =====
-- What the rounds of a link's threads keep, for what is known of the packets in it.
use localized_causal_broadca.Prelude.{
  ℕ, ◌≡◌, ◌∙◌, refl, sym, ap, Bool, true, false, ◌||◌, arith, All, All-map, Bool-cases, inl, inr,
  subst, Option, none, some,
}
use localized_causal_broadca.Packet.{Packet}
use localized_causal_broadca.Queue.{Queue, push, pop, empty}
use localized_causal_broadca.Prelude.{map-some}
use localized_causal_broadca.Queue.Contents.{push-All, pop-All}
use localized_causal_broadca.OutBox.{OutBox, Addressed, add_packet}
use localized_causal_broadca.OutBox.Contents.{
  Contents, Contents-map, create-Contents, add_packet-Contents, remove_packet-Contents,
}
use localized_causal_broadca.PerfectLink
use localized_causal_broadca.PerfectLink.{
  PerfectLink, ack_of, was_delivered, mark_delivered, remove_acked, add_packets_to_outbox,
  insert_popped,
}
use localized_causal_broadca.PerfectLink.Once.{has_key, was_delivered-mark, key_of}
use localized_causal_broadca.PerfectLink.Threads.{
  Processor, idle, acking, delivering, Node, node, send, listen, send_acks, fill_outbox,
  take_received, pop_received, push_ack_of, deliver_new, to_process,
}

-- the packet of the processor is about to be delivered, with the key
abbrev pub in_hand : ℕ → ℕ → ℕ → Processor → Bool
in_hand p s n idle = false
in_hand p s n (acking received) = false
in_hand p s n (delivering received) = has_key p s n received

-- A packet with the key was delivered, or is at its delivery: the acknowledgement is true.
abbrev pub handled : ℕ → ℕ → ℕ → Node → Bool
handled p s n v = was_delivered v.link p s n || in_hand p s n v.processor

-- All that was handled still is.
abbrev pub Later : Node → Node → Type 0
Later v w = (p s n : ℕ) → handled p s n v ≡ true → handled p s n w ≡ true

or_left : (x y : Bool) → (x || false) ≡ true → (x || y) ≡ true
or_left x y h = ground arith

known_before :
    (l : PerfectLink) (q : Packet) (p s n : ℕ)
    → was_delivered l q.process_id q.source_id q.packet_seq_num ≡ true
    → (was_delivered l p s n || has_key p s n q) ≡ true
    → (was_delivered l p s n || false) ≡ true
known_before l q p s n before h = ground (arith, key_of p s n l q)

known_after :
    (l : PerfectLink) (q : Packet) (p s n : ℕ)
    → (was_delivered l p s n || has_key p s n q) ≡ true
    → (was_delivered (mark_delivered l q) p s n || false) ≡ true
known_after l q p s n h = ground (arith, was_delivered-mark p s n l q)

-- what a round of `addPacketsToOutBox` did
insert_popped-some :
    (l m : PerfectLink) (o : Option (Addressed × Queue Addressed)) (rest : Queue Addressed)
    → insert_popped l o ≡ some (m, rest)
    → (a : Addressed) × (o ≡ some (a, rest))
      × (r : OutBox) × (add_packet l.outbox a ≡ some r)
      × (m ≡ record l { outbox = r })
unfolding insert_popped
insert_popped-some l m none rest e = cc
insert_popped-some l m (some (a, q)) rest e =
    let (r, added, same) = map-some _ (add_packet l.outbox a) (m, rest) e in
    (
      a,
      ap (λ (x : PerfectLink × Queue Addressed). some (a, x.1)) same,
      r,
      added,
      sym (ap (λ (x : PerfectLink × Queue Addressed). x.0) same),
    )

-- A round of `addPacketsToOutBox` puts the oldest packet of its queue into the box.
pub fill_outbox-some :
    (v w : Node)
    → fill_outbox v ≡ some w
    → (a : Addressed) × (q : Queue Addressed) × (pop v.packets_to_send ≡ some (a, q))
      × (o : OutBox) × (add_packet v.link.outbox a ≡ some o)
      × (record v { link = record v.link { outbox = o }; packets_to_send = q } ≡ w)
unfolding fill_outbox add_packets_to_outbox
fill_outbox-some v w e =
    let ((l, q), filled, same) = map-some _ (insert_popped v.link (pop v.packets_to_send)) w e in
    let (a, popped, o, added, changed) =
      insert_popped-some v.link l (pop v.packets_to_send) q filled in
    (
      a,
      q,
      popped,
      o,
      added,
      sym (ap (λ m. record v { link = m; packets_to_send = q }) changed) ∙ same,
    )

-- `Known` is what holds of the packets that are handed over and sent, `Sent` of those that the
-- process takes or delivers, each with its destination.
module _ (Known Sent : Addressed → Type 0) (i : ℕ) where
  abbrev pub here : Packet → Addressed
  here p = record { packet = p; dest_proc_id = i }

  abbrev InHand : Processor → Type 0
  InHand idle = Unit {0}
  InHand (acking p) = Sent (here p)
  InHand (delivering p) = Sent (here p)

  pub record IsNode (v : Node) : Type 0 where
    pub id : v.link.process_id ≡ i
    pub queued : All Known v.packets_to_send.items
    pub boxed : Contents Known v.link.outbox
    pub acks : All Known v.acks_to_send.items
    pub received : All (λ p. Known (here p)) v.received_packets.items
    pub taken : InHand v.processor

  pub node-IsNode : (indeterminate : ℕ) → IsNode (node i indeterminate)
  unfolding node PerfectLink.start empty
  node-IsNode indeterminate = record {
    id = refl;
    queued = tt;
    boxed = create-Contents Known indeterminate;
    acks = tt;
    received = tt;
    taken = tt;
  }

  -- what a round keeps
  abbrev pub Kept : Node → Node → Type 0
  Kept v w = IsNode w × Later v w

  pub send-Kept : (v w : Node) (a : Addressed) → IsNode v → Known a → send v a ≡ some w → Kept v w
  unfolding send
  send-Kept v w a h k e =
      let (q, pushed, same) = map-some _ (push v.packets_to_send a) w e in
      subst (Kept v) same (
        record {
          id = h.id;
          queued = push-All Known v.packets_to_send q a h.queued k pushed;
          boxed = h.boxed;
          acks = h.acks;
          received = h.received;
          taken = h.taken;
        },
        λ p s n d. d,
      )

  pub listen-Kept :
      (v w : Node) (p : Packet) → IsNode v → Known (here p) → listen v p ≡ some w → Kept v w
  unfolding listen
  listen-Kept v w p h k e =
      let (q, pushed, same) = map-some _ (push v.received_packets p) w e in
      subst (Kept v) same (
        record {
          id = h.id;
          queued = h.queued;
          boxed = h.boxed;
          acks = h.acks;
          received = push-All (λ p. Known (here p)) v.received_packets q p h.received k pushed;
          taken = h.taken;
        },
        λ p s n d. d,
      )

  pub send_acks-Kept :
      (v w : Node) (a : Addressed) → IsNode v → send_acks v ≡ some (a, w) → Known a × Kept v w
  unfolding send_acks
  send_acks-Kept v w a h e =
      let ((b, q), popped, same) = map-some _ (pop v.acks_to_send) (a, w) e in
      let (known, others) = pop-All Known v.acks_to_send q b h.acks popped in
      subst (λ (r : Addressed × Node). Known r.0 × Kept v r.1) same
        (
          known,
          (
            record {
              id = h.id;
              queued = h.queued;
              boxed = h.boxed;
              acks = others;
              received = h.received;
              taken = h.taken;
            },
            λ p s n d. d,
          ),
        )

  pub fill_outbox-Kept : (v w : Node) → IsNode v → fill_outbox v ≡ some w → Kept v w
  unfolding fill_outbox add_packets_to_outbox was_delivered
  fill_outbox-Kept v w h e =
      let ((l, q), filled, same) = map-some _ (insert_popped v.link (pop v.packets_to_send)) w e in
      let (a, popped, r, added, changed) =
        insert_popped-some v.link l (pop v.packets_to_send) q filled in
      let (known, others) = pop-All Known v.packets_to_send q a h.queued popped in
      subst (Kept v) same (
        subst (λ l. Kept v (record v { link = l; packets_to_send = q })) (sym changed)
          (
            record {
              id = h.id;
              queued = others;
              boxed = add_packet-Contents Known v.link.outbox r a h.boxed known added;
              acks = h.acks;
              received = h.received;
              taken = h.taken;
            },
            λ p s n d. d,
          ))

  pub pop_received-Kept :
      ((p : Packet) → p.is_ack ≡ false → Known (here p) → Sent (here p))
      → (v w : Node) → IsNode v
      → v.processor ≡ idle
      → pop_received v ≡ some w
      → Kept v w
  unfolding pop_received take_received remove_acked was_delivered
  pop_received-Kept known v w h at_pop e =
      let ((p, q), popped, same) = map-some _ (pop v.received_packets) w e in
      let (first, others) =
        pop-All (λ p. Known (here p)) v.received_packets q p h.received popped in
      subst (Kept v) same (elim (Bool-cases p.is_ack) [
        | inl ack ↦ rw ack (
          record {
            id = h.id;
            queued = h.queued;
            boxed =
                remove_packet-Contents Known v.link.outbox p.process_id p.source_id p.packet_seq_num
                  h.boxed;
            acks = h.acks;
            received = others;
            taken = h.taken;
          },
          λ a b c d. d,
        )
        | inr message ↦ rw message (
          record {
            id = h.id;
            queued = h.queued;
            boxed = h.boxed;
            acks = h.acks;
            received = others;
            taken = known p message first;
          },
          λ a b c d. subst (λ r. (was_delivered v.link a b c || in_hand a b c r) ≡ true) at_pop d,
        )
      ])

  pub push_ack_of-Kept :
      (v w : Node) (p : Packet)
      → IsNode v
      → v.processor ≡ acking p
      → Known (ack_of v.link p)
      → push_ack_of v p ≡ some w
      → Kept v w
  unfolding push_ack_of
  push_ack_of-Kept v w p h at_ack k e =
      let (q, pushed, same) = map-some _ (push v.acks_to_send (ack_of v.link p)) w e in
      subst (Kept v) same (
        record {
          id = h.id;
          queued = h.queued;
          boxed = h.boxed;
          acks = push-All Known v.acks_to_send q (ack_of v.link p) h.acks k pushed;
          received = h.received;
          taken = subst InHand at_ack h.taken;
        },
        λ a b c d.
            or_left (was_delivered v.link a b c) _
              (subst (λ r. (was_delivered v.link a b c || in_hand a b c r) ≡ true) at_ack d),
      )

  pub push_ack_of-delivering :
      (v w : Node) (p : Packet) → push_ack_of v p ≡ some w → w.processor ≡ delivering p
  unfolding push_ack_of
  push_ack_of-delivering v w p e =
      let (q, pushed, same) = map-some _ (push v.acks_to_send (ack_of v.link p)) w e in
      sym (ap (λ (u : Node). u.processor) same)

  pub deliver_new-Kept :
      (v : Node) (p : Packet)
      → IsNode v
      → v.processor ≡ delivering p
      → Kept v (deliver_new v p).0 × All Sent (to_process i (deliver_new v p).1)
  unfolding deliver_new to_process mark_delivered
  deliver_new-Kept v p h at_delivery =
      let sent : Sent (here p) = subst InHand at_delivery h.taken in
      elim (Bool-cases (was_delivered v.link p.process_id p.source_id p.packet_seq_num)) [
        | inl before ↦ rw before (
          (
            record {
              id = h.id;
              queued = h.queued;
              boxed = h.boxed;
              acks = h.acks;
              received = h.received;
              taken = tt;
            },
            λ a b c d.
                known_before v.link p a b c before (
                  subst (λ r. (was_delivered v.link a b c || in_hand a b c r) ≡ true) at_delivery
                    d),
          ),
          tt,
        )
        | inr first ↦ rw first (
          (
            record {
              id = h.id;
              queued = h.queued;
              boxed = h.boxed;
              acks = h.acks;
              received = h.received;
              taken = tt;
            },
            λ a b c d.
                known_after v.link p a b c (
                  subst (λ r. (was_delivered v.link a b c || in_hand a b c r) ≡ true) at_delivery
                    d),
          ),
          (sent, tt),
        )
      ]

module _ (Known Sent Known1 Sent1 : Addressed → Type 0) (i : ℕ) where
  InHand-map :
      ((a : Addressed) → Sent a → Sent1 a)
      → (r : Processor) → InHand Known Sent i r
      → InHand Known1 Sent1 i r
  InHand-map f idle h = tt
  InHand-map f (acking p) h = f _ h
  InHand-map f (delivering p) h = f _ h

  pub IsNode-map :
      ((a : Addressed) → Known a → Known1 a)
      → ((a : Addressed) → Sent a → Sent1 a)
      → (v : Node) → IsNode Known Sent i v
      → IsNode Known1 Sent1 i v
  IsNode-map f g v h = record {
    id = h.id;
    queued = All-map f v.packets_to_send.items h.queued;
    boxed = Contents-map Known Known1 f v.link.outbox h.boxed;
    acks = All-map f v.acks_to_send.items h.acks;
    received = All-map (λ p. f _) v.received_packets.items h.received;
    taken = InHand-map g v.processor h.taken;
  }
