-- ===== src/Program/Carried/Steps.antt =====
-- The steps of a process keep what its packets have.
use localized_causal_broadca.Prelude.{ℕ, subst, List, Option, none, some, All, All-map, ◌≡◌, ok}
use localized_causal_broadca.Containers.Set.{NumSet}
use localized_causal_broadca.Packet.{Packet}
use localized_causal_broadca.Queue.{empty}
use localized_causal_broadca.Queue.Contents.{pop-All}
use localized_causal_broadca.OutBox.{Addressed}
use localized_causal_broadca.OutBox.Contents.{send_packets-All}
use localized_causal_broadca.PerfectLink.Threads.{deliver_new}
use localized_causal_broadca.PerfectLink.Threads.Rounds.{
  IsNode-map, node-IsNode, send-Kept, send_acks-Kept, fill_outbox-Kept, pop_received-Kept,
  push_ack_of-Kept, deliver_new-Kept,
}
use localized_causal_broadca.BestEffortBroadcast.Packets.{broadcast_half-Packets}
use localized_causal_broadca.UniformReliableBroadcast.{Urb, Action, first_section, second_section}
use localized_causal_broadca.UniformReliableBroadcast.Packets.{OfAction, second_section-kept}
use localized_causal_broadca.CausalBroadcast.{Event}
use localized_causal_broadca.CausalBroadcast.Invariant.Shape.{Own}
use localized_causal_broadca.Program.{
  Process, process, Step, runs_thread, urb_pops, urb_delivers, beb_pops, beb_delivers, settles,
  begins_half, sends, fills, transmits, transmits_ack, pops, acknowledges, link_delivers,
}
use localized_causal_broadca.Program.Carried.{
  Known, Sent, HeldHas, Carries, hand_over-Carries, hand_over-urb, broadcast_all-Carries,
  push_all-All, to_process-All, with_link,
}

module _ (P : Packet → Type 0) (i : ℕ) where
  -- What a step leaves, what it hands to the causal broadcast, and what it sends.
  abbrev pub Stepped : Process → List Packet → List Addressed → Type 0
  Stepped v ps more = Carries P i v × All P ps × All (Known P i) more

  -- What the first section makes of a packet has it, in a step from `p` to `v`.
  abbrev pub Forwards : Process → Process → Type 0
  Forwards p v =
      (u : Urb) (q r : Packet) (actions : List Action)
      → first_section p.urb q ≡ ok (u, r, actions)
      → v.urb ≡ u
      → P q
      → P r × All (OfAction P) actions

  pub Step-Carries :
      {p v : Process} {events : List Event} {ps : List Packet} {more : List Addressed}
      → Forwards p v
      → Step p v events ps more
      → Carries P i p
      → Own P events
      → Stepped v ps more
  Step-Carries kept (runs_thread {p = p} {v = v} {c = c} {t = t} {events = events} may step e) h
        own =
      let carried : Carries P i (record p { causal_broadcast = c; thread = t }) = record {
        linked = h.linked;
        sending = h.sending;
        beb = h.beb;
        arrived = h.arrived;
        held = h.held;
        beb_popped = h.beb_popped;
        urb_popped = h.urb_popped;
        delivered = h.delivered;
      } in
      (
        broadcast_all-Carries P i events (record p { causal_broadcast = c; thread = t }) v carried
            own e,
        tt,
        tt,
      )
  Step-Carries kept (urb_pops {p = p} {q = q} {rest = rest} free popped) h own =
      let (first, others) = pop-All P p.urb_packets_to_deliver rest q h.delivered popped in
      (
        record {
          linked = h.linked;
          sending = h.sending;
          beb = h.beb;
          arrived = h.arrived;
          held = h.held;
          beb_popped = h.beb_popped;
          urb_popped = first;
          delivered = others;
        },
        tt,
        tt,
      )
  Step-Carries kept (urb_delivers {p = p} {q = q} busy at step) h own = (
    record {
      linked = h.linked;
      sending = h.sending;
      beb = h.beb;
      arrived = h.arrived;
      held = h.held;
      beb_popped = h.beb_popped;
      urb_popped = tt;
      delivered = h.delivered;
    },
    (subst (HeldHas P i) at h.urb_popped, tt),
    tt,
  )
  Step-Carries kept (beb_pops {p = p} {q = q} {rest = rest} free settled popped) h own =
      let (first, others) = pop-All P p.beb_packets_to_deliver rest q h.arrived popped in
      (
        record {
          linked = h.linked;
          sending = h.sending;
          beb = h.beb;
          arrived = others;
          held = h.held;
          beb_popped = first;
          urb_popped = h.urb_popped;
          delivered = h.delivered;
        },
        tt,
        tt,
      )
  Step-Carries kept
        (beb_delivers {p = p} {v = v} {u = u} {q = q} {r = r} {actions = actions} at free step e) h
        own =
      let first : P q = subst (HeldHas P i) at h.beb_popped in
      let next = record p { urb = u; beb_popped = none; held = some r } in
      let (on, done) = kept u q r actions step (hand_over-urb actions next v e) first in
      let carried : Carries P i next = record {
        linked = h.linked;
        sending = h.sending;
        beb = h.beb;
        arrived = h.arrived;
        held = on;
        beb_popped = tt;
        urb_popped = h.urb_popped;
        delivered = h.delivered;
      } in
      (hand_over-Carries P i actions next v carried done e, tt, tt)
  Step-Carries kept (settles {p = p} {v = v} {q = q} at e) h own =
      let held : (HeldHas P i) (some q) = subst (HeldHas P i) at h.held in
      let after = second_section p.urb q in
      let carried : Carries P i (record p { urb = after.0; held = none }) = record {
        linked = h.linked;
        sending = h.sending;
        beb = h.beb;
        arrived = h.arrived;
        held = tt;
        beb_popped = h.beb_popped;
        urb_popped = h.urb_popped;
        delivered = h.delivered;
      } in
      (
        hand_over-Carries P i after.1 (record p { urb = after.0; held = none }) v carried
            (second_section-kept P p.urb q held) e,
        tt,
        tt,
      )
  Step-Carries kept (begins_half {p = p} {b = b} {next = next} {sends = more} free e) h own =
      let (packets, sent) = broadcast_half-Packets P p.beb b p.turn next more h.beb e in
      (
        record {
          linked = h.linked;
          sending = sent;
          beb = packets;
          arrived = h.arrived;
          held = h.held;
          beb_popped = h.beb_popped;
          urb_popped = h.urb_popped;
          delivered = h.delivered;
        },
        tt,
        tt,
      )
  Step-Carries kept (sends {p = p} {l = l} {a = a} {rest = rest} at e) h own =
      let (first, others) = subst (All (Sent P i)) at h.sending in
      (
        record {
          linked = (send-Kept (Known P i) (Sent P i) i p.link l a h.linked (λ m. first) e).0;
          sending = others;
          beb = h.beb;
          arrived = h.arrived;
          held = h.held;
          beb_popped = h.beb_popped;
          urb_popped = h.urb_popped;
          delivered = h.delivered;
        },
        tt,
        tt,
      )
  Step-Carries kept (fills {p = p} {l = l} e) h own = (
    with_link P i p l h (fill_outbox-Kept (Known P i) (Sent P i) i p.link l h.linked e).0,
    tt,
    tt,
  )
  Step-Carries kept (transmits {p = p}) h own =
      (h, tt, send_packets-All (Known P i) p.link.link.outbox h.linked.boxed)
  Step-Carries kept (transmits_ack {p = p} {l = l} {a = a} e) h own =
      let (known, keeps) = send_acks-Kept (Known P i) (Sent P i) i p.link l a h.linked e in
      (with_link P i p l h keeps.0, tt, (known, tt))
  Step-Carries kept (pops {p = p} {l = l} at e) h own = (
    with_link P i p l h
        (pop_received-Kept (Known P i) (Sent P i) i (λ q message k. k message) p.link l h.linked at
          e).0,
    tt,
    tt,
  )
  Step-Carries kept (acknowledges {p = p} {l = l} {q = q} at e) h own = (
    with_link P i p l h
        (push_ack_of-Kept (Known P i) (Sent P i) i p.link l q h.linked at (λ m. cc) e).0,
    tt,
    tt,
  )
  Step-Carries kept (link_delivers {p = p} {q = q} {waiting = waiting} at e) h own =
      let (keeps, sent) = deliver_new-Kept (Known P i) (Sent P i) i p.link q h.linked at in
      let delivered = to_process-All P i (deliver_new p.link q).1 sent in
      (
        record {
          linked = keeps.0;
          sending = h.sending;
          beb = h.beb;
          arrived =
              push_all-All P i p.beb_packets_to_deliver waiting (deliver_new p.link q).1 h.arrived
                delivered e;
          held = h.held;
          beb_popped = h.beb_popped;
          urb_popped = h.urb_popped;
          delivered = h.delivered;
        },
        tt,
        tt,
      )

  pub process-Carries :
      (num_messages : ℕ) (hosts : List ℕ) (locality : NumSet) (indeterminate : ℕ)
      → Carries P i (process i num_messages hosts locality indeterminate)
  unfolding process empty
  process-Carries m hosts locality f = record {
    linked = node-IsNode (Known P i) (Sent P i) i f;
    sending = tt;
    beb = record { own = tt; others = tt };
    arrived = tt;
    held = tt;
    beb_popped = tt;
    urb_popped = tt;
    delivered = tt;
  }

module _ (P Q : Packet → Type 0) (i : ℕ) where
  HeldHas-map : ((q : Packet) → P q → Q q) → (o : Option Packet) → HeldHas P i o → HeldHas Q i o
  HeldHas-map f none h = tt
  HeldHas-map f (some q) h = f q h

  pub Carries-map : ((q : Packet) → P q → Q q) → (p : Process) → Carries P i p → Carries Q i p
  Carries-map f p h = record {
    linked =
        IsNode-map (Known P i) (Sent P i) (Known Q i) (Sent Q i) i (λ a k m. f a.packet (k m))
          (λ a. f a.packet) p.link h.linked;
    sending = All-map (λ a. f a.packet) p.sending h.sending;
    beb = record {
      own = All-map f p.beb.packets_to_broadcast.items h.beb.own;
      others = All-map f p.beb.packets_to_re_broadcast.items h.beb.others;
    };
    arrived = All-map f p.beb_packets_to_deliver.items h.arrived;
    held = HeldHas-map f p.held h.held;
    beb_popped = HeldHas-map f p.beb_popped h.beb_popped;
    urb_popped = HeldHas-map f p.urb_popped h.urb_popped;
    delivered = All-map f p.urb_packets_to_deliver.items h.delivered;
  }
