-- ===== src/Program/Carried.antt =====
-- What the packets of a process have, through all of its layers, and the calls between them.
pub mod Steps
use mathlib.Core.Option
use localized_causal_broadca.Prelude.{
  ℕ, ◌≡◌, refl, sym, ap, ap₂, ◌∙◌, subst, true, false, List, [], ◌∷◌, ◌++◌, length, Option, none,
  some, ok, All, All-append, All-map, map-some, bind-some,
}
use localized_causal_broadca.Containers.Set.{NumSet}
use localized_causal_broadca.Packet.{Packet}
use localized_causal_broadca.Queue.{Queue, push, pop, empty}
use localized_causal_broadca.Queue.Contents.{push-All, pop-All}
use localized_causal_broadca.OutBox.{Addressed, send_packets}
use localized_causal_broadca.OutBox.Contents.{send_packets-All}
use localized_causal_broadca.PerfectLink.Threads
use localized_causal_broadca.PerfectLink.Threads.{Node, node, deliver_new, to_process}
use localized_causal_broadca.PerfectLink.Threads.Rounds.{
  here, IsNode, IsNode-map, node-IsNode, Kept, send-Kept, listen-Kept, send_acks-Kept,
  fill_outbox-Kept, pop_received-Kept, push_ack_of-Kept, deliver_new-Kept,
}
use localized_causal_broadca.BestEffortBroadcast
use localized_causal_broadca.BestEffortBroadcast.{BestEffortBroadcast, re_broadcast, broadcast_half}
use localized_causal_broadca.BestEffortBroadcast.Packets.{
  Packets, Sends, broadcast-Packets, re_broadcast-Packets, broadcast_half-Packets,
}
use localized_causal_broadca.UniformReliableBroadcast
use localized_causal_broadca.UniformReliableBroadcast.{
  Urb, Action, re_broadcasts, delivers, first_section, second_section,
}
use localized_causal_broadca.UniformReliableBroadcast.Packets.{
  KeptByRename, OfAction, first_section-kept, second_section-kept,
}
use localized_causal_broadca.CausalBroadcast.{
  CausalBroadcast, Event, logs_broadcast, broadcasts, logs_delivered,
}
use localized_causal_broadca.CausalBroadcast.Steps.{Thread}
use localized_causal_broadca.CausalBroadcast.Invariant.Shape.{Own}
use localized_causal_broadca.Program.{
  Process, process, hand_over, broadcast_all, push_all, Step, runs_thread, urb_delivers,
  beb_delivers, settles, begins_half, sends, fills, transmits, transmits_ack, pops, acknowledges,
  link_delivers,
}

-- The calls of the queues change the queues only.
pub hand_over-changes :
    (actions : List Action) (p v : Process)
    → hand_over actions p ≡ some v
    → (b : BestEffortBroadcast) × (waiting : Queue Packet) × (v
        ≡ record p { beb = b; urb_packets_to_deliver = waiting })
unfolding hand_over
hand_over-changes [] p v e = (p.beb, p.urb_packets_to_deliver, let same : v ≡ p = cc in same)
hand_over-changes (re_broadcasts q ∷ more) p v e =
    let (b, _, rest) = bind-some _ (re_broadcast p.beb q) v e in
    hand_over-changes more (record p { beb = b }) v rest
hand_over-changes (Action.broadcasts q ∷ more) p v e =
    let (b, _, rest) = bind-some _ (BestEffortBroadcast.broadcast p.beb q) v e in
    hand_over-changes more (record p { beb = b }) v rest
hand_over-changes (delivers q ∷ more) p v e =
    let (waiting, _, rest) = bind-some _ (push p.urb_packets_to_deliver q) v e in
    hand_over-changes more (record p { urb_packets_to_deliver = waiting }) v rest

pub hand_over-urb :
    (actions : List Action) (p v : Process) → hand_over actions p ≡ some v → v.urb ≡ p.urb
hand_over-urb actions p v e =
    let (_, _, same) = hand_over-changes actions p v e in ap (λ (w : Process). w.urb) same

pub hand_over-held :
    (actions : List Action) (p v : Process) → hand_over actions p ≡ some v → v.held ≡ p.held
hand_over-held actions p v e =
    let (_, _, same) = hand_over-changes actions p v e in ap (λ (w : Process). w.held) same

-- `P` is what the packets have that are no acknowledgements.
module _ (P : Packet → Type 0) (i : ℕ) where
  abbrev pub Known : Addressed → Type 0
  Known a = a.packet.is_ack ≡ false → P a.packet

  abbrev pub Sent : Addressed → Type 0
  Sent a = P a.packet

  -- the packet between the sections has it
  abbrev pub HeldHas : Option Packet → Type 0
  HeldHas none = Unit {0}
  HeldHas (some q) = P q

  pub record Carries (p : Process) : Type 0 where
    pub linked : IsNode Known Sent i p.link
    pub sending : All Sent p.sending
    pub beb : Packets P p.beb
    pub arrived : All P p.beb_packets_to_deliver.items
    pub held : HeldHas p.held
    pub beb_popped : HeldHas p.beb_popped
    pub urb_popped : HeldHas p.urb_popped
    pub delivered : All P p.urb_packets_to_deliver.items

  pub hand_over-Carries :
      (actions : List Action) (p v : Process)
      → Carries p
      → All (OfAction P) actions
      → hand_over actions p ≡ some v
      → Carries v
  unfolding hand_over
  hand_over-Carries [] p v h k e = subst Carries (let same : p ≡ v = cc in same) h
  hand_over-Carries (re_broadcasts q ∷ more) p v h (k, ks) e =
      let (b, pushed, rest) = bind-some _ (re_broadcast p.beb q) v e in
      hand_over-Carries more (record p { beb = b }) v
        (record {
          linked = h.linked;
          sending = h.sending;
          beb = re_broadcast-Packets P p.beb b q h.beb k pushed;
          arrived = h.arrived;
          held = h.held;
          beb_popped = h.beb_popped;
          urb_popped = h.urb_popped;
          delivered = h.delivered;
        })
        ks rest
  hand_over-Carries (Action.broadcasts q ∷ more) p v h (k, ks) e =
      let (b, pushed, rest) = bind-some _ (BestEffortBroadcast.broadcast p.beb q) v e in
      hand_over-Carries more (record p { beb = b }) v
        (record {
          linked = h.linked;
          sending = h.sending;
          beb = broadcast-Packets P p.beb b q h.beb k pushed;
          arrived = h.arrived;
          held = h.held;
          beb_popped = h.beb_popped;
          urb_popped = h.urb_popped;
          delivered = h.delivered;
        })
        ks rest
  hand_over-Carries (delivers q ∷ more) p v h (k, ks) e =
      let (waiting, pushed, rest) = bind-some _ (push p.urb_packets_to_deliver q) v e in
      hand_over-Carries more (record p { urb_packets_to_deliver = waiting }) v
        (record {
          linked = h.linked;
          sending = h.sending;
          beb = h.beb;
          arrived = h.arrived;
          held = h.held;
          beb_popped = h.beb_popped;
          urb_popped = h.urb_popped;
          delivered = push-All P p.urb_packets_to_deliver waiting q h.delivered k pushed;
        })
        ks rest

  pub broadcast_all-Carries :
      (events : List Event) (p v : Process)
      → Carries p
      → Own P events
      → broadcast_all events p ≡ some v
      → Carries v
  unfolding broadcast_all UniformReliableBroadcast.broadcast
  broadcast_all-Carries [] p v h k e = subst Carries (let same : p ≡ v = cc in same) h
  broadcast_all-Carries (logs_broadcast q ∷ more) p v h k e = broadcast_all-Carries more p v h k e
  broadcast_all-Carries (logs_delivered q ∷ more) p v h k e = broadcast_all-Carries more p v h k e
  broadcast_all-Carries (broadcasts q ∷ more) p v h (k, ks) e =
      let changed = record p { urb = UniformReliableBroadcast.add_pending p.urb q } in
      let handed = hand_over (Action.broadcasts q ∷ []) changed in
      let (w, handed_over, rest) = bind-some (broadcast_all more) handed v e in
      let carried : Carries changed = record {
        linked = h.linked;
        sending = h.sending;
        beb = h.beb;
        arrived = h.arrived;
        held = h.held;
        beb_popped = h.beb_popped;
        urb_popped = h.urb_popped;
        delivered = h.delivered;
      } in
      broadcast_all-Carries more w v
        (hand_over-Carries (Action.broadcasts q ∷ []) changed w carried (k, tt) handed_over) ks rest

  pub push_all-All :
      (waiting rest : Queue Packet) (ps : List Packet)
      → All P waiting.items
      → All P ps
      → push_all waiting ps ≡ some rest
      → All P rest.items
  unfolding push_all
  push_all-All waiting rest [] h k e =
      subst (λ q. All P q.items) (let same : waiting ≡ rest = cc in same) h
  push_all-All waiting rest (q ∷ ps) h (k, ks) e =
      let (more, pushed, others) = bind-some (λ r. push_all r ps) (push waiting q) rest e in
      push_all-All more rest ps (push-All P waiting more q h k pushed) ks others

  pub to_process-All : (ps : List Packet) → All Sent (to_process i ps) → All P ps
  unfolding to_process
  to_process-All [] h = tt
  to_process-All (q ∷ ps) (h, hs) = (h, to_process-All ps hs)

  -- another link in a process
  pub with_link :
      (p : Process) (l : Node) → Carries p → IsNode Known Sent i l → Carries (record p { link = l })
  with_link p l h k = record {
    linked = k;
    sending = h.sending;
    beb = h.beb;
    arrived = h.arrived;
    held = h.held;
    beb_popped = h.beb_popped;
    urb_popped = h.urb_popped;
    delivered = h.delivered;
  }

  pub listen-Carries :
      (p : Process) (l : Node) (q : Packet)
      → Carries p
      → Known (here Known Sent i q)
      → Threads.listen p.link q ≡ some l
      → Carries (record p { link = l })
  listen-Carries p l q h k e = with_link p l h (listen-Kept Known Sent i p.link l q h.linked k e).0
