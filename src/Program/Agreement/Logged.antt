-- ===== src/Program/Agreement/Logged.antt =====
-- From the delivery by uniform reliable broadcast to the line of the delivery in the log.
use localized_causal_broadca.Prelude.{
  ℕ, ◌/◌, ◌<◌, ◌≡◌, sym, subst, true, List, [], ◌∷◌, ◌++◌, length, word_size, Option, none, some,
  All, All-append, All-map, bind-some, update, update_all, ◌==◌, Bool-cases, inl, inr,
}
use localized_causal_broadca.Containers.Set.{NumSet, member, size, IsSorted}
use localized_causal_broadca.VectorClock.Access.{IsProcess}
use localized_causal_broadca.Packet.{Packet}
use localized_causal_broadca.OutBox.{Addressed}
use localized_causal_broadca.UniformReliableBroadcast
use localized_causal_broadca.UniformReliableBroadcast.{
  Urb, Action, is_delivered, first_section, second_section,
}
use localized_causal_broadca.UniformReliableBroadcast.Uniform.{is_known}
use localized_causal_broadca.CausalBroadcast.{Event, logs_broadcast, broadcasts, logs_delivered}
use localized_causal_broadca.Program.{
  Process, process, hand_over, broadcast_all, Step, runs_thread, urb_pops, urb_delivers, beb_pops,
  beb_delivers, settles, begins_half, sends, fills, transmits, transmits_ack, pops, acknowledges,
  link_delivers, Run, begin, steps, arrives,
}
use localized_causal_broadca.Program.Carried.{HeldHas, hand_over-urb}
use localized_causal_broadca.Program.System.{start, Run-runs}
use localized_causal_broadca.Program.Agreement.Steps.{Step-stable}
use localized_causal_broadca.Queue.{push, empty}
use localized_causal_broadca.Queue.Contents.{push-All, pop-All}
use localized_causal_broadca.BestEffortBroadcast
use localized_causal_broadca.BestEffortBroadcast.{re_broadcast}
use localized_causal_broadca.UniformReliableBroadcast.{re_broadcasts, delivers}
use localized_causal_broadca.UniformReliableBroadcast.Known.{
  is_delivered-Stable, HasDelivered, OfDelivery, first_section-OfDelivery,
  second_section-OfDelivery,
}
use localized_causal_broadca.Program.Agreement.{Run-agreement}
use localized_causal_broadca.CausalBroadcast.Histories.{OccursAfter}
use localized_causal_broadca.CausalBroadcast.Invariant.Arrivals.{
  Delivered, Run-Delivered, Delivered-at,
}

OfDelivery-map :
    {D E : Packet → Type 0}
    → ((q : Packet) → D q → E q)
    → (actions : List Action) → All (OfDelivery D) actions
    → All (OfDelivery E) actions
OfDelivery-map f [] h = tt
OfDelivery-map f (re_broadcasts q ∷ more) (h, hs) = (tt, OfDelivery-map f more hs)
OfDelivery-map f (Action.broadcasts q ∷ more) (h, hs) = (tt, OfDelivery-map f more hs)
OfDelivery-map f (delivers q ∷ more) (h, hs) = (f q h, OfDelivery-map f more hs)

-- What is on its way from uniform reliable broadcast to causal broadcast has `D`.
module _ (D : Packet → Type 0) where
  record Passed (p : Process) : Type 0 where
    queued : All D p.urb_packets_to_deliver.items
    popped : HeldHas D 0 p.urb_popped

  hand_over-Passed :
      (actions : List Action) (p v : Process)
      → Passed p
      → All (OfDelivery D) actions
      → hand_over actions p ≡ some v
      → Passed v
  unfolding hand_over
  hand_over-Passed [] p v h k e = subst Passed (let same : p ≡ v = cc in same) h
  hand_over-Passed (re_broadcasts q ∷ more) p v h (k, ks) e =
      let (b, _, rest) = bind-some _ (re_broadcast p.beb q) v e in
      hand_over-Passed more (record p { beb = b }) v
        (record { queued = h.queued; popped = h.popped }) ks rest
  hand_over-Passed (Action.broadcasts q ∷ more) p v h (k, ks) e =
      let (b, _, rest) = bind-some _ (BestEffortBroadcast.broadcast p.beb q) v e in
      hand_over-Passed more (record p { beb = b }) v
        (record { queued = h.queued; popped = h.popped }) ks rest
  hand_over-Passed (delivers q ∷ more) p v h (k, ks) e =
      let (waiting, pushed, rest) = bind-some _ (push p.urb_packets_to_deliver q) v e in
      hand_over-Passed more (record p { urb_packets_to_deliver = waiting }) v
        (record {
          queued = push-All D p.urb_packets_to_deliver waiting q h.queued k pushed;
          popped = h.popped;
        })
        ks rest

  broadcast_all-Passed :
      (events : List Event) (p v : Process) → Passed p → broadcast_all events p ≡ some v → Passed v
  unfolding broadcast_all UniformReliableBroadcast.broadcast
  broadcast_all-Passed [] p v h e = subst Passed (let same : p ≡ v = cc in same) h
  broadcast_all-Passed (logs_broadcast q ∷ more) p v h e = broadcast_all-Passed more p v h e
  broadcast_all-Passed (logs_delivered q ∷ more) p v h e = broadcast_all-Passed more p v h e
  broadcast_all-Passed (broadcasts q ∷ more) p v h e =
      let changed = record p { urb = UniformReliableBroadcast.add_pending p.urb q } in
      let handed = hand_over (Action.broadcasts q ∷ []) changed in
      let (w, handed_over, rest) = bind-some (broadcast_all more) handed v e in
      broadcast_all-Passed more w v
        (hand_over-Passed (Action.broadcasts q ∷ []) changed w
          (record { queued = h.queued; popped = h.popped }) (tt, tt) handed_over)
        rest

  -- A step passes on what it was handed, and what it delivers anew.
  Step-Passed :
      {p v : Process} {events : List Event} {ps : List Packet} {more : List Addressed}
      → Step p v events ps more
      → ((q : Packet) → HasDelivered v.urb q → D q)
      → Passed p
      → Passed v × All D ps
  Step-Passed (runs_thread {p = p} {v = v} {c = c} {t = t} {events = events} may step e) f h =
      let next = record p { causal_broadcast = c; thread = t } in
      (broadcast_all-Passed events next v (record { queued = h.queued; popped = h.popped }) e, tt)
  Step-Passed (urb_pops {p = p} {q = q} {rest = rest} free popped) f h =
      let (first, others) = pop-All D p.urb_packets_to_deliver rest q h.queued popped in
      (record { queued = others; popped = first }, tt)
  Step-Passed (urb_delivers busy at step) f h =
      (record { queued = h.queued; popped = tt }, (subst (HeldHas D 0) at h.popped, tt))
  Step-Passed
        (beb_delivers {p = p} {v = v} {u = u} {q = q} {r = r} {actions = actions} at free step e) f
        h =
      (
        hand_over-Passed actions (record p { urb = u; beb_popped = none; held = some r }) v
            (record { queued = h.queued; popped = h.popped })
            (first_section-OfDelivery D p.urb u q r actions step) e,
        tt,
      )
  Step-Passed (settles {p = p} {v = v} {q = q} at e) f h =
      let (u, actions) = second_section p.urb q in
      let next = record p { urb = u; held = none } in
      (
        hand_over-Passed actions next v (record { queued = h.queued; popped = h.popped })
            (OfDelivery-map
              (λ r done.
                f r (subst (λ w. HasDelivered w r) (sym (hand_over-urb actions next v e)) done))
              actions (second_section-OfDelivery p.urb q))
            e,
        tt,
      )
  Step-Passed (beb_pops free settled popped) f h =
      (record { queued = h.queued; popped = h.popped }, tt)
  Step-Passed (begins_half free e) f h = (record { queued = h.queued; popped = h.popped }, tt)
  Step-Passed (sends at e) f h = (record { queued = h.queued; popped = h.popped }, tt)
  Step-Passed (fills e) f h = (record { queued = h.queued; popped = h.popped }, tt)
  Step-Passed transmits f h = (h, tt)
  Step-Passed (transmits_ack e) f h = (record { queued = h.queued; popped = h.popped }, tt)
  Step-Passed (pops at e) f h = (record { queued = h.queued; popped = h.popped }, tt)
  Step-Passed (acknowledges at e) f h = (record { queued = h.queued; popped = h.popped }, tt)
  Step-Passed (link_delivers at e) f h = (record { queued = h.queued; popped = h.popped }, tt)

module _ (D E : Packet → Type 0) (f : (q : Packet) → D q → E q) where
  Passed-map : (p : Process) → Passed D p → Passed E p
  Passed-map p h = record {
    queued = All-map f p.urb_packets_to_deliver.items h.queued;
    popped = popped_map p.urb_popped h.popped;
  }
    where
      popped_map : (o : Option Packet) → HeldHas D 0 o → HeldHas E 0 o
      popped_map none h = tt
      popped_map (some q) h = f q h

-- What reached the causal broadcast, and what is on its way there, the process has delivered.
record Traced (p : Process) (arrived : List Packet) : Type 0 where
  passed : Passed (HasDelivered p.urb) p
  reached : All (HasDelivered p.urb) arrived

Step-Traced :
    {p v : Process} {events : List Event} {ps arrived : List Packet} {more : List Addressed}
    → Step p v events ps more
    → Traced p arrived
    → Traced v (arrived ++ ps)
Step-Traced {p} {v} {ps = ps} {arrived = arrived} step h =
    let D = HasDelivered v.urb in
    let later : (q : Packet) → HasDelivered p.urb q → D q = λ q.
      Step-stable (λ u. HasDelivered u q) (is_delivered-Stable q.source_id q.packet_seq_num) step in
    let (passed, handed) =
      Step-Passed D step (λ q done. done) (Passed-map (HasDelivered p.urb) D later p h.passed) in
    record {
      passed = passed;
      reached = All-append D arrived ps (All-map later arrived h.reached) handed;
    }

update-Traced :
    (all : ℕ → Process) (arrived : ℕ → List Packet) (v : Process) (ps : List Packet) (i j : ℕ)
    → Traced v ps
    → Traced (all j) (arrived j)
    → Traced (update i v all j) (update i ps arrived j)
unfolding update
update-Traced all arrived v ps i j changed kept = elim (Bool-cases (j == i)) [
  | inl same ↦ rw same changed
  | inr other ↦ rw other kept
]

module _ (hosts : List ℕ) (num_messages : ℕ → ℕ) (locality : ℕ → NumSet)
    (indeterminate : ℕ → ℕ) where
  Run-Traced :
      {all : ℕ → Process} {history : ℕ → List Event} {arrived : ℕ → List Packet}
      {wire : List Addressed}
      → Run
          (length hosts)
          (start hosts num_messages locality indeterminate)
          all
          history
          arrived
          wire
      → (i : ℕ) → Traced (all i) (arrived i)
  unfolding process empty
  Run-Traced begin i = record { passed = record { queued = tt; popped = tt }; reached = tt }
  Run-Traced (steps {all = all} {arrived = arrived} {v = v} {ps = ps} j r known step) i =
      update-Traced all arrived v (arrived j ++ ps) j i (Step-Traced step (Run-Traced r j))
        (Run-Traced r i)
  Run-Traced (arrives {all = all} {arrived = arrived} {l = l} a r known sent e) i =
      let before = Run-Traced r a.dest_proc_id in
      update_all (λ j p. Traced p (arrived j)) a.dest_proc_id
        (record (all a.dest_proc_id) { link = l }) all i
        (record {
          passed = record { queued = before.passed.queued; popped = before.passed.popped };
          reached = before.reached;
        })
        (Run-Traced r i)

  -- In any run of a system of processes with all of their layers, on a network that loses, delays
  -- and repeats datagrams, where a size_t can count the hosts: if one process has delivered a
  -- packet of the causal broadcast, then there are more than half of the processes whose uniform
  -- reliable broadcast knows it: it is pending there, or delivered.
  pub Run-uniform_delivery :
      {all : ℕ → Process} {history : ℕ → List Event} {arrived : ℕ → List Packet}
      {wire : List Addressed} (i : ℕ) (before : List Event) (p : Packet)
      → length hosts < word_size
      → Run
          (length hosts)
          (start hosts num_messages locality indeterminate)
          all
          history
          arrived
          wire
      → IsProcess (length hosts) i
      → OccursAfter before (logs_delivered p) (history i)
      → (senders : NumSet) × IsSorted senders
        × (length hosts / 2 < size senders)
        × ((x : ℕ)
            → member x senders ≡ true
            → IsProcess (length hosts) x
              × (is_known p.source_id p.packet_seq_num (all x).urb ≡ true))
  Run-uniform_delivery {all} i before p small r known (after, e) =
      let D = HasDelivered (all i).urb in
      let run = Run-runs hosts num_messages locality indeterminate small r i known in
      let delivered =
        Run-Delivered D i (num_messages i) hosts (locality i) run (Run-Traced r i).reached in
      Run-agreement hosts num_messages locality indeterminate i p.source_id p.packet_seq_num small r
        known (Delivered-at D before p after (subst (Delivered D) e delivered))
