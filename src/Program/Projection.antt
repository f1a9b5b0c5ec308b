-- ===== src/Program/Projection.antt =====
-- The causal broadcast of a process, seen by itself.
use localized_causal_broadca.Prelude.{
  ◌≡◌, refl, ap, ◌∙◌, subst, List, [], ◌∷◌, ◌++◌, append-nil, none, some, bind-some,
}
use localized_causal_broadca.Packet.{Packet}
use localized_causal_broadca.OutBox.{Addressed}
use localized_causal_broadca.PerfectLink.Threads.{deliver_new}
use localized_causal_broadca.UniformReliableBroadcast
use localized_causal_broadca.UniformReliableBroadcast.{
  Action, re_broadcasts, delivers, second_section,
}
use localized_causal_broadca.CausalBroadcast.{
  CausalBroadcast, Event, logs_broadcast, broadcasts, logs_delivered,
}
use localized_causal_broadca.CausalBroadcast.Steps
use localized_causal_broadca.CausalBroadcast.Steps.{Thread, thread_step, send, receive}
use localized_causal_broadca.Program.Carried.{hand_over-changes}
use localized_causal_broadca.Program.{
  Process, hand_over, broadcast_all, Step, runs_thread, urb_pops, urb_delivers, beb_pops,
  beb_delivers, settles, begins_half, sends, fills, transmits, transmits_ack, pops, acknowledges,
  link_delivers,
}

-- the causal broadcast is as it was
abbrev Same : Process → Process → Type 0
Same p v = (v.causal_broadcast ≡ p.causal_broadcast) × (v.thread ≡ p.thread)

hand_over-Same : (actions : List Action) (p v : Process) → hand_over actions p ≡ some v → Same p v
hand_over-Same actions p v e =
    let (_, _, same) = hand_over-changes actions p v e in
    (ap (λ (w : Process). w.causal_broadcast) same, ap (λ (w : Process). w.thread) same)

broadcast_all-Same :
    (events : List Event) (p v : Process) → broadcast_all events p ≡ some v → Same p v
unfolding broadcast_all
broadcast_all-Same [] p v e = subst (Same p) (let same : p ≡ v = cc in same) (refl, refl)
broadcast_all-Same (logs_broadcast q ∷ more) p v e = broadcast_all-Same more p v e
broadcast_all-Same (logs_delivered q ∷ more) p v e = broadcast_all-Same more p v e
broadcast_all-Same (broadcasts q ∷ more) p v e =
    let (u, actions) = UniformReliableBroadcast.broadcast p.urb q in
    let (w, handed, rest) =
      bind-some (broadcast_all more) (hand_over actions (record p { urb = u })) v e in
    let (same, same') = hand_over-Same actions (record p { urb = u }) w handed in
    let (again, again') = broadcast_all-Same more w v rest in (again ∙ same, again' ∙ same')

module _ {first : CausalBroadcast} {arrived : List Packet} {before : List Event} where
  -- A step elsewhere leaves the run of the causal broadcast.
  unchanged :
      (p v : Process)
      → Same p v
      → Steps.Run first p.causal_broadcast p.thread arrived before
      → Steps.Run first v.causal_broadcast v.thread (arrived ++ []) (before ++ [])
  unchanged p v (same, same') r = rw (same, same', append-nil arrived, append-nil before) r

  -- A step of a process is one of its causal broadcast, or none.
  pub Step-Run :
      {p v : Process} {events : List Event} {ps : List Packet} {more : List Addressed}
      → Step p v events ps more
      → Steps.Run first p.causal_broadcast p.thread arrived before
      → Steps.Run first v.causal_broadcast v.thread (arrived ++ ps) (before ++ events)
  Step-Run (runs_thread {p = p} {v = v} {c = c} {t = t} {events = events} may step e) r =
      let (same, same') =
        broadcast_all-Same events (record p { causal_broadcast = c; thread = t }) v e in
      rw (same, same', append-nil arrived) (send r may step)
  Step-Run (urb_pops {p = p} {q = q} {rest = rest} free popped) r =
      unchanged p (record p { urb_packets_to_deliver = rest; urb_popped = some q }) (refl, refl) r
  Step-Run (urb_delivers {q = q} busy at step) r = receive q r busy step
  Step-Run (beb_pops {p = p} {q = q} {rest = rest} free settled popped) r =
      unchanged p (record p { beb_packets_to_deliver = rest; beb_popped = some q }) (refl, refl) r
  Step-Run (beb_delivers {p = p} {v = v} {u = u} {r = q} {actions = actions} at free step e) r =
      unchanged p v
        (hand_over-Same actions (record p { urb = u; beb_popped = none; held = some q }) v e) r
  Step-Run (settles {p = p} {v = v} {q = q} at e) r =
      let after = second_section p.urb q in
      unchanged p v (hand_over-Same after.1 (record p { urb = after.0; held = none }) v e) r
  Step-Run (begins_half {p = p} {b = b} {next = next} {sends = more} free e) r =
      unchanged p (record p { beb = b; turn = next; sending = more }) (refl, refl) r
  Step-Run (sends {p = p} {l = l} {rest = rest} at e) r =
      unchanged p (record p { link = l; sending = rest }) (refl, refl) r
  Step-Run (fills {p = p} {l = l} e) r = unchanged p (record p { link = l }) (refl, refl) r
  Step-Run (transmits {p = p}) r = unchanged p p (refl, refl) r
  Step-Run (transmits_ack {p = p} {l = l} e) r = unchanged p (record p { link = l }) (refl, refl) r
  Step-Run (pops {p = p} {l = l} at e) r = unchanged p (record p { link = l }) (refl, refl) r
  Step-Run (acknowledges {p = p} {l = l} at e) r =
      unchanged p (record p { link = l }) (refl, refl) r
  Step-Run (link_delivers {p = p} {q = q} {waiting = waiting} at e) r =
      unchanged p (record p { link = (deliver_new p.link q).0; beb_packets_to_deliver = waiting })
        (refl, refl) r
