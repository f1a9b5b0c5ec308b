-- ===== src/Program/Agreement/Steps.antt =====
-- What the steps of a process do to its uniform reliable broadcast.
use localized_causal_broadca.Prelude.{
  ℕ, ◌≡◌, refl, ◌∙◌, subst, List, [], ◌∷◌, ◌++◌, none, some, Ensures-ok, All, All-append, All-map,
  bind-some,
}
use localized_causal_broadca.Packet.{Packet}
use localized_causal_broadca.OutBox.{Addressed}
use localized_causal_broadca.UniformReliableBroadcast
use localized_causal_broadca.UniformReliableBroadcast.{
  Urb, Action, is_delivered, first_section, second_section,
}
use localized_causal_broadca.UniformReliableBroadcast.Sections
use localized_causal_broadca.UniformReliableBroadcast.Known.{
  Knows, Stable, is_known-Stable, broadcast-Knows, first_section-id, second_section-id,
}
use localized_causal_broadca.CausalBroadcast.{Event, logs_broadcast, broadcasts, logs_delivered}
use localized_causal_broadca.CausalBroadcast.Invariant.Shape.{Own, OwnOnly, urb_deliver-Own}
use localized_causal_broadca.Program.{
  Process, hand_over, broadcast_all, Step, runs_thread, urb_pops, urb_delivers, beb_pops,
  beb_delivers, settles, begins_half, sends, fills, transmits, transmits_ack, pops, acknowledges,
  link_delivers,
}
use localized_causal_broadca.Program.Carried.{HeldHas, Carries, hand_over-urb, hand_over-held}

module _ (K : Urb → Type 0) (stable : Stable K) where
  broadcast_all-stable :
      (events : List Event) (p v : Process) → broadcast_all events p ≡ some v → K p.urb → K v.urb
  unfolding broadcast_all
  broadcast_all-stable [] p v e h =
      subst (λ (w : Process). K w.urb) (let same : p ≡ v = cc in same) h
  broadcast_all-stable (logs_broadcast q ∷ more) p v e h = broadcast_all-stable more p v e h
  broadcast_all-stable (logs_delivered q ∷ more) p v e h = broadcast_all-stable more p v e h
  broadcast_all-stable (broadcasts q ∷ more) p v e h =
      let (u, actions) = UniformReliableBroadcast.broadcast p.urb q in
      let next = record p { urb = u } in
      let (w, handed, rest) = bind-some (broadcast_all more) (hand_over actions next) v e in
      broadcast_all-stable more w v rest
        (rw (hand_over-urb actions next w handed) (stable.own p.urb q h))

  -- What is stable a step keeps.
  pub Step-stable :
      {p v : Process} {events : List Event} {ps : List Packet} {more : List Addressed}
      → Step p v events ps more
      → K p.urb
      → K v.urb
  Step-stable (runs_thread {p = p} {v = v} {c = c} {t = t} {events = events} may step e) h =
      broadcast_all-stable events (record p { causal_broadcast = c; thread = t }) v e h
  Step-stable
        (beb_delivers {p = p} {v = v} {u = u} {q = q} {r = r} {actions = actions} at free step e)
        h =
      rw (hand_over-urb actions (record p { urb = u; beb_popped = none; held = some r }) v e)
        (stable.first p.urb u q r actions step h)
  Step-stable (settles {p = p} {v = v} {q = q} at e) h =
      let after = second_section p.urb q in
      rw (hand_over-urb after.1 (record p { urb = after.0; held = none }) v e)
        (stable.second p.urb q h)
  Step-stable (urb_pops free popped) h = h
  Step-stable (urb_delivers busy at step) h = h
  Step-stable (beb_pops free settled popped) h = h
  Step-stable (begins_half free e) h = h
  Step-stable (sends at e) h = h
  Step-stable (fills e) h = h
  Step-stable transmits h = h
  Step-stable (transmits_ack e) h = h
  Step-stable (pops at e) h = h
  Step-stable (acknowledges at e) h = h
  Step-stable (link_delivers at e) h = h

-- What a process broadcasts it knows.
broadcast_all-Knows :
    (events : List Event) (p v : Process)
    → broadcast_all events p ≡ some v
    → Own (Knows v.urb) events
unfolding broadcast_all
broadcast_all-Knows [] p v e = tt
broadcast_all-Knows (logs_broadcast q ∷ more) p v e = broadcast_all-Knows more p v e
broadcast_all-Knows (logs_delivered q ∷ more) p v e = broadcast_all-Knows more p v e
broadcast_all-Knows (broadcasts q ∷ more) p v e =
    let (u, actions) = UniformReliableBroadcast.broadcast p.urb q in
    let next = record p { urb = u } in
    let (w, handed, rest) = bind-some (broadcast_all more) (hand_over actions next) v e in
    let now : Knows w.urb q = rw (hand_over-urb actions next w handed) (broadcast-Knows p.urb q) in
    (
      broadcast_all-stable (λ x. Knows x q) (is_known-Stable q.source_id q.packet_seq_num) more w v
          rest now,
      broadcast_all-Knows more w v rest,
    )

pub Step-Knows :
    {p v : Process} {events : List Event} {ps : List Packet} {more : List Addressed}
    → Step p v events ps more
    → Own (Knows v.urb) events
Step-Knows (runs_thread {p = p} {v = v} {c = c} {t = t} {events = events} may step e) =
    broadcast_all-Knows events (record p { causal_broadcast = c; thread = t }) v e
Step-Knows (urb_delivers {p = p} {c = c} {events = events} {q = q} busy at step) =
    Ensures-ok (OwnOnly (Knows p.urb)) (c, events)
      (urb_deliver-Own (Knows p.urb) p.causal_broadcast q) step
Step-Knows (urb_pops free popped) = tt
Step-Knows (beb_pops free settled popped) = tt
Step-Knows (beb_delivers at free step e) = tt
Step-Knows (settles at e) = tt
Step-Knows (begins_half free e) = tt
Step-Knows (sends at e) = tt
Step-Knows (fills e) = tt
Step-Knows transmits = tt
Step-Knows (transmits_ack e) = tt
Step-Knows (pops at e) = tt
Step-Knows (acknowledges at e) = tt
Step-Knows (link_delivers at e) = tt

-- The uniform reliable broadcast of a process, seen by itself: process `i` of `n`, where the
-- packets that have come to it have `P`.
module _ (P : Packet → Type 0) (i n : ℕ) where
  pub record Urbed (p : Process) : Type 0 where
    pub self : p.urb.process_id ≡ i
    pub arrivals : List Packet
    pub trace : List Action
    pub run : Sections.Run (UniformReliableBroadcast.start i n) p.urb p.held arrivals trace
    pub from : All P arrivals

  -- another state with the same uniform reliable broadcast
  same-Urbed : (p v : Process) → v.urb ≡ p.urb → v.held ≡ p.held → Urbed p → Urbed v
  same-Urbed p v same same' h = record {
    self = rw same h.self;
    arrivals = h.arrivals;
    trace = h.trace;
    run = rw (same, same') h.run;
    from = h.from;
  }

  broadcast_all-Urbed :
      (events : List Event) (p v : Process) → broadcast_all events p ≡ some v → Urbed p → Urbed v
  unfolding broadcast_all
  broadcast_all-Urbed [] p v e h = subst Urbed (let same : p ≡ v = cc in same) h
  broadcast_all-Urbed (logs_broadcast q ∷ more) p v e h = broadcast_all-Urbed more p v e h
  broadcast_all-Urbed (logs_delivered q ∷ more) p v e h = broadcast_all-Urbed more p v e h
  broadcast_all-Urbed (broadcasts q ∷ more) p v e h =
      let (u, actions) = UniformReliableBroadcast.broadcast p.urb q in
      let next = record p { urb = u } in
      let (w, handed, rest) = bind-some (broadcast_all more) (hand_over actions next) v e in
      let sent : Urbed next = record {
        self =
            unfold UniformReliableBroadcast.broadcast UniformReliableBroadcast.add_pending in
            h.self;
        arrivals = h.arrivals;
        trace = h.trace ++ actions;
        run = Sections.own q h.run;
        from = h.from;
      } in
      broadcast_all-Urbed more w v rest (
        same-Urbed next w (hand_over-urb actions next w handed)
          (hand_over-held actions next w handed) sent)

  pub Step-Urbed :
      {p v : Process} {events : List Event} {ps : List Packet} {more : List Addressed}
      → Step p v events ps more
      → Carries P i p
      → Urbed p
      → Urbed v
  Step-Urbed (runs_thread {p = p} {v = v} {c = c} {t = t} {events = events} may step e) carried h =
      let next = record p { causal_broadcast = c; thread = t } in
      broadcast_all-Urbed events next v e (same-Urbed p next refl refl h)
  Step-Urbed
        (beb_delivers {p = p} {v = v} {u = u} {q = q} {r = r} {actions = actions} at free step e)
        carried h =
      let next = record p { urb = u; beb_popped = none; held = some r } in
      let came : P q = subst (HeldHas P i) at carried.beb_popped in
      let after : Urbed next = record {
        self = first_section-id p.urb u q r actions step ∙ h.self;
        arrivals = h.arrivals ++ q ∷ [];
        trace = h.trace ++ actions;
        run = Sections.arrive q (rw⁻¹ free h.run) step;
        from = All-append P h.arrivals (q ∷ []) h.from (came, tt);
      } in
      same-Urbed next v (hand_over-urb actions next v e) (hand_over-held actions next v e) after
  Step-Urbed (settles {p = p} {v = v} {q = q} at e) carried h =
      let (u, actions) = second_section p.urb q in
      let next = record p { urb = u; held = none } in
      let after : Urbed next = record {
        self = second_section-id p.urb q ∙ h.self;
        arrivals = h.arrivals;
        trace = h.trace ++ actions;
        run = Sections.settle (rw⁻¹ at h.run);
        from = h.from;
      } in
      same-Urbed next v (hand_over-urb actions next v e) (hand_over-held actions next v e) after
  Step-Urbed (urb_pops {p = p} free popped) carried h = same-Urbed p _ refl refl h
  Step-Urbed (urb_delivers {p = p} busy at step) carried h = same-Urbed p _ refl refl h
  Step-Urbed (beb_pops {p = p} free settled popped) carried h = same-Urbed p _ refl refl h
  Step-Urbed (begins_half {p = p} free e) carried h = same-Urbed p _ refl refl h
  Step-Urbed (sends {p = p} at e) carried h = same-Urbed p _ refl refl h
  Step-Urbed (fills {p = p} e) carried h = same-Urbed p _ refl refl h
  Step-Urbed transmits carried h = h
  Step-Urbed (transmits_ack {p = p} e) carried h = same-Urbed p _ refl refl h
  Step-Urbed (pops {p = p} at e) carried h = same-Urbed p _ refl refl h
  Step-Urbed (acknowledges {p = p} at e) carried h = same-Urbed p _ refl refl h
  Step-Urbed (link_delivers {p = p} at e) carried h = same-Urbed p _ refl refl h

module _ (P Q : Packet → Type 0) (i n : ℕ) where
  pub Urbed-map : ((q : Packet) → P q → Q q) → (p : Process) → Urbed P i n p → Urbed Q i n p
  Urbed-map f p h = record {
    self = h.self;
    arrivals = h.arrivals;
    trace = h.trace;
    run = h.run;
    from = All-map f h.arrivals h.from;
  }
