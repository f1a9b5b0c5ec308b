-- ===== src/CausalBroadcast/Invariant/Shape.antt =====
-- What a process broadcasts is a packet of the system in its own name, and no acknowledgement.
use localized_causal_broadca.Prelude.{
  ℕ, zero, suc, ◌+◌, ◌<◌, ◌≡◌, refl, ◌∙◌, ap, false, List, [], ◌∷◌, ◌++◌, ◌==◌, leb, word_size,
  length, none, some, ok, Bool-cases, inl, inr, Result-cases, Ensures, Ensures-bind, Ensures-ok,
  All, All-append_left,
}
use localized_causal_broadca.Containers.Set.{NumSet}
use localized_causal_broadca.VectorClock.Access.{IsProcess, assign-entry}
use localized_causal_broadca.VectorClock.{increase}
use localized_causal_broadca.Packet.{Packet, make, can_add_message, add_message}
use localized_causal_broadca.Packet.Codec.RoundTrip.{SameHeader, add_message-facts}
use localized_causal_broadca.CausalBroadcast.{
  CausalBroadcast, Event, logs_broadcast, broadcasts, logs_delivered, create, get_send_vector_clock,
  urb_deliver, ready, pending_of, deliver_one, deliver_ready, take_pending, causal_deliver,
  count_sent, add_pending,
}
use localized_causal_broadca.CausalBroadcast.Steps.{
  Thread, top, refill, finished, message_of, new_packet, start_thread, flush, end_round,
  thread_step, Run, begin, send, receive,
}
use localized_causal_broadca.CausalBroadcast.Invariant.{IsOfSystem, Inv}
use localized_causal_broadca.CausalBroadcast.Invariant.Broadcasts.{Run-create, create-Inv}

module _ (P : Packet → Type 0) where
  -- every packet broadcast has the property
  abbrev pub Own : List Event → Type 0
  Own [] = Unit {0}
  Own (logs_delivered p ∷ es) = Own es
  Own (logs_broadcast p ∷ es) = Own es
  Own (broadcasts p ∷ es) = P p × Own es

  pub Own-append : (xs ys : List Event) → Own xs → Own ys → Own (xs ++ ys)
  Own-append [] ys h k = k
  Own-append (logs_delivered p ∷ xs) ys h k = Own-append xs ys h k
  Own-append (logs_broadcast p ∷ xs) ys h k = Own-append xs ys h k
  Own-append (broadcasts p ∷ xs) ys (h, hs) k = (h, Own-append xs ys hs k)

  -- what is broadcast with a change of the state
  abbrev pub OwnOnly : CausalBroadcast × List Event → Type 0
  OwnOnly (d, more) = Own more

  deliver_one-Own :
      (c : CausalBroadcast) (s : ℕ) (cur : Packet) → Ensures OwnOnly (deliver_one c s cur)
  unfolding deliver_one causal_deliver
  deliver_one-Own c s cur = elim (Result-cases (increase (take_pending c cur).vc_recv s)) [
    | inr (e, thrown) ↦ rw thrown tt
    | inl (v, counted) ↦ rw counted (elim (Result-cases (count_sent (take_pending c cur) s)) [
      | inr (e, thrown) ↦ rw thrown tt
      | inl (w, done) ↦ rw done tt
    ])
  ]

  deliver_ready-Own :
      (fuel : ℕ) (c : CausalBroadcast) (s : ℕ) → Ensures OwnOnly (deliver_ready fuel c s)
  unfolding deliver_ready
  deliver_ready-Own zero c s = tt
  deliver_ready-Own (suc fuel) c s = elim (Result-cases (ready c s)) [
    | inr (e, thrown) ↦ rw thrown tt
    | inl (none, stopped) ↦ rw stopped tt
    | inl (some cur, found) ↦ rw found (
        Ensures-bind OwnOnly (deliver_one c s cur) _ (λ d one.
          Ensures-bind OwnOnly (deliver_ready fuel d.0 s) _ (λ e all.
            Own-append d.1 e.1 (Ensures-ok OwnOnly d (deliver_one-Own c s cur) one)
              (Ensures-ok OwnOnly e (deliver_ready-Own fuel d.0 s) all))))
  ]

  -- A delivery broadcasts nothing.
  pub urb_deliver-Own : (c : CausalBroadcast) (p : Packet) → Ensures OwnOnly (urb_deliver c p)
  unfolding urb_deliver
  urb_deliver-Own c p =
      deliver_ready-Own (length (pending_of (add_pending c p) p.source_id) + 1) (add_pending c p)
        p.source_id

-- two properties at once
pub Own-both :
    (P Q R : Packet → Type 0)
    → ((q : Packet) → P q → Q q → R q)
    → (es : List Event) → Own P es
    → Own Q es
    → Own R es
Own-both P Q R f [] h k = tt
Own-both P Q R f (logs_broadcast q ∷ es) h k = Own-both P Q R f es h k
Own-both P Q R f (logs_delivered q ∷ es) h k = Own-both P Q R f es h k
Own-both P Q R f (broadcasts q ∷ es) (h, hs) (k, ks) = (f q h k, Own-both P Q R f es hs ks)

-- of process `id` of a system of `n`
module _ (id n : ℕ) where
  abbrev pub Shaped : Packet → Type 0
  Shaped p = IsOfSystem n p × (p.is_ack ≡ false) × (p.source_id ≡ id) × (p.process_id ≡ id)

  abbrev pub ThreadShaped : Thread → Type 0
  ThreadShaped (top i p) = Shaped p
  ThreadShaped (refill i) = Unit {0}
  ThreadShaped finished = Unit {0}

  abbrev pub StepShaped : CausalBroadcast × Thread × List Event → Type 0
  StepShaped (d, t, more) = Own Shaped more × ThreadShaped t

-- Process `id` of a system of `n`, affected by the processes of `locality`.
module _ (id n : ℕ) (locality : NumSet) (small : n < word_size) (known : IsProcess n id) where
  new_packet-Shaped :
      (c : CausalBroadcast) (es : List Event)
      → Inv id n locality c es
      → (p : Packet) × (new_packet c ≡ ok p) × (Shaped id n) p
  unfolding new_packet get_send_vector_clock
  new_packet-Shaped c es v =
      let (w, done, size, valid, _) =
        assign-entry c.vc_send v.send_valid (rw v.send_size small) c.process_id
          (rw (v.self, v.send_size) known) c.cur_seq_num in
      (
        make c.process_id c.process_id c.cur_seq_num c.num_processes w,
        rw done,
        (
          record { source = rw v.self known; clock = valid; size = size ∙ v.send_size },
          refl,
          v.self,
          v.self,
        ),
      )

  Shaped-SameHeader : (p q : Packet) → SameHeader p q → (Shaped id n) p → (Shaped id n) q
  Shaped-SameHeader p q same (good, message, own, sender) = (
    record {
      source = rw same.1 good.source;
      clock = rw same.4 good.clock;
      size = ap (λ w. w.num_processes) same.4 ∙ good.size;
    },
    same.5 ∙ message,
    same.1 ∙ own,
    same.0 ∙ sender,
  )

  end_round-Shaped :
      (c : CausalBroadcast) (i : ℕ) (p : Packet)
      → (Shaped id n) p
      → Ensures (StepShaped id n) (end_round c i p)
  unfolding end_round flush
  end_round-Shaped c i p h = elim (Result-cases (add_message p (message_of i))) [
    | inr (e, thrown) ↦ rw thrown tt
    | inl (q, added) ↦
        let good = Shaped-SameHeader p q (add_message-facts p q (message_of i) added).0 h in
        rw added (elim (Bool-cases (i == c.num_messages)) [
          | inl last ↦ rw last ((good, tt), tt)
          | inr inner ↦ rw inner (tt, good)
        ])
  ]

  pub thread_step-Shaped :
      (c : CausalBroadcast) (es : List Event) (t : Thread)
      → Inv id n locality c es
      → (ThreadShaped id n) t
      → Ensures (StepShaped id n) (thread_step c t)
  unfolding thread_step flush
  thread_step-Shaped c es finished v h = (tt, tt)
  thread_step-Shaped c es (refill i) v h =
      let (p, made, good) = new_packet-Shaped c es v in rw made (end_round-Shaped c i p good)
  thread_step-Shaped c es (top i p) v h = elim (Bool-cases (can_add_message p (message_of i) 5)) [
    | inl room ↦ rw room (end_round-Shaped c i p h)
    | inr full ↦ rw full ((h, tt), tt)
  ]

  pub start_thread-Shaped :
      (c : CausalBroadcast)
      → Inv id n locality c []
      → (t : Thread) × (start_thread c ≡ ok t) × (ThreadShaped id n) t
  unfolding start_thread
  start_thread-Shaped c v =
      let (p, made, good) = new_packet-Shaped c [] v in
      elim (Bool-cases (leb 1 c.num_messages)) [
        | inl some_message ↦ (top 1 p, rw (made, some_message), good)
        | inr no_message ↦ (finished, rw (made, no_message), tt)
      ]

-- the place of the thread, from the start of the process on
Run-Shaped :
    (id num_messages : ℕ) (hosts : List ℕ) (locality : NumSet) {c : CausalBroadcast} {t : Thread}
    {ps : List Packet} {es : List Event}
    → length hosts < word_size
    → IsProcess (length hosts) id
    → Run (create id num_messages hosts locality) c t ps es
    → All (IsOfSystem (length hosts)) ps
    → ThreadShaped id (length hosts) t
Run-Shaped id m hosts locality small known (begin {t = t} e) good =
    let (u, started, shaped) =
      start_thread-Shaped id (length hosts) locality small known (create id m hosts locality)
        (create-Inv id m hosts locality) in
    let same : ok u ≡ ok t = cc in
    Ensures-ok (ThreadShaped id (length hosts)) {r = ok u} t shaped same
Run-Shaped id m hosts locality small known
      (send {d = d} {e = e} {t = t} {u = u} {events = es} {more = more} r may step) good =
    let (inv, _) = Run-create id m hosts locality small known r good in
    let place = Run-Shaped id m hosts locality small known r good in
    (Ensures-ok (StepShaped id (length hosts)) (e, u, more)
      (thread_step-Shaped id (length hosts) locality small known d es t inv place) step).1
Run-Shaped id m hosts locality small known (receive {ps = ps} p r busy step) good =
    Run-Shaped id m hosts locality small known r
      (All-append_left (IsOfSystem (length hosts)) ps (p ∷ []) good)

-- what a step of the thread broadcasts
pub Run-broadcasts-Shaped :
    (id num_messages : ℕ) (hosts : List ℕ) (locality : NumSet) {c d : CausalBroadcast}
    {t u : Thread} {ps : List Packet} {es more : List Event}
    → length hosts < word_size
    → IsProcess (length hosts) id
    → Run (create id num_messages hosts locality) c t ps es
    → All (IsOfSystem (length hosts)) ps
    → thread_step c t ≡ ok (d, u, more)
    → Own (Shaped id (length hosts)) more
Run-broadcasts-Shaped id m hosts locality {c} {d} {t} {u} {es = es} {more} small known r good step =
    let (inv, _) = Run-create id m hosts locality small known r good in
    let place = Run-Shaped id m hosts locality small known r good in
    (Ensures-ok (StepShaped id (length hosts)) (d, u, more)
      (thread_step-Shaped id (length hosts) locality small known c es t inv place) step).0
