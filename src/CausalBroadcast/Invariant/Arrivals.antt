-- ===== src/CausalBroadcast/Invariant/Arrivals.antt =====
-- What a process delivers has arrived: what holds of all arrivals holds of all deliveries.
use localized_causal_broadca.Prelude.{
  ℕ, zero, suc, ◌+◌, ◌≡◌, refl, List, [], ◌∷◌, ◌++◌, arith, length, none, some, Bool-cases, inl,
  inr, ok, Result-cases, Ensures, Ensures-bind, Ensures-ok, All, All-append_left, All-append_right,
  ◌==◌, subst,
}
use localized_causal_broadca.Containers.Set.{NumSet}
use localized_causal_broadca.Containers.Map.{NumMap, at, find, at-nil, find-nil}
use localized_causal_broadca.VectorClock.{increase}
use localized_causal_broadca.Packet.{Packet, can_add_message, add_message}
use localized_causal_broadca.CausalBroadcast.{
  CausalBroadcast, Event, logs_broadcast, broadcasts, logs_delivered, create, urb_deliver, ready,
  pending_of, next_of, deliver_one, deliver_ready, take_pending, causal_deliver, count_sent,
  add_pending,
}
use localized_causal_broadca.CausalBroadcast.Steps.{
  Thread, top, refill, finished, message_of, new_packet, flush, end_round, thread_step, Run, begin,
  send, receive,
}
use localized_causal_broadca.CausalBroadcast.Invariant.{stored_add, find-take_pending}

causal_deliver-pending :
    (c : CausalBroadcast) (p : Packet) → (causal_deliver c p).0.pending ≡ c.pending
unfolding causal_deliver
causal_deliver-pending c p = ground arith

module _ (P : Packet → Type 0) where
  -- every packet that waits has the property
  abbrev Stored : CausalBroadcast → Type 0
  Stored c = (s k : ℕ) (q : Packet) → find k (pending_of c s) ≡ some q → P q

  -- every packet delivered has it
  abbrev pub Delivered : List Event → Type 0
  Delivered [] = Unit {0}
  Delivered (logs_delivered p ∷ es) = P p × Delivered es
  Delivered (logs_broadcast p ∷ es) = Delivered es
  Delivered (broadcasts p ∷ es) = Delivered es

  Delivered-append : (xs ys : List Event) → Delivered xs → Delivered ys → Delivered (xs ++ ys)
  Delivered-append [] ys h k = k
  Delivered-append (logs_delivered p ∷ xs) ys (h, hs) k = (h, Delivered-append xs ys hs k)
  Delivered-append (logs_broadcast p ∷ xs) ys h k = Delivered-append xs ys h k
  Delivered-append (broadcasts p ∷ xs) ys h k = Delivered-append xs ys h k

  pub Delivered-at :
      (xs : List Event) (p : Packet) (ys : List Event)
      → Delivered (xs ++ logs_delivered p ∷ ys)
      → P p
  Delivered-at [] p ys h = h.0
  Delivered-at (logs_delivered q ∷ xs) p ys h = Delivered-at xs p ys h.1
  Delivered-at (logs_broadcast q ∷ xs) p ys h = Delivered-at xs p ys h
  Delivered-at (broadcasts q ∷ xs) p ys h = Delivered-at xs p ys h

  abbrev Good : CausalBroadcast × List Event → Type 0
  Good (d, more) = Stored d × Delivered more

  Stored-pending : (c d : CausalBroadcast) → d.pending ≡ c.pending → Stored c → Stored d
  Stored-pending c d e h s k q found = h s k q (subst (λ m. find k (at [] s m) ≡ some q) e found)

  deliver_one-Good :
      (c : CausalBroadcast) (s : ℕ) (cur : Packet)
      → Stored c
      → P cur
      → Ensures Good (deliver_one c s cur)
  unfolding deliver_one causal_deliver
  deliver_one-Good c s cur h p =
      let taken : Stored (take_pending c cur) =
        λ s k q found. h s k q (find-take_pending 0 0 [] c cur s k q found) in
      elim (Result-cases (increase (take_pending c cur).vc_recv s)) [
        | inr (e, thrown) ↦ rw thrown tt
        | inl (v, counted) ↦ rw counted (elim (Result-cases (count_sent (take_pending c cur) s)) [
          | inr (e, thrown) ↦ rw thrown tt
          | inl (w, done) ↦
              let d = record (take_pending c cur) { vc_recv = v; vc_send = w } in
              rw done (
                Stored-pending (take_pending c cur) (causal_deliver d cur).0
                    (causal_deliver-pending d cur) taken,
                (p, tt),
              )
        ])
      ]

  ready-find :
      (c : CausalBroadcast) (s : ℕ) (cur : Packet)
      → ready c s ≡ ok (some cur)
      → find (next_of c s) (pending_of c s) ≡ some cur
  unfolding ready
  ready-find c s cur h = ground arith

  deliver_ready-Good :
      (fuel : ℕ) (c : CausalBroadcast) (s : ℕ) → Stored c → Ensures Good (deliver_ready fuel c s)
  unfolding deliver_ready
  deliver_ready-Good zero c s h = (h, tt)
  deliver_ready-Good (suc fuel) c s h = elim (Result-cases (ready c s)) [
    | inr (e, thrown) ↦ rw thrown tt
    | inl (none, stopped) ↦ rw stopped (h, tt)
    | inl (some cur, found) ↦
        let good = h s (next_of c s) cur (ready-find c s cur found) in
        rw found (
          Ensures-bind Good (deliver_one c s cur) _ (λ d one.
            let (kept, first) = Ensures-ok Good d (deliver_one-Good c s cur h good) one in
            Ensures-bind Good (deliver_ready fuel d.0 s) _ (λ e all.
              let (kept', others) = Ensures-ok Good e (deliver_ready-Good fuel d.0 s kept) all in
              (kept', Delivered-append d.1 e.1 first others))))
  ]

  urb_deliver-Good :
      (c : CausalBroadcast) (p : Packet) → Stored c → P p → Ensures Good (urb_deliver c p)
  unfolding urb_deliver
  urb_deliver-Good c p h good =
      deliver_ready-Good (length (pending_of (add_pending c p) p.source_id) + 1) (add_pending c p)
        p.source_id
        (λ s k q found. elim (stored_add 0 0 [] c p s k q found) [
          | inl old ↦ h s k q old
          | inr (e, _, _) ↦ subst P e good
        ])

  -- A step of the thread delivers nothing, and leaves what waits.
  abbrev Kept : CausalBroadcast → CausalBroadcast × Thread × List Event → Type 0
  Kept c (d, t, more) = (d.pending ≡ c.pending) × Delivered more

  end_round-Kept : (c : CausalBroadcast) (i : ℕ) (p : Packet) → Ensures (Kept c) (end_round c i p)
  unfolding end_round flush
  end_round-Kept c i p = elim (Result-cases (add_message p (message_of i))) [
    | inr (e, thrown) ↦ rw thrown tt
    | inl (q, added) ↦ rw added (elim (Bool-cases (i == c.num_messages)) [
      | inl last ↦ rw last (refl, tt)
      | inr inner ↦ rw inner (refl, tt)
    ])
  ]

  thread_step-Kept : (c : CausalBroadcast) (t : Thread) → Ensures (Kept c) (thread_step c t)
  unfolding thread_step flush
  thread_step-Kept c finished = (refl, tt)
  thread_step-Kept c (refill i) = elim (Result-cases (new_packet c)) [
    | inr (e, thrown) ↦ rw thrown tt
    | inl (p, made) ↦ rw made (end_round-Kept c i p)
  ]
  thread_step-Kept c (top i p) = elim (Bool-cases (can_add_message p (message_of i) 5)) [
    | inl room ↦ rw room (end_round-Kept c i p)
    | inr full ↦ rw full (refl, tt)
  ]

  Run-Stored :
      {c d : CausalBroadcast} {t : Thread} {ps : List Packet} {es : List Event}
      → Stored c
      → Run c d t ps es
      → All P ps
      → Stored d × Delivered es
  Run-Stored h (begin e) good = (h, tt)
  Run-Stored h (send {d = d} {e = e} {t = t} {u = u} {events = es} {more = more} r may step) good =
      let (kept, before) = Run-Stored h r good in
      let (same, last) = Ensures-ok (Kept d) (e, u, more) (thread_step-Kept d t) step in
      (Stored-pending d e same kept, Delivered-append es more before last)
  Run-Stored h (receive {d = d} {e = e} {ps = ps} {events = es} {more = more} p r busy step) good =
      let (kept, before) = Run-Stored h r (All-append_left P ps (p ∷ []) good) in
      let last = (All-append_right P ps (p ∷ []) good).0 in
      let (kept', here) = Ensures-ok Good (e, more) (urb_deliver-Good d p kept last) step in
      (kept', Delivered-append es more before here)

  pub Run-Delivered :
      (id num_messages : ℕ) (hosts : List ℕ) (locality : NumSet) {c : CausalBroadcast} {t : Thread}
      {ps : List Packet} {es : List Event}
      → Run (create id num_messages hosts locality) c t ps es
      → All P ps
      → Delivered es
  unfolding create
  Run-Delivered id num_messages hosts locality r good =
      (Run-Stored (λ s k q h. cc (at-nil {V = NumMap Packet} [] s, find-nil {V = Packet} k)) r
        good).1
