-- ===== src/ProcessController/Log/Broadcasts.antt =====
-- A process broadcasts and logs its own messages, each once and in order.
use localized_causal_broadca.Prelude.{
  ℕ, zero, suc, ◌+◌, ◌≤◌, ◌<◌, ◌≡◌, refl, ◌∙◌, ap, sym, Bool, true, false, List, [], ◌∷◌, ◌++◌,
  arith, ◌==◌, word_size, length, append-nil, Bool-cases, inl, inr, ok, none, some, Result-cases,
  leb, ap₂, Ensures, Ensures-bind, Ensures-ok,
}
use localized_causal_broadca.Containers.Set.{NumSet}
use localized_causal_broadca.VectorClock.{increase}
use localized_causal_broadca.Packet.{Packet, add_message, can_add_message}
use localized_causal_broadca.CausalBroadcast.{
  CausalBroadcast, Event, logs_broadcast, broadcasts, create, urb_deliver, ready, pending_of,
  get_send_vector_clock, deliver_one, deliver_ready, take_pending, causal_deliver, count_sent,
  add_pending,
}
use localized_causal_broadca.CausalBroadcast.Steps.{
  Thread, top, refill, finished, message_of, new_packet, start_thread, flush, end_round,
  thread_step, Run, begin, send, receive,
}
use localized_causal_broadca.ProcessController.{broadcast_lines, on_packet_broadcast}
use localized_causal_broadca.ProcessController.Log.{
  messages_from, messages_from-append, broadcast_lines-append, messages_sent, messages_sent-append,
  broadcast_output, broadcast_output-append,
}
use localized_causal_broadca.ProcessController.Log.Packets.{Holds, Holds-output, add_message-Holds}

-- A delivery logs deliveries alone, and leaves the number of messages as it is.
abbrev Quiet : CausalBroadcast → CausalBroadcast × List Event → Type 0
Quiet c (d, more) =
    (d.num_messages ≡ c.num_messages) × (messages_sent more ≡ []) × (broadcast_output more ≡ [])

deliver_one-Quiet :
    (c : CausalBroadcast) (s : ℕ) (cur : Packet) → Ensures (Quiet c) (deliver_one c s cur)
unfolding deliver_one take_pending causal_deliver
deliver_one-Quiet c s cur = elim (Result-cases (increase c.vc_recv s)) [
  | inr (e, thrown) ↦ rw thrown tt
  | inl (v, counted) ↦ rw counted (elim (Result-cases (count_sent (take_pending c cur) s)) [
    | inr (e, thrown) ↦ rw thrown tt
    | inl (w, done) ↦ rw done (ground arith, refl, refl)
  ])
]

deliver_ready-Quiet :
    (fuel : ℕ) (c : CausalBroadcast) (s : ℕ) → Ensures (Quiet c) (deliver_ready fuel c s)
unfolding deliver_ready
deliver_ready-Quiet zero c s = (refl, refl, refl)
deliver_ready-Quiet (suc fuel) c s = elim (Result-cases (ready c s)) [
  | inr (e, thrown) ↦ rw thrown tt
  | inl (none, stopped) ↦ rw stopped (refl, refl, refl)
  | inl (some cur, found) ↦ rw found (
      Ensures-bind (Quiet c) (deliver_one c s cur) _ (λ d one.
        Ensures-bind (Quiet c) (deliver_ready fuel d.0 s) _ (λ e all.
          let (same, sent, told) = Ensures-ok (Quiet c) d (deliver_one-Quiet c s cur) one in
          let (same', sent', told') =
            Ensures-ok (Quiet d.0) e (deliver_ready-Quiet fuel d.0 s) all in
          (
            same' ∙ same,
            messages_sent-append d.1 e.1 ∙ ap₂ (λ xs ys. xs ++ ys) sent sent',
            broadcast_output-append d.1 e.1 ∙ ap₂ (λ xs ys. xs ++ ys) told told',
          ))))
]

-- Where the thread is, after `j` of `m` messages.
abbrev Place : ℕ → ℕ → Thread → Type 0
Place m j (top i p) = (k : ℕ) × (i ≡ j + k + 1) × (i ≤ m) × Holds j k p
Place m j (refill i) = (i ≡ j + 1) × (i ≤ m)
Place m j finished = j ≡ m

-- The first `j` messages, and no other, are sent and told of.
record Told (m j : ℕ) (c : CausalBroadcast) (es : List Event) : Type 0 where
  total : c.num_messages ≡ m
  sent : messages_sent es ≡ messages_from 1 j
  told : broadcast_output es ≡ broadcast_lines 1 j

new_packet-Holds : (j : ℕ) (c : CausalBroadcast) (p : Packet) → new_packet c ≡ ok p → Holds j 0 p
unfolding new_packet
new_packet-Holds j c p made = elim (Result-cases (get_send_vector_clock c)) [
  | inr (e, thrown) ↦ absurd (ground arith)
  | inl (w, current) ↦ record { held = ground arith; first = λ none_held. absurd (omega arith) }
]

module _ (m : ℕ) (small : m + 1 < word_size) where
  -- what a step of the thread gives after `es`
  abbrev Stepped : List Event → CausalBroadcast × Thread × List Event → Type 0
  Stepped es (d, t, more) = (j : ℕ) × Told m j d (es ++ more) × Place m j t

  flush-Told :
      (j k : ℕ) (c : CausalBroadcast) (es : List Event) (p : Packet) (last : Bool)
      → Told m j c es
      → Holds j k p
      → j + k ≤ m
      → Told m (j + k) (flush c last p).0 (es ++ (flush c last p).1)
  unfolding flush
  flush-Told j k c es p last h held fits = record {
    total = h.total;
    sent =
        messages_sent-append es (logs_broadcast p ∷ broadcasts p ∷ [])
        ∙ ap₂ (λ xs ys. xs ++ ys) h.sent (append-nil p.messages ∙ held.held)
        ∙ ap (λ i. messages_from 1 j ++ messages_from i k) (omega arith)
        ∙ sym (messages_from-append 1 j k);
    told =
        broadcast_output-append es (logs_broadcast p ∷ broadcasts p ∷ [])
        ∙ ap₂ (λ xs ys. xs ++ ys) h.told
            (append-nil (on_packet_broadcast p) ∙ Holds-output j k p held (omega arith))
        ∙ ap (λ i. broadcast_lines 1 j ++ broadcast_lines i k) (omega arith)
        ∙ sym (broadcast_lines-append 1 j k);
  }

  end_round-Told :
      (j k i : ℕ) (c : CausalBroadcast) (es : List Event) (p : Packet)
      → Told m j c es
      → Holds j k p
      → i ≡ j + k + 1
      → i ≤ m
      → Ensures (Stepped es) (end_round c i p)
  unfolding end_round
  end_round-Told j k i c es p h held e fits = elim (Result-cases (add_message p (message_of i))) [
    | inr (_, thrown) ↦ rw thrown tt
    | inl (q, added) ↦
        let grown =
          add_message-Holds j k p q held (omega arith)
            (ap (λ i. add_message p (message_of i)) (sym e) ∙ added) in
        rw added (elim (Bool-cases (i == c.num_messages)) [
          | inl last ↦ rw last (
            j + (k + 1),
            flush-Told j (k + 1) c es q true h grown (omega arith),
            ground (arith, h.total),
          )
          | inr inner ↦
              rw (inner, append-nil) (j, h, (k + 1, omega arith, ground (arith, h.total), grown))
        ])
  ]

  thread_step-Told :
      (j : ℕ) (c : CausalBroadcast) (t : Thread) (es : List Event)
      → Told m j c es
      → Place m j t
      → Ensures (Stepped es) (thread_step c t)
  unfolding thread_step
  thread_step-Told j c finished es h at_end = (j, rw append-nil h, at_end)
  thread_step-Told j c (refill i) es h (e, fits) = elim (Result-cases (new_packet c)) [
    | inr (_, thrown) ↦ rw thrown tt
    | inl (p, made) ↦
        rw made (end_round-Told j 0 i c es p h (new_packet-Holds j c p made) (omega arith) fits)
  ]
  thread_step-Told j c (top i p) es h (k, e, fits, held) =
      elim (Bool-cases (can_add_message p (message_of i) 5)) [
        | inl room ↦ rw room (end_round-Told j k i c es p h held e fits)
        | inr full ↦ rw full (j + k, flush-Told j k c es p false h held (omega arith), (e, fits))
      ]

  start_thread-Place :
      (c : CausalBroadcast) → c.num_messages ≡ m → Ensures (Place m 0) (start_thread c)
  unfolding start_thread
  start_thread-Place c total = elim (Result-cases (new_packet c)) [
    | inr (_, thrown) ↦ rw thrown tt
    | inl (p, made) ↦ rw made (elim (Bool-cases (leb 1 c.num_messages)) [
      | inl some_message ↦
          rw some_message (0, omega arith, ground arith, new_packet-Holds 0 c p made)
      | inr no_message ↦ rw no_message (ground arith)
    ])
  ]

  start-Told : (c : CausalBroadcast) → c.num_messages ≡ m → Told m 0 c []
  unfolding broadcast_lines
  start-Told c total = record { total = total; sent = refl; told = refl }

  receive-Told :
      (j : ℕ) (c d : CausalBroadcast) (p : Packet) (es more : List Event)
      → Told m j c es
      → urb_deliver c p ≡ ok (d, more)
      → Told m j d (es ++ more)
  unfolding urb_deliver
  receive-Told j c d p es more h e =
      let stored = add_pending c p in
      let (same, sent, told) =
        Ensures-ok (Quiet stored) (d, more)
          (deliver_ready-Quiet (length (pending_of stored p.source_id) + 1) stored p.source_id) e in
      record {
        total = same ∙ unfold add_pending in h.total;
        sent =
            messages_sent-append es more
            ∙ ap₂ (λ xs ys. xs ++ ys) h.sent sent
            ∙ append-nil (messages_from 1 j);
        told =
            broadcast_output-append es more
            ∙ ap₂ (λ xs ys. xs ++ ys) h.told told
            ∙ append-nil (broadcast_lines 1 j);
      }

  Run-Told :
      {c d : CausalBroadcast} {t : Thread} {ps : List Packet} {es : List Event}
      → c.num_messages ≡ m
      → Run c d t ps es
      → (j : ℕ) × Told m j d es × Place m j t
  Run-Told {c} total (begin {t = t} e) =
      (0, start-Told c total, Ensures-ok (Place m 0) t (start_thread-Place c total) e)
  Run-Told total (send {d = d} {e = e} {t = t} {u = u} {events = es} {more = more} r may h) =
      let (j, told, place) = Run-Told total r in
      Ensures-ok (Stepped es) (e, u, more) (thread_step-Told j d t es told place) h
  Run-Told total (receive {d = d} {e = e} {events = es} {more = more} p r busy h) =
      let (j, told, place) = Run-Told total r in (j, receive-Told j d e p es more told h, place)

  Place-le : (j : ℕ) (t : Thread) → Place m j t → j ≤ m
  Place-le j (top i p) (k, e, fits, held) = omega arith
  Place-le j (refill i) h = omega arith
  Place-le j finished h = omega arith

  Place-finished : (j : ℕ) (t : Thread) → Place m j t → t ≡ finished → j ≡ m
  Place-finished j (top i p) h e = cc
  Place-finished j (refill i) h e = cc
  Place-finished j finished h e = h

  create-total :
      (id : ℕ) (hosts : List ℕ) (locality : NumSet) → (create id m hosts locality).num_messages ≡ m
  unfolding create
  create-total id hosts locality = refl

  -- In any run of a process with `m` messages from its start, `m` below the largest size_t: the
  -- packets that it hands to the layer below carry, one after another, the messages 1, 2, … up to
  -- some number, which is at most `m` and is `m` once the thread that broadcasts has finished; and
  -- what it writes to the output file of its broadcasts is a line for each of them, in this order.
  pub Run-broadcasts_all :
      (id : ℕ) (hosts : List ℕ) (locality : NumSet) {c : CausalBroadcast} {t : Thread}
      {ps : List Packet} {es : List Event}
      → Run (create id m hosts locality) c t ps es
      → (j : ℕ) × (j ≤ m)
        × (t ≡ finished → j ≡ m)
        × (messages_sent es ≡ messages_from 1 j)
        × (broadcast_output es ≡ broadcast_lines 1 j)
  Run-broadcasts_all id hosts locality {t = t} r =
      let (j, told, place) = Run-Told (create-total id hosts locality) r in
      (j, Place-le j t place, Place-finished j t place, told.sent, told.told)
