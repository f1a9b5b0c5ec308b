-- ===== src/CausalBroadcast/Invariant/Broadcasts.antt =====
-- The thread that broadcasts keeps the invariant, and its packets carry the clock of their
-- broadcast; so the whole history of a process is in order.
use localized_causal_broadca.Prelude.{
  ℕ, ◌-◌, ◌%◌, ◌≤◌, ◌<◌, ◌≡◌, refl, ◌∙◌, ap, Bool, true, false, List, [], ◌∷◌, ◌++◌, arith, ◌==◌,
  if◌then◌else◌, word_size, length, Bool-cases, inl, inr, Result, ok, err, Result-cases,
  All-append_left, All-append_right, leb, append-nil, subst, All, get_or-replicate,
  length-replicate,
}
use localized_causal_broadca.Containers.Set.{NumSet, member}
use localized_causal_broadca.Containers.Map.{NumMap, at, put, at-put, at-nil, find-nil}
use localized_causal_broadca.VectorClock.{IsValid, zeros}
use localized_causal_broadca.VectorClock.Access.{entry, IsProcess, assign-entry}
use localized_causal_broadca.Packet.{Packet, make, add_message, can_add_message}
use localized_causal_broadca.Packet.Codec.RoundTrip.{SameHeader, add_message-facts}
use localized_causal_broadca.CausalBroadcast.{
  CausalBroadcast, Event, logs_delivered, logs_broadcast, broadcasts, create, first_next,
  get_send_vector_clock, urb_deliver,
}
use localized_causal_broadca.CausalBroadcast.Steps.{
  Thread, top, refill, finished, message_of, new_packet, start_thread, flush, end_round,
  thread_step, Run, begin, send, receive,
}
use localized_causal_broadca.CausalBroadcast.Order.{
  delivered_from, broadcast_count, delivered_from-append, broadcast_count-append, InOrder,
  InOrder-append, InOrder-at,
}
use localized_causal_broadca.CausalBroadcast.Invariant.{IsOfSystem, Inv}
use localized_causal_broadca.CausalBroadcast.Invariant.Deliveries.{urb_deliver_lem}

-- Process `id` of a system of `n`, affected by the processes of `locality`.
module _ (id n : ℕ) (locality : NumSet) (small : n < word_size) (known : IsProcess n id) where
  -- A packet that carries what the clock of the own packets is now.
  record IsCurrent (c : CausalBroadcast) (p : Packet) : Type 0 where
    own : p.source_id ≡ id
    number : p.packet_seq_num ≡ c.cur_seq_num
    clock :
        (j : ℕ)
        → IsProcess n j
        → entry p.vector_clock j ≡ (if id == j then c.cur_seq_num else entry c.vc_send j)

  -- At the top of its loop the thread has a current packet, and may broadcast.
  abbrev ThreadValid : CausalBroadcast → Thread → Type 0
  ThreadValid c (top i p) = (c.can_broadcast ≡ true) × IsCurrent c p
  ThreadValid c (refill i) = Unit
  ThreadValid c finished = Unit

  new_packet_lem :
      (c : CausalBroadcast) (es : List Event)
      → Inv id n locality c es
      → (p : Packet) × (new_packet c ≡ ok p) × IsCurrent c p
  unfolding new_packet get_send_vector_clock
  new_packet_lem c es v =
      let (w, done, size, valid, entries) =
        assign-entry c.vc_send v.send_valid (rw v.send_size small) c.process_id
          (rw (v.self, v.send_size) known) c.cur_seq_num in
      (
        make c.process_id c.process_id c.cur_seq_num c.num_processes w,
        rw done,
        record {
          own = v.self;
          number = refl;
          clock = λ j k. ground (arith, entries j k.0, v.self);
        },
      )

  -- What a step of the thread gives after `es`, where it throws nothing.
  abbrev Stepped : List Event → Result (CausalBroadcast × Thread × List Event) → Type 0
  Stepped es (err e) = Unit {0}
  Stepped es (ok (d, t, more)) =
      Inv id n locality d (es ++ more) × InOrder id n locality es more × ThreadValid d t

  flush_lem :
      (c : CausalBroadcast) (es : List Event) (last : Bool) (p : Packet)
      → Inv id n locality c es
      → IsCurrent c p
      → Inv id n locality (flush c last p).0 (es ++ (flush c last p).1)
        × InOrder id n locality es (flush c last p).1
  unfolding flush
  flush_lem c es last p v cur =
      let logged = logs_broadcast p ∷ [] in
      let both = logs_broadcast p ∷ broadcasts p ∷ [] in
      (
        record {
          self = v.self;
          affected = v.affected;
          recv_valid = v.recv_valid;
          recv_size = v.recv_size;
          send_valid = v.send_valid;
          send_size = v.send_size;
          counted = λ s k. ground (arith, v.counted s k, delivered_from-append s es both);
          recv = λ s k. ground (arith, v.recv s k, delivered_from-append s es both);
          send = λ s k. ground (arith, v.send s k, delivered_from-append s es both);
          numbered = ground (arith, v.numbered, broadcast_count-append es both);
          stored = v.stored;
        },
        (
          tt,
          (
            (
              cur.own,
              ground (arith, cur.number, v.numbered, broadcast_count-append es logged),
              λ j k. ground (
                arith,
                cur.clock j k,
                v.numbered,
                v.send j k,
                broadcast_count-append es logged,
                delivered_from-append j es logged,
              ),
            ),
            tt,
          ),
        ),
      )

  -- A message more leaves the header of a packet as it is.
  IsCurrent-SameHeader :
      (c : CausalBroadcast) (p q : Packet) → SameHeader p q → IsCurrent c p → IsCurrent c q
  IsCurrent-SameHeader c p q same cur = record {
    own = same.1 ∙ cur.own;
    number = same.2 ∙ cur.number;
    clock = λ j k. ap (λ w. entry w j) same.4 ∙ cur.clock j k;
  }

  end_round_lem :
      (c : CausalBroadcast) (es : List Event) (i : ℕ) (curr : Packet)
      → Inv id n locality c es
      → c.can_broadcast ≡ true
      → IsCurrent c curr
      → Stepped es (end_round c i curr)
  unfolding end_round
  end_round_lem c es i curr v free cur = elim (Result-cases (add_message curr (message_of i))) [
    | inr (e, thrown) ↦ rw thrown tt
    | inl (p, added) ↦
        let same = (add_message-facts curr p (message_of i) added).0 in
        let cur' = IsCurrent-SameHeader c curr p same cur in
        rw added (elim (Bool-cases (i == c.num_messages)) [
          | inl last ↦ let (inv, order) = flush_lem c es true p v cur' in rw last (inv, order, tt)
          | inr inner ↦ rw (inner, append-nil) (v, tt, (free, cur'))
        ])
  ]

  thread_step_lem :
      (c : CausalBroadcast) (es : List Event) (t : Thread)
      → Inv id n locality c es
      → c.can_broadcast ≡ true
      → ThreadValid c t
      → Stepped es (thread_step c t)
  unfolding thread_step
  thread_step_lem c es finished v free h = rw append-nil (v, tt, tt)
  thread_step_lem c es (refill i) v free h =
      let (p, made, cur) = new_packet_lem c es v in rw made (end_round_lem c es i p v free cur)
  thread_step_lem c es (top i p) v free (_, cur) =
      elim (Bool-cases (can_add_message p (message_of i) 5)) [
        | inl room ↦ rw room (end_round_lem c es i p v free cur)
        | inr full ↦ let (inv, order) = flush_lem c es false p v cur in rw full (inv, order, tt)
      ]

  -- A delivery leaves the thread where it waits.
  ThreadValid-receive :
      (c d : CausalBroadcast) (t : Thread)
      → c.can_broadcast ≡ false
      → ThreadValid c t
      → ThreadValid d t
  ThreadValid-receive c d finished busy h = tt
  ThreadValid-receive c d (refill i) busy h = tt
  ThreadValid-receive c d (top i p) busy h = absurd (ground arith)

  abbrev Started : CausalBroadcast → Result Thread → Type 0
  Started c (err e) = Unit {0}
  Started c (ok t) = ThreadValid c t

  start_thread_lem :
      (c : CausalBroadcast)
      → Inv id n locality c []
      → c.can_broadcast ≡ true
      → Started c (start_thread c)
  unfolding start_thread
  start_thread_lem c v free =
      let (p, made, cur) = new_packet_lem c [] v in
      rw made (elim (Bool-cases (leb 1 c.num_messages)) [
        | inl some_message ↦ rw some_message (free, cur)
        | inr no_message ↦ rw no_message tt
      ])

  -- What a call of `URBDeliver` gives after `es`.
  abbrev Received : List Event → Result (CausalBroadcast × List Event) → Type 0
  Received es (err e) = Unit {0}
  Received es (ok (d, more)) = Inv id n locality d (es ++ more) × InOrder id n locality es more

  urb_deliver-Received :
      (c : CausalBroadcast) (es : List Event) (p : Packet)
      → Inv id n locality c es
      → IsOfSystem n p
      → Received es (urb_deliver c p)
  urb_deliver-Received c es p v good =
      let (d, more, done, inv, order, _, _) = urb_deliver_lem id n locality small c es p v good in
      rw done (inv, order)

  -- the state and the history of a process, at any time
  Run-Inv :
      {c d : CausalBroadcast} {t : Thread} {ps : List Packet} {es : List Event}
      → Inv id n locality c []
      → c.can_broadcast ≡ true
      → Run c d t ps es
      → All (IsOfSystem n) ps
      → Inv id n locality d es × InOrder id n locality [] es × ThreadValid d t
  Run-Inv {c} v free (begin {t = t} h) good =
      (v, tt, subst (Started c) h (start_thread_lem c v free))
  Run-Inv v free (send {d = d} {e = e} {t = t} {events = events} {more = more} r may h) good =
      let (inv, order, valid) = Run-Inv v free r good in
      let (inv', order', valid') =
        subst (Stepped events) h (thread_step_lem d events t inv may valid) in
      (inv', InOrder-append id n locality [] events more order order', valid')
  Run-Inv v free
        (receive {d = d} {e = e} {t = t} {ps = ps} {events = events} {more = more} p r busy h)
        good =
      let (inv, order, valid) =
        Run-Inv v free r (All-append_left (IsOfSystem n) ps (p ∷ []) good) in
      let last = (All-append_right (IsOfSystem n) ps (p ∷ []) good).0 in
      let (inv', order') = subst (Received events) h (urb_deliver-Received d events p inv last) in
      (
        inv',
        InOrder-append id n locality [] events more order order',
        ThreadValid-receive d e t busy valid,
      )

next_zero : (hosts : List ℕ) (m : NumMap ℕ) (s : ℕ) → at 0 s m ≡ 0 → at 0 s (first_next hosts m) ≡ 0
unfolding first_next
next_zero [] m s h = h
next_zero (host ∷ hosts) m s h =
    next_zero hosts (put host 0 m) s (ground (arith, at-put 0 s host 0 m))

zeros-IsValid : (n : ℕ) → IsValid (zeros n)
unfolding zeros
zeros-IsValid n = record { sized = length-replicate n 0 }

pub create-Inv :
    (id num_messages : ℕ) (hosts : List ℕ) (locality : NumSet)
    → Inv id (length hosts) locality (create id num_messages hosts locality) []
unfolding create zeros
create-Inv id num_messages hosts locality = record {
  self = refl;
  affected = refl;
  recv_valid = zeros-IsValid (length hosts);
  recv_size = refl;
  send_valid = zeros-IsValid (length hosts);
  send_size = refl;
  counted = λ s k. next_zero hosts [] s (at-nil 0 s);
  recv = λ s k. get_or-replicate {A = ℕ} (length hosts) (s - 1) 0;
  send = λ s k. ground (arith, get_or-replicate {A = ℕ} (length hosts) (s - 1) 0);
  numbered = refl;
  stored = λ s k q h. cc (at-nil {V = NumMap Packet} [] s, find-nil {V = Packet} k);
}

pub create-may :
    (id num_messages : ℕ) (hosts : List ℕ) (locality : NumSet)
    → (create id num_messages hosts locality).can_broadcast ≡ true
unfolding create
create-may id num_messages hosts locality = refl

-- the state and the history of a process, at any time
pub Run-create :
    (id num_messages : ℕ) (hosts : List ℕ) (locality : NumSet) {c : CausalBroadcast} {t : Thread}
    {ps : List Packet} {es : List Event}
    → length hosts < word_size
    → IsProcess (length hosts) id
    → Run (create id num_messages hosts locality) c t ps es
    → All (IsOfSystem (length hosts)) ps
    → Inv id (length hosts) locality c es × InOrder id (length hosts) locality [] es
Run-create id num_messages hosts locality small known r good =
    let (inv, order, _) =
      Run-Inv id (length hosts) locality small known (create-Inv id num_messages hosts locality)
        (create-may id num_messages hosts locality) r good in
    (inv, order)

-- Process `id` of a system with these hosts, whose number is a size_t, affected by the processes of
-- `locality`, in any run from its start, with any packets of the system delivered to it: when it
-- delivers a packet, it has delivered exactly the earlier packets of the same source before (the
-- packet's number is how many, as a size_t), and of every process at least as many as the packet's
-- clock asks for.
pub Run-delivers_in_order :
    (id num_messages : ℕ) (hosts : List ℕ) (locality : NumSet) {c : CausalBroadcast} {t : Thread}
    {ps : List Packet} (before : List Event) (p : Packet) (after : List Event)
    → length hosts < word_size
    → IsProcess (length hosts) id
    → Run (create id num_messages hosts locality) c t ps (before ++ logs_delivered p ∷ after)
    → All (IsOfSystem (length hosts)) ps
    → (p.packet_seq_num ≡ delivered_from p.source_id before % word_size)
      × ((j : ℕ)
          → IsProcess (length hosts) j
          → entry p.vector_clock j ≤ delivered_from j before % word_size)
Run-delivers_in_order id num_messages hosts locality before p after small known r good =
    let (_, order) = Run-create id num_messages hosts locality small known r good in
    InOrder-at id (length hosts) locality [] before (logs_delivered p) after order

-- In any run from the start of a process of a system whose hosts a size_t can count, where the
-- packets that arrive are of the system, a packet that the process broadcasts carries its id, is
-- numbered by the broadcasts before it, and asks for: its own earlier packets; of every other
-- process that affects it, as many packets as it has delivered; and of the others none (the numbers
-- as a size_t).
pub Run-broadcast_clock :
    (id num_messages : ℕ) (hosts : List ℕ) (locality : NumSet) {c : CausalBroadcast} {t : Thread}
    {ps : List Packet} (before : List Event) (p : Packet) (after : List Event)
    → length hosts < word_size
    → IsProcess (length hosts) id
    → Run (create id num_messages hosts locality) c t ps (before ++ broadcasts p ∷ after)
    → All (IsOfSystem (length hosts)) ps
    → (p.source_id ≡ id)
      × (p.packet_seq_num ≡ broadcast_count before % word_size)
      × ((j : ℕ)
          → IsProcess (length hosts) j
          → entry p.vector_clock j ≡ (
              if j == id
              then broadcast_count before % word_size
              else if member j locality
              then delivered_from j before % word_size
              else 0))
Run-broadcast_clock id num_messages hosts locality before p after small known r good =
    let (_, order) = Run-create id num_messages hosts locality small known r good in
    InOrder-at id (length hosts) locality [] before (broadcasts p) after order

start_thread-silent :
    (id : ℕ) (hosts : List ℕ) (locality : NumSet) (p : Packet)
    → new_packet (create id 0 hosts locality) ≡ ok p
    → start_thread (create id 0 hosts locality) ≡ ok finished
unfolding start_thread create
start_thread-silent id hosts locality p made = rw made

-- A process without messages of its own starts, and its thread is at its end.
pub Run-silent :
    (id : ℕ) (hosts : List ℕ) (locality : NumSet)
    → length hosts < word_size
    → IsProcess (length hosts) id
    → Run (create id 0 hosts locality) (create id 0 hosts locality) finished [] []
Run-silent id hosts locality small known =
    let (p, made, _) =
      new_packet_lem id (length hosts) locality small known (create id 0 hosts locality) []
        (create-Inv id 0 hosts locality) in
    begin (start_thread-silent id hosts locality p made)
