-- ===== src/CausalBroadcast/Invariant/Deliveries.antt =====
-- `URBDeliver` keeps the invariant, and what it delivers is in order.
use localized_causal_broadca.Prelude.{
  ℕ, zero, suc, ◌+◌, ◌-◌, ◌%◌, ◌≤◌, ◌<◌, ◌≡◌, ◌≢◌, refl, sym, ◌∙◌, Bool, true, List, [], ◌∷◌, ◌++◌,
  arith, ◌==◌, if◌then◌else◌, word_size, Option, none, some, length, Bool-cases, inl, inr, ◌⊎◌, ok,
  append_assoc, append-nil, subst,
}
use localized_causal_broadca.Containers.Set.{NumSet, member}
use localized_causal_broadca.Containers.Map.{find, remove, put, at-put, length-remove_lt}
use mathlib.Core.Bool.{◌&&◌, not}
use localized_causal_broadca.VectorClock.{VectorClock, IsValid}
use localized_causal_broadca.VectorClock.Access.{entry, IsProcess, increase-entry}
use localized_causal_broadca.VectorClock.Order.{leq-iff-Below}
use localized_causal_broadca.Packet.{Packet}
use localized_causal_broadca.CausalBroadcast.{
  CausalBroadcast, Event, logs_delivered, next_of, pending_of, add_pending, take_pending,
  count_sent, causal_deliver, deliver_one, ready, deliver_ready, urb_deliver,
}
use localized_causal_broadca.CausalBroadcast.Order.{
  delivered_from, delivered_from-append, broadcast_count-append, InOrder,
}
use localized_causal_broadca.CausalBroadcast.Invariant.{
  IsOfSystem, Inv, add_pending-Inv, find-take_pending, next-take_pending,
}

-- Process `id` of a system of `n`, affected by the processes of `locality`.
module _ (id n : ℕ) (locality : NumSet) (small : n < word_size) where
  -- What a test of the loop answers: the next packet of the source, if it is there and its clock
  -- is not ahead.
  ready_cases :
      (c : CausalBroadcast) (es : List Event) (s : ℕ)
      → Inv id n locality c es
      → (ready c s ≡ ok none)
        ⊎ ((cur : Packet) × (ready c s ≡ ok (some cur))
            × (find (next_of c s) (pending_of c s) ≡ some cur)
            × ((j : ℕ) → entry cur.vector_clock j ≤ entry c.vc_recv j))
  unfolding ready
  ready_cases c es s v = go (find (next_of c s) (pending_of c s)) refl
    where
      go :
          (o : Option Packet)
          → find (next_of c s) (pending_of c s) ≡ o
          → (ready c s ≡ ok none)
            ⊎ ((cur : Packet) × (ready c s ≡ ok (some cur))
                × (find (next_of c s) (pending_of c s) ≡ some cur)
                × ((j : ℕ) → entry cur.vector_clock j ≤ entry c.vc_recv j))
      go none e = inl (rw (e, ready))
      go (some cur) e =
          let (source, number, good) = v.stored s (next_of c s) cur e in
          let (b, answer, below) =
            leq-iff-Below cur.vector_clock c.vc_recv good.clock v.recv_valid
              (good.size ∙ sym v.recv_size) in
          elim (Bool-cases b) [
            | inl behind ↦
                inr (cur, rw (e, ready) (rw (answer, behind)), e, λ j. below.0 behind (j - 1))
            | inr ahead ↦ inl (rw (e, ready) (rw (answer, ahead)))
          ]

  -- the clock of the own packets after a delivery
  send_counted :
      (c : CausalBroadcast) (es : List Event) (cur : Packet)
      → Inv id n locality c es
      → IsProcess n cur.source_id
      → (w : VectorClock) × (count_sent c cur.source_id ≡ ok w)
        × IsValid w
        × (w.num_processes ≡ n)
        × ((j : ℕ)
            → IsProcess n j
            → entry w j ≡ (
                if member j locality
                then delivered_from j (es ++ logs_delivered cur ∷ []) % word_size
                else 0))
  unfolding count_sent
  send_counted c es cur v p = elim (Bool-cases (member cur.source_id c.locality)) [
    | inl affects ↦
        let (w, done, size, valid, entries) =
          increase-entry c.vc_send v.send_valid (rw v.send_size small) cur.source_id
            (rw v.send_size p) in
        (
          w,
          rw affects done,
          valid,
          size ∙ v.send_size,
          λ j k. ground (
            arith,
            entries j k.0,
            v.send j k,
            v.send cur.source_id p,
            v.affected,
            delivered_from-append j es (logs_delivered cur ∷ []),
          ),
        )
    | inr other ↦ (
      c.vc_send,
      rw other,
      v.send_valid,
      v.send_size,
      λ j k.
          ground
            (arith, v.send j k, v.affected, delivered_from-append j es (logs_delivered cur ∷ [])),
    )
  ]

  -- The delivery to the process controller leaves all but `can_broadcast`.
  causal_deliver_keeps :
      (P : CausalBroadcast → Type 0) (c : CausalBroadcast) (p : Packet)
      → P c
      → P (record c { can_broadcast = true })
      → P (causal_deliver c p).0
  unfolding causal_deliver
  causal_deliver_keeps P c p h k =
      elim (Bool-cases (p.source_id == c.process_id && not c.end_broadcast)) [
        | inl e ↦ rw e k
        | inr e ↦ rw e h
      ]

  causal_deliver-events :
      (c : CausalBroadcast) (p : Packet)
      → ok (causal_deliver c p) ≡ ok ((causal_deliver c p).0, logs_delivered p ∷ [])
  unfolding causal_deliver
  causal_deliver-events c p = refl

  -- the state behind a delivery, before `can_broadcast` is set
  abbrev counted_state : CausalBroadcast → Packet → VectorClock → VectorClock → CausalBroadcast
  counted_state c cur recv send = record (take_pending c cur) { vc_recv = recv; vc_send = send }

  counted_state-Inv :
      (c : CausalBroadcast) (es : List Event) (cur : Packet) (recv send : VectorClock) (b : Bool)
      → Inv id n locality c es
      → IsProcess n cur.source_id
      → IsValid recv
      → recv.num_processes ≡ n
      → ((j : ℕ)
          → 1 ≤ j
          → entry recv j ≡ (
              if cur.source_id == j
              then (entry c.vc_recv cur.source_id + 1) % word_size
              else entry c.vc_recv j))
      → IsValid send
      → send.num_processes ≡ n
      → ((j : ℕ)
          → IsProcess n j
          → entry send j ≡ (
              if member j locality
              then delivered_from j (es ++ logs_delivered cur ∷ []) % word_size
              else 0))
      → Inv id n locality
          (record (counted_state c cur recv send) { can_broadcast = b })
          (es ++ logs_delivered cur ∷ [])
  counted_state-Inv c es cur recv send b v p rv rn re sv sn se = record {
    self = unfold take_pending in v.self;
    affected = unfold take_pending in v.affected;
    recv_valid = rv;
    recv_size = rn;
    send_valid = sv;
    send_size = sn;
    counted = λ j k. ground (
      arith,
      next-take_pending id n locality c cur j,
      v.counted j k,
      delivered_from-append j es (logs_delivered cur ∷ []),
    );
    recv = λ j k. ground (
      arith,
      re j k.0,
      v.recv j k,
      v.recv cur.source_id p,
      delivered_from-append j es (logs_delivered cur ∷ []),
    );
    send = se;
    numbered =
        unfold take_pending in
        ground (arith, v.numbered, broadcast_count-append es (logs_delivered cur ∷ []));
    stored = λ s k q h. v.stored s k q (find-take_pending id n locality c cur s k q h);
  }

  take_pending-shorter :
      (c : CausalBroadcast) (cur : Packet)
      → find cur.packet_seq_num (pending_of c cur.source_id) ≡ some cur
      → length (pending_of (take_pending c cur) cur.source_id) < length (pending_of c cur.source_id)
  unfolding take_pending
  take_pending-shorter c cur h = ground (
    arith,
    at-put [] cur.source_id cur.source_id (remove cur.packet_seq_num (pending_of c cur.source_id))
        c.pending,
    length-remove_lt cur.packet_seq_num cur (pending_of c cur.source_id) h,
  )

  -- Nothing of another source than `s` changes.
  abbrev pub OthersSame : ℕ → CausalBroadcast → CausalBroadcast → Type 0
  OthersSame s c d =
      (t : ℕ) → s ≢ t → (pending_of d t ≡ pending_of c t) × (next_of d t ≡ next_of c t)

  take_pending-OthersSame :
      (c : CausalBroadcast) (cur : Packet) → OthersSame cur.source_id c (take_pending c cur)
  unfolding take_pending
  take_pending-OthersSame c cur t other = (
    ground (
      arith,
      at-put [] t cur.source_id (remove cur.packet_seq_num (pending_of c cur.source_id)) c.pending,
    ),
    ground (arith, at-put 0 t cur.source_id ((next_of c cur.source_id + 1) % word_size) c.next),
  )

  add_pending-OthersSame :
      (c : CausalBroadcast) (p : Packet) → OthersSame p.source_id c (add_pending c p)
  unfolding add_pending
  add_pending-OthersSame c p t other = (
    ground (
      arith,
      at-put [] t p.source_id (put p.packet_seq_num p (pending_of c p.source_id)) c.pending,
    ),
    refl,
  )

  OthersSame-trans :
      (s : ℕ) (c d e : CausalBroadcast) → OthersSame s c d → OthersSame s d e → OthersSame s c e
  OthersSame-trans s c d e h k t other =
      ((k t other).0 ∙ (h t other).0, (k t other).1 ∙ (h t other).1)

  -- What a delivery of the loop gives: it cannot fail, the history stays in order, and the source
  -- has a pending packet less.
  abbrev Delivered : CausalBroadcast → List Event → ℕ → Packet → Type 0
  Delivered c es s cur =
      (d : CausalBroadcast) × (deliver_one c s cur ≡ ok (d, logs_delivered cur ∷ []))
      × Inv id n locality d (es ++ logs_delivered cur ∷ [])
      × InOrder id n locality es (logs_delivered cur ∷ [])
      × (length (pending_of d s) < length (pending_of c s))
      × OthersSame s c d

  deliver_source :
      (c : CausalBroadcast) (es : List Event) (cur : Packet)
      → Inv id n locality c es
      → find (next_of c cur.source_id) (pending_of c cur.source_id) ≡ some cur
      → ((j : ℕ) → entry cur.vector_clock j ≤ entry c.vc_recv j)
      → Delivered c es cur.source_id cur
  unfolding deliver_one take_pending count_sent
  deliver_source c es cur v found below =
      let (_, number, good) = v.stored cur.source_id (next_of c cur.source_id) cur found in
      let p = good.source in
      let (recv, received, recv_size, recv_valid, entries) =
        increase-entry c.vc_recv v.recv_valid (rw v.recv_size small) cur.source_id
          (rw v.recv_size p) in
      let (send, sent, send_valid, send_size, send_entries) = send_counted c es cur v p in
      let after = counted_state c cur recv send in
      let shorter =
        take_pending-shorter c cur
          (subst (λ k. find k (pending_of c cur.source_id) ≡ some cur) (sym number) found) in
      let inv = λ (b : Bool).
        counted_state-Inv c es cur recv send b v p recv_valid (recv_size ∙ v.recv_size) entries
          send_valid send_size send_entries in
      (
        (causal_deliver after cur).0,
        rw (received, sent) (causal_deliver-events after cur),
        causal_deliver_keeps (λ d. Inv id n locality d (es ++ logs_delivered cur ∷ [])) after cur
            (inv after.can_broadcast) (inv true),
        ((number ∙ v.counted cur.source_id p, λ j k. rw (← v.recv j k) (below j)), tt),
        causal_deliver_keeps
            (λ d. length (pending_of d cur.source_id) < length (pending_of c cur.source_id)) after
            cur shorter shorter,
        causal_deliver_keeps (OthersSame cur.source_id c) after cur (take_pending-OthersSame c cur)
            (take_pending-OthersSame c cur),
      )

  deliver_one_lem :
      (c : CausalBroadcast) (es : List Event) (s : ℕ) (cur : Packet)
      → Inv id n locality c es
      → find (next_of c s) (pending_of c s) ≡ some cur
      → ((j : ℕ) → entry cur.vector_clock j ≤ entry c.vc_recv j)
      → Delivered c es s cur
  deliver_one_lem c es s cur v found below =
      let source = (v.stored s (next_of c s) cur found).0 in
      subst (λ t. Delivered c es t cur) source
        (deliver_source c es cur v
          (subst (λ t. find (next_of c t) (pending_of c t) ≡ some cur) (sym source) found) below)

  -- The loop with more rounds to go than there are pending packets of the source: it cannot fail,
  -- keeps the order, and ends because nothing of the source can be delivered, not for lack of
  -- rounds.
  Drained : ℕ → CausalBroadcast → List Event → ℕ → Type 0
  Drained fuel c es s =
      (d : CausalBroadcast) × (more : List Event) × (deliver_ready fuel c s ≡ ok (d, more))
      × Inv id n locality d (es ++ more)
      × InOrder id n locality es more
      × (ready d s ≡ ok none)
      × OthersSame s c d

  deliver_ready-Drained :
      (fuel : ℕ) (c : CausalBroadcast) (es : List Event) (s : ℕ)
      → Inv id n locality c es
      → length (pending_of c s) < fuel
      → Drained fuel c es s
  unfolding deliver_ready Drained
  deliver_ready-Drained zero c es s v h = elim h [ ]
  deliver_ready-Drained (suc fuel) c es s v h = elim (ready_cases c es s v) [
    | inl nothing ↦ (c, [], rw nothing, rw append-nil v, tt, nothing, λ t other. (refl, refl))
    | inr (cur, answer, found, below) ↦
        let (d, delivered, inv, order, shorter, same) = deliver_one_lem c es s cur v found below in
        let (e, more, drained, inv', order', stop, same') =
          deliver_ready-Drained fuel d (es ++ logs_delivered cur ∷ []) s inv (omega arith) in
        (
          e,
          logs_delivered cur ∷ more,
          rw answer (rw delivered (rw drained)),
          rw append_assoc at inv',
          (order.0, order'),
          stop,
          OthersSame-trans s c d e same same',
        )
  ]

  -- `URBDeliver` of a packet of the system.
  pub urb_deliver_lem :
      (c : CausalBroadcast) (es : List Event) (p : Packet)
      → Inv id n locality c es
      → IsOfSystem n p
      → (d : CausalBroadcast) × (more : List Event) × (urb_deliver c p ≡ ok (d, more))
        × Inv id n locality d (es ++ more)
        × InOrder id n locality es more
        × (ready d p.source_id ≡ ok none)
        × OthersSame p.source_id c d
  unfolding urb_deliver Drained
  urb_deliver_lem c es p v good =
      let stored = add_pending c p in
      let (d, more, done, inv, order, stop, same) =
        deliver_ready-Drained (length (pending_of stored p.source_id) + 1) stored es p.source_id
          (add_pending-Inv id n locality c es p good v) (omega arith) in
      (
        d,
        more,
        done,
        inv,
        order,
        stop,
        OthersSame-trans p.source_id c stored d (add_pending-OthersSame c p) same,
      )
