-- ===== src/PerfectLink/Once.antt =====
-- No duplication: the link delivers the first copy of each packet, and no other.
use localized_causal_broadca.Prelude.{
  ℕ, ◌+◌, ◌≡◌, refl, Bool, true, false, ◌&&◌, List, [], ◌∷◌, ◌++◌, arith, if◌then◌else◌, not, ◌||◌,
}
use localized_causal_broadca.Containers.Set.{insert, member-insert}
use localized_causal_broadca.Containers.Map.{at, put, at-put}
use localized_causal_broadca.Packet.{Packet}
use localized_causal_broadca.OutBox.Size.{same_key}
use localized_causal_broadca.PerfectLink.{
  PerfectLink, Action, push_ack, deliver, delivered_from, was_delivered, mark_delivered,
  remove_acked, process_arrived, process_all,
}

-- the packet comes from process `p`, has the source `s` and the number `n`
abbrev pub has_key : ℕ → ℕ → ℕ → Packet → Bool
has_key p s n packet = same_key packet.process_id packet.source_id packet.packet_seq_num p s n

module _ (p s n : ℕ) where
  -- how many of the actions deliver a packet with the key
  abbrev pub deliveries : List Action → ℕ
  deliveries [] = 0
  deliveries (push_ack a ∷ rest) = deliveries rest
  deliveries (deliver packet ∷ rest) = (if has_key p s n packet then 1 else 0) + deliveries rest

  -- a packet with the key, which is no acknowledgement, is among those that arrive
  abbrev pub arrives : List Packet → Bool
  arrives [] = false
  arrives (q ∷ ps) = if (if q.is_ack then false else has_key p s n q) then true else arrives ps

  deliveries-append : (xs ys : List Action) → deliveries (xs ++ ys) ≡ deliveries xs + deliveries ys
  deliveries-append [] ys = omega arith
  deliveries-append (push_ack a ∷ xs) ys = deliveries-append xs ys
  deliveries-append (deliver q ∷ xs) ys = omega (arith, deliveries-append xs ys)

  pub was_delivered-mark :
      (l : PerfectLink) (q : Packet)
      → was_delivered (mark_delivered l q) p s n
        ≡ (if has_key p s n q then true else was_delivered l p s n)
  unfolding was_delivered mark_delivered
  was_delivered-mark l q =
      let old = delivered_from l q.process_id q.source_id in
      let sources = at [] q.process_id l.delivered in
      ground (
        arith,
        at-put [] p q.process_id (put q.source_id (insert q.packet_seq_num old) sources)
            l.delivered,
        at-put [] s q.source_id (insert q.packet_seq_num old) sources,
        member-insert n q.packet_seq_num old,
      )

  pub key_of :
      (l : PerfectLink) (q : Packet)
      → has_key p s n q ≡ true
      → was_delivered l q.process_id q.source_id q.packet_seq_num ≡ was_delivered l p s n
  key_of l q h = ground arith

  was_delivered-remove_acked :
      (l : PerfectLink) (q : Packet)
      → was_delivered (remove_acked l q) p s n ≡ was_delivered l p s n
  unfolding was_delivered remove_acked
  was_delivered-remove_acked l q = refl

  step-once :
      (l : PerfectLink) (q : Packet)
      → (was_delivered (process_arrived l q).0 p s n
          ≡ (was_delivered l p s n || (not q.is_ack && has_key p s n q)))
        × (deliveries (process_arrived l q).1 ≡ (
            if was_delivered l p s n then 0 else if not q.is_ack && has_key p s n q then 1 else 0))
  unfolding process_arrived
  step-once l q = ground (arith, was_delivered-mark l q, key_of l q, was_delivered-remove_acked l q)

  -- Whatever arrives in whatever order, the link delivers a packet of each key once if one arrives
  -- that is no acknowledgement and the key was not delivered before, and never otherwise.
  pub deliveries-process_all :
      (l : PerfectLink) (ps : List Packet)
      → deliveries (process_all l ps).1
        ≡ (if was_delivered l p s n then 0 else if arrives ps then 1 else 0)
  unfolding process_all
  deliveries-process_all l [] = ground arith
  deliveries-process_all l (q ∷ ps) = ground (
    arith,
    step-once l q,
    deliveries-append (process_arrived l q).1 (process_all (process_arrived l q).0 ps).1,
    deliveries-process_all (process_arrived l q).0 ps,
  )
