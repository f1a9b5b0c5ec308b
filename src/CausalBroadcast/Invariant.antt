-- ===== src/CausalBroadcast/Invariant.antt =====
-- The invariant of a process's state and history, and what a delivery does to it.
pub mod Deliveries
pub mod Broadcasts
pub mod Arrivals
pub mod Shape
use localized_causal_broadca.Prelude.{
  ℕ, ◌+◌, ◌-◌, ◌%◌, ◌≤◌, ◌<◌, ◌≡◌, refl, Bool, true, false, List, [], ◌∷◌, ◌++◌, arith, ◌==◌,
  ==_refl, if◌then◌else◌, word_size, Option, none, some, length, Bool-cases, inl, inr, ◌⊎◌, ap, sym,
  subst, ◌∙◌,
}
use localized_causal_broadca.Containers.Set.{NumSet, member}
use localized_causal_broadca.Containers.Map.{
  NumMap, at, put, find, remove, at-put, at-nil, find-put, find-remove, find-nil,
}
use localized_causal_broadca.VectorClock.{VectorClock, IsValid, zeros}
use localized_causal_broadca.VectorClock.Access.{entry, IsProcess}
use localized_causal_broadca.Packet.{Packet}
use localized_causal_broadca.CausalBroadcast.{
  CausalBroadcast, Event, create, next_of, pending_of, add_pending, take_pending, first_next,
}
use localized_causal_broadca.CausalBroadcast.Order.{delivered_from, broadcast_count}

-- a packet of a system of `n`
pub record IsOfSystem (n : ℕ) (p : Packet) : Type 0 where
  pub source : IsProcess n p.source_id
  pub clock : IsValid p.vector_clock
  pub size : p.vector_clock.num_processes ≡ n

-- Process `id` of a system of `n`, affected by the processes of `locality`.
module _ (id n : ℕ) (locality : NumSet) where
  pub record Inv (c : CausalBroadcast) (es : List Event) : Type 0 where
    pub self : c.process_id ≡ id
    pub affected : c.locality ≡ locality
    pub recv_valid : IsValid c.vc_recv
    pub recv_size : c.vc_recv.num_processes ≡ n
    pub send_valid : IsValid c.vc_send
    pub send_size : c.vc_send.num_processes ≡ n
    pub counted : (s : ℕ) → IsProcess n s → next_of c s ≡ delivered_from s es % word_size
    pub recv : (s : ℕ) → IsProcess n s → entry c.vc_recv s ≡ delivered_from s es % word_size
    pub send :
        (s : ℕ)
        → IsProcess n s
        → entry c.vc_send s ≡ (if member s locality then delivered_from s es % word_size else 0)
    pub numbered : c.cur_seq_num ≡ broadcast_count es % word_size
    pub stored :
        (s k : ℕ) (q : Packet)
        → find k (pending_of c s) ≡ some q
        → (q.source_id ≡ s) × (q.packet_seq_num ≡ k) × IsOfSystem n q

  -- Storing a packet that arrives keeps it.
  find-add_pending :
      (c : CausalBroadcast) (p : Packet) (s k : ℕ)
      → find k (pending_of (add_pending c p) s) ≡ (
          if p.source_id == s
          then (if p.packet_seq_num == k then some p else find k (pending_of c s))
          else find k (pending_of c s))
  unfolding add_pending
  find-add_pending c p s k = ground (
    arith,
    at-put [] s p.source_id (put p.packet_seq_num p (pending_of c p.source_id)) c.pending,
    find-put k p.packet_seq_num p (pending_of c p.source_id),
  )

  pub stored_add :
      (c : CausalBroadcast) (p : Packet) (s k : ℕ) (q : Packet)
      → find k (pending_of (add_pending c p) s) ≡ some q
      → (find k (pending_of c s) ≡ some q) ⊎ ((p ≡ q) × (p.source_id ≡ s) × (p.packet_seq_num ≡ k))
  stored_add c p s k q h = ground (arith, find-add_pending c p s k)

  pub add_pending-Inv :
      (c : CausalBroadcast) (es : List Event) (p : Packet)
      → IsOfSystem n p
      → Inv c es
      → Inv (add_pending c p) es
  unfolding add_pending
  add_pending-Inv c es p good v = record {
    self = v.self;
    affected = v.affected;
    recv_valid = v.recv_valid;
    recv_size = v.recv_size;
    send_valid = v.send_valid;
    send_size = v.send_size;
    counted = v.counted;
    recv = v.recv;
    send = v.send;
    numbered = v.numbered;
    stored = λ s k q h. elim (stored_add c p s k q h) [
      | inl old ↦ v.stored s k q old
      | inr (e, source, number) ↦ (
        ap (λ r. r.source_id) (sym e) ∙ source,
        ap (λ r. r.packet_seq_num) (sym e) ∙ number,
        subst (IsOfSystem n) e good,
      )
    ];
  }

  pub find-take_pending :
      (c : CausalBroadcast) (cur : Packet) (s k : ℕ) (q : Packet)
      → find k (pending_of (take_pending c cur) s) ≡ some q
      → find k (pending_of c s) ≡ some q
  unfolding take_pending
  find-take_pending c cur s k q h = ground (
    arith,
    at-put [] s cur.source_id (remove cur.packet_seq_num (pending_of c cur.source_id)) c.pending,
    find-remove k cur.packet_seq_num (pending_of c cur.source_id),
  )

  pub next-take_pending :
      (c : CausalBroadcast) (cur : Packet) (s : ℕ)
      → next_of (take_pending c cur) s
        ≡ (if cur.source_id == s then (next_of c s + 1) % word_size else next_of c s)
  unfolding take_pending
  next-take_pending c cur s =
      ground (arith, at-put 0 s cur.source_id ((next_of c cur.source_id + 1) % word_size) c.next)
