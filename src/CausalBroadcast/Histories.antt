-- ===== src/CausalBroadcast/Histories.antt =====
-- The histories of the processes of a system (template_cpp/src/src/causal_broadcast.cpp): what has
-- happened at each, and which broadcasts a broadcast depends on.
use localized_causal_broadca.Prelude.{
  ℕ, suc, ◌+◌, ◌≤◌, ◌<◌, ◌≡◌, ◌≢◌, refl, ap, ◌∙◌, true, ◌&&◌, List, [], ◌∷◌, ◌++◌, arith, ◌==◌,
  Bool-cases, inl, inr, word_size, get_elem?, length, length-append, All, some, append_assoc,
}
use localized_causal_broadca.Containers.Set.{NumSet, member}
use localized_causal_broadca.VectorClock.Access.{IsProcess}
use localized_causal_broadca.Packet.{Packet}
use localized_causal_broadca.CausalBroadcast.{
  Event, logs_broadcast, broadcasts, logs_delivered, create, CausalBroadcast,
}
use localized_causal_broadca.CausalBroadcast.Steps.{Thread, Run}
use localized_causal_broadca.CausalBroadcast.Order.{broadcast_count}
use localized_causal_broadca.CausalBroadcast.Invariant.{IsOfSystem}
use localized_causal_broadca.CausalBroadcast.Dependencies.{times_delivered}

-- `e` is an event of the history `es`, with these before it.
abbrev pub OccursAfter : List Event → Event → List Event → Type 0
OccursAfter before e es = (after : List Event) × (es ≡ before ++ e ∷ after)

-- The packet is one that its source has broadcast, but for the id of the last sender.
abbrev pub Genuine : (ℕ → List Event) → Packet → Type 0
Genuine history p =
    (q : Packet) × (before : List Event) × OccursAfter before (broadcasts q) (history p.source_id)
    × (p ≡ record q { process_id = p.process_id })

-- A system with these hosts: what has happened at each process so far. The layer below delivers
-- only what was broadcast (UniformReliableBroadcast), and fewer than 2 ^ 64 events happened at
-- each.
pub record System (hosts : List ℕ) (num_messages : ℕ → ℕ) (locality : ℕ → NumSet)
    (history : ℕ → List Event) : Type 0 where
  pub counted : length hosts < word_size
  pub state : ℕ → CausalBroadcast
  pub thread : ℕ → Thread
  pub arrived : ℕ → List Packet
  pub run :
      (id : ℕ)
      → IsProcess (length hosts) id
      → Run
          (create id (num_messages id) hosts (locality id))
          (state id)
          (thread id)
          (arrived id)
          (history id)
  pub genuine : (id : ℕ) → IsProcess (length hosts) id → All (Genuine history) (arrived id)
  pub of_system :
      (id : ℕ) → IsProcess (length hosts) id → All (IsOfSystem (length hosts)) (arrived id)
  pub short : (id : ℕ) → IsProcess (length hosts) id → length (history id) < word_size

-- What a broadcast of process `i` depends on: the packet `k` of `s` precedes the packet `k'` of
-- `i`.
pub data Precedes (n : ℕ) (locality : ℕ → NumSet) (history : ℕ → List Event)
    : ℕ → ℕ → ℕ → ℕ → Type 0 where
  -- an earlier broadcast of the same process
  own :
      {s k s' k' : ℕ} (before between : List Event) (p q : Packet)
      → s ≡ s'
      → p.packet_seq_num ≡ k
      → q.packet_seq_num ≡ k'
      → IsProcess n s'
      → OccursAfter (before ++ broadcasts p ∷ between) (broadcasts q) (history s')
      → Precedes n locality history s k s' k'
  -- an earlier delivery from another process, which affects it
  affects :
      {s k s' k' : ℕ} (before between : List Event) (p q : Packet)
      → p.source_id ≡ s
      → p.packet_seq_num ≡ k
      → q.packet_seq_num ≡ k'
      → s ≢ s'
      → IsProcess n s
      → IsProcess n s'
      → member s (locality s') ≡ true
      → OccursAfter (before ++ logs_delivered p ∷ between) (broadcasts q) (history s')
      → Precedes n locality history s k s' k'
  through :
      {s k s' k' s'' k'' : ℕ}
      → Precedes n locality history s k s' k'
      → Precedes n locality history s' k' s'' k''
      → Precedes n locality history s k s'' k''

-- the packets broadcast, in their order
abbrev sequence : List Event → List Packet
sequence [] = []
sequence (logs_delivered p ∷ es) = sequence es
sequence (logs_broadcast p ∷ es) = sequence es
sequence (broadcasts p ∷ es) = p ∷ sequence es

sequence-at :
    (before : List Event) (p : Packet) (after : List Event)
    → get_elem? (sequence (before ++ broadcasts p ∷ after)) (broadcast_count before) ≡ some p
sequence-at [] p after = refl
sequence-at (logs_delivered q ∷ before) p after = sequence-at before p after
sequence-at (logs_broadcast q ∷ before) p after = sequence-at before p after
sequence-at (broadcasts q ∷ before) p after =
    ap (get_elem? (q ∷ sequence (before ++ broadcasts p ∷ after)))
      {y = suc (broadcast_count before)} (omega arith)
    ∙ sequence-at before p after

-- Two broadcasts of one history with the same number are the same.
pub same_broadcast :
    (es before before' : List Event) (p p' : Packet)
    → OccursAfter before (broadcasts p) es
    → OccursAfter before' (broadcasts p') es
    → broadcast_count before ≡ broadcast_count before'
    → p ≡ p'
same_broadcast es before before' p p' (after, e) (after', e') same =
    cc (sequence-at before p after, sequence-at before' p' after')

pub broadcast_count-le-length : (es : List Event) → broadcast_count es ≤ length es
broadcast_count-le-length [] = omega arith
broadcast_count-le-length (logs_delivered p ∷ es) = omega (arith, broadcast_count-le-length es)
broadcast_count-le-length (logs_broadcast p ∷ es) = omega (arith, broadcast_count-le-length es)
broadcast_count-le-length (broadcasts p ∷ es) = omega (arith, broadcast_count-le-length es)

pub length-before :
    (es before after : List Event) (e : Event)
    → es ≡ before ++ e ∷ after
    → length before < length es
length-before es before after e h = omega (arith, ap length h, length-append before (e ∷ after))

-- What occurs before an event that occurs occurs itself.
pub occurs_inside :
    (es before between : List Event) (d e : Event)
    → OccursAfter (before ++ d ∷ between) e es
    → OccursAfter before d es
occurs_inside es before between d e (after, h) =
    (between ++ e ∷ after, h ∙ append_assoc before (d ∷ between) (e ∷ after))

module _ (s k : ℕ) where
  pub times_delivered-append :
      (xs ys : List Event)
      → times_delivered s k (xs ++ ys) ≡ times_delivered s k xs + times_delivered s k ys
  times_delivered-append [] ys = omega arith
  times_delivered-append (logs_delivered p ∷ xs) ys = omega (arith, times_delivered-append xs ys)
  times_delivered-append (logs_broadcast p ∷ xs) ys = times_delivered-append xs ys
  times_delivered-append (broadcasts p ∷ xs) ys = times_delivered-append xs ys

  -- A packet that was delivered was so at some place.
  pub times_delivered-place :
      (es : List Event)
      → 0 < times_delivered s k es
      → (before : List Event) × (p : Packet) × (p.source_id ≡ s)
        × (p.packet_seq_num ≡ k)
        × OccursAfter before (logs_delivered p) es
  times_delivered-place [] h = absurd (omega arith)
  times_delivered-place (logs_delivered p ∷ es) h =
      elim (Bool-cases (p.source_id == s && p.packet_seq_num == k)) [
        | inl this ↦ ([], p, ground arith, ground arith, (es, refl))
        | inr other ↦
            let (before, q, source, number, (after, e)) = times_delivered-place es (ground arith) in
            (
              logs_delivered p ∷ before,
              q,
              source,
              number,
              (after, ap (λ es. logs_delivered p ∷ es) e),
            )
      ]
  times_delivered-place (logs_broadcast p ∷ es) h =
      let (before, q, source, number, (after, e)) = times_delivered-place es h in
      (logs_broadcast p ∷ before, q, source, number, (after, ap (λ es. logs_broadcast p ∷ es) e))
  times_delivered-place (broadcasts p ∷ es) h =
      let (before, q, source, number, (after, e)) = times_delivered-place es h in
      (broadcasts p ∷ before, q, source, number, (after, ap (λ es. broadcasts p ∷ es) e))
