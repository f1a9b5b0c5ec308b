-- ===== src/CausalBroadcast/Dependencies.antt =====
-- Which packets a process has delivered when it delivers one.
use localized_causal_broadca.Prelude.{
  ℕ, ◌+◌, ◌%◌, ◌≤◌, ◌<◌, ◌≡◌, ◌&&◌, List, [], ◌∷◌, ◌++◌, arith, ◌==◌, if◌then◌else◌, ltb, leb,
  word_size, length, All, Bool-cases, inl, inr, subst,
}
use localized_causal_broadca.Containers.Set.{NumSet}
use localized_causal_broadca.VectorClock.Access.{entry, IsProcess}
use localized_causal_broadca.Packet.{Packet}
use localized_causal_broadca.CausalBroadcast.{
  Event, logs_broadcast, broadcasts, logs_delivered, create, CausalBroadcast,
}
use localized_causal_broadca.CausalBroadcast.Steps.{Thread, Run}
use localized_causal_broadca.CausalBroadcast.Order.{
  delivered_from, delivered_from-append, InOrder, InOrder-at, InOrder-left,
}
use localized_causal_broadca.CausalBroadcast.Invariant.{IsOfSystem}
use localized_causal_broadca.CausalBroadcast.Invariant.Broadcasts.{Run-create}

module _ (s k : ℕ) where
  -- how often the packet of the source `s` with the number `k` was delivered
  abbrev pub times_delivered : List Event → ℕ
  times_delivered [] = 0
  times_delivered (logs_delivered p ∷ es) =
      (if p.source_id == s && p.packet_seq_num == k then 1 else 0) + times_delivered es
  times_delivered (logs_broadcast p ∷ es) = times_delivered es
  times_delivered (broadcasts p ∷ es) = times_delivered es

  -- the packets that a history in order delivers from `s`, beyond those delivered in `done`
  times_delivered-InOrder :
      (id n : ℕ) (locality : NumSet) (done es : List Event)
      → InOrder id n locality done es
      → delivered_from s done + delivered_from s es < word_size
      → times_delivered es ≡ (
          if leb (delivered_from s done) k && ltb k (delivered_from s done + delivered_from s es)
          then 1
          else 0)
  times_delivered-InOrder id n locality done [] h small = ground arith
  times_delivered-InOrder id n locality done (logs_delivered p ∷ es) (j, h) small =
      elim (Bool-cases (p.source_id == s)) [
        | inl own ↦
            let same : p.source_id ≡ s = ground arith in
            let number =
              subst (λ x. p.packet_seq_num ≡ delivered_from x done % word_size) same j.0 in
            let after = delivered_from-append s done (logs_delivered p ∷ []) in
            ground (
              arith,
              times_delivered-InOrder id n locality (done ++ logs_delivered p ∷ []) es h
                  (ground (arith, after)),
              number,
              after,
            )
        | inr other ↦ ground (
          arith,
          times_delivered-InOrder id n locality (done ++ logs_delivered p ∷ []) es h,
          delivered_from-append s done (logs_delivered p ∷ []),
        )
      ]
  times_delivered-InOrder id n locality done (logs_broadcast p ∷ es) (j, h) small = ground (
    arith,
    times_delivered-InOrder id n locality (done ++ logs_broadcast p ∷ []) es h,
    delivered_from-append s done (logs_broadcast p ∷ []),
  )
  times_delivered-InOrder id n locality done (broadcasts p ∷ es) (j, h) small = ground (
    arith,
    times_delivered-InOrder id n locality (done ++ broadcasts p ∷ []) es h,
    delivered_from-append s done (broadcasts p ∷ []),
  )

pub delivered_from-le-length : (s : ℕ) (es : List Event) → delivered_from s es ≤ length es
delivered_from-le-length s [] = omega arith
delivered_from-le-length s (logs_delivered p ∷ es) = ground (arith, delivered_from-le-length s es)
delivered_from-le-length s (logs_broadcast p ∷ es) = omega (arith, delivered_from-le-length s es)
delivered_from-le-length s (broadcasts p ∷ es) = omega (arith, delivered_from-le-length s es)

-- In any run from the start of a process of a system whose hosts a size_t can count, where the
-- packets that arrive are of the system and fewer events than 2 ^ 64 have happened: of every source
-- the process has delivered the packets numbered 0, 1, 2, … up to how many it delivered, each
-- exactly once, and no other.
pub Run-delivers_once :
    (id num_messages : ℕ) (hosts : List ℕ) (locality : NumSet) {c : CausalBroadcast} {t : Thread}
    {ps : List Packet} (es : List Event) (s k : ℕ)
    → length hosts < word_size
    → IsProcess (length hosts) id
    → Run (create id num_messages hosts locality) c t ps es
    → All (IsOfSystem (length hosts)) ps
    → length es < word_size
    → times_delivered s k es ≡ (if ltb k (delivered_from s es) then 1 else 0)
Run-delivers_once id num_messages hosts locality es s k small known r good short =
    let (_, order) = Run-create id num_messages hosts locality small known r good in
    let bound = delivered_from-le-length s es in
    ground (arith, times_delivered-InOrder s k id (length hosts) locality [] es order (omega arith))

-- In any run from the start of a process of a system whose hosts a size_t can count, where the
-- packets that arrive are of the system and fewer than 2 ^ 64 events came before the delivery of a
-- packet: every packet that the clock of the delivered one counts, of whichever process, was
-- delivered before it, once; so were the earlier packets of its own source; and it was not
-- delivered before itself.
pub Run-delivers_dependencies :
    (id num_messages : ℕ) (hosts : List ℕ) (locality : NumSet) {c : CausalBroadcast} {t : Thread}
    {ps : List Packet} (before : List Event) (p : Packet) (after : List Event)
    → length hosts < word_size
    → IsProcess (length hosts) id
    → Run (create id num_messages hosts locality) c t ps (before ++ logs_delivered p ∷ after)
    → All (IsOfSystem (length hosts)) ps
    → length before < word_size
    → ((s k : ℕ)
        → IsProcess (length hosts) s
        → k < entry p.vector_clock s
        → times_delivered s k before ≡ 1)
      × ((k : ℕ) → times_delivered p.source_id k before ≡ (if ltb k p.packet_seq_num then 1 else 0))
Run-delivers_dependencies id num_messages hosts locality before p after small known r good short =
    let (_, order) = Run-create id num_messages hosts locality small known r good in
    let (number, clock) =
      InOrder-at id (length hosts) locality [] before (logs_delivered p) after order in
    let earlier =
      InOrder-left id (length hosts) locality [] before (logs_delivered p ∷ after) order in
    (
      λ s k in_system asked. ground (
        arith,
        delivered_from-le-length s before,
        clock s in_system,
        times_delivered-InOrder s k id (length hosts) locality [] before earlier
            (ground (arith, delivered_from-le-length s before)),
      ),
      λ k. ground (
        arith,
        number,
        delivered_from-le-length p.source_id before,
        times_delivered-InOrder p.source_id k id (length hosts) locality [] before earlier
            (ground (arith, delivered_from-le-length p.source_id before)),
      ),
    )
