-- ===== src/CausalBroadcast/Causality.antt =====
-- The processes of a system together: the order in which all of them deliver.
use localized_causal_broadca.Prelude.{
  ℕ, ◌≤◌, ◌<◌, ◌≡◌, sym, ap, ◌∙◌, subst, List, ◌∷◌, ◌++◌, arith, ◌==◌, if◌then◌else◌, ltb,
  word_size, length,
}
use localized_causal_broadca.Containers.Set.{NumSet, member}
use localized_causal_broadca.VectorClock.Access.{entry, IsProcess}
use localized_causal_broadca.Packet.{Packet}
use localized_causal_broadca.CausalBroadcast.{Event, broadcasts, logs_delivered, create}
use localized_causal_broadca.CausalBroadcast.Steps.{Run}
use localized_causal_broadca.CausalBroadcast.Order.{
  delivered_from, delivered_from-append, broadcast_count, broadcast_count-append,
}
use localized_causal_broadca.CausalBroadcast.Invariant.{IsOfSystem}
use localized_causal_broadca.CausalBroadcast.Invariant.Broadcasts.{
  Run-broadcast_clock, Run-delivers_in_order,
}
use localized_causal_broadca.CausalBroadcast.Invariant.Arrivals.{
  Delivered, Run-Delivered, Delivered-at,
}
use localized_causal_broadca.CausalBroadcast.Dependencies.{
  times_delivered, Run-delivers_dependencies, Run-delivers_once, delivered_from-le-length,
}
use localized_causal_broadca.CausalBroadcast.Histories.{
  OccursAfter, Genuine, System, Precedes, same_broadcast, times_delivered-append,
  times_delivered-place, broadcast_count-le-length, length-before, occurs_inside, own, affects,
  through,
}

module _ {hosts : List ℕ} {num_messages : ℕ → ℕ} {locality : ℕ → NumSet} {history : ℕ → List Event}
    (sys : System hosts num_messages locality history) where
  -- what a broadcast packet is, in terms of the history before it
  broadcast_facts :
      (i : ℕ) (before : List Event) (q : Packet)
      → IsProcess (length hosts) i
      → OccursAfter before (broadcasts q) (history i)
      → (q.source_id ≡ i)
        × (q.packet_seq_num ≡ broadcast_count before)
        × ((j : ℕ)
            → IsProcess (length hosts) j
            → entry q.vector_clock j ≡ (
                if j == i
                then broadcast_count before
                else if member j (locality i)
                then delivered_from j before
                else 0))
  broadcast_facts i before q known (after, e) =
      let r =
        subst
          (λ es.
            Run (create i (num_messages i) hosts (locality i)) (sys.state i) (sys.thread i)
              (sys.arrived i) es)
          e (sys.run i known) in
      let (source, number, clock) =
        Run-broadcast_clock i (num_messages i) hosts (locality i) before q after sys.counted known r
          (sys.of_system i known) in
      let fits : length before < word_size =
        omega (arith, sys.short i known, length-before (history i) before after (broadcasts q) e) in
      let count = broadcast_count-le-length before in
      (
        source,
        omega (arith, number, count, fits),
        λ j k. ground (arith, clock j k, count, delivered_from-le-length j before, fits),
      )

  -- what holds where a process delivers a packet
  pub delivery_facts :
      (j : ℕ) (before : List Event) (q : Packet)
      → IsProcess (length hosts) j
      → OccursAfter before (logs_delivered q) (history j)
      → ((s k : ℕ)
          → IsProcess (length hosts) s
          → k < entry q.vector_clock s
          → times_delivered s k before ≡ 1)
        × ((k : ℕ)
            → times_delivered q.source_id k before ≡ (if ltb k q.packet_seq_num then 1 else 0))
        × Genuine history q
        × (q.packet_seq_num ≡ delivered_from q.source_id before)
  delivery_facts j before q known (after, e) =
      let r =
        subst
          (λ es.
            Run (create j (num_messages j) hosts (locality j)) (sys.state j) (sys.thread j)
              (sys.arrived j) es)
          e (sys.run j known) in
      let fits : length before < word_size =
        omega
          (arith, sys.short j known, length-before (history j) before after (logs_delivered q) e) in
      let (asked, earlier) =
        Run-delivers_dependencies j (num_messages j) hosts (locality j) before q after sys.counted
          known r (sys.of_system j known) fits in
      let (number, _) =
        Run-delivers_in_order j (num_messages j) hosts (locality j) before q after sys.counted known
          r (sys.of_system j known) in
      (
        asked,
        earlier,
        Delivered-at (Genuine history) before q after (
            Run-Delivered (Genuine history) j (num_messages j) hosts (locality j) r
              (sys.genuine j known)),
        omega (arith, number, fits, delivered_from-le-length q.source_id before),
      )

  times_delivered_le :
      (j s k : ℕ) (before : List Event) (e : Event)
      → IsProcess (length hosts) j
      → OccursAfter before e (history j)
      → times_delivered s k before ≤ 1
  times_delivered_le j s k before e known (after, h) =
      let once =
        Run-delivers_once j (num_messages j) hosts (locality j) (history j) s k sys.counted known
          (sys.run j known) (sys.of_system j known) (sys.short j known) in
      ground
        (arith, once, ap (times_delivered s k) h, times_delivered-append s k before (e ∷ after))

  -- A packet that is delivered has the clock of the broadcast with its source and number.
  delivered_clock :
      (j i : ℕ) (before sent : List Event) (q r : Packet)
      → IsProcess (length hosts) j
      → IsProcess (length hosts) i
      → OccursAfter before (logs_delivered q) (history j)
      → OccursAfter sent (broadcasts r) (history i)
      → q.source_id ≡ i
      → q.packet_seq_num ≡ r.packet_seq_num
      → q.vector_clock ≡ r.vector_clock
  delivered_clock j i before sent q r known sender at sent_at source number =
      let (_, _, (q', sent', at', copied), _) = delivery_facts j before q known at in
      let there = subst (λ i. OccursAfter sent' (broadcasts q') (history i)) source at' in
      let (_, counted, _) = broadcast_facts i sent r sender sent_at in
      let (_, counted', _) = broadcast_facts i sent' q' sender there in
      let number' = ap (λ p. p.packet_seq_num) copied in
      let same =
        same_broadcast (history i) sent' sent q' r there sent_at
          (omega (arith, counted, counted', number, number')) in
      ap (λ p. p.vector_clock) copied ∙ ap (λ p. p.vector_clock) same

  -- what a process delivers is of the system
  delivered-IsOfSystem :
      (j : ℕ) (before : List Event) (q : Packet)
      → IsProcess (length hosts) j
      → OccursAfter before (logs_delivered q) (history j)
      → IsOfSystem (length hosts) q
  delivered-IsOfSystem j before q known (after, e) =
      Delivered-at (IsOfSystem (length hosts)) before q after (
        subst (Delivered (IsOfSystem (length hosts))) e (
          Run-Delivered (IsOfSystem (length hosts)) j (num_messages j) hosts (locality j)
            (sys.run j known) (sys.of_system j known)))

  -- Two deliveries of one number of one source are of one packet, but for the last sender.
  pub delivers_same :
      (i j : ℕ) (before before' : List Event) (p q : Packet)
      → IsProcess (length hosts) i
      → IsProcess (length hosts) j
      → OccursAfter before (logs_delivered p) (history i)
      → OccursAfter before' (logs_delivered q) (history j)
      → p.source_id ≡ q.source_id
      → p.packet_seq_num ≡ q.packet_seq_num
      → p ≡ record q { process_id = p.process_id }
  delivers_same i j before before' p q known known' at at' source number =
      let sender = (delivered-IsOfSystem j before' q known' at').source in
      let (_, _, (r, sent, place, copied), _) = delivery_facts i before p known at in
      let (_, _, (r', sent', place', copied'), _) = delivery_facts j before' q known' at' in
      let there = subst (λ k. OccursAfter sent (broadcasts r) (history k)) source place in
      let (_, counted, _) = broadcast_facts q.source_id sent r sender there in
      let (_, counted', _) = broadcast_facts q.source_id sent' r' sender place' in
      let same = same_broadcast (history q.source_id) sent sent' r r' there place' (
        omega (
          arith,
          counted,
          counted',
          number,
          ap (λ s. s.packet_seq_num) copied,
          ap (λ s. s.packet_seq_num) copied',
        )) in
      copied
      ∙ ap (λ (s : Packet). record s { process_id = p.process_id }) same
      ∙ sym (ap (λ (s : Packet). record s { process_id = p.process_id }) copied')

  -- In a system where the layer below delivers only what was broadcast: if the packet `k` of `s`
  -- precedes the packet `k'` of `s'`, by any chain of earlier broadcasts of one process and of
  -- deliveries from processes that affect one another, then every process that delivers the second
  -- has delivered the first before it, once.
  pub delivers_causally :
      {s k s' k' : ℕ} (j : ℕ) (before : List Event) (q : Packet)
      → Precedes (length hosts) locality history s k s' k'
      → IsProcess (length hosts) j
      → OccursAfter before (logs_delivered q) (history j)
      → q.source_id ≡ s'
      → q.packet_seq_num ≡ k'
      → times_delivered s k before ≡ 1
  delivers_causally j before q
        (own {s = s} {k = k} {s' = s'} earlier between p r same number number' sender sent_at) known
        at source seq =
      let (_, earlier_ones, _, _) = delivery_facts j before q known at in
      let (_, counted, _) =
        broadcast_facts s' earlier p sender
          (occurs_inside (history s') earlier between (broadcasts p) (broadcasts r) sent_at) in
      let (_, counted', _) =
        broadcast_facts s' (earlier ++ broadcasts p ∷ between) r sender sent_at in
      let more = broadcast_count-append earlier (broadcasts p ∷ between) in
      let below : k < q.packet_seq_num =
        omega (arith, counted, counted', more, number, number', seq) in
      let once =
        subst (λ i. times_delivered i k before ≡ (if ltb k q.packet_seq_num then 1 else 0))
          (source ∙ sym same) (earlier_ones k) in
      ground (arith, once, below)
  delivers_causally j before q
        (affects {s = s} {k = k} {s' = s'} earlier between p r origin number number' other affecter
          sender affected sent_at)
        known at source seq =
      let (asked, _, _, _) = delivery_facts j before q known at in
      let (_, _, clock) =
        broadcast_facts s' (earlier ++ logs_delivered p ∷ between) r sender sent_at in
      let (_, _, _, counted) =
        delivery_facts s' earlier p sender
          (occurs_inside (history s') earlier between (logs_delivered p) (broadcasts r) sent_at) in
      let more = delivered_from-append s earlier (logs_delivered p ∷ between) in
      let same =
        delivered_clock j s' before (earlier ++ logs_delivered p ∷ between) q r known sender at
          sent_at source (seq ∙ sym number') in
      let asks = ap (λ w. entry w s) same ∙ clock s affecter in
      let below : k < entry q.vector_clock s =
        ground (arith, asks, more, counted, origin, number, other, affected) in
      asked s k affecter below
  delivers_causally {s = s} {k = k} j before q (through {s' = m} {k' = n} first second) known at
        source seq =
      let there = delivers_causally j before q second known at source seq in
      let (before', r, source', number', (after', e)) =
        times_delivered-place m n before (omega (arith, there)) in
      let at' : OccursAfter (before' ++ logs_delivered r ∷ after') (logs_delivered q) (history j) =
        subst (λ es. OccursAfter es (logs_delivered q) (history j)) e at in
      let here =
        delivers_causally j before' r first known
          (occurs_inside (history j) before' after' (logs_delivered r) (logs_delivered q) at')
          source' number' in
      let most = times_delivered_le j s k before (logs_delivered q) known at in
      ground (
        arith,
        here,
        most,
        ap (times_delivered s k) e,
        times_delivered-append s k before' (logs_delivered r ∷ after'),
      )
